-- ===== src/Lib.antt =====
-- The language server of phpstrom, a PHP extension for Visual Studio Code: the parts of server/ that
-- keep the open documents, translate positions, store the symbols of the workspace, read the settings,
-- choose what is indexed and which diagnostics are sent, and send them.
--
-- server/phpstrom/server.go reads framed messages and dispatches them one after the other. A client
-- opens documents, sends edits by position, and asks about places in them.
-- server/phpstrom/documents.go keeps the text of each open document and applies the edits. The
-- providers answer through server/providers/source_position.go, which maps between the parser's
-- one-based rune coordinates, the protocol's zero-based UTF-16 positions and byte offsets;
-- documents.go has a map of its own from positions to bytes. The indexer stores the symbols of each
-- file in server/indexer/index.go, by full name, by name, by owner and by file. Its revisions in
-- server/indexer/indexer.go tell an analysis whether what it knows of a document may be out of date.
--
--   Base, Text, Dict      numbers, lists, Go strings (bytes, UTF-8, UTF-16) and Go maps
--   Lsp                   server/lsp/protocol.go: Position, Range, document items and changes
--   SourcePosition        server/providers/source_position.go: sourcePositionMapper; position, spanRange,
--                         positionFromByteOffset, byteOffsetFromPosition, and in SourcePosition/Spans
--                         byteSpanFromRunePositions, runePositionToByte, byteOffsetFromRunePosition
--   Server                server/phpstrom/server.go: readMessage, writeJSON, dispatch, Run
--   Handler               server/phpstrom/handler.go: in Handler/Trace editorTraceRecorder, in Handler/Scan the
--                         method allow, in Handler/Requests requestWorkspaceDiagnostics, in
--                         Handler/Schedule scheduleDocumentWork and the functions that cancel; these
--                         three are step relations between the states that goroutines share.
--                         Handler/Publication has the published diagnostics
--   Documents             server/phpstrom/documents.go: applyEdit, byteOffsetFromUTF16Position, and in
--                         Documents/Store the operations of DocumentStore
--   Semantics             server/indexer/indexer.go: recordSemanticChangesLocked, documentSemanticRevisionLocked,
--                         semanticChangeAffectsText, containsPHPIdentifier
--   Ignore                server/indexer/indexer.go: matchSegmentSequence, gitignoreRule, workspaceGitignore,
--                         ignoresPath, canSkipIgnoredDir, on paths that are split into segments
--                         Ignore/Parse, Ignore/Braces and Ignore/Compile have parseGitignoreRules
--   Exclusions            server/providers/diagnostics_exclusions.go: the matchers, and in Exclusions/Filter
--                         Filter, matchExplicit and BuildDiagnosticsPathExclusions
--   Symfony               server/indexer/symfony_services.go: loadSymfonyServiceTypes, resolveSymfonyServiceClass
--   Analysis              server/providers/diagnostics.go: the inline suppressions, disabledAnalysisIssueCodes; in
--                         Analysis/Resolver and Analysis/Lineage workspaceSymbolResolver, and in Analysis/Ranking
--                         prioritizeDefinitionMatches of server/providers/providers.go
--   Signature             server/providers/signature_help.go: findCalleeAndParam, extractCallee, resolveCallee,
--                         buildSignatureHelp
--   Completion            server/providers/completion.go: memberCompletions, classMemberSymbols, in
--                         Completion/Receiver resolveReceiverClass, and in Completion/Provide Provide
--   Config                server/phpstrom/config.go and analysis_toggles.go: Update, ApplyInitOptions and what
--                         reads the configuration
--   PhpVersion            server/phpstrom/php_version.go: effectivePHPVersion, and in PhpVersion/Constraint
--                         the constraints of composer.json
--   Index                 server/indexer/index.go: the shards; Index/Update has PutFile and RemoveFile,
--                         Index/Queries the readers
--
-- The loop of Run and the loop over headers have as fuel one more than the bytes of the input; each round
-- reads at least one byte. The loop of containsPHPIdentifier has one more than the bytes of the text, and
-- moves on by one at least. expandBracePattern has one more than the opening braces of the pattern, of which
-- each call drops one, and resolveSymfonyServiceClass one more than the definitions, each of which it visits
-- at most once.
-- classLineage, resolveMethod and what completion makes of them take their fuel as an argument; for
-- classLineage one more than the names of the classes of the store and their parents is enough.
--
-- A string is the list of its bytes. Loops over a string are recursions over its decoded runes. The
-- search of sort.Search has as many rounds of fuel as there are entries, and each of them halves the
-- interval.
-- strings.ToLower, strings.EqualFold, strings.TrimSpace, strings.Fields, path.Match, the functions of
-- filepath and url, the XML decoder, and IndexDocument in Provide are parameters, of which nothing is
-- assumed. Go maps are association lists with each key once.
--
-- Not modelled: the parser and analyser (a package of another project), file access, JSON, the
-- interleaving of goroutines but where it is said, and the parts of the server that only connect these.
pub mod Analysis
pub mod Base
pub mod Text
pub mod Config
pub mod Completion
pub mod Dict
pub mod Lsp
pub mod SourcePosition
pub mod Documents
pub mod Index
pub mod Server
pub mod PhpVersion
pub mod Semantics
pub mod Signature
pub mod Symfony
pub mod Handler
pub mod Ignore
pub mod Exclusions
