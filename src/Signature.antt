-- ===== src/Signature.antt =====
-- server/providers/signature_help.go: the help for the call around the cursor. strings.ToLower and
-- strings.EqualFold are parameters. The name of an argument, which findCalleeAndParam reads and drops, is
-- left out.
pub mod Callee
pub mod Label
mod Tests
use vscode_php_strom.Base.{
  ℕ, zero, suc, ◌+◌, ◌-◌, min, Bool, true, false, not, ◌&&◌, ◌||◌, Option, none, some, List, [],
  ◌∷◌, ◌++◌, ◌==◌, leb, ltb, if◌then◌else◌, length, take, drop,
}
use vscode_php_strom.Index.{
  Index, Symbol, SymbolParam, kind_class, kind_method, kind_constructor, kind_function,
}
use vscode_php_strom.Index.Queries.{search}
use vscode_php_strom.Lsp.{
  Position, to_u32, MarkupContent, ParameterInformation, SignatureInformation, SignatureHelp,
}
use vscode_php_strom.Text.{Bytes, codes, byte_at, index_byte, has_prefix, has_suffix}

-- The loop to the start of a line, from a line that starts at `line_start`.
unfoldable pub line_start_loop : ℕ → Bytes → ℕ → Option ℕ
unfolding index_byte
line_start_loop zero text line_start = some line_start
line_start_loop (suc i) text line_start = elim (index_byte b'\n' (drop line_start text)) [
  | none ↦ none
  | some next ↦ line_start_loop i text (line_start + (next + 1))
]

unfoldable pub text_before_cursor : Bytes → Position → Option Bytes
unfolding line_start_loop
text_before_cursor text pos = elim (line_start_loop pos.line text 0) [
  | none ↦ none
  | some line_start ↦
      let line_len : ℕ = elim (index_byte b'\n' (drop line_start text)) [
        | none ↦ length text - line_start
        | some next ↦ next
      ] in
      some (take (line_start + min pos.character line_len) text)
]

unfoldable pub is_ident_char : ℕ → Bool
is_ident_char r =
    leb b'a' r && leb r b'z'
    || leb b'A' r && leb r b'Z'
    || leb b'0' r && leb r b'9'
    || r == b'_'
    || r == b'\\'

-- What is left without the bytes at the end that pass a test: `strings.TrimRight`, and the loops that walk
-- back.
unfoldable pub trim_right : (ℕ → Bool) → Bytes → Bytes
trim_right f [] = []
trim_right f (c ∷ cs) = elim (trim_right f cs) [
  | [] ↦ if f c then [] else c ∷ []
  | d ∷ ds ↦ c ∷ d ∷ ds
]

abbrev pub is_blank : ℕ → Bool
is_blank c = c == b' ' || c == b'\t'

abbrev pub is_space : ℕ → Bool
is_space c = c == b' ' || c == b'\t' || c == b'\n' || c == b'\r'

abbrev pub construct : Bytes
construct = codes "__construct:"

-- The callee before a parenthesis, and "" for none.
unfoldable pub extract_callee : Bytes → Bytes
unfolding trim_right is_ident_char has_suffix
extract_callee before =
    let s = trim_right is_space before in
    let prefix = trim_right is_blank (trim_right is_ident_char s) in
    let alone = length prefix == 3 || not (is_ident_char (byte_at prefix (length prefix - 4))) in
    elim (drop (length (trim_right is_ident_char s)) s) [
      | [] ↦ []
      | c ∷ cs ↦ if has_suffix (codes "new") prefix && alone then construct ++ c ∷ cs else c ∷ cs
    ]

abbrev pub closes : ℕ → Bool
closes c = c == b')' || c == b']' || c == b'}'

-- The scan from byte `i - 1` down, at a nesting depth, behind a number of commas.
unfoldable pub find_loop : Bytes → ℕ → ℕ → ℕ → Bytes × ℕ
unfolding extract_callee
find_loop src zero depth commas = ([], 0)
find_loop src (suc i) depth commas =
    let c = byte_at src i in
    let deeper =
      if closes c then suc depth else if c == b'(' && ltb 0 depth then depth - 1 else depth in
    let more = if c == b',' && depth == 0 then suc commas else commas in
    let outer = find_loop src i deeper more in
    if c == b'(' && depth == 0
    then elim (extract_callee (take i src)) [ [] ↦ outer | b ∷ bs ↦ (b ∷ bs, commas) ]
    else outer

unfoldable pub find_callee_and_param : Bytes → Bytes × ℕ
unfolding find_loop
find_callee_and_param src = find_loop src (length src) 0 0

unfoldable pub render_param : SymbolParam → Bytes
render_param p =
    let type : Bytes = elim p.type [ [] ↦ [] | c ∷ cs ↦ (c ∷ cs) ++ b' ' ∷ [] ] in
    type
    ++ ((if p.is_variadic then codes "..." else [])
        ++ ((if p.is_pass_by_ref then b'&' ∷ [] else [])
            ++ b'$' ∷ (p.name ++ (if p.has_default then codes " = <default>" else []))))

-- The loop over the parameters, behind the text of the label so far.
unfoldable pub label_loop : List SymbolParam → Bool → Bytes → Bytes × List ParameterInformation
unfolding render_param to_u32
label_loop [] first sb = (sb, [])
label_loop (p ∷ params) first sb =
    let opened = if first then sb else sb ++ codes ", " in
    let closed = opened ++ render_param p in
    let (label, infos) = label_loop params false closed in
    (label, record { label = (to_u32 (length opened), to_u32 (length closed)) } ∷ infos)

abbrev pub is_last_variadic : List SymbolParam → Bool
is_last_variadic [] = false
is_last_variadic (p ∷ []) = p.is_variadic
is_last_variadic (p ∷ q ∷ params) = is_last_variadic (q ∷ params)

-- The position behind the last parameter stands for the last, if that takes any number of arguments.
unfoldable pub clamp_active : List SymbolParam → ℕ → ℕ
clamp_active params active =
    if leb (length params) active && is_last_variadic params then length params - 1 else active

-- The signature, with the active parameter given.
unfoldable pub signature_information : Symbol → ℕ → SignatureInformation
unfolding label_loop
signature_information sym active =
    let (listed, infos) = label_loop sym.params true (sym.name ++ b'(' ∷ []) in
    let closed = listed ++ b')' ∷ [] in
    let documentation : Option MarkupContent = elim sym.doc_comment [
      | [] ↦ none
      | c ∷ cs ↦ some (record { kind = codes "markdown"; value = c ∷ cs })
    ] in
    record {
      label = elim sym.return_type [ [] ↦ closed | c ∷ cs ↦ closed ++ (codes ": " ++ c ∷ cs) ];
      documentation = documentation;
      parameters = infos;
      active_parameter =
          if ltb 0 (length sym.params) && ltb active (length infos) then some active else none;
    }

unfoldable pub build_signature_help : Symbol → ℕ → SignatureHelp
unfolding signature_information clamp_active
build_signature_help sym given =
    let active = clamp_active sym.params given in
    record {
      signatures = signature_information sym active ∷ [];
      active_signature = some 0;
      active_parameter = if length sym.params == 0 then none else some active;
    }

module _ (equal_fold : Bytes → Bytes → Bool) where
  abbrev pub first_that : (Symbol → Bool) → List Symbol → Option Symbol
  first_that f [] = none
  first_that f (sym ∷ rest) = if f sym then some sym else first_that f rest

  -- The constructor of a class, or the class where it has none.
  abbrev pub constructor_of : List Symbol → Symbol → Symbol
  constructor_of constructors sym =
      elim (first_that (λ ctor. equal_fold ctor.fqn (sym.fqn ++ codes "::__construct"))
        constructors) [ none ↦ sym | some ctor ↦ ctor ]

  abbrev pub is_callable : Bytes → Symbol → Bool
  is_callable callee sym =
      equal_fold sym.name callee
      && (sym.kind == kind_method || sym.kind == kind_function || sym.kind == kind_constructor)

module _ (lower : Bytes → Bytes) (equal_fold : Bytes → Bytes → Bool) where
  unfoldable pub resolve_callee : Index → Bytes → Option Symbol
  unfolding search has_prefix
  resolve_callee idx callee =
      if has_prefix construct callee
      then (let class_name = drop (length construct) callee in
          elim (first_that equal_fold
            (λ sym. equal_fold sym.name class_name && sym.kind == kind_class)
            (search lower idx class_name)) [
              | none ↦ none
              | some sym ↦
                  some (constructor_of equal_fold (search lower idx (codes "__construct")) sym)
            ])
      else first_that equal_fold (is_callable equal_fold callee) (search lower idx callee)

  unfoldable pub provide : Index → Bytes → Position → Option SignatureHelp
  unfolding text_before_cursor find_callee_and_param resolve_callee build_signature_help
  provide idx text pos = elim (text_before_cursor text pos) [
    | none ↦ none
    | some src ↦
        let (callee, active_param) = find_callee_and_param src in
        elim callee [
          | [] ↦ none
          | c ∷ cs ↦ elim (resolve_callee idx (c ∷ cs)) [
            | none ↦ none
            | some sym ↦ some (build_signature_help sym active_param)
          ]
        ]
  ]
