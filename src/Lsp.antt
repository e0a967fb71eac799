-- ===== src/Lsp.antt =====
-- server/lsp/protocol.go: the protocol types that the modelled code reads and writes. A `uint32` is a
-- number below 2^32, and `to_u32` is the conversion from an int.
use vscode_php_strom.Base.{ℕ, ◌%◌, ◌<◌, ◌≡◌, arith, Option, List}
use vscode_php_strom.Text.{Bytes}

abbrev pub u32_mod : ℕ
u32_mod = 4294967296

unfoldable pub to_u32 : ℕ → ℕ
to_u32 n = n % u32_mod

pub to_u32_small : (n : ℕ) → n < u32_mod → to_u32 n ≡ n
unfolding to_u32
to_u32_small n h = omega arith

pub record Position : Type 0 where
  pub line : ℕ
  pub character : ℕ

pub record Range : Type 0 where
  pub start : Position
  pub end : Position

pub record TextDocumentItem : Type 0 where
  pub uri : Bytes
  pub version : ℕ
  pub text : Bytes

-- `range` is absent in a change that replaces the whole text.
pub record TextDocumentContentChangeEvent : Type 0 where
  pub range : Option Range
  pub text : Bytes

-- `code` is an interface{}, here `none` where it holds no string.
pub record Diagnostic : Type 0 where
  pub range : Range
  pub severity : Option ℕ
  pub code : Option Bytes
  pub source : Bytes
  pub message : Bytes
  pub tags : List ℕ

pub record PublishDiagnosticsParams : Type 0 where
  pub uri : Bytes
  pub diagnostics : List Diagnostic

pub record MarkupContent : Type 0 where
  pub kind : Bytes
  pub value : Bytes

-- `label` is an interface{}; the server gives it the two offsets of a span.
pub record ParameterInformation : Type 0 where
  pub label : ℕ × ℕ

pub record SignatureInformation : Type 0 where
  pub label : Bytes
  pub documentation : Option MarkupContent
  pub parameters : List ParameterInformation
  pub active_parameter : Option ℕ

pub record SignatureHelp : Type 0 where
  pub signatures : List SignatureInformation
  pub active_signature : Option ℕ
  pub active_parameter : Option ℕ

-- The fields that the server sets.
pub record CompletionItem : Type 0 where
  pub label : Bytes
  pub kind : ℕ
  pub detail : Bytes
  pub documentation : Option MarkupContent
  pub sort_text : Bytes
