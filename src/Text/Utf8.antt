-- ===== src/Text/Utf8.antt =====
-- UTF-8 and UTF-16 as the packages unicode/utf8 and unicode/utf16 have them.
pub mod Laws
use vscode_php_strom.Base.{
  ℕ, zero, suc, ◌+◌, ◌-◌, ◌*◌, Bool, true, false, not, ◌&&◌, List, [], ◌∷◌, ◌==◌, leb, ltb,
  if◌then◌else◌,
}

abbrev pub rune_error : ℕ
rune_error = 0xfffd

abbrev pub within : ℕ → ℕ → ℕ → Bool
within lo hi c = leb lo c && leb c hi

-- The range of the second byte that may follow the lead byte `c`, three-byte and four-byte forms.
abbrev pub second3 : ℕ → ℕ → Bool
second3 c d = within (if c == 0xe0 then 0xa0 else 0x80) (if c == 0xed then 0x9f else 0xbf) d

abbrev pub second4 : ℕ → ℕ → Bool
second4 c d = within (if c == 0xf0 then 0x90 else 0x80) (if c == 0xf4 then 0x8f else 0xbf) d

-- The forms of one, two, three and four bytes, on the bytes behind the lead byte. A byte that
-- begins no well-formed sequence is read as the error rune, of width one.
pub decode2 : ℕ → List ℕ → ℕ × ℕ
decode2 c (d ∷ ds) =
    if within 0x80 0xbf d then ((c - 0xc0) * 64 + (d - 0x80), 2) else (rune_error, 1)
decode2 c [] = (rune_error, 1)

pub decode3 : ℕ → List ℕ → ℕ × ℕ
decode3 c (d ∷ e ∷ ds) =
    if second3 c d && within 0x80 0xbf e
    then ((c - 0xe0) * 4096 + (d - 0x80) * 64 + (e - 0x80), 3)
    else (rune_error, 1)
decode3 c _ = (rune_error, 1)

pub decode4 : ℕ → List ℕ → ℕ × ℕ
decode4 c (d ∷ e ∷ f ∷ ds) =
    if second4 c d && within 0x80 0xbf e && within 0x80 0xbf f
    then ((c - 0xf0) * 262144 + (d - 0x80) * 4096 + (e - 0x80) * 64 + (f - 0x80), 4)
    else (rune_error, 1)
decode4 c _ = (rune_error, 1)

-- `utf8.DecodeRuneInString`: the rune and its width in bytes.
unfoldable pub decode_rune : List ℕ → ℕ × ℕ
unfolding decode2 decode3 decode4
decode_rune [] = (rune_error, 0)
decode_rune (c ∷ cs) =
    if ltb c 0x80
    then (c, 1)
    else if within 0xc2 0xdf c
    then decode2 c cs
    else if within 0xe0 0xef c
    then decode3 c cs
    else if within 0xf0 0xf4 c
    then decode4 c cs
    else (rune_error, 1)

-- The runes that `for _, r := range s` visits, each with its width; `skip` bytes belong to the rune
-- before.
unfoldable pub runes_after : ℕ → List ℕ → List (ℕ × ℕ)
runes_after skip [] = []
runes_after (suc skip) (c ∷ cs) = runes_after skip cs
runes_after zero (c ∷ cs) = let d = decode_rune (c ∷ cs) in d ∷ runes_after (d.1 - 1) cs

-- What `range` pairs with an ill-formed byte.
abbrev pub invalid : ℕ × ℕ → Bool
invalid d = d.0 == rune_error && d.1 == 1

abbrev pub valid_runes : List (ℕ × ℕ) → Bool
valid_runes [] = true
valid_runes (d ∷ ds) = not (invalid d) && valid_runes ds

abbrev pub runes : List ℕ → List (ℕ × ℕ)
runes = runes_after 0

-- `utf8.ValidString`
abbrev pub valid_string : List ℕ → Bool
valid_string s = valid_runes (runes s)

-- `utf8.RuneLen` of a rune that decoding yields, also the length of the string of that one rune.
unfoldable pub rune_len : ℕ → ℕ
rune_len r = if ltb r 0x80 then 1 else if ltb r 0x800 then 2 else if ltb r 0x10000 then 3 else 4

-- `utf16.RuneLen` of a rune that decoding yields (never a surrogate).
unfoldable pub utf16_len : ℕ → ℕ
utf16_len r = if ltb r 0x10000 then 1 else 2

-- The UTF-16 code units and the bytes of some runes.
abbrev pub units : List (ℕ × ℕ) → ℕ
units [] = 0
units (d ∷ ds) = utf16_len d.0 + units ds

abbrev pub widths : List (ℕ × ℕ) → ℕ
widths [] = 0
widths (d ∷ ds) = d.1 + widths ds
