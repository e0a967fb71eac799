-- ===== src/Text/Search.antt =====
-- Laws of suffixes and of the search for a byte.
use vscode_php_strom.Base.{
  ℕ, zero, suc, ◌-◌, ◌≤◌, ◌<◌, ◌≡◌, refl, false, some, [], ◌∷◌, arith, length, drop,
}
use vscode_php_strom.Text.{Bytes, index_byte, has_suffix, trim_suffix}

pub trim_suffix-none : (t s : Bytes) → has_suffix t s ≡ false → trim_suffix t s ≡ s
unfolding trim_suffix has_suffix
trim_suffix-none t [] h = refl
trim_suffix-none t (c ∷ cs) h = ground (arith, trim_suffix-none t cs)

pub has_suffix-drop :
    (t : Bytes) (k : ℕ) (s : Bytes) → has_suffix t s ≡ false → has_suffix t (drop k s) ≡ false
unfolding has_suffix
has_suffix-drop t zero s h = h
has_suffix-drop t (suc k) [] h = h
has_suffix-drop t (suc k) (c ∷ cs) h = has_suffix-drop t k cs (ground arith)

pub length-trim_suffix : (t s : Bytes) → length (trim_suffix t s) ≤ length s
unfolding trim_suffix
length-trim_suffix t [] = omega arith
length-trim_suffix t (c ∷ cs) = ground (arith, length-trim_suffix t cs)

pub index_byte-lt : (b : ℕ) (s : Bytes) (i : ℕ) → index_byte b s ≡ some i → i < length s
unfolding index_byte
index_byte-lt b [] i h = cc
index_byte-lt b (c ∷ cs) i h = ground (arith, index_byte-lt b cs (i - 1))
