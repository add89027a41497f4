-- ===== src/Text.antt =====
-- Rust's `str` as the list of its UTF-8 bytes, with the operations of the standard library that
-- the proxy calls on it.
pub mod Utf8
pub mod Contains
pub mod Decimal
use Prim.Native.Char.{code}
use Prim.Native.String.{String}
use kitty_proxy.Common.{
  ℕ, ◌+◌, List, [], ◌∷◌, Bool, true, false, ◌&&◌, ◌||◌, map, ◌==◌, leb, if◌then◌else◌,
}

abbrev pub Text : Type 0
Text = List ℕ

-- The text of an ASCII literal.
abbrev pub codes : String → Text
codes String.[] = []
codes (String.◌∷◌ c s) = code c ∷ codes s

unfoldable pub text_eq : Text → Text → Bool
text_eq [] [] = true
text_eq (a ∷ s) (b ∷ t) = a == b && text_eq s t
text_eq _ _ = false

-- `str::starts_with`
unfoldable pub starts_with : Text → Text → Bool
starts_with s [] = true
starts_with [] (b ∷ k) = false
starts_with (a ∷ s) (b ∷ k) = a == b && starts_with s k

-- `str::contains` with a text for its pattern
unfoldable pub contains : Text → Text → Bool
unfolding starts_with
contains [] k = starts_with [] k
contains (a ∷ s) k = starts_with (a ∷ s) k || contains s k

-- `str::to_lowercase` on ASCII letters. Other characters stay: none of those that have a lower
-- case becomes `c` or `n`, so a comparison with "cn" comes out as in the source.
unfoldable pub to_lowercase : Text → Text
to_lowercase = map λ c. if leb b'A' c && leb c b'Z' then c + 32 else c
