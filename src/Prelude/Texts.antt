-- ===== src/Prelude/Texts.antt =====
-- A Rust `str` as the native `String`: its characters, its UTF-8 bytes, and the library tests that
-- the program calls on them (`len`, `trim`, `is_control`, `is_ascii_…`).
use Prim.Native.Nat.{ℕ, ◌+◌, ◌/◌, ◌%◌, ◌^◌}
use Prim.Native.Char.{code}
use Prim.Native.String.{String}
use mathlib.Core.Path.{◌≡◌}
use mathlib.Core.Logic.{◌↔◌}
use native.Mathlib.Omega.{arith}
use mathlib.Core.Bool.{Bool, true, false, ◌&&◌, ◌||◌}
use mathlib.Core.Option.{Option, none, some}
use mathlib.Core.List.{List, [], ◌∷◌, ◌++◌, reverse}
use psst.Prelude.Tests.{ltb, leb, eqb, if◌then◌else◌}
use psst.Prelude.Lists.{length}

-- `str::chars`, as code points.
abbrev pub chars : String → List ℕ
chars String.[] = []
chars (String.◌∷◌ c s) = code c ∷ chars s

-- The UTF-8 encoding of one code point.
unfoldable pub encode_utf8 : ℕ → List ℕ
encode_utf8 c =
    if ltb c 0x80
    then c ∷ []
    else if ltb c 0x800
    then (0xc0 + c / 2 ^ 6) ∷ (0x80 + c % 2 ^ 6) ∷ []
    else if ltb c 0x10000
    then (0xe0 + c / 2 ^ 12) ∷ (0x80 + c / 2 ^ 6 % 2 ^ 6) ∷ (0x80 + c % 2 ^ 6) ∷ []
    else (0xf0 + c / 2 ^ 18)
      ∷ (0x80 + c / 2 ^ 12 % 2 ^ 6)
      ∷ (0x80 + c / 2 ^ 6 % 2 ^ 6)
      ∷ (0x80 + c % 2 ^ 6)
      ∷ []

unfoldable pub encode_all : List ℕ → List ℕ
unfolding encode_utf8
encode_all [] = []
encode_all (c ∷ cs) = encode_utf8 c ++ encode_all cs

-- `str::as_bytes`.
unfoldable pub as_bytes : String → List ℕ
unfolding encode_all
as_bytes s = encode_all (chars s)

-- `str::len` counts bytes.
unfoldable pub len : String → ℕ
unfolding as_bytes
len s = length (as_bytes s)

unfoldable pub is_empty : List ℕ → Bool
is_empty [] = true
is_empty (_ ∷ _) = false

-- `char::is_whitespace`: the Unicode property White_Space.
unfoldable pub is_whitespace : ℕ → Bool
is_whitespace c =
    leb 0x09 c && leb c 0x0d
    || eqb c 0x20
    || eqb c 0x85
    || eqb c 0xa0
    || eqb c 0x1680
    || leb 0x2000 c && leb c 0x200a
    || eqb c 0x2028
    || eqb c 0x2029
    || eqb c 0x202f
    || eqb c 0x205f
    || eqb c 0x3000

-- `char::is_control`: the Unicode category Cc.
unfoldable pub is_control : ℕ → Bool
is_control c = ltb c 0x20 || leb 0x7f c && leb c 0x9f

unfoldable pub trim_start : List ℕ → List ℕ
unfolding is_whitespace
trim_start [] = []
trim_start (c ∷ cs) = if is_whitespace c then trim_start cs else c ∷ cs

unfoldable pub trim_end : List ℕ → List ℕ
unfolding trim_start
trim_end cs = reverse (trim_start (reverse cs))

-- `str::trim`.
unfoldable pub trim : List ℕ → List ℕ
unfolding trim_end
trim cs = trim_end (trim_start cs)

abbrev pub is_ascii_lowercase : ℕ → Bool
is_ascii_lowercase b = leb b'a' b && leb b b'z'

abbrev pub is_ascii_uppercase : ℕ → Bool
is_ascii_uppercase b = leb b'A' b && leb b b'Z'

abbrev pub is_ascii_digit : ℕ → Bool
is_ascii_digit b = leb b'0' b && leb b b'9'

abbrev pub is_ascii_alphanumeric : ℕ → Bool
is_ascii_alphanumeric b = is_ascii_lowercase b || is_ascii_uppercase b || is_ascii_digit b

unfoldable pub first : List ℕ → Option ℕ
first [] = none
first (b ∷ bs) = some b

unfoldable pub last : List ℕ → Option ℕ
last [] = none
last (b ∷ []) = some b
last (b ∷ c ∷ bs) = last (c ∷ bs)

-- `==` on byte strings and character lists.
unfoldable pub codes_eq : List ℕ → List ℕ → Bool
codes_eq [] [] = true
codes_eq [] (_ ∷ _) = false
codes_eq (_ ∷ _) [] = false
codes_eq (a ∷ as') (b ∷ bs) = eqb a b && codes_eq as' bs

-- `strip_prefix`, on characters.
unfoldable pub strip_prefix : List ℕ → List ℕ → Option (List ℕ)
strip_prefix [] cs = some cs
strip_prefix (p ∷ ps) [] = none
strip_prefix (p ∷ ps) (c ∷ cs) = if eqb p c then strip_prefix ps cs else none

pub codes_eq_iff : (xs ys : List ℕ) → (codes_eq xs ys ≡ true) ↔ (xs ≡ ys)
unfolding codes_eq
codes_eq_iff [] [] = ground arith
codes_eq_iff [] (y ∷ ys) = ground arith
codes_eq_iff (x ∷ xs) [] = ground arith
codes_eq_iff (x ∷ xs) (y ∷ ys) = ground (arith, codes_eq_iff xs ys)
