-- ===== src/Prelude/Split.antt =====
-- Texts that are cut at a character: `str::split_once` and `str::matches(c).count()`, on the native
-- `String` by its characters.
use Prim.Native.Nat.{ℕ, ◌+◌, ◌<◌}
use Prim.Native.Char.{Char, code}
use Prim.Native.String.{String, ◌++◌ as ◌<>◌}
use mathlib.Core.Path.{◌≡◌, refl, ap, ◌∙◌, sym}
use mathlib.Core.Logic.{inl, inr}
use mathlib.Core.Bool.{Bool, true, false, ◌&&◌}
use mathlib.Core.Option.{Option, none, some}
use mathlib.Core.List.{List, [], ◌∷◌, ◌++◌, append_assoc}
use native.Mathlib.Omega.{arith}
use text.Mathlib.TextEquality.{Char-path}
use text.Mathlib.TextLemmas.{nil-append, cons-append}
use psst.Prelude.Tests.{eqb, if◌then◌else◌, Bool-cases, eqb_iff, &&_left, &&_right}
use psst.Prelude.Lists.{all, length-append}
use psst.Prelude.Texts.{chars, encode_utf8, encode_all, len}

-- How often a character stands in a text.
unfoldable pub count_char : ℕ → String → ℕ
count_char d String.[] = 0
count_char d (String.◌∷◌ c s) = count_char d s + (if eqb (code c) d then 1 else 0)

abbrev pub behind : Char → Option (String × String) → Option (String × String)
behind c none = none
behind c (some (a, b)) = some (String.◌∷◌ c a, b)

-- `split_once`: what stands before and behind the first such character.
unfoldable pub split_once : ℕ → String → Option (String × String)
split_once d String.[] = none
split_once d (String.◌∷◌ c s) =
    if eqb (code c) d then some (String.[], s) else behind c (split_once d s)

-- `strip_prefix`, on texts.
unfoldable pub strip_text : String → String → Option String
strip_text String.[] s = some s
strip_text (String.◌∷◌ p ps) String.[] = none
strip_text (String.◌∷◌ p ps) (String.◌∷◌ c s) =
    if eqb (code p) (code c) then strip_text ps s else none

pub chars-append : (s t : String) → chars (s <> t) ≡ chars s ++ chars t
chars-append String.[] t = ap chars (nil-append t)
chars-append (String.◌∷◌ c s) t =
    ap chars (cons-append c s t) ∙ ap (λ (cs : List ℕ). code c ∷ cs) (chars-append s t)

pub encode_all-append : (cs ds : List ℕ) → encode_all (cs ++ ds) ≡ encode_all cs ++ encode_all ds
unfolding encode_all
encode_all-append [] ds = refl
encode_all-append (c ∷ cs) ds = rw (encode_all-append cs ds, append_assoc)

pub len-append : (s t : String) → len (s <> t) ≡ len s + len t
unfolding len
len-append s t =
    rw (chars-append s t, encode_all-append (chars s) (chars t))
      (length-append (encode_all (chars s)) (encode_all (chars t)))

pub count_char-append :
    (d : ℕ) (s t : String) → count_char d (s <> t) ≡ count_char d s + count_char d t
unfolding count_char
count_char-append d String.[] t = rw (nil-append t) (omega arith)
count_char-append d (String.◌∷◌ c s) t =
    rw (cons-append c s t) (omega (arith, count_char-append d s t))

-- The same on code points.
abbrev pub count_code : ℕ → List ℕ → ℕ
count_code d [] = 0
count_code d (c ∷ cs) = count_code d cs + (if eqb c d then 1 else 0)

pub count_char-chars : (d : ℕ) (s : String) → count_char d s ≡ count_code d (chars s)
unfolding count_char
count_char-chars d String.[] = refl
count_char-chars d (String.◌∷◌ c s) = omega (arith, count_char-chars d s)

pub count_code-append :
    (d : ℕ) (cs ds : List ℕ) → count_code d (cs ++ ds) ≡ count_code d cs + count_code d ds
count_code-append d [] ds = omega arith
count_code-append d (c ∷ cs) ds = omega (arith, count_code-append d cs ds)

pub all-append : (p : ℕ → Bool) (xs ys : List ℕ) → all p (xs ++ ys) ≡ (all p xs && all p ys)
all-append p [] ys = refl
all-append p (x ∷ xs) ys = ground (arith, all-append p xs ys)

pub encode_utf8-ascii : (c : ℕ) → c < 0x80 → encode_utf8 c ≡ c ∷ []
unfolding encode_utf8
encode_utf8-ascii c h = ground arith

-- An ASCII character that no byte may be does not stand in the text.
pub count_code-all :
    (p : ℕ → Bool) (d : ℕ) (cs : List ℕ)
    → d < 0x80
    → p d ≡ false
    → all p (encode_all cs) ≡ true
    → count_code d cs ≡ 0
unfolding encode_all
count_code-all p d [] l h a = refl
count_code-all p d (c ∷ cs) l h a =
    let both : (all p (encode_utf8 c) && all p (encode_all cs)) ≡ true =
      sym (all-append p (encode_utf8 c) (encode_all cs)) ∙ a in
    elim (Bool-cases (eqb c d)) [
      | inl same ↦
          let e : c ≡ d = (eqb_iff c d).0 same in
          let small : c < 0x80 = rw e l in
          let head : all p (encode_utf8 c) ≡ true = &&_left (all p (encode_utf8 c)) _ both in
          let bad : p c ≡ false = ap p e ∙ h in
          absurd (ground (arith, encode_utf8-ascii c small, bad))
      | inr other ↦
          let rest = &&_right (all p (encode_utf8 c)) (all p (encode_all cs)) both in
          let ih = count_code-all p d cs l h rest in ground arith
    ]

-- A text without the character is what stands before it.
pub split_once-append :
    (c : Char) (a t : String)
    → count_char (code c) a ≡ 0
    → split_once (code c) (a <> String.◌∷◌ c t) ≡ some (a, t)
unfolding split_once count_char
split_once-append c String.[] t h = rw (nil-append (String.◌∷◌ c t)) (ground arith)
split_once-append c (String.◌∷◌ x a) t h = elim (Bool-cases (eqb (code x) (code c))) [
  | inl same ↦ absurd (ground arith)
  | inr other ↦
      let ih = split_once-append c a t (ground arith) in
      rw (cons-append x a (String.◌∷◌ c t), other, ih) refl
]

pair-some :
    (a b a' b' : String)
    → ◌≡◌ {A = Option (String × String)} (some (a, b)) (some (a', b'))
    → (a ≡ a') × (b ≡ b')
pair-some a b a' b' h = ground arith

behind-some :
    (x : Char) (o : Option (String × String)) (a t : String)
    → behind x o ≡ some (a, t)
    → (rest : String) × (o ≡ some (rest, t)) × (a ≡ String.◌∷◌ x rest)
behind-some x none a t h = absurd (cc)
behind-some x (some (r, u)) a t h =
    let (before, after) = pair-some (String.◌∷◌ x r) u a t h in
    (r, ap (λ (v : String). some (r, v)) after, sym before)

pub split_once-parts :
    (c : Char) (s a t : String) → split_once (code c) s ≡ some (a, t) → s ≡ a <> String.◌∷◌ c t
unfolding split_once
split_once-parts c String.[] a t h = absurd (cc)
split_once-parts c (String.◌∷◌ x s) a t h = elim (Bool-cases (eqb (code x) (code c))) [
  | inl same ↦
      let e : x ≡ c = Char-path x c ((eqb_iff (code x) (code c)).0 same) in
      let (before, after) = pair-some String.[] s a t (rw same at h) in
      ap (λ (y : Char). String.◌∷◌ y s) e
      ∙ sym (nil-append (String.◌∷◌ c s))
      ∙ ap (λ (v : String). v <> String.◌∷◌ c s) before
      ∙ ap (λ (v : String). a <> String.◌∷◌ c v) after
  | inr other ↦
      let (rest, found, shown) = behind-some x (split_once (code c) s) a t (rw other at h) in
      ap (λ (v : String). String.◌∷◌ x v) (split_once-parts c s rest t found)
      ∙ sym (cons-append x rest (String.◌∷◌ c t))
      ∙ ap (λ (v : String). v <> String.◌∷◌ c t) (sym shown)
]

pub strip_text-append : (p s : String) → strip_text p (p <> s) ≡ some s
unfolding strip_text
strip_text-append String.[] s = ap (strip_text String.[]) (nil-append s)
strip_text-append (String.◌∷◌ c p) s =
    rw (cons-append c p s, (eqb_iff (code c) (code c)).1 refl) (strip_text-append p s)

pub strip_text-parts : (p v s : String) → strip_text p v ≡ some s → v ≡ p <> s
unfolding strip_text
strip_text-parts String.[] v s h = let e : v ≡ s = ground arith in e ∙ sym (nil-append s)
strip_text-parts (String.◌∷◌ c p) String.[] s h = absurd (cc)
strip_text-parts (String.◌∷◌ c p) (String.◌∷◌ x v) s h = elim (Bool-cases (eqb (code c) (code x))) [
  | inl same ↦
      let e : c ≡ x = Char-path c x ((eqb_iff (code c) (code x)).0 same) in
      ap (λ (y : Char). String.◌∷◌ y v) (sym e)
      ∙ ap (String.◌∷◌ c) (strip_text-parts p v s (rw same at h))
      ∙ sym (cons-append c p s)
  | inr other ↦ absurd (ground arith)
]
