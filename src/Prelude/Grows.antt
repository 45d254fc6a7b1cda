-- ===== src/Prelude/Grows.antt =====
-- A table that only grows: every row is still at its place, changed in no way but the given one.
use mathlib.Core.Path.{◌≡◌, refl, subst}
use mathlib.Core.Logic.{inl, inr}
use mathlib.Core.Bool.{Bool, true, false}
use mathlib.Core.Option.{some}
use mathlib.Core.List.{List, [], ◌∷◌, ◌++◌}
use native.Mathlib.Omega.{arith}
use psst.Prelude.Tests.{Bool-cases, if◌then◌else◌}
use psst.Prelude.Rows.{find_row, exists_row, update_rows}

abbrev pub Grows : {A : Type 0} → (A → A → Type 0) → List A → List A → Type 0
Grows K [] ys = Unit
Grows K (x ∷ xs) [] = ⊥
Grows K (x ∷ xs) (y ∷ ys) = K x y × Grows K xs ys

module _ {A : Type 0} (K : A → A → Type 0) where
  pub Grows-refl : ((x : A) → K x x) → (xs : List A) → Grows K xs xs
  Grows-refl r [] = tt
  Grows-refl r (x ∷ xs) = (r x, Grows-refl r xs)

  pub Grows-trans :
      ((x y z : A) → K x y → K y z → K x z)
      → (xs ys zs : List A) → Grows K xs ys
      → Grows K ys zs
      → Grows K xs zs
  Grows-trans t [] ys zs h k = tt
  Grows-trans t (x ∷ xs) [] zs h k = absurd h
  Grows-trans t (x ∷ xs) (y ∷ ys) [] h k = k
  Grows-trans t (x ∷ xs) (y ∷ ys) (z ∷ zs) h k = (t x y z h.0 k.0, Grows-trans t xs ys zs h.1 k.1)

  pub Grows-append : ((x : A) → K x x) → (xs ys : List A) → Grows K xs (xs ++ ys)
  Grows-append r [] ys = tt
  Grows-append r (x ∷ xs) ys = (r x, Grows-append r xs ys)

  update_row-kept : (b : Bool) (x y : A) → K x x → (b ≡ true → K x y) → K x (if b then y else x)
  update_row-kept true x y r k = k refl
  update_row-kept false x y r k = r

  pub Grows-update :
      ((x : A) → K x x)
      → (p : A → Bool) (f : A → A) → ((x : A) → p x ≡ true → K x (f x))
      → (xs : List A) → Grows K xs (update_rows p f xs)
  Grows-update r p f k [] = tt
  Grows-update r p f k (x ∷ xs) =
      (update_row-kept (p x) x (f x) (r x) (k x), Grows-update r p f k xs)

  -- A row that a query finds is found again, if the change does not touch what the query reads.
  pub find_row-Grows :
      (p : A → Bool)
      → ((x y : A) → K x y → p y ≡ p x)
      → (xs ys : List A) (x : A) → Grows K xs ys
      → find_row p xs ≡ some x
      → (y : A) × (find_row p ys ≡ some y) × K x y
  unfolding find_row
  find_row-Grows p same [] ys x g h = absurd (cc)
  find_row-Grows p same (a ∷ xs) [] x g h = absurd g
  find_row-Grows p same (a ∷ xs) (b ∷ ys) x g h = elim (Bool-cases (p a)) [
    | inl hit ↦
        let e : a ≡ x = ground arith in (b, ground (arith, same a b g.0), subst (λ c. K c b) e g.0)
    | inr miss ↦
        let q : find_row p xs ≡ some x = ground arith in
        let (y, f, k) = find_row-Grows p same xs ys x g.1 q in (y, ground (arith, same a b g.0), k)
  ]

  -- What is on record stays on record, if the change does not touch what the test reads.
  pub exists_row-Grows :
      (p : A → Bool)
      → ((x y : A) → K x y → p y ≡ p x)
      → (xs ys : List A) → Grows K xs ys
      → exists_row p xs ≡ true
      → exists_row p ys ≡ true
  unfolding exists_row
  exists_row-Grows p same [] ys g h = absurd (cc)
  exists_row-Grows p same (a ∷ xs) [] g h = absurd g
  exists_row-Grows p same (a ∷ xs) (b ∷ ys) g h = elim (Bool-cases (p a)) [
    | inl hit ↦ ground (arith, same a b g.0)
    | inr miss ↦
        let q : exists_row p xs ≡ true = ground arith in
        let ih = exists_row-Grows p same xs ys g.1 q in ground (arith, same a b g.0)
  ]
