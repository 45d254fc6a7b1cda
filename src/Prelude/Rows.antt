-- ===== src/Prelude/Rows.antt =====
-- Tables as lists of rows in rowid order, and the statements on them: a point query, an EXISTS
-- test, a filtered scan and a conditional update.
use mathlib.Core.Path.{◌≡◌, refl, subst}
use mathlib.Core.Logic.{inl, inr}
use mathlib.Core.Bool.{Bool, true, false}
use mathlib.Core.Option.{Option, none, some}
use mathlib.Core.List.{List, [], ◌∷◌, ◌++◌, map}
use native.Mathlib.Omega.{arith}
use psst.Prelude.Tests.{if◌then◌else◌, Bool-cases}
use psst.Prelude.Lists.{All, All-imp, AllPairs, AllPairs-snoc, AllPairs-map}

module _ {ℓ} {A : Type ℓ} where
  -- The first row that passes the test.
  unfoldable pub find_row : (A → Bool) → List A → Option A
  find_row p [] = none
  find_row p (x ∷ xs) = if p x then some x else find_row p xs

  unfoldable pub exists_row : (A → Bool) → List A → Bool
  exists_row p [] = false
  exists_row p (x ∷ xs) = if p x then true else exists_row p xs

  unfoldable pub select_rows : (A → Bool) → List A → List A
  select_rows p [] = []
  select_rows p (x ∷ xs) = let rest = select_rows p xs in if p x then x ∷ rest else rest

  abbrev pub update_row : (A → Bool) → (A → A) → A → A
  update_row p f x = if p x then f x else x

  abbrev pub update_rows : (A → Bool) → (A → A) → List A → List A
  update_rows p f = map (update_row p f)

module _ {ℓ} {A : Type ℓ} where
  pub find_row-test : (p : A → Bool) (xs : List A) (a : A) → find_row p xs ≡ some a → p a ≡ true
  unfolding find_row
  find_row-test p [] a h = cc
  find_row-test p (x ∷ xs) a h = ground (arith, find_row-test p xs a)

  pub find_row-append :
      (p : A → Bool) (xs ys : List A) (a : A)
      → find_row p xs ≡ some a
      → find_row p (xs ++ ys) ≡ some a
  unfolding find_row
  find_row-append p [] ys a h = cc
  find_row-append p (x ∷ xs) ys a h = ground (arith, find_row-append p xs ys a)

  pub find_row-snoc :
      (p : A → Bool) (xs : List A) (y : A)
      → find_row p xs ≡ none
      → p y ≡ true
      → find_row p (xs ++ y ∷ []) ≡ some y
  unfolding find_row
  find_row-snoc p [] y h e = ground arith
  find_row-snoc p (x ∷ xs) y h e = ground (arith, find_row-snoc p xs y)

  -- An update that keeps the test finds the updated row.
  pub find_row-map :
      (p : A → Bool) (f : A → A) (xs : List A) (a : A)
      → ((x : A) → p (f x) ≡ p x)
      → find_row p xs ≡ some a
      → find_row p (map f xs) ≡ some (f a)
  unfolding find_row
  find_row-map p f [] a k h = cc
  find_row-map p f (x ∷ xs) a k h = ground (arith, k x, find_row-map p f xs a k)

  pub find_row-map-none :
      (p : A → Bool) (f : A → A) (xs : List A)
      → ((x : A) → p (f x) ≡ p x)
      → find_row p xs ≡ none
      → find_row p (map f xs) ≡ none
  unfolding find_row
  find_row-map-none p f [] k h = refl
  find_row-map-none p f (x ∷ xs) k h = ground (arith, k x, find_row-map-none p f xs k)

  pub exists_row-find :
      (p : A → Bool) (xs : List A) (a : A) → find_row p xs ≡ some a → exists_row p xs ≡ true
  unfolding find_row exists_row
  exists_row-find p [] a h = cc
  exists_row-find p (x ∷ xs) a h = ground (arith, exists_row-find p xs a)

  pub exists_row-find_none :
      (p : A → Bool) (xs : List A) → find_row p xs ≡ none → exists_row p xs ≡ false
  unfolding find_row exists_row
  exists_row-find_none p [] h = refl
  exists_row-find_none p (x ∷ xs) h = ground (arith, exists_row-find_none p xs)

  pub exists_row-none :
      (p : A → Bool) (xs : List A) → exists_row p xs ≡ false → All (λ x. p x ≡ false) xs
  unfolding exists_row
  exists_row-none p [] h = tt
  exists_row-none p (x ∷ xs) h = ground (arith, exists_row-none p xs)

  -- An update whose test no row passes changes nothing.
  pub update_rows-none :
      (p : A → Bool) (f : A → A) (xs : List A) → exists_row p xs ≡ false → update_rows p f xs ≡ xs
  unfolding exists_row
  update_rows-none p f [] h = refl
  update_rows-none p f (x ∷ xs) h = ground (arith, update_rows-none p f xs)

  pub find_row-All {κ} :
      (P : A → Type κ) (p : A → Bool) (xs : List A) (a : A)
      → All P xs
      → find_row p xs ≡ some a
      → P a
  unfolding find_row
  find_row-All P p [] a h e = absurd (cc)
  find_row-All P p (x ∷ xs) a h e = elim (Bool-cases (p x)) [
    | inl hit ↦ let q : x ≡ a = ground arith in subst P q h.0
    | inr miss ↦ let q : find_row p xs ≡ some a = ground arith in find_row-All P p xs a h.1 q
  ]

pub select_rows-All {ℓ κ} :
    {A : Type ℓ} (P : A → Type κ) (p : A → Bool) (xs : List A) → All P xs → All P (select_rows p xs)
unfolding select_rows
select_rows-All P p [] h = tt
select_rows-All P p (x ∷ xs) h = elim (Bool-cases (p x)) [
  | inl e ↦ rw e (h.0, select_rows-All P p xs h.1)
  | inr e ↦ rw e (select_rows-All P p xs h.1)
]

-- ORDER BY, by insertion: `before a b` says that `a` may stand in front of `b`.
module _ {ℓ} {A : Type ℓ} (before : A → A → Bool) where
  unfoldable pub insert_sorted : A → List A → List A
  insert_sorted a [] = a ∷ []
  insert_sorted a (x ∷ xs) = if before a x then a ∷ x ∷ xs else x ∷ insert_sorted a xs

  unfoldable pub order_by : List A → List A
  unfolding insert_sorted
  order_by [] = []
  order_by (x ∷ xs) = insert_sorted x (order_by xs)

-- ORDER BY … LIMIT 1.
unfoldable pub first_by {ℓ} : {A : Type ℓ} → (A → A → Bool) → List A → Option A
first_by before [] = none
first_by before (x ∷ xs) = elim (first_by before xs) [
  | none ↦ some x
  | some y ↦ if before x y then some x else some y
]

-- A UNIQUE constraint: no two rows clash.
abbrev pub Unique {ℓ} : {A : Type ℓ} → (A → A → Bool) → List A → Type 0
Unique clash = AllPairs (λ a b. clash a b ≡ false)

module _ {ℓ} {A : Type ℓ} (clash : A → A → Bool) where
  -- A row that clashes with none of a table may be appended to it.
  pub Unique-add :
      (xs : List A) (y : A)
      → ((a b : A) → clash a b ≡ clash b a)
      → Unique clash xs
      → exists_row (clash y) xs ≡ false
      → Unique clash (xs ++ y ∷ [])
  Unique-add xs y swap u h =
      AllPairs-snoc _ xs y u (
        All-imp _ _ xs (λ x e. subst (λ b. b ≡ false) (swap y x) e)
          (exists_row-none (clash y) xs h))

  -- An update that makes no new clash keeps a table unique.
  pub Unique-update :
      (p : A → Bool) (f : A → A) (xs : List A)
      → ((a b : A) → clash a b ≡ false → clash (update_row p f a) (update_row p f b) ≡ false)
      → Unique clash xs
      → Unique clash (update_rows p f xs)
  Unique-update p f xs k u = AllPairs-map _ (update_row p f) xs k u

module _ {ℓ κ} {A : Type ℓ} (P : A → Type κ) where
  update_row-both : (b : Bool) (x y : A) → P x → P y → P (if b then y else x)
  update_row-both true x y hx hy = hy
  update_row-both false x y hx hy = hx

  -- An update keeps what holds of every row, if the change of a row keeps it.
  pub update_rows-All :
      (p : A → Bool) (f : A → A) (xs : List A)
      → ((a : A) → P a → P (f a))
      → All P xs
      → All P (update_rows p f xs)
  update_rows-All p f [] k h = tt
  update_rows-All p f (x ∷ xs) k h =
      (update_row-both (p x) x (f x) h.0 (k x h.0), update_rows-All p f xs k h.1)
