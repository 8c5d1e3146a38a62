-- ===== src/Base/Table.antt =====
-- Rows of a database table as a list, and the statements that the modules run on it.
use Prim.Native.Nat.{ℕ, ◌+◌, ◌≤◌, ◌<◌}
use mathlib.Core.Path.{◌≡◌, refl, ap}
use mathlib.Core.Logic.{inl, inr}
use mathlib.Core.Bool.{Bool, true, false}
use mathlib.Core.Option.{Option, none, some}
use mathlib.Core.List.{List, [], ◌∷◌, ◌++◌}
use native.Mathlib.Omega.{arith}
use agentic_works.Base.Tests.{if◌then◌else◌, Bool-cases}

module _ {ℓ} {A : Type ℓ} where
  -- `SELECT * FROM t WHERE p`, `fetchone`
  abbrev pub first : (A → Bool) → List A → Option A
  first p [] = none
  first p (x ∷ xs) = if p x then some x else first p xs

  -- `UPDATE t SET f WHERE p`
  abbrev pub update_where : (A → Bool) → (A → A) → List A → List A
  update_where p f [] = []
  update_where p f (x ∷ xs) = (if p x then f x else x) ∷ update_where p f xs

  -- `SELECT * FROM t WHERE p`, `fetchall`
  abbrev pub select : (A → Bool) → List A → List A
  select p [] = []
  select p (x ∷ xs) = if p x then x ∷ select p xs else select p xs

  abbrev pub total : (A → ℕ) → List A → ℕ
  total w [] = 0
  total w (x ∷ xs) = w x + total w xs

  abbrev pub weight : (A → Bool) → (A → ℕ) → A → ℕ
  weight p w x = if p x then w x else 0

  -- `SELECT count(*) FROM t WHERE p`
  abbrev pub count : (A → Bool) → List A → ℕ
  count p = total (weight p (λ _. 1))

  pub total-append : (w : A → ℕ) (xs ys : List A) → total w (xs ++ ys) ≡ total w xs + total w ys
  total-append w [] ys = omega arith
  total-append w (x ∷ xs) ys = omega (arith, total-append w xs ys)

  pub first_sound : (p : A → Bool) (xs : List A) {x : A} → first p xs ≡ some x → p x ≡ true
  first_sound p [] h = cc
  first_sound p (y ∷ xs) {x} h = ground (arith, first_sound p xs {x = x})

  pub first-none : (p : A → Bool) (xs : List A) → first p xs ≡ none → count p xs ≡ 0
  first-none p [] h = refl
  first-none p (y ∷ xs) h = ground (arith, first-none p xs)

  pub count-zero : (p : A → Bool) (xs : List A) → count p xs ≡ 0 → first p xs ≡ none
  count-zero p [] h = refl
  count-zero p (y ∷ xs) h = ground (arith, count-zero p xs)

  pub first_of_count :
      (p : A → Bool) (xs : List A) → 0 < count p xs → (x : A) × (first p xs ≡ some x)
  first_of_count p [] h = absurd (omega arith)
  first_of_count p (y ∷ xs) h = elim (Bool-cases (p y)) [
    | inl e ↦ (y, rw e refl)
    | inr e ↦ rw e (first_of_count p xs (ground arith))
  ]

  -- A found row is counted.
  pub total-first :
      (p : A → Bool) (w : A → ℕ) (xs : List A) {x : A} → first p xs ≡ some x → w x ≤ total w xs
  total-first p w [] h = cc
  total-first p w (y ∷ xs) {x} h = elim (Bool-cases (p y)) [
    | inl e ↦ ground arith
    | inr e ↦ ground (arith, total-first p w xs {x = x})
  ]

  pub total-weight_zero :
      (p : A → Bool) (g : A → ℕ) (xs : List A) → count p xs ≡ 0 → total (weight p g) xs ≡ 0
  total-weight_zero p g [] h = refl
  total-weight_zero p g (y ∷ xs) h = ground (arith, total-weight_zero p g xs)

  pub update_none :
      (p : A → Bool) (f : A → A) (xs : List A) → count p xs ≡ 0 → update_where p f xs ≡ xs
  update_none p f [] h = refl
  update_none p f (y ∷ xs) h = ground (arith, update_none p f xs)

  -- An update that keeps each row's weight keeps the total.
  pub total-update_same :
      (p : A → Bool) (f : A → A) (w : A → ℕ) (xs : List A)
      → ((x : A) → p x ≡ true → w (f x) ≡ w x)
      → total w (update_where p f xs) ≡ total w xs
  total-update_same p f w [] h = refl
  total-update_same p f w (y ∷ xs) h = ground (arith, total-update_same p f w xs h, h y)

  pub total-update_le :
      (p : A → Bool) (f : A → A) (w : A → ℕ) (xs : List A)
      → ((x : A) → p x ≡ true → w (f x) ≤ w x)
      → total w (update_where p f xs) ≤ total w xs
  total-update_le p f w [] h = omega arith
  total-update_le p f w (y ∷ xs) h = ground (arith, total-update_le p f w xs h, h y)

  -- An update of the one row that matches moves the total by that row's change.
  pub total-update_one :
      (p : A → Bool) (f : A → A) (w : A → ℕ) (xs : List A) {r : A}
      → first p xs ≡ some r
      → count p xs ≤ 1
      → total w (update_where p f xs) + w r ≡ total w xs + w (f r)
  total-update_one p f w [] h u = cc
  total-update_one p f w (y ∷ xs) {r} h u = elim (Bool-cases (p y)) [
    | inl e ↦ ground (arith, update_none p f xs, ap (total w) (update_none p f xs (ground arith)))
    | inr e ↦ ground (arith, total-update_one p f w xs {r = r})
  ]

module _ {ℓ} {A : Type ℓ} where
  -- Where one row matches, a sum over the matching rows is that row's value.
  pub total-weight_one :
      (p : A → Bool) (g : A → ℕ) (xs : List A) {r : A}
      → first p xs ≡ some r
      → count p xs ≤ 1
      → total (weight p g) xs ≡ g r
  total-weight_one p g [] h u = cc
  total-weight_one p g (y ∷ xs) {r} h u = elim (Bool-cases (p y)) [
    | inl e ↦ ground (arith, total-weight_zero p g xs)
    | inr e ↦ ground (arith, total-weight_one p g xs {r = r})
  ]

  -- The first match of a row that an update of other rows leaves alone.
  pub first-update_other :
      (q p : A → Bool) (f : A → A) (xs : List A) {r : A}
      → ((x : A) → q (f x) ≡ q x)
      → first q xs ≡ some r
      → p r ≡ false
      → first q (update_where p f xs) ≡ some r
  first-update_other q p f [] same h o = cc
  first-update_other q p f (y ∷ xs) {r} same h o = elim (Bool-cases (q y)) [
    | inl e ↦ ground (arith, same y)
    | inr e ↦ ground (arith, same y, first-update_other q p f xs {r = r} same)
  ]

  -- So too where the row was found by another test.
  pub total-weight_found :
      (p q : A → Bool) (g : A → ℕ) (xs : List A) {r : A}
      → first q xs ≡ some r
      → p r ≡ true
      → count p xs ≤ 1
      → total (weight p g) xs ≡ g r
  total-weight_found p q g [] h m u = cc
  total-weight_found p q g (y ∷ xs) {r} h m u = elim (Bool-cases (q y)) [
    | inl e ↦ ground (arith, total-weight_zero p g xs)
    | inr e ↦
        ground
          (arith, total-weight_found p q g xs {r = r}, total-first q (weight p (λ _. 1)) xs {x = r})
  ]

module _ {ℓ} {A : Type ℓ} where
  pub count_le :
      (p q : A → Bool) (xs : List A) → ((x : A) → p x ≡ true → q x ≡ true) → count p xs ≤ count q xs
  count_le p q [] h = omega arith
  count_le p q (x ∷ xs) h = ground (arith, h x, count_le p q xs h)

  -- The number of rows that a test finds stands through an update that keeps the test.
  pub count-update :
      (p q : A → Bool) (f : A → A) (xs : List A)
      → ((x : A) → p (f x) ≡ p x)
      → count p (update_where q f xs) ≡ count p xs
  count-update p q f xs h = total-update_same q f (weight p (λ _. 1)) xs (λ x m. rw (h x) refl)

  -- A row that an update finds is found again, updated.
  pub first-update_self :
      (p : A → Bool) (f : A → A) (xs : List A) {r : A}
      → ((x : A) → p x ≡ true → p (f x) ≡ true)
      → first p xs ≡ some r
      → first p (update_where p f xs) ≡ some (f r)
  first-update_self p f [] same e = cc
  first-update_self p f (x ∷ xs) {r} same e = elim (Bool-cases (p x)) [
    | inl m ↦ ground (arith, same x m)
    | inr m ↦ ground (arith, first-update_self p f xs {r = r} same)
  ]

  -- An update of rows that another test passes over, before and after.
  pub first-update_apart :
      (q p : A → Bool) (f : A → A) (xs : List A)
      → ((x : A) → p x ≡ true → (q x ≡ false) × (q (f x) ≡ false))
      → first q (update_where p f xs) ≡ first q xs
  first-update_apart q p f [] apart = refl
  first-update_apart q p f (x ∷ xs) apart = elim (Bool-cases (p x)) [
    | inl m ↦ ground (arith, apart x m, first-update_apart q p f xs apart)
    | inr m ↦ ground (arith, first-update_apart q p f xs apart)
  ]

  pub first-append_skip :
      (p : A → Bool) (xs : List A) (y : A) → p y ≡ false → first p (xs ++ y ∷ []) ≡ first p xs
  first-append_skip p [] y m = rw m refl
  first-append_skip p (x ∷ xs) y m = ground (arith, first-append_skip p xs y m)

  pub first-append_new :
      (p : A → Bool) (xs : List A) (y : A)
      → first p xs ≡ none
      → p y ≡ true
      → first p (xs ++ y ∷ []) ≡ some y
  first-append_new p [] y n m = rw m refl
  first-append_new p (x ∷ xs) y n m = ground (arith, first-append_new p xs y)

  -- A found row stays found through an update that keeps the test.
  pub first-update_kept :
      (p q : A → Bool) (f : A → A) (xs : List A) {r : A}
      → ((x : A) → p (f x) ≡ p x)
      → first p xs ≡ some r
      → first p (update_where q f xs) ≡ some (if q r then f r else r)
  first-update_kept p q f [] same e = cc
  first-update_kept p q f (x ∷ xs) {r} same e = elim (Bool-cases (q x)) [
    | inl m ↦ ground (arith, same x, first-update_kept p q f xs {r = r} same)
    | inr m ↦ ground (arith, same x, first-update_kept p q f xs {r = r} same)
  ]
