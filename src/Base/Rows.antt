-- ===== src/Base/Rows.antt =====
-- A property of every row of a table, through the statements on it.
use Prim.Native.Nat.{◌≤◌}
use mathlib.Core.Path.{◌≡◌, refl, sym, subst}
use mathlib.Core.Logic.{inl, inr}
use mathlib.Core.Bool.{Bool, true, false}
use mathlib.Core.Option.{some}
use mathlib.Core.List.{List, [], ◌∷◌, ◌++◌}
use native.Mathlib.Omega.{arith}
use agentic_works.Base.Tests.{if◌then◌else◌, Bool-cases}
use agentic_works.Base.Lists.{All}
use agentic_works.Base.Table.{select, first, update_where, count, update_none}

module _ {ℓ κ} {A : Type ℓ} (P : A → Type κ) where
  pub All-append : (xs ys : List A) → All P xs → All P ys → All P (xs ++ ys)
  All-append [] ys a b = b
  All-append (x ∷ xs) ys a b = (a.0, All-append xs ys a.1 b)

  All-head :
      (p : A → Bool) (f : A → A) (x : A)
      → P x
      → (p x ≡ true → P x → P (f x))
      → P (if p x then f x else x)
  All-head p f x a h = elim (Bool-cases (p x)) [ inl e ↦ rw e (h e a) | inr e ↦ rw e a ]

  pub All-update :
      (p : A → Bool) (f : A → A) (xs : List A)
      → ((x : A) → p x ≡ true → P x → P (f x))
      → All P xs
      → All P (update_where p f xs)
  All-update p f [] h a = tt
  All-update p f (x ∷ xs) h a = (All-head p f x a.0 (h x), All-update p f xs h a.1)

  pub All-update_one :
      (p : A → Bool) (f : A → A) (xs : List A) {r : A}
      → first p xs ≡ some r
      → count p xs ≤ 1
      → (P r → P (f r))
      → All P xs
      → All P (update_where p f xs)
  All-update_one p f [] e u h a = tt
  All-update_one p f (x ∷ xs) {r} e u h a = elim (Bool-cases (p x)) [
    | inl m ↦
        let same : x ≡ r = ground arith in
        (
          All-head p f x a.0 (λ _. subst (λ z. P z → P (f z)) (sym same) h),
          rw (update_none p f xs (ground arith)) a.1,
        )
    | inr m ↦ (
      All-head p f x a.0 (λ t. absurd (cc)),
      All-update_one p f xs (ground arith) (ground arith) h a.1,
    )
  ]

  pub All-first : (p : A → Bool) (xs : List A) {r : A} → All P xs → first p xs ≡ some r → P r
  All-first p [] a e = absurd (cc)
  All-first p (x ∷ xs) {r} a e = elim (Bool-cases (p x)) [
    | inl m ↦ let same : x ≡ r = ground arith in subst P same a.0
    | inr m ↦ All-first p xs a.1 (ground arith)
  ]

module _ {ℓ κ ι} {A : Type ℓ} {P : A → Type κ} {Q : A → Type ι} where
  pub All-mono : (xs : List A) → ((x : A) → P x → Q x) → All P xs → All Q xs
  All-mono [] h a = tt
  All-mono (x ∷ xs) h a = (h x a.0, All-mono xs h a.1)

module _ {ℓ} {A : Type ℓ} where
  -- An update of rows that another query does not look at.
  pub first-update_disjoint :
      (q p : A → Bool) (f : A → A) (xs : List A)
      → ((x : A) → p x ≡ true → q x ≡ false)
      → ((x : A) → q (f x) ≡ q x)
      → first q (update_where p f xs) ≡ first q xs
  first-update_disjoint q p f [] d same = refl
  first-update_disjoint q p f (x ∷ xs) d same =
      ground (arith, d x, same x, first-update_disjoint q p f xs d same)

module _ {ℓ κ ι} {A : Type ℓ} (P : A → Type κ) (Q : A → Type ι) where
  change_head :
      (p : A → Bool) (f : A → A) (x : A)
      → (p x ≡ true → Q (f x))
      → (p x ≡ false → Q x)
      → Q (if p x then f x else x)
  change_head p f x h k = elim (Bool-cases (p x)) [ inl e ↦ rw e (h e) | inr e ↦ rw e (k e) ]

  -- The rows that match and the others, each from one property to the next.
  pub All-change :
      (p : A → Bool) (f : A → A) (xs : List A)
      → ((x : A) → p x ≡ true → P x → Q (f x))
      → ((x : A) → p x ≡ false → P x → Q x)
      → All P xs
      → All Q (update_where p f xs)
  All-change p f [] h k a = tt
  All-change p f (x ∷ xs) h k a =
      (change_head p f x (λ m. h x m a.0) (λ m. k x m a.0), All-change p f xs h k a.1)

module _ {ℓ κ} {A : Type ℓ} (P : A → Type κ) where
  -- The rows that a query returns have what every row has, and pass its test.
  pub All-select :
      (p : A → Bool) (xs : List A) → All P xs → All (λ x. P x × (p x ≡ true)) (select p xs)
  All-select p [] a = tt
  All-select p (x ∷ xs) a = elim (Bool-cases (p x)) [
    | inl e ↦ rw e ((a.0, e), All-select p xs a.1)
    | inr e ↦ rw e (All-select p xs a.1)
  ]

module _ {ℓ κ} {A : Type ℓ} {P : A → Type κ} where
  pub All-rows : (xs : List A) → ((x : A) → P x) → All P xs
  All-rows [] h = tt
  All-rows (x ∷ xs) h = (h x, All-rows xs h)
