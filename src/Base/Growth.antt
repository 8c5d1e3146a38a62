-- ===== src/Base/Growth.antt =====
-- A table as a record of the past: its rows stay in their order, each moves by a relation, and new
-- rows come behind.
use mathlib.Core.Path.{◌≡◌, sym, subst}
use mathlib.Core.Logic.{inl, inr, Lift}
use mathlib.Core.Bool.{Bool}
use mathlib.Core.Option.{some}
use mathlib.Core.List.{List, [], ◌∷◌, ◌++◌}
use Prim.Native.Nat.{◌≤◌}
use native.Mathlib.Omega.{arith}
use agentic_works.Base.Tests.{Bool-cases}
use agentic_works.Base.Lists.{All}
use agentic_works.Base.Table.{first, update_where, update_none, count}

module _ {ℓ κ} {A : Type ℓ} (R : A → A → Type κ) (N : A → Type κ) where
  abbrev pub Grows : List A → List A → Type κ
  Grows [] ys = All N ys
  Grows (x ∷ xs) [] = Lift ⊥
  Grows (x ∷ xs) (y ∷ ys) = R x y × Grows xs ys

  pub Grows-same : (xs : List A) → ((x : A) → R x x) → Grows xs xs
  Grows-same [] r = tt
  Grows-same (x ∷ xs) r = (r x, Grows-same xs r)

  pub Grows-append : (xs ys : List A) → ((x : A) → R x x) → All N ys → Grows xs (xs ++ ys)
  Grows-append [] ys r n = n
  Grows-append (x ∷ xs) ys r n = (r x, Grows-append xs ys r n)

  -- The one row that a statement finds moves.
  pub Grows-update :
      (p : A → Bool) (f : A → A) (xs : List A) {r : A}
      → ((x : A) → R x x)
      → first p xs ≡ some r
      → count p xs ≤ 1
      → R r (f r)
      → Grows xs (update_where p f xs)
  Grows-update p f [] same e u h = tt
  Grows-update p f (x ∷ xs) {r} same e u h = elim (Bool-cases (p x)) [
    | inl m ↦
        let here : x ≡ r = ground arith in
        (
          rw m (subst (λ z. R z (f z)) (sym here) h),
          rw (update_none p f xs (ground arith)) (Grows-same xs same),
        )
    | inr m ↦ (rw m (same x), Grows-update p f xs same (ground arith) (ground arith) h)
  ]

  -- What the relation keeps and new rows have, every row has.
  pub Grows-All :
      (P : A → Type κ) (xs ys : List A)
      → ((x y : A) → R x y → P x → P y)
      → ((y : A) → N y → P y)
      → Grows xs ys
      → All P xs
      → All P ys
  Grows-All P [] [] keep new g a = tt
  Grows-All P [] (y ∷ ys) keep new g a = (new y g.0, Grows-All P [] ys keep new g.1 a)
  Grows-All P (x ∷ xs) [] keep new g a = absurd (g.lower)
  Grows-All P (x ∷ xs) (y ∷ ys) keep new g a =
      (keep x y g.0 a.0, Grows-All P xs ys keep new g.1 a.1)

  -- Two growths in a row.
  pub Grows-trans :
      (xs ys zs : List A)
      → ((x y z : A) → R x y → R y z → R x z)
      → ((x y : A) → R x y → N x → N y)
      → Grows xs ys
      → Grows ys zs
      → Grows xs zs
  Grows-trans [] ys zs t n a b = Grows-All N ys zs n (λ y h. h) b a
  Grows-trans (x ∷ xs) [] zs t n a b = absurd (a.lower)
  Grows-trans (x ∷ xs) (y ∷ ys) [] t n a b = absurd (b.lower)
  Grows-trans (x ∷ xs) (y ∷ ys) (z ∷ zs) t n a b =
      (t x y z a.0 b.0, Grows-trans xs ys zs t n a.1 b.1)

  -- A found row is found again, as what it moved to.
  pub Grows-first :
      (q : A → Bool) (xs ys : List A) {r : A}
      → ((x y : A) → R x y → q y ≡ q x)
      → Grows xs ys
      → first q xs ≡ some r
      → (s : A) × (first q ys ≡ some s) × R r s
  Grows-first q [] ys keep g e = absurd (cc)
  Grows-first q (x ∷ xs) [] keep g e = absurd (g.lower)
  Grows-first q (x ∷ xs) (y ∷ ys) {r} keep g e = elim (Bool-cases (q x)) [
    | inl m ↦
        let here : x ≡ r = ground arith in
        (y, ground (arith, keep x y g.0), subst (λ z. R z y) here g.0)
    | inr m ↦
        let (s, f, l) = Grows-first q xs ys {r = r} keep g.1 (ground arith) in
        (s, ground (arith, keep x y g.0), l)
  ]

module _ {ℓ κ} {A : Type ℓ} {R S : A → A → Type κ} {N M : A → Type κ} where
  pub Grows-map :
      (xs ys : List A)
      → ((x y : A) → R x y → S x y)
      → ((y : A) → N y → M y)
      → Grows R N xs ys
      → Grows S M xs ys
  Grows-map [] [] f g a = tt
  Grows-map [] (y ∷ ys) f g a = (g y a.0, Grows-map [] ys f g a.1)
  Grows-map (x ∷ xs) [] f g a = absurd (a.lower)
  Grows-map (x ∷ xs) (y ∷ ys) f g a = (f x y a.0, Grows-map xs ys f g a.1)
