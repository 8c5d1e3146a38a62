-- ===== src/Base/Replace.antt =====
-- `INSERT OR REPLACE` on a table: the row that a key has gives way, or the row comes behind.
use mathlib.Core.Path.{◌≡◌, refl}
use mathlib.Core.Bool.{Bool, true, false}
use mathlib.Core.Option.{Option, none, some}
use mathlib.Core.List.{List, [], ◌∷◌, ◌++◌}
use agentic_works.Base.Lists.{All}
use agentic_works.Base.Rows.{All-append, All-update}
use agentic_works.Base.Table.{
  first, update_where, select, first-append_new, first-append_skip, first-update_self,
  first-update_apart,
}

module _ {ℓ} {A : Type ℓ} where
  abbrev pub put_row : (A → Bool) → A → Option A → List A → List A
  put_row p a none xs = xs ++ a ∷ []
  put_row p a (some old) xs = update_where p (λ _. a) xs

  -- the rows of the key are those that `p` finds
  abbrev pub replace_row : (A → Bool) → A → List A → List A
  replace_row p a xs = put_row p a (first p xs) xs

  put_same :
      (p : A → Bool) (a : A) (old : Option A) (xs : List A)
      → p a ≡ true
      → first p xs ≡ old
      → first p (put_row p a old xs) ≡ some a
  put_same p a none xs m f = first-append_new p xs a f m
  put_same p a (some old) xs m f = first-update_self p (λ _. a) xs (λ x e. m) f

  put_other :
      (p q : A → Bool) (a : A) (old : Option A) (xs : List A)
      → q a ≡ false
      → ((x : A) → p x ≡ true → q x ≡ false)
      → first q (put_row p a old xs) ≡ first q xs
  put_other p q a none xs m d = first-append_skip q xs a m
  put_other p q a (some old) xs m d = first-update_apart q p (λ _. a) xs (λ x e. (d x e, m))

  -- The row of the key is the new one.
  pub first-replace_same :
      (p : A → Bool) (a : A) (xs : List A) → p a ≡ true → first p (replace_row p a xs) ≡ some a
  first-replace_same p a xs m = put_same p a (first p xs) xs m refl

  -- The rows of other keys stay.
  pub first-replace_other :
      (p q : A → Bool) (a : A) (xs : List A)
      → q a ≡ false
      → ((x : A) → p x ≡ true → q x ≡ false)
      → first q (replace_row p a xs) ≡ first q xs
  first-replace_other p q a xs m d = put_other p q a (first p xs) xs m d

  -- A query that every row passes returns the table.
  pub select-All : (p : A → Bool) (xs : List A) → All (λ x. p x ≡ true) xs → select p xs ≡ xs
  select-All p [] a = refl
  select-All p (x ∷ xs) a = rw (a.0) (rw (select-All p xs a.1) refl)

module _ {ℓ κ} {A : Type ℓ} (P : A → Type κ) where
  All-put :
      (p : A → Bool) (a : A) (old : Option A) (xs : List A)
      → P a
      → All P xs
      → All P (put_row p a old xs)
  All-put p a none xs h v = All-append P xs (a ∷ []) v (h, tt)
  All-put p a (some old) xs h v = All-update P p (λ _. a) xs (λ x m w. h) v

  pub All-replace :
      (p : A → Bool) (a : A) (xs : List A) → P a → All P xs → All P (replace_row p a xs)
  All-replace p a xs h v = All-put p a (first p xs) xs h v
