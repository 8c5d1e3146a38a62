-- ===== src/Budget/History.antt =====
-- The reservations as a record of the past: rows stay, with their terms, and a closed row is final.
use agentic_works.Base.{
  ◌≤◌, ℕ, ◌≡◌, refl, ◌∙◌, inl, inr, Bool, true, false, Option, some, List, [], ◌∷◌, ◌++◌, arith,
  if◌then◌else◌, ap, Bool-cases, subst, sym,
}
use agentic_works.Base.Table.{first, count, update_where, update_none}
use agentic_works.Ledger.{Reservation, is_held, Status}

-- What may become of a row: its terms stay, and once its money is no longer held nothing changes.
pub record Later (r s : Reservation) : Type 0 where
  pub tenant : s.tenant ≡ r.tenant
  pub id : s.id ≡ r.id
  pub request_key : s.request_key ≡ r.request_key
  pub fingerprint : s.fingerprint ≡ r.fingerprint
  pub period : s.period ≡ r.period
  pub amount_micro : s.amount_micro ≡ r.amount_micro
  pub created : s.created ≡ r.created
  pub final : is_held r.status ≡ false → s ≡ r

-- Row by row, in order; new rows come behind.
abbrev pub Extends : List Reservation → List Reservation → Type 0
Extends [] ys = Unit
Extends (x ∷ xs) [] = ⊥
Extends (x ∷ xs) (y ∷ ys) = Later x y × Extends xs ys

pub Later-refl : (r : Reservation) → Later r r
Later-refl r = record {
  tenant = refl;
  id = refl;
  request_key = refl;
  fingerprint = refl;
  period = refl;
  amount_micro = refl;
  created = refl;
  final = λ c. refl;
}

-- A held row may change its status, its charge and its time.
pub Later-held :
    (r : Reservation) (status : Status) (actual : Option ℕ) (now : ℕ)
    → is_held r.status ≡ true
    → Later r (record r { status = status; actual_micro = actual; updated = now })
Later-held r status actual now live = record {
  tenant = refl;
  id = refl;
  request_key = refl;
  fingerprint = refl;
  period = refl;
  amount_micro = refl;
  created = refl;
  final = λ c. cc;
}

pub Later-trans : {r s t : Reservation} → Later r s → Later s t → Later r t
Later-trans a b = record {
  tenant = b.tenant ∙ a.tenant;
  id = b.id ∙ a.id;
  request_key = b.request_key ∙ a.request_key;
  fingerprint = b.fingerprint ∙ a.fingerprint;
  period = b.period ∙ a.period;
  amount_micro = b.amount_micro ∙ a.amount_micro;
  created = b.created ∙ a.created;
  final = λ c. b.final (ap (λ (x : Reservation). is_held x.status) (a.final c) ∙ c) ∙ a.final c;
}

pub Extends-refl : (xs : List Reservation) → Extends xs xs
Extends-refl [] = tt
Extends-refl (x ∷ xs) = (Later-refl x, Extends-refl xs)

pub Extends-append : (xs ys : List Reservation) → Extends xs (xs ++ ys)
Extends-append [] ys = tt
Extends-append (x ∷ xs) ys = (Later-refl x, Extends-append xs ys)

pub Extends-trans : (xs ys zs : List Reservation) → Extends xs ys → Extends ys zs → Extends xs zs
Extends-trans [] ys zs a b = tt
Extends-trans (x ∷ xs) [] zs a b = absurd a
Extends-trans (x ∷ xs) (y ∷ ys) [] a b = absurd b
Extends-trans (x ∷ xs) (y ∷ ys) (z ∷ zs) a b = (Later-trans a.0 b.0, Extends-trans xs ys zs a.1 b.1)

module _ (p : Reservation → Bool) (f : Reservation → Reservation) where
  Later-if : (x : Reservation) → (p x ≡ true → Later x (f x)) → Later x (if p x then f x else x)
  Later-if x h = elim (Bool-cases (p x)) [ inl e ↦ rw e (h e) | inr e ↦ rw e (Later-refl x) ]

  -- Every row that matches goes on.
  pub Extends-update :
      (xs : List Reservation)
      → ((x : Reservation) → p x ≡ true → Later x (f x))
      → Extends xs (update_where p f xs)
  Extends-update [] h = tt
  Extends-update (x ∷ xs) h = (Later-if x (h x), Extends-update xs h)

  -- The one row that matches goes on.
  pub Extends-update_one :
      (xs : List Reservation) {r : Reservation}
      → first p xs ≡ some r
      → count p xs ≤ 1
      → Later r (f r)
      → Extends xs (update_where p f xs)
  Extends-update_one [] e u l = tt
  Extends-update_one (x ∷ xs) {r} e u l = elim (Bool-cases (p x)) [
    | inl m ↦
        let same : x ≡ r = ground arith in
        (
          Later-if x (λ _. subst (λ z. Later z (f z)) (sym same) l),
          rw (update_none p f xs (ground arith)) (Extends-refl xs),
        )
    | inr m ↦ (Later-if x (λ t. absurd (cc)), Extends-update_one xs (ground arith) (ground arith) l)
  ]

-- A row that is found stays found, as one of its later forms.
pub Extends-first :
    (q : Reservation → Bool) (xs ys : List Reservation) {r : Reservation}
    → ((x y : Reservation) → Later x y → q y ≡ q x)
    → Extends xs ys
    → first q xs ≡ some r
    → (s : Reservation) × (first q ys ≡ some s) × Later r s
Extends-first q [] ys keep e f = absurd (cc)
Extends-first q (x ∷ xs) [] keep e f = absurd e
Extends-first q (x ∷ xs) (y ∷ ys) {r} keep e f = elim (Bool-cases (q x)) [
  | inl m ↦
      let same : x ≡ r = ground arith in
      (y, ground (arith, keep x y e.0), subst (λ z. Later z y) same e.0)
  | inr m ↦
      let (s, g, l) = Extends-first q xs ys {r = r} keep e.1 (ground arith) in
      (s, ground (arith, keep x y e.0), l)
]
