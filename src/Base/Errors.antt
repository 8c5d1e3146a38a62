-- ===== src/Base/Errors.antt =====
-- The exceptions of api-python/platform_runtime/engine.py, and the builtin ones that the modelled
-- code raises or meets. Messages are left out.
use mathlib.Core.Bool.{Bool, true, false}
use mathlib.Core.Logic.{◌⊎◌, inl, inr}
use mathlib.Core.Path.{ap, ◌≡◌, refl}
use mathlib.Core.Option.{Option, none, some}

pub data Error : Type 0 where
  value_error conflict forbidden not_found rate_limited runtime_error integrity_error type_error :
      Error

infixl 5 ◌>>=◌ ◌>>◌
-- A call inside a transaction: `err` stands for the exception that rolls the transaction back.
pub data Result {ℓ} (Value : Type ℓ) : Type ℓ where
  err : (exception : Error) → Result Value
  ok : (value : Value) → Result Value

-- The next statement, given what this one returned.
abbrev pub ◌>>=◌ {ℓ κ} :
    {V : Type ℓ} {W : Type κ} (this : Result V) (next : V → Result W) → Result W
this >>= next = elim this [ err exception ↦ err exception | ok value ↦ next value ]

-- The next statement, after one that returned nothing.
abbrev pub ◌>>◌ {κ} : {W : Type κ} (this : Result (Unit {0})) (next : Result W) → Result W
this >> next = elim this [ err exception ↦ err exception | ok _ ↦ next ]

-- A check that returns nothing.
abbrev pub Check : Type 0
Check = Result (Unit {0})

-- `if not test: raise e`
abbrev pub require : Bool → Error → Result (Unit {0})
require true e = ok tt
require false e = err e

-- A row that a query must find.
abbrev pub some_or {ℓ} : {A : Type ℓ} → Option A → Error → Result A
some_or none e = err e
some_or (some a) e = ok a

-- The end of a transaction: commit what it reached, or keep the state that it began with.
abbrev pub commit {ℓ κ} : {S : Type ℓ} {A : Type κ} → S → Result (A × S) → S
commit s (ok (a, s')) = s'
commit s (err e) = s

abbrev pub reply {ℓ κ} : {S : Type ℓ} {A : Type κ} → Result (A × S) → Result A
reply (ok (a, s')) = ok a
reply (err e) = err e

-- A property of the committed state: of the old one, and of each state that a success reaches.
pub commit-cases {ℓ κ ι} :
    {S : Type ℓ} {A : Type κ} (P : S → Type ι) (s : S) (r : Result (A × S))
    → P s
    → ((a : A) (s' : S) → r ≡ ok (a, s') → P s')
    → P (commit s r)
commit-cases P s (ok (a, s')) old new = new a s' refl
commit-cases P s (err e) old new = old

-- What a call came to.
pub Result-cases {ℓ} :
    {V : Type ℓ} (call : Result V)
    → ((value : V) × (call ≡ ok value)) ⊎ ((exception : Error) × (call ≡ err exception))
Result-cases (err exception) = inr (exception, refl)
Result-cases (ok value) = inl (value, refl)

-- Inversion of a guard that let the code pass.
pub require-ok {ℓ} :
    {A : Type ℓ} (b : Bool) (e : Error) (r : Result A) {a : A}
    → (require b e >> r) ≡ ok a
    → (b ≡ true) × (r ≡ ok a)
require-ok true e r h = (refl, h)
require-ok false e r h = absurd (cc)

-- Inversion of a call that returned.
pub then-ok {ℓ} :
    {A : Type ℓ} (m : Check) (r : Result A) {a : A} → (m >> r) ≡ ok a → (m ≡ ok tt) × (r ≡ ok a)
then-ok (ok tt) r h = (refl, h)
then-ok (err e) r h = absurd (cc)

-- A check that passed.
pub require-holds : (b : Bool) (e : Error) → require b e ≡ ok tt → b ≡ true
require-holds true e h = refl
require-holds false e h = absurd (cc)

-- Inversion of a row that a query had to find.
pub some_or-ok {ℓ κ} :
    {A : Type ℓ} {B : Type κ} (o : Option A) (e : Error) (f : A → Result B) {b : B}
    → (some_or o e >>= f) ≡ ok b
    → (a : A) × (o ≡ some a) × (f a ≡ ok b)
some_or-ok none e f h = cc
some_or-ok (some a) e f h = (a, refl, h)

-- Inversion of a call whose value the next statement uses.
pub call-ok {ℓ κ} :
    {V : Type ℓ} {W : Type κ} (call : Result V) (next : V → Result W) {last : W}
    → (call >>= next) ≡ ok last
    → (value : V) × (call ≡ ok value) × (next value ≡ ok last)
call-ok (ok value) next reached = (value, refl, reached)
call-ok (err exception) next reached = absurd (cc)

abbrev value_or {ℓ} : {A : Type ℓ} → A → Result A → A
value_or a (ok b) = b
value_or a (err e) = a

pub ok_injective {ℓ} : {A : Type ℓ} {a b : A} → ok a ≡ ok b → a ≡ b
ok_injective {A} {a} e = ap (value_or a) e
