-- ===== src/Metering.antt =====
-- `metered_completion` of api-python/platform_runtime/usage_budget.py, where pricing is configured:
-- each attempt of a model call reserves, dispatches, calls the provider and settles.
pub mod Charge
use agentic_works.Base.{ℕ, String, Option, Result, ok, err, zero, suc, none, some, ◌+◌}
use Prim.Native.String.{◌++◌}
use agentic_works.Host.{Host}
use agentic_works.Ledger.{Ledger}
use agentic_works.Budget.Admit.{Digest, reserve}
use agentic_works.Budget.Calls.{dispatch, mark_uncertain, release, settle}
use agentic_works.Transport.{
  not_sent, rejected, unknown, unclassified, Failure, Exception, classify, Answer, returned, raised,
  with_retries,
}

-- What a call is made with: `cost` is `token_cost(*provider_tokens(usage, name), pricing)` of a
-- response, or the exception where the receipt is missing or malformed.
pub record Meter (A : Type 0) : Type 0 where
  pub tenant : String
  pub key : String
  pub fingerprint : String
  pub estimate : ℕ
  pub currency : String
  pub cost : A → Result ℕ

-- `'%s#retry%d'`, for the three attempts that there are
abbrev pub request_key : String → ℕ → String
request_key key zero = key
request_key key (suc zero) = key ++ "#retry1"
request_key key (suc (suc n)) = key ++ "#retry2"

-- RELEASE_REASONS, for a call that was not billed
abbrev pub release_reason : Option Failure → Option String
release_reason none = none
release_reason (some f) = elim f.outcome [
  | not_sent ↦ some "not_sent"
  | unknown ↦ none
  | rejected status ↦ some "rejected"
]

-- what is raised when the outcome is not known
abbrev pub raised_unknown : Option Failure → Exception → Exception
raised_unknown none e = unclassified
raised_unknown (some f) e = e

-- the end of a budget call inside an attempt: its own exception, or the answer
abbrev pub then_answer :
    {A B : Type 0} → Ledger → Result (B × Ledger) → Answer A → Ledger × Answer A
then_answer db (err e) answer = (db, raised unclassified)
then_answer db (ok (b, db')) answer = (db', answer)

module _ {A : Type 0} (m : Meter A) (h : Host) where
  abbrev pub release_or :
      String → Option String → Exception → Exception → Ledger → Ledger × Answer A
  release_or id none e e' db = then_answer db (mark_uncertain h m.tenant id db) (raised e')
  release_or id (some reason) e e' db = then_answer db (release h m.tenant id reason db) (raised e)

  -- the end of an attempt whose transport raised
  abbrev pub failed_call : String → Exception → Ledger → Ledger × Answer A
  failed_call id e db =
      release_or id (release_reason (classify e)) e (raised_unknown (classify e) e) db

  abbrev pub charge_or : String → Result ℕ → A → Ledger → Ledger × Answer A
  charge_or id (err e) a db = then_answer db (mark_uncertain h m.tenant id db) (raised unclassified)
  charge_or id (ok actual) a db = then_answer db (settle h m.tenant id actual db) (returned a)

  -- the end of an attempt whose provider answered
  abbrev pub answered_call : String → A → Ledger → Ledger × Answer A
  answered_call id a db = charge_or id (m.cost a) a db

  abbrev pub end_call : String → Answer A → Ledger → Ledger × Answer A
  end_call id (returned a) db = answered_call id a db
  end_call id (raised e) db = failed_call id e db

-- after `dispatch`
abbrev pub sent_call :
    {A : Type 0}
    → Meter A
    → Host
    → Answer A
    → String
    → Ledger
    → Result (Unit {0} × Ledger)
    → Ledger × Answer A
sent_call m h answer id held (err e) = (held, raised unclassified)
sent_call m h answer id held (ok (u, sent)) = end_call m h id answer sent

-- after `reserve`
abbrev pub reserved_call :
    {A : Type 0}
    → Meter A
    → Host
    → Host
    → Answer A
    → Ledger
    → Result (String × Ledger)
    → Ledger × Answer A
reserved_call m h h' answer db (err e) = (db, raised unclassified)
reserved_call m h h' answer db (ok (id, held)) =
    sent_call m h' answer id held (dispatch h m.tenant id held)

-- `attempt`; each of its transactions reads the world anew
unfoldable pub metered_attempt :
    {A : Type 0} → Digest → Meter A → (ℕ → Host) → (ℕ → Answer A) → ℕ → Ledger → Ledger × Answer A
metered_attempt digest m host transport index db =
    reserved_call m (host 1) (host 2) (transport index) db (
      reserve digest (host 0) m.tenant (request_key m.key index) m.fingerprint m.estimate m.currency
        db)

-- `metered_completion`, from its first attempt on: the ledger with the clock of the retries. An
-- attempt takes the time `elapsed`, a sleep the time that it is asked for.
unfoldable pub metered_completion :
    {A : Type 0}
    → Digest
    → Meter A
    → (ℕ → ℕ → Host)
    → (ℕ → Answer A)
    → (ℕ → ℕ)
    → (ℕ → ℕ)
    → ℕ
    → ℕ
    → Ledger × ℕ
    → (Ledger × ℕ) × Answer A
unfolding metered_attempt
metered_completion digest m host transport elapsed jitter timeout deadline =
    with_retries
      (λ index z.
        let (db, answer) = metered_attempt digest m (host index) transport index z.0 in
        ((db, z.1 + elapsed index), answer))
      (λ z. z.1) (λ n z. (z.0, z.1 + n)) jitter timeout deadline
