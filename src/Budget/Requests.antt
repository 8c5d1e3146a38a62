-- ===== src/Budget/Requests.antt =====
-- A history of the budget: any sequence of method calls, each in its own transaction, whatever they
-- return. `BEGIN IMMEDIATE` lets one transaction run at a time, so every history is such a sequence.
use agentic_works.Base.{ℕ, String, List, [], ◌∷◌, commit}
use agentic_works.Host.{Host}
use agentic_works.Ledger.{Ledger}
use agentic_works.Budget.Admit
use agentic_works.Budget.Admit.{Digest}
use agentic_works.Budget.Calls

-- The arguments of each method.
pub data Request : Type 0 where
  configure : (tenant actor currency : String) (limit_micro max_inflight : ℕ) → Request
  reserve : (tenant key fingerprint : String) (estimate : ℕ) (currency : String) → Request
  dispatch : (tenant id : String) → Request
  uncertain : (tenant id : String) → Request
  cancel : (tenant id : String) → Request
  release : (tenant id reason : String) → Request
  settle : (tenant id : String) (actual_micro : ℕ) → Request
  reconcile : (tenant id actor : String) (actual_micro : ℕ) (text : String) → Request

-- The tables after a call.
unfoldable pub serve : Digest → Ledger → Host × Request → Ledger
serve digest db (h, configure t a c l m) = commit db (Admit.configure h t a c l m db)
serve digest db (h, reserve t k f e c) = commit db (Admit.reserve digest h t k f e c db)
serve digest db (h, dispatch t i) = commit db (Calls.dispatch h t i db)
serve digest db (h, uncertain t i) = commit db (Calls.mark_uncertain h t i db)
serve digest db (h, cancel t i) = commit db (Calls.cancel h t i db)
serve digest db (h, release t i r) = commit db (Calls.release h t i r db)
serve digest db (h, settle t i n) = commit db (Calls.settle h t i n db)
serve digest db (h, reconcile t i a n x) = commit db (Calls.reconcile h t i a n x db)

unfoldable pub run : Digest → Ledger → List (Host × Request) → Ledger
run digest db [] = db
run digest db (r ∷ rs) = run digest (serve digest db r) rs

abbrev pub empty : Ledger
empty = record { settings = []; accounts = []; reservations = []; audit = [] }
