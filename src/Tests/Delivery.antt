-- ===== src/Tests/Delivery.antt =====
-- Runs of the inbox: an event is accepted, claimed and delivered again.
use agentic_works.Base.{
  ℕ, String, true, false, List, [], ◌∷◌, ok, refl, arith, ◌≡◌, none, some, ◌==◌, err, ◌≢◌, ap,
  conflict,
}
use agentic_works.Engine.{World}
use agentic_works.Inbox
use agentic_works.Inbox.{Inbox, Event, accepted, processing, is_event, duplicate}
use agentic_works.Inbox.Lease.{lease_is_exclusive}
use agentic_works.Inbox.Replay.{Call, answer, answer_all, accept_again}
use agentic_works.Base.Table.{first}

abbrev clock : ℕ → World
clock now = record {
  now = now;
  fresh = λ _. "token";
  authority = λ _ _ _ _. true;
  task_parent = λ _ _. true;
  policy = λ _ _. record { approver_role = "operator"; independent_approval = false };
  validated = λ _. ok "print";
}

abbrev no_events : Inbox
no_events = record { events = []; quotas = []; freezes = []; audit = [] }

abbrev taken : Inbox
taken = answer no_events (clock 10, Call.accept "acme" "web" "m1" "{}" "sam" "print")

abbrev both : Inbox
both = answer taken (clock 11, Call.accept "acme" "web" "m2" "{}" "sam" "print")

first_accept :
    Inbox.accept_event (clock 10) "acme" "web" "m1" "{}" "sam" "print" no_events
    ≡ ok (accepted, taken)
unfolding answer Inbox.accept_event
first_accept = refl

abbrev later_calls : List (World × Call)
later_calls = (clock 20, Call.claim "acme" none []) ∷ []

prints_differ : ◌≢◌ {A = String} "other" "print"
prints_differ e = let same : false ≡ true = ap (λ (p : String). p == "print") e in absurd (cc)

accept_again_example :
    ((e : Event) × (first (is_event "acme" "web" "m1") (answer_all taken later_calls).events
        ≡ some e)
      × (Inbox.accept_event
            (clock 30)
            "acme"
            "web"
            "m1"
            "{}"
            "sam"
            "print"
            (answer_all taken later_calls)
          ≡ ok (duplicate e.status e.result, answer_all taken later_calls)))
    × (Inbox.accept_event
          (clock 30)
          "acme"
          "web"
          "m1"
          "[]"
          "sam"
          "other"
          (answer_all taken later_calls)
        ≡ err conflict)
accept_again_example =
    accept_again (clock 10) (clock 30) "acme" "web" "m1" "{}" "sam" "print" "[]" "other" later_calls
      no_events taken first_accept refl (omega arith) prints_differ

abbrev leased : String → String → ℕ → Event
leased key print lease = record {
  tenant = "acme";
  channel = "web";
  event_key = key;
  fingerprint = print;
  payload = "{}";
  sender = "sam";
  status = processing;
  claim = "token";
  lease = lease;
  result = "{}";
  error = "";
}

abbrev once_claimed : Inbox
once_claimed = answer both (clock 20, Call.claim "acme" none [])

-- what others do while the lease of the first event runs
abbrev meanwhile : List (World × Call)
meanwhile =
    (clock 25, Call.accept "acme" "web" "m3" "{}" "sam" "f")
    ∷ (clock 30, Call.claim "acme" none [])
    ∷ (clock 40, Call.settle "acme" "web" "m1" "other" false "{}" "late")
    ∷ (clock 50, Call.retry "acme" "web" "m1" "ann")
    ∷ []

abbrev in_between : Inbox
in_between = answer_all once_claimed meanwhile

abbrev later_claimed : Inbox
later_claimed = answer in_between (clock 130, Call.claim "acme" none [])

first_lease :
    Inbox.claim_event (clock 20) "acme" none [] both
    ≡ (some (leased "m1" "print" 140), once_claimed)
unfolding answer Inbox.accept_event Inbox.claim_event
first_lease = refl

later_lease :
    Inbox.claim_event (clock 130) "acme" none [] in_between
    ≡ (some (leased "m3" "f" 250), later_claimed)
unfolding answer answer_all Inbox.accept_event Inbox.claim_event Inbox.settle_event
    Inbox.retry_event
later_lease = refl

other_token : ◌≢◌ {A = String} "other" "token"
other_token e = let same : false ≡ true = ap (λ (p : String). p == "token") e in absurd (cc)

lease_is_exclusive_example : is_event "acme" "web" "m1" (leased "m3" "f" 250) ≡ false
lease_is_exclusive_example =
    lease_is_exclusive (clock 20) (clock 130) "acme" none none [] [] both once_claimed later_claimed
      (leased "m1" "print" 140) (leased "m3" "f" 250) meanwhile first_lease
      (tt, (omega arith, (other_token, (tt, tt)))) later_lease (omega arith)
