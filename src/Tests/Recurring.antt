-- ===== src/Tests/Recurring.antt =====
-- Runs of the schedules, and a plan that is submitted twice.
use agentic_works.Tests.Working.{world, nothing}
use agentic_works.Tests.Planning.{realm, asks, sent_db, submitted}
use agentic_works.Plans.Submission.{submit}
use agentic_works.Plans.Schedules.{Schedule, Agenda, run_schedules}
use agentic_works.Plans.Repeated.{submit_again}
use agentic_works.Base.{◌+◌, ◌≡◌, refl, true, [], ◌∷◌, ok}

submit_again_example :
    submit realm (world 50 "u") "acme" "web" "e1" "shop" asks "bob" [] sent_db ≡ ok ("t", sent_db)
submit_again_example =
    submit_again realm (world 10 "t") (world 50 "u") "acme" "web" "e1" "shop" asks "ann" "bob" []
      nothing "t" sent_db submitted refl refl

abbrev daily : Schedule
daily = record {
  tenant = "acme";
  id = "d";
  agent = "shop";
  steps = asks;
  interval_seconds = 86400;
  next_due = 20;
  enabled = true;
}

-- not due yet
abbrev weekly : Schedule
weekly = record {
  tenant = "acme";
  id = "w";
  agent = "shop";
  steps = asks;
  interval_seconds = 604800;
  next_due = 40;
  enabled = true;
}

abbrev agenda : Agenda
agenda = record { db = nothing; schedules = daily ∷ weekly ∷ []; owners = [] }

abbrev passed : Agenda
passed =
    (run_schedules realm (world 30 "t") (λ n. world (30 + n) "t") (λ _. "d:20") "acme" agenda).1
