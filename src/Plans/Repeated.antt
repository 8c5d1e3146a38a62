-- ===== src/Plans/Repeated.antt =====
-- What a repeated submission to api-python/platform_runtime/engine.py comes to.
use agentic_works.Base.{
  forbidden, value_error, String, ◌≡◌, true, ◌&&◌, List, ◌==◌, ok, require-ok, value_error, not,
  forbidden, call-ok, arith,
}
use agentic_works.Plans.Submission.{submit, all_reach}
use agentic_works.Engine.{World, Db, staff}
use agentic_works.Plans.{Realm, Ask, Event, operator_channel, origin_of, validated}
use agentic_works.Inbox.{is_identity}
use agentic_works.Engine.Again.{create_task_again}

-- A plan that has been submitted is submitted again on the tables that this left, under its key and
-- from the same packs, by the same or by another actor who has the authority: the answer is the same
-- task and nothing is stored.
pub submit_again :
    (r : Realm) (w w' : World) (tenant channel key agent : String) (asks : List Ask)
    (actor actor' : String) (events : List Event) (db : Db) (id : String) (db' : Db)
    → submit r w tenant channel key agent asks actor events db ≡ ok (id, db')
    → is_identity actor' ≡ true
    → w'.authority tenant channel actor' staff ≡ true
    → submit r w' tenant channel key agent asks actor' events db' ≡ ok (id, db')
unfolding submit
submit_again r w w' tenant channel key agent asks actor actor' events db id db' e known a =
    let (named, e1) =
      require-ok
        (is_identity tenant
          && (is_identity channel && (is_identity key && (is_identity agent && is_identity actor))))
        value_error _ e in
    let (open_channel, e2) = require-ok (not (channel == operator_channel)) forbidden _ e1 in
    let origin = origin_of r tenant channel key events in
    let (ps, v, e3) = call-ok (validated r tenant agent asks origin) _ e2 in
    let (reach, e4) = require-ok (all_reach r tenant agent channel origin asks) forbidden _ e3 in
    let again : (is_identity tenant
          && (is_identity channel
              && (is_identity key && (is_identity agent && is_identity actor'))))
        ≡ true =
      ground (arith, named, known) in
    rw again (
      rw open_channel (
        rw v (
          rw reach (
            create_task_again w w' tenant channel key agent agent (r.plan_digest agent asks) actor
              actor' ps ps "" "" db id db' e4 a))))
