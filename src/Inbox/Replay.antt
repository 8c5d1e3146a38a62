-- ===== src/Inbox/Replay.antt =====
-- Histories of the inbox (api-python/platform_runtime/inbox.py): what becomes of an accepted key.
use agentic_works.Base.{
  String, ◌≡◌, List, arith, commit, inl, inr, Bool, Option, some, [], ◌∷◌, ◌++◌, Bool-cases, refl,
  ◌∙◌, ◌&&◌, ok, ap, commit-cases, subst, ◌≤◌, ◌≢◌, true, ◌||◌, none, err, Option-cases, leb,
  length, conflict, eq_refl, eq_iff,
}
use agentic_works.Base.Table.{first, update_where}
use agentic_works.Engine.{World, stopped, staff}
use agentic_works.Inbox
use agentic_works.Inbox.{
  accepted, new_event, lease_event, claimed_event, no_channels, is_next, is_identity, pending,
  accept_event, claim_event, settle_event, retry_event, holds_event, is_failed, Event, Inbox,
  is_event, Receipt, codes, duplicate,
}

pub data Call : Type 0 where
  accept : (tenant channel key payload sender full : String) → Call
  claim : (tenant : String) (channels : Option (List String)) (skip : List String) → Call
  settle : (tenant channel key token : String) (planned : Bool) (result error : String) → Call
  retry : (tenant channel key actor : String) → Call

-- The tables after a call, whether it returns or raises.
unfoldable pub answer : Inbox → World × Call → Inbox
answer box (w, accept t c k p s f) = commit box (Inbox.accept_event w t c k p s f box)
answer box (w, claim t cs skip) = (Inbox.claim_event w t cs skip box).1
answer box (w, settle t c k token planned r e) = Inbox.settle_event t c k token planned r e box
answer box (w, retry t c k a) = commit box (Inbox.retry_event w t c k a box)

unfoldable pub answer_all : Inbox → List (World × Call) → Inbox
answer_all box [] = box
answer_all box (c ∷ cs) = answer_all (answer box c) cs

-- The event is on record, under its fingerprint.
abbrev pub Known : String → String → String → String → List Event → Type 0
Known t c k full es = (e : Event) × (first (is_event t c k) es ≡ some e) × (e.fingerprint ≡ full)

Known-update :
    (t c k full : String) (q : Event → Bool) (f : Event → Event) (es : List Event)
    → ((e : Event) → is_event t c k (f e) ≡ is_event t c k e)
    → ((e : Event) → (f e).fingerprint ≡ e.fingerprint)
    → Known t c k full es
    → Known t c k full (update_where q f es)
Known-update t c k full q f [] s p (r, h, g) = absurd (cc)
Known-update t c k full q f (e ∷ es) s p (r, h, g) = elim (Bool-cases (is_event t c k e)) [
  | inl m ↦
      let same : e ≡ r = ground arith in
      let print : e.fingerprint ≡ full = ap (λ (x : Event). x.fingerprint) same ∙ g in
      elim (Bool-cases (q e)) [
        | inl y ↦ (f e, ground (arith, s e), p e ∙ print)
        | inr n ↦ (e, ground arith, print)
      ]
  | inr m ↦
      let (x, i, j) = Known-update t c k full q f es s p (r, ground (arith, h), g) in
      (x, ground (arith, i, s e), j)
]

Known-append :
    (t c k full : String) (es fs : List Event) → Known t c k full es → Known t c k full (es ++ fs)
Known-append t c k full [] fs (r, h, g) = absurd (cc)
Known-append t c k full (e ∷ es) fs (r, h, g) = elim (Bool-cases (is_event t c k e)) [
  | inl m ↦ (r, ground (arith, h), g)
  | inr m ↦
      let (s, i, j) = Known-append t c k full es fs (r, ground (arith, h), g) in
      (s, ground (arith, i), j)
]

accept-Known :
    (t c k full : String) (w : World) (tenant channel key payload sender print : String)
    (box : Inbox)
    → Known t c k full box.events
    → (r : Receipt) (box' : Inbox)
    → Inbox.accept_event w tenant channel key payload sender print box ≡ ok (r, box')
    → Known t c k full box'.events
unfolding accept_event
accept-Known t c k full w tenant channel key payload sender print box v r box' e =
    elim (Option-cases (first (is_event tenant channel key) box.events)) [
      | inl n ↦
          let same : box.events ++ new_event tenant channel key payload sender print ∷ []
              ≡ box'.events =
            ground arith in
          subst (Known t c k full) same (
            Known-append t c k full box.events
              (new_event tenant channel key payload sender print ∷ []) v)
      | inr (old, f) ↦
          let same : box.events ≡ box'.events = ground arith in subst (Known t c k full) same v
    ]

lease-Known :
    (t c k full : String) (w : World) (tenant : String) (o : Option Event) (box : Inbox)
    → Known t c k full box.events
    → Known t c k full (lease_event w tenant o box).1.events
lease-Known t c k full w tenant none box v = v
lease-Known t c k full w tenant (some e) box v =
    Known-update t c k full (is_event tenant e.channel e.event_key) (claimed_event w) box.events
      (λ x. refl) (λ x. refl) v

pub claim-Known :
    (t c k full : String) (w : World) (tenant : String) (channels : Option (List String))
    (skip : List String) (box : Inbox)
    → Known t c k full box.events
    → Known t c k full (claim_event w tenant channels skip box).1.events
unfolding claim_event
claim-Known t c k full w tenant channels skip box v =
    elim (Bool-cases (no_channels channels || stopped tenant box.freezes)) [
      | inl m ↦ rw m v
      | inr m ↦ rw m (
          lease-Known t c k full w tenant (first (is_next tenant w.now channels skip) box.events)
            box v)
    ]

retry-Known :
    (t c k full : String) (w : World) (tenant channel key actor : String) (box : Inbox)
    → Known t c k full box.events
    → (u : Unit {0}) (box' : Inbox) → retry_event w tenant channel key actor box ≡ ok (u, box')
    → Known t c k full box'.events
unfolding retry_event
retry-Known t c k full w n h y a box v u box' e =
    let change : Event → Event = λ x. record x { status = pending; error = "" } in
    let q : Event → Bool = λ x. is_event n h y x && is_failed x.status in
    let done = Known-update t c k full q change box.events (λ x. refl) (λ x. refl) v in
    let same : update_where q change box.events ≡ box'.events = ground arith in
    subst (Known t c k full) same done

pub answer-Known :
    (t c k full : String) (box : Inbox) (call : World × Call)
    → Known t c k full box.events
    → Known t c k full (answer box call).events
unfolding answer settle_event
answer-Known t c k full box (w, accept n h y p s f) v =
    commit-cases (λ b. Known t c k full b.events) box _ v
      (accept-Known t c k full w n h y p s f box v)
answer-Known t c k full box (w, claim n cs skip) v = claim-Known t c k full w n cs skip box v
answer-Known t c k full box (w, settle n h y token planned r e) v =
    Known-update t c k full (holds_event n h y token) _ box.events (λ x. refl) (λ x. refl) v
answer-Known t c k full box (w, retry n h y a) v =
    commit-cases (λ b. Known t c k full b.events) box _ v (retry-Known t c k full w n h y a box v)

answer_all-Known :
    (t c k full : String) (box : Inbox) (calls : List (World × Call))
    → Known t c k full box.events
    → Known t c k full (answer_all box calls).events
unfolding answer_all
answer_all-Known t c k full box [] v = v
answer_all-Known t c k full box (x ∷ xs) v =
    answer_all-Known t c k full (answer box x) xs (answer-Known t c k full box x v)

first-append :
    (q : Event → Bool) (es : List Event) (e : Event)
    → first q es ≡ none
    → q e ≡ true
    → first q (es ++ e ∷ []) ≡ some e
first-append q [] e n m = ground (arith, m)
first-append q (x ∷ es) e n m = ground (arith, first-append q es e)

-- What an acceptance says of its arguments and of the tables.
accepted-Known :
    (w : World) (t c k payload sender full : String) (box box' : Inbox)
    → Inbox.accept_event w t c k payload sender full box ≡ ok (accepted, box')
    → ((is_identity t && (is_identity c && is_identity k)) ≡ true)
      × (leb (length (codes payload)) 20000 ≡ true)
      × Known t c k full box'.events
unfolding accept_event
accepted-Known w t c k payload sender full box box' e =
    elim (Option-cases (first (is_event t c k) box.events)) [
      | inr (old, f) ↦ absurd (ground arith)
      | inl n ↦
          let new = new_event t c k payload sender full in
          let same : box.events ++ new ∷ [] ≡ box'.events = ground arith in
          (
            ground arith,
            ground arith,
            subst (Known t c k full) same (
              new,
              first-append (is_event t c k) box.events new n
                  (ground (arith, eq_refl t, eq_refl c, eq_refl k)),
              refl,
            ),
          )
    ]

-- Once `accept_event` has accepted an event, through every history of accepts, claims, settlements
-- and retries, each later delivery under its channel and key, by a sender with authority, changes
-- nothing: the same payload is answered as a duplicate with the event's present status and result,
-- and a payload with another digest is refused as a conflict.
pub accept_again :
    (w w' : World) (t c k payload sender full other full' : String) (calls : List (World × Call))
    (box box' : Inbox)
    → Inbox.accept_event w t c k payload sender full box ≡ ok (accepted, box')
    → w'.authority t c sender staff ≡ true
    → length (codes other) ≤ 20000
    → full' ≢ full
    → ((e : Event) × (first (is_event t c k) (answer_all box' calls).events ≡ some e)
        × (Inbox.accept_event w' t c k payload sender full (answer_all box' calls)
            ≡ ok (duplicate e.status e.result, answer_all box' calls)))
      × (Inbox.accept_event w' t c k other sender full' (answer_all box' calls) ≡ err conflict)
unfolding accept_event
accept_again w w' t c k payload sender full other full' calls box box' h may short differ =
    let (named, fits, known) = accepted-Known w t c k payload sender full box box' h in
    let (e, f, print) = answer_all-Known t c k full box' calls known in
    ((e, f, ground (arith, print, eq_refl full)), ground (arith, print, eq_iff full full'))
