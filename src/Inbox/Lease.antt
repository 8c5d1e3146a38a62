-- ===== src/Inbox/Lease.antt =====
-- A lease of an event is exclusive while it runs.
use agentic_works.Base.{
  ℕ, String, ◌≡◌, List, All, arith, ◌+◌, ◌<◌, inl, inr, true, false, Option, some, [], ◌∷◌,
  Option-cases, Bool-cases, subst, sym, refl, ◌∙◌, Bool, ◌&&◌, ◌||◌, none, ◌++◌, ok, eq_iff,
  commit-cases, eq_refl,
}
use agentic_works.Base.Table.{first, update_where, first_sound}
use agentic_works.Engine.{World, stopped}
use agentic_works.Inbox
use agentic_works.Inbox.Replay.{
  Call, accept, claim, settle, retry, answer, answer_all, Known, answer-Known, claim-Known,
}
use agentic_works.Inbox.{
  pending, processing, Event, Inbox, is_event, is_next, claim_event, claimed_event,
  event_lease_seconds, lease_event, no_channels, settle_event, retry_event, accept_event, Receipt,
  holds_event, is_failed, new_event,
}
use agentic_works.Base.Rows.{All-first, All-change}

-- The rows under a key are processing, under one claim and lease.
abbrev Leased : String → String → String → String → ℕ → Event → Type 0
Leased t c k token lease e =
    is_event t c k e ≡ true → (e.status ≡ processing) × (e.lease ≡ lease) × (e.claim ≡ token)

update-Leased :
    (w : World) (t c k : String) (es : List Event)
    → All
        (Leased t c k (w.fresh 0) (w.now + event_lease_seconds))
        (update_where (is_event t c k) (claimed_event w) es)
update-Leased w t c k [] = tt
update-Leased w t c k (e ∷ es) =
    (λ m. (ground (arith, m), ground (arith, m), ground (arith, m)), update-Leased w t c k es)

-- What `claim_event` granted.
claim_event-ok :
    (w : World) (t : String) (channels : Option (List String)) (skip : List String) (box : Inbox)
    {r : Event} {box' : Inbox}
    → claim_event w t channels skip box ≡ (some r, box')
    → (e : Event) × (first (is_next t w.now channels skip) box.events ≡ some e)
      × (r ≡ claimed_event w e)
      × (box'.events ≡ update_where (is_event t e.channel e.event_key) (claimed_event w) box.events)
unfolding claim_event
claim_event-ok w t channels skip box {r} {box'} h =
    elim (Option-cases (first (is_next t w.now channels skip) box.events)) [
      | inl n ↦ absurd (ground arith)
      | inr (e, f) ↦ (e, f, ground arith, ground arith)
    ]

not_granted :
    (t c k token : String) (lease : ℕ) (e : Event) (n : String) (now : ℕ)
    (channels : Option (List String)) (skip : List String)
    → Leased t c k token lease e
    → is_next n now channels skip e ≡ true
    → now < lease
    → is_event t c k e ≡ false
not_granted t c k token lease e n now channels skip held next live =
    elim (Bool-cases (is_event t c k e)) [
      | inr m ↦ m
      | inl m ↦ let (busy, ends, _) = held m in absurd (ground (arith, busy, ends))
    ]

-- Rows under the key of a row.
same_event :
    (t c k n : String) (e x : Event)
    → e.tenant ≡ n
    → is_event n e.channel e.event_key x ≡ true
    → is_event t c k x ≡ true
    → is_event t c k e ≡ true
same_event t c k n e x a m own =
    let i : e.tenant ≡ x.tenant = ground (arith, a, m, eq_iff x.tenant n) in
    let j : e.channel ≡ x.channel = ground (arith, m, eq_iff x.channel e.channel) in
    let l : e.event_key ≡ x.event_key = ground (arith, m, eq_iff x.event_key e.event_key) in
    rw (i, j, l) own

module _ (t c k token : String) (lease : ℕ) where
  abbrev Held : List Event → Type 0
  Held = All (Leased t c k token lease)

  lease-Held :
      (w : World) (n : String) (channels : Option (List String)) (skip : List String)
      (o : Option Event) (box : Inbox)
      → first (is_next n w.now channels skip) box.events ≡ o
      → w.now < lease
      → Held box.events
      → Held (lease_event w n o box).1.events
  lease-Held w n channels skip none box f live v = v
  lease-Held w n channels skip (some e) box f live v =
      let next = first_sound (is_next n w.now channels skip) box.events f in
      let other =
        not_granted t c k token lease e n w.now channels skip
          (All-first (Leased t c k token lease) (is_next n w.now channels skip) box.events v f) next
          live in
      let mine : e.tenant ≡ n = ground (arith, next, eq_iff e.tenant n) in
      All-change (Leased t c k token lease) (Leased t c k token lease)
        (is_event n e.channel e.event_key) (claimed_event w) box.events
        (λ x m _ own. absurd (cc (same_event t c k n e x mine m own, other))) (λ x m held. held) v

  claim-Held :
      (w : World) (n : String) (channels : Option (List String)) (skip : List String) (box : Inbox)
      → w.now < lease
      → Held box.events
      → Held (claim_event w n channels skip box).1.events
  unfolding claim_event
  claim-Held w n channels skip box live v =
      elim (Bool-cases (no_channels channels || stopped n box.freezes)) [
        | inl m ↦ rw m v
        | inr m ↦ rw m (
            lease-Held w n channels skip (first (is_next n w.now channels skip) box.events) box refl
              live v)
      ]

  settle-Held :
      (n h y other : String) (planned : Bool) (r e : String) (box : Inbox)
      → ¬ (other ≡ token)
      → Held box.events
      → Held (settle_event n h y other planned r e box).events
  unfolding settle_event
  settle-Held n h y other planned r e box differs v =
      All-change (Leased t c k token lease) (Leased t c k token lease) (holds_event n h y other) _
        box.events
        (λ x m held own.
          let (_, _, mine) = held own in
          let its : x.claim ≡ other = ground (arith, m, eq_iff x.claim other) in
          absurd (differs (sym its ∙ mine)))
        (λ x m held. held) v

  retry-Held :
      (w : World) (n h y actor : String) (box : Inbox)
      → Held box.events
      → (u : Unit {0}) (box' : Inbox) → retry_event w n h y actor box ≡ ok (u, box')
      → Held box'.events
  unfolding retry_event
  retry-Held w n h y actor box v u box' e =
      let change : Event → Event = λ x. record x { status = pending; error = "" } in
      let q : Event → Bool = λ x. is_event n h y x && is_failed x.status in
      let kept : Held (update_where q change box.events) =
        All-change (Leased t c k token lease) (Leased t c k token lease) q change box.events
          (λ x m held own. let (busy, _, _) = held own in absurd (ground (arith, busy, m)))
          (λ x m held. held) v in
      let same : update_where q change box.events ≡ box'.events = ground arith in
      subst Held same kept

  append-Held :
      (es : List Event) (e : Event) → is_event t c k e ≡ false → Held es → Held (es ++ e ∷ [])
  append-Held [] e m v = ((λ own. absurd (cc (own, m))), tt)
  append-Held (x ∷ es) e m v = (v.0, append-Held es e m v.1)

  accept-Held :
      (full : String) (w : World) (n h y payload sender print : String) (box : Inbox)
      → Known t c k full box.events
      → Held box.events
      → (r : Receipt) (box' : Inbox)
      → Inbox.accept_event w n h y payload sender print box ≡ ok (r, box')
      → Held box'.events
  unfolding accept_event
  accept-Held full w n h y payload sender print box (known, f, _) v r box' e =
      elim (Option-cases (first (is_event n h y) box.events)) [
        | inr (old, i) ↦ let same : box.events ≡ box'.events = ground arith in subst Held same v
        | inl absent ↦
            let new = new_event n h y payload sender print in
            let other : is_event t c k new ≡ false = elim (Bool-cases (is_event t c k new)) [
              | inr m ↦ m
              | inl m ↦
                  let i : n ≡ t = ground (arith, m, eq_iff n t) in
                  let j : h ≡ c = ground (arith, m, eq_iff h c) in
                  let l : y ≡ k = ground (arith, m, eq_iff y k) in
                  let gone : first (is_event t c k) box.events ≡ none = rw⁻¹ (i, j, l) absent in
                  absurd (cc (gone, f))
            ] in
            let same : box.events ++ new ∷ [] ≡ box'.events = ground arith in
            subst Held same (append-Held box.events new other v)
      ]

-- The call comes while the lease runs, if it is a claim, and is no settlement under the claim's token.
abbrev pub Spares : String → ℕ → World × Call → Type 0
Spares token lease (w, accept t c k p s f) = Unit {0}
Spares token lease (w, claim t cs skip) = w.now < lease
Spares token lease (w, settle t c k other planned r e) = ¬ (other ≡ token)
Spares token lease (w, retry t c k a) = Unit {0}

answer-Held :
    (t c k token : String) (lease : ℕ) (full : String) (box : Inbox) (call : World × Call)
    → Spares token lease call
    → Known t c k full box.events
    → Held t c k token lease box.events
    → Held t c k token lease (answer box call).events
unfolding answer
answer-Held t c k token lease full box (w, accept n h y p s f) spares known v =
    commit-cases (λ b. Held t c k token lease b.events) box _ v
      (accept-Held t c k token lease full w n h y p s f box known v)
answer-Held t c k token lease full box (w, claim n cs skip) spares known v =
    claim-Held t c k token lease w n cs skip box spares v
answer-Held t c k token lease full box (w, settle n h y other planned r e) spares known v =
    settle-Held t c k token lease n h y other planned r e box spares v
answer-Held t c k token lease full box (w, retry n h y a) spares known v =
    commit-cases (λ b. Held t c k token lease b.events) box _ v
      (retry-Held t c k token lease w n h y a box v)

answer_all-Held :
    (t c k token : String) (lease : ℕ) (full : String) (box : Inbox) (calls : List (World × Call))
    → All (Spares token lease) calls
    → Known t c k full box.events
    → Held t c k token lease box.events
    → Held t c k token lease (answer_all box calls).events
unfolding answer_all
answer_all-Held t c k token lease full box [] spares known v = v
answer_all-Held t c k token lease full box (x ∷ xs) spares known v =
    answer_all-Held t c k token lease full (answer box x) xs spares.1
      (answer-Known t c k full box x known)
      (answer-Held t c k token lease full box x spares.0 known v)

-- The row that was granted is on record.
granted-Known :
    (t : String) (now : ℕ) (channels : Option (List String)) (skip : List String) (es : List Event)
    (e : Event)
    → first (is_next t now channels skip) es ≡ some e
    → (r : Event) × Known t e.channel e.event_key r.fingerprint es
granted-Known t now channels skip es e f =
    elim (Option-cases (first (is_event t e.channel e.event_key) es)) [
      | inr (r, i) ↦ (r, (r, i, refl))
      | inl absent ↦
          let next = first_sound (is_next t now channels skip) es f in
          let never =
            All-first (λ x. is_event t e.channel e.event_key x ≡ false)
              (is_next t now channels skip) es (All-none t e.channel e.event_key es absent) f in
          absurd (ground (arith, next, never, eq_refl e.channel, eq_refl e.event_key))
    ]
  where
    All-none :
        (t c k : String) (es : List Event)
        → first (is_event t c k) es ≡ none
        → All (λ x. is_event t c k x ≡ false) es
    All-none t c k [] n = tt
    All-none t c k (x ∷ es) n = elim (Bool-cases (is_event t c k x)) [
      | inl m ↦ absurd (ground (arith, n, m))
      | inr m ↦ (m, All-none t c k es (ground (arith, n, m)))
    ]

-- After an event has been claimed, through every history of accepts, retries, settlements under other
-- tokens, and claims at times before the end of its lease, `claim_event` at such a time grants that
-- event to nobody else, whatever channels the other call takes or skips.
pub lease_is_exclusive :
    (w w' : World) (t : String) (channels channels' : Option (List String))
    (skip skip' : List String) (box box' box'' : Inbox) (r r' : Event) (calls : List (World × Call))
    → claim_event w t channels skip box ≡ (some r, box')
    → All (Spares r.claim r.lease) calls
    → claim_event w' t channels' skip' (answer_all box' calls) ≡ (some r', box'')
    → w'.now < r.lease
    → is_event t r.channel r.event_key r' ≡ false
lease_is_exclusive w w' t channels channels' skip skip' box box' box'' r r' calls h spares h' live =
    let (e, f, er, written) = claim_event-ok w t channels skip box h in
    let (e', f', er', _) = claim_event-ok w' t channels' skip' (answer_all box' calls) h' in
    let token = w.fresh 0 in
    let lease = w.now + event_lease_seconds in
    let begun : Held t e.channel e.event_key token lease box'.events =
      subst (Held t e.channel e.event_key token lease) (sym written)
        (update-Leased w t e.channel e.event_key box.events) in
    let (row, known) = granted-Known t w.now channels skip box.events e f in
    let still : Known t e.channel e.event_key row.fingerprint box'.events =
      subst (λ (x : Option Event × Inbox). Known t e.channel e.event_key row.fingerprint x.1.events)
        h (claim-Known t e.channel e.event_key row.fingerprint w t channels skip box known) in
    let now_held =
      answer_all-Held t e.channel e.event_key token lease row.fingerprint box' calls
        (subst (λ (x : Event). All (Spares x.claim x.lease) calls) er spares) still begun in
    let held =
      All-first (Leased t e.channel e.event_key token lease) (is_next t w'.now channels' skip')
        (answer_all box' calls).events now_held f' in
    let next = first_sound (is_next t w'.now channels' skip') (answer_all box' calls).events f' in
    rw (er, er')
      (not_granted t e.channel e.event_key token lease e' t w'.now channels' skip' held next
        (subst (λ (x : Event). w'.now < x.lease) er live))
