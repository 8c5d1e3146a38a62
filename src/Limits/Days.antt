-- ===== src/Limits/Days.antt =====
-- What a day's calls under api-python/app/limits.py come to, where no cache answers.
use agentic_works.Base.{
  ℕ, ◌+◌, String, ◌≡◌, true, ◌&&◌, none, List, [], ◌∷◌, ◌==◌, if◌then◌else◌, All, ◌-◌, refl, ◌∙◌,
  inl, inr, Bool, false, arith, not, Bool-cases, ap, min, leb, eq_iff, eq_refl, subst, ◌≤◌, ◌<◌,
  sym,
}
use agentic_works.Limits.{
  Reading, check_and_hit, Quotas, clean, count_hit, Hits, is_tenant, replace_row, hits_of, hits_in,
  limit, Warning, hit_by,
}
use agentic_works.Base.Table.{count, first, select}
use agentic_works.Base.Rows.{All-mono, All-select, All-rows}
use agentic_works.Base.Replace.{first-replace_same, first-replace_other, All-replace, select-All}

abbrev pub Today : Reading → Quotas → Type 0
Today r q = All (λ (h : Hits). (h.day == r.today) ≡ true) q.limits

clean-Today : (r : Reading) (q : Quotas) → Today r (clean r.today q)
clean-Today r q =
    All-mono (clean r.today q).limits (λ h a. a.1)
      (All-select (λ _. Unit {0}) (λ (h : Hits). h.day == r.today) q.limits
        (All-rows q.limits (λ _. tt)))

-- The calls of a day, by any tenants: how many of one tenant's are let through.
unfoldable pub admitted : Reading → String → List String → Quotas → ℕ
unfolding check_and_hit
admitted r t [] q = 0
admitted r t (c ∷ cs) q =
    let (let_through, q') = check_and_hit r c q in
    let rest = admitted r t cs q' in if c == t && let_through then rest + 1 else rest

abbrev pub calls_of : String → List String → ℕ
calls_of t = count (λ c. c == t)

-- What one call does to the count of a tenant.
record IsCounted (r : Reading) (t c : String) (q : Quotas) (x : Bool × Quotas) : Type 0 where
  pub answer : x.0 ≡ not (leb (limit r) (hits_of r c q))
  pub own : (c == t) ≡ true → hits_of r t x.1 ≡ hits_of r t q + (if x.0 then 1 else 0)
  pub other : (c == t) ≡ false → hits_of r t x.1 ≡ hits_of r t q
  pub today : Today r x.1

other_tenant :
    (t c : String) (h : Hits) → (c == t) ≡ false → is_tenant c h ≡ true → is_tenant t h ≡ false
other_tenant t c h d m = let s : h.tenant ≡ c = ground (arith, m, eq_iff h.tenant c) in rw s d

stored : Reading → String → Quotas → Quotas
stored r c q = record q {
  limits =
      replace_row (is_tenant c) (record { tenant = c; day = r.today; hits = hits_of r c q + 1 })
        q.limits;
}

stored_own :
    (r : Reading) (c : String) (q : Quotas) → hits_of r c (stored r c q) ≡ hits_of r c q + 1
unfolding stored
stored_own r c q =
    let h : Hits = record { tenant = c; day = r.today; hits = hits_of r c q + 1 } in
    rw (first-replace_same (is_tenant c) h q.limits (eq_refl c)) (rw (eq_refl r.today) refl)

stored_other :
    (r : Reading) (t c : String) (q : Quotas)
    → (c == t) ≡ false
    → hits_of r t (stored r c q) ≡ hits_of r t q
unfolding stored
stored_other r t c q d =
    let h : Hits = record { tenant = c; day = r.today; hits = hits_of r c q + 1 } in
    ap (hits_in r.today)
      (first-replace_other (is_tenant c) (is_tenant t) h q.limits d (λ x m. other_tenant t c x d m))

count_hit-IsCounted :
    (r : Reading) (t c : String) (q : Quotas) → Today r q → IsCounted r t c q (count_hit r c q)
unfolding stored
count_hit-IsCounted r t c q v = elim (Bool-cases (leb (limit r) (hits_of r c q))) [
  | inl full ↦
      rw full
        (record { answer = rw full refl; own = λ m. omega arith; other = λ m. refl; today = v })
  | inr free ↦ rw free (record {
    answer = rw free refl;
    own = λ m.
        let s : c ≡ t = ground (arith, m, eq_iff c t) in
        subst (λ (i : String). hits_of r i (stored r c q) ≡ hits_of r i q + 1) s (stored_own r c q);
    other = λ d. stored_other r t c q d;
    today =
        All-replace (λ (h : Hits). (h.day == r.today) ≡ true) (is_tenant c) _ q.limits
          (eq_refl r.today) v;
  })
]

clean_hits :
    (r : Reading) (t : String) (q : Quotas)
    → Today r q
    → hits_of r t (clean r.today q) ≡ hits_of r t q
clean_hits r t q v =
    ap (λ rows. hits_in r.today (first (is_tenant t) rows))
      (select-All (λ (h : Hits). h.day == r.today) q.limits v)

hit-IsCounted :
    (r : Reading) (t c : String) (q : Quotas)
    → r.counter ≡ none
    → Today r q
    → IsCounted r t c q (check_and_hit r c q)
unfolding check_and_hit
hit-IsCounted r t c q n v =
    let s = clean r.today q in
    let k = count_hit-IsCounted r t c s (clean-Today r q) in
    let same = clean_hits r t q v in
    rw n (record {
      answer = k.answer ∙ ap (λ (m : ℕ). not (leb (limit r) m)) (clean_hits r c q v);
      own = λ m. k.own m ∙ ap (λ (z : ℕ). z + (if (count_hit r c s).0 then 1 else 0)) same;
      other = λ d. k.other d ∙ same;
      today = k.today;
    })

-- The calls on a table that has rows of the day only.
admitted-Today :
    (r : Reading) (t : String) (calls : List String) (q : Quotas)
    → r.counter ≡ none
    → Today r q
    → admitted r t calls q ≡ min (calls_of t calls) (limit r - hits_of r t q)
unfolding admitted
admitted-Today r t [] q n v = ground arith
admitted-Today r t (c ∷ cs) q n v =
    let k = hit-IsCounted r t c q n v in
    let rest = admitted-Today r t cs (check_and_hit r c q).1 n k.today in
    elim (Bool-cases (c == t)) [
      | inr d ↦ rw d (omega (arith, rest, k.other d))
      | inl m ↦
          let s : c ≡ t = ground (arith, m, eq_iff c t) in
          let h : hits_of r c q ≡ hits_of r t q = ap (λ (i : String). hits_of r i q) s in
          elim (Bool-cases (leb (limit r) (hits_of r c q))) [
            | inl full ↦
                let a : (check_and_hit r c q).0 ≡ false = k.answer ∙ ap not full in
                let o : hits_of r t (check_and_hit r c q).1 ≡ hits_of r t q + 0 =
                  k.own m ∙ ap (λ (b : Bool). hits_of r t q + (if b then 1 else 0)) a in
                let l : limit r ≤ hits_of r c q = ground (arith, full) in
                rw m (rw a (omega (arith, rest, o, h, l)))
            | inr free ↦
                let a : (check_and_hit r c q).0 ≡ true = k.answer ∙ ap not free in
                let o : hits_of r t (check_and_hit r c q).1 ≡ hits_of r t q + 1 =
                  k.own m ∙ ap (λ (b : Bool). hits_of r t q + (if b then 1 else 0)) a in
                let l : hits_of r c q < limit r = ground (arith, free) in
                rw m (rw a (omega (arith, rest, o, h, l)))
          ]
    ]

-- What the rows of a table say that a tenant has had on a day: its row of that day, not of another.
unfoldable pub used_on : String → String → List Hits → ℕ
used_on today t [] = 0
used_on today t (h ∷ rows) =
    let rest = used_on today t rows in if h.day == today && h.tenant == t then h.hits else rest

used_on-select :
    (today t : String) (rows : List Hits)
    → hits_in today (first (is_tenant t) (select (λ (h : Hits). h.day == today) rows))
      ≡ used_on today t rows
unfolding used_on
used_on-select today t [] = refl
used_on-select today t (h ∷ rows) =
    let rest = used_on-select today t rows in
    elim (Bool-cases (h.day == today)) [
      | inr d ↦ rw d rest
      | inl d ↦
          rw d (elim (Bool-cases (h.tenant == t)) [ inl m ↦ rw m (rw d refl) | inr m ↦ rw m rest ])
    ]

cleaned_again : (r : Reading) (q : Quotas) → clean r.today (clean r.today q) ≡ clean r.today q
cleaned_again r q =
    let same : (clean r.today (clean r.today q)).limits ≡ (clean r.today q).limits =
      select-All (λ (h : Hits). h.day == r.today) (clean r.today q).limits (clean-Today r q) in
    let marks : (clean r.today (clean r.today q)).warnings ≡ (clean r.today q).warnings =
      select-All (λ (x : Warning). x.day == r.today) (clean r.today q).warnings
        (All-mono (clean r.today q).warnings (λ x a. a.1)
          (All-select (λ _. Unit {0}) (λ (x : Warning). x.day == r.today) q.warnings
            (All-rows q.warnings (λ _. tt)))) in
    rw same (rw marks refl)

-- A call deletes the rows of other days, so they might as well not be there.
hit-clean :
    (r : Reading) (c : String) (q : Quotas)
    → r.counter ≡ none
    → check_and_hit r c (clean r.today q) ≡ check_and_hit r c q
unfolding check_and_hit
hit-clean r c q n =
    subst (λ k. hit_by k r c (clean r.today q) ≡ hit_by k r c q) (sym n)
      (ap (count_hit r c) (cleaned_again r q))

admitted-clean :
    (r : Reading) (t : String) (calls : List String) (q : Quotas)
    → r.counter ≡ none
    → admitted r t calls (clean r.today q) ≡ admitted r t calls q
unfolding admitted
admitted-clean r t [] q n = refl
admitted-clean r t (c ∷ cs) q n = rw (hit-clean r c q n) refl

-- On one day, and where no cache counts, exactly as many calls of a tenant are let through as it
-- makes, up to what its limit leaves beyond the calls that the table has for it on that day: rows of
-- other days do not count, whatever the table has, and however its calls mix with those of others.
pub admitted-min :
    (r : Reading) (t : String) (calls : List String) (q : Quotas)
    → r.counter ≡ none
    → admitted r t calls q ≡ min (calls_of t calls) (limit r - used_on r.today t q.limits)
admitted-min r t calls q n =
    subst (λ (u : ℕ). admitted r t calls q ≡ min (calls_of t calls) (limit r - u))
      (used_on-select r.today t q.limits)
      (sym (admitted-clean r t calls q n)
        ∙ admitted-Today r t calls (clean r.today q) n (clean-Today r q))
