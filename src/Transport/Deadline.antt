-- ===== src/Transport/Deadline.antt =====
-- A call with its retries stays within its deadline and its number of attempts.
use agentic_works.Base.{
  ℕ, ◌≤◌, zero, suc, ◌+◌, ◌≡◌, inr, arith, refl, ◌∙◌, ◌⊎◌, inl, Option, none, some, Option-cases,
  ap,
}
use agentic_works.Transport.{
  proceed, returned, raised, classify, Failure, Exception, may_wait, after_failure, wait_for,
  retry_loop, Answer, after_answer, with_retries,
}

pub proceed-cases :
    {S A : Type 0} (P : S × Answer A → Type 0) (r : Answer A ⊎ ℕ) (s : S) (again : ℕ → S × Answer A)
    → ((end : Answer A) → P (s, end))
    → ((wait : ℕ) → r ≡ inr wait → P (again wait))
    → P (proceed r s again)
proceed-cases P (inl end) s again ended more = ended end
proceed-cases P (inr wait) s again ended more = more wait refl

Sum-cases : {A B : Type 0} (r : A ⊎ B) → ((a : A) × (r ≡ inl a)) ⊎ ((b : B) × (r ≡ inr b))
Sum-cases (inl a) = inl (a, refl)
Sum-cases (inr b) = inr (b, refl)

module _ {S A : Type 0} (attempt : ℕ → S → S × Answer A) (clock : S → ℕ) (sleep : ℕ → S → S)
    (jitter : ℕ → ℕ) (timeout deadline started : ℕ) where
  wait_fits :
      (s : S) (o : Option ℕ) {wait : ℕ}
      → may_wait attempt clock sleep jitter timeout deadline started s o ≡ some wait
      → clock s + wait + timeout ≤ deadline + started
  wait_fits s none e = absurd (cc)
  wait_fits s (some n) {wait} e = ground (arith, e)

  failure_fits :
      (index : ℕ) (s : S) (o : Option Failure) (x : Exception) {wait : ℕ}
      → after_failure attempt clock sleep jitter timeout deadline started index s o x ≡ inr wait
      → clock s + wait + timeout ≤ deadline + started
  failure_fits index s none x e = absurd (ground arith)
  failure_fits index s (some f) x {wait} e =
      let o = wait_for attempt clock sleep jitter timeout deadline started index f in
      elim (Option-cases (may_wait attempt clock sleep jitter timeout deadline started s o)) [
        | inl n ↦ absurd (ground arith)
        | inr (n, h) ↦ let same : n ≡ wait = ground arith in wait_fits s o (h ∙ ap some same)
      ]

  -- What the loop goes on with.
  waits :
      (index : ℕ) (s : S) (answer : Answer A) {wait : ℕ}
      → after_answer attempt clock sleep jitter timeout deadline started index s answer ≡ inr wait
      → clock s + wait + timeout ≤ deadline + started
  waits index s (returned a) e = absurd (ground arith)
  waits index s (raised x) {wait} e =
      elim (Sum-cases (
        after_failure attempt clock sleep jitter timeout deadline started index s (classify x) x)) [
          | inl (y, h) ↦ absurd (ground arith)
          | inr (n, h) ↦
              let same : n ≡ wait = ground arith in
              failure_fits index s (classify x) x (h ∙ ap inr same)
        ]

  loop_within :
      (left index : ℕ) (s : S)
      → ((i : ℕ) (z : S) → clock (attempt i z).0 ≤ clock z + timeout)
      → ((n : ℕ) (z : S) → clock (sleep n z) ≡ clock z + n)
      → clock s + timeout ≤ deadline + started
      → clock (retry_loop attempt clock sleep jitter timeout deadline started left index s).0
        ≤ deadline + started
  unfolding retry_loop
  loop_within zero index s quick exact room = omega (arith, room)
  loop_within (suc left) index s quick exact room =
      let s' = (attempt index s).0 in
      let answer = (attempt index s).1 in
      proceed-cases (λ z. clock z.0 ≤ deadline + started)
        (after_answer attempt clock sleep jitter timeout deadline started index s' answer) s'
        (λ wait.
          retry_loop attempt clock sleep jitter timeout deadline started left (index + 1)
            (sleep wait s'))
        (λ end. omega (arith, quick index s, room))
        (λ wait h.
          loop_within left (index + 1) (sleep wait s') quick exact
            (omega (arith, exact wait s', waits index s' answer h)))

  -- the number of attempts
  loop_count :
      (calls : S → ℕ) (left index : ℕ) (s : S)
      → ((i : ℕ) (z : S) → calls (attempt i z).0 ≡ calls z + 1)
      → ((n : ℕ) (z : S) → calls (sleep n z) ≡ calls z)
      → calls (retry_loop attempt clock sleep jitter timeout deadline started left index s).0
        ≤ calls s + left
  unfolding retry_loop
  loop_count calls zero index s one still = omega arith
  loop_count calls (suc left) index s one still =
      let s' = (attempt index s).0 in
      let answer = (attempt index s).1 in
      proceed-cases (λ z. calls z.0 ≤ calls s + suc left)
        (after_answer attempt clock sleep jitter timeout deadline started index s' answer) s'
        (λ wait.
          retry_loop attempt clock sleep jitter timeout deadline started left (index + 1)
            (sleep wait s'))
        (λ end. omega (arith, one index s))
        (λ wait h. omega (
          arith,
          one index s,
          still wait s',
          loop_count calls left (index + 1) (sleep wait s') one still,
        ))

-- A model call with its retries makes at most three attempts; and if each attempt returns or raises
-- within `timeout`, as the transport promises, a sleep takes the time that it is asked for, and one
-- attempt fits into the deadline, then all attempts and waits together end within the deadline.
pub with_retries_within :
    {S A : Type 0} (attempt : ℕ → S → S × Answer A) (clock calls : S → ℕ) (sleep : ℕ → S → S)
    (jitter : ℕ → ℕ) (timeout deadline : ℕ) (s : S)
    → ((i : ℕ) (z : S) → clock (attempt i z).0 ≤ clock z + timeout)
    → ((n : ℕ) (z : S) → clock (sleep n z) ≡ clock z + n)
    → ((i : ℕ) (z : S) → calls (attempt i z).0 ≡ calls z + 1)
    → ((n : ℕ) (z : S) → calls (sleep n z) ≡ calls z)
    → timeout ≤ deadline
    → (clock (with_retries attempt clock sleep jitter timeout deadline s).0 ≤ clock s + deadline)
      × (calls (with_retries attempt clock sleep jitter timeout deadline s).0 ≤ calls s + 3)
unfolding with_retries
with_retries_within attempt clock calls sleep jitter timeout deadline s quick exact one still fits =
    (
      omega (
        arith,
        loop_within attempt clock sleep jitter timeout deadline (clock s) 3 0 s quick exact
            (omega (arith, fits)),
      ),
      loop_count attempt clock sleep jitter timeout deadline (clock s) calls 3 0 s one still,
    )
