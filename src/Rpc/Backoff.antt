-- ===== src/Rpc/Backoff.antt =====
-- How long the retry loop of rpc/rpc.go sleeps: the delay doubles within a streak of one code and
-- starts again when the code changes.
use native.Mathlib.Nat.{two-pow-succ, one-le-pow}
use native.Mathlib.Numerals.{add-one}
use anycable_go.Base.{
  ℕ, zero, suc, ◌+◌, ◌*◌, ◌^◌, ◌≤◌, ◌≡◌, refl, ap, inl, inr, sym, subst, String, Bool, true, false,
  Option, some, arith,
}
use anycable_go.Rpc.{
  Code, RetryState, retry_start, CallAnswer, RetryResult, wait_round, attempt_now, interval_of,
  round, retry_from, retry, retry_fuel, is_exhausted,
}
use anycable_go.Rpc.Retry.{Round-cases, repeats_transient}

pow_next : (n : ℕ) → 2 ^ (n + 1) ≡ 2 ^ n + 2 ^ n
pow_next n = rw add-one (two-pow-succ n)

-- The delay of the next round of the streak is covered by what has been slept.
pub record Backoff (st : RetryState) : Type 0 where
  pub streak :
      2 ^ st.attempt * interval_of st.was_exhausted ≤ st.retry_age + interval_of st.was_exhausted
  pub slept : st.retry_age ≤ 6100
  pub rounds : 10 * st.retries ≤ st.retry_age

now_covered :
    (st : RetryState) (exhausted : Bool)
    → Backoff st
    → 2 ^ attempt_now st exhausted * interval_of exhausted ≤ st.retry_age + interval_of exhausted
unfolding attempt_now interval_of
now_covered st exhausted b = covered exhausted st.was_exhausted refl b.streak
  where
    covered :
        (x w : Bool)
        → st.was_exhausted ≡ w
        → 2 ^ st.attempt * interval_of st.was_exhausted
          ≤ st.retry_age + interval_of st.was_exhausted
        → 2 ^ attempt_now st x * interval_of x ≤ st.retry_age + interval_of x
    covered true true e h = rw e (rw e at h)
    covered true false e h = rw e (omega arith)
    covered false true e h = rw e (omega arith)
    covered false false e h = rw e (rw e at h)

interval_low : (x : Bool) → 10 ≤ interval_of x
unfolding interval_of
interval_low x = ground arith

interval_high : (x : Bool) → interval_of x ≤ 100
unfolding interval_of
interval_high x = ground arith

start-Backoff : Backoff retry_start
unfolding interval_of
start-Backoff = omega arith

-- One more round of a delay `d` of the interval `i`.
step :
    (age a i retries : ℕ)
    → age ≤ 3000
    → 10 ≤ i
    → i ≤ 100
    → 10 * retries ≤ age
    → 2 ^ a * i ≤ age + i
    → (2 ^ (a + 1) * i ≤ age + 2 ^ a * i + i)
      × (age + 2 ^ a * i ≤ 6100)
      × (10 * (retries + 1) ≤ age + 2 ^ a * i)
step age a i retries early low high rounds cover =
    let p : i ≤ 2 ^ a * i = grind (arith, one-le-pow a 2 (omega arith)) in
    (omega (arith, ap (λ (t : ℕ). t * i) (pow_next a)), omega arith, omega arith)

wait_round-Backoff :
    (st : RetryState) (code : Code)
    → st.retry_age ≤ 3000
    → Backoff st
    → Backoff (wait_round st code)
unfolding wait_round
wait_round-Backoff st code early b =
    let x = is_exhausted code in
    let (s, t, r) =
      step st.retry_age (attempt_now st x) (interval_of x) st.retries early (interval_low x)
        (interval_high x) b.rounds (now_covered st x b) in
    record { streak = s; slept = t; rounds = r }

module _ {R : Type 0} (ready_error : ℕ → Option String) (callback : ℕ → CallAnswer R) where
  retry_from-Backoff :
      (fuel n : ℕ) (st : RetryState) (r : RetryResult R × RetryState)
      → Backoff st
      → retry_from ready_error callback fuel n st ≡ some r
      → Backoff r.1
  unfolding retry_from
  retry_from-Backoff zero n st r b e = absurd (cc)
  retry_from-Backoff (suc fuel) n st r b e =
      elim (Round-cases (round st (ready_error n) (callback n))) [
        | inl (res, last) ↦
            let x : (res, st) ≡ r = ground arith in
            subst (λ (z : RetryResult R × RetryState). Backoff z.1) x b
        | inr (st', more) ↦
            let (up, code, msg, answer, transient, early, now) =
              repeats_transient st st' (ready_error n) (callback n) more in
            let rest : retry_from ready_error callback fuel (n + 1) st' ≡ some r = ground arith in
            retry_from-Backoff fuel (n + 1) st' r
              (subst Backoff (sym now) (wait_round-Backoff st code early b)) rest
      ]

  -- A call sleeps 6100 ms at most over all its retries, and 10 ms at least for each.
  pub retry_sleep_bounds :
      (r : RetryResult R × RetryState)
      → retry ready_error callback ≡ some r
      → (r.1.retry_age ≤ 6100) × (10 * r.1.retries ≤ r.1.retry_age)
  unfolding retry
  retry_sleep_bounds r e =
      let b = retry_from-Backoff retry_fuel 0 retry_start r start-Backoff e in (b.slept, b.rounds)
