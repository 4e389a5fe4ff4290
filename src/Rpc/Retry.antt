-- ===== src/Rpc/Retry.antt =====
-- The retry loop of rpc/rpc.go ends, and its result is that of its last round.
use anycable_go.Base.{
  ℕ, zero, suc, ◌+◌, ◌*◌, ◌^◌, ◌≤◌, ◌<◌, ◌≡◌, refl, ◌⊎◌, inl, inr, String, true, false, Option,
  none, some, arith, subst, ◌-◌,
}
use native.Mathlib.Nat.{one-le-pow}
use native.Mathlib.Decide.{dec_lt}
use anycable_go.Rpc.{
  Code, RpcError, status_error, plain_error, RetryState, retry_start, CallAnswer, replied, failed,
  RetryResult, done, gave_up, not_ready, is_transient, next_round, wait_round, Round, ends, repeats,
  round, attempt_now, retry_from, retry, retry_fuel,
}

pow_pos : (n : ℕ) → 0 < 2 ^ n
pow_pos n = one-le-pow n 2 (omega arith)

wait_round_grows :
    (st : RetryState) (code : Code) → st.retry_age + 10 ≤ (wait_round st code).retry_age
unfolding wait_round
wait_round_grows st code =
    ground (arith, pow_pos (attempt_now st true), pow_pos (attempt_now st false))

next_round_grows :
    (st st' : RetryState) (err : RpcError)
    → next_round st err ≡ some st'
    → (st.retry_age ≤ 3000) × (st.retry_age + 10 ≤ st'.retry_age)
unfolding next_round
next_round_grows st st' (plain_error msg) e = absurd (cc)
next_round_grows st st' (status_error code msg) e = ground (arith, wait_round_grows st code)

pub Round-cases :
    {R : Type 0} (r : Round R)
    → ((res : RetryResult R) × (r ≡ ends res)) ⊎ ((st : RetryState) × (r ≡ repeats st))
Round-cases (ends res) = inl (res, refl)
Round-cases (repeats st) = inr (st, refl)

-- Why a round is repeated.
pub repeats_transient :
    {R : Type 0} (st st' : RetryState) (o : Option String) (a : CallAnswer R)
    → round st o a ≡ repeats st'
    → (o ≡ none)
      × (code : Code) × (msg : String) × (a ≡ failed (status_error code msg))
      × (is_transient code ≡ true)
      × (st.retry_age ≤ 3000)
      × (st' ≡ wait_round st code)
unfolding round next_round
repeats_transient st st' (some err) a e = absurd (cc)
repeats_transient st st' none (replied res) e = absurd (cc)
repeats_transient st st' none (failed (plain_error msg)) e = absurd (cc)
repeats_transient st st' none (failed (status_error code msg)) e =
    (refl, code, msg, refl, ground arith, ground arith, ground arith)

module _ {R : Type 0} (ready_error : ℕ → Option String) (callback : ℕ → CallAnswer R) where
  retry_from_total :
      (fuel n : ℕ) (st : RetryState)
      → 0 < fuel
      → 3010 < st.retry_age + 10 * fuel
      → (r : RetryResult R × RetryState) × (retry_from ready_error callback fuel n st ≡ some r)
  unfolding retry_from
  retry_from_total zero n st pos h = absurd (omega arith)
  retry_from_total (suc fuel) n st pos h =
      elim (Round-cases (round st (ready_error n) (callback n))) [
        | inl (res, e) ↦ ((res, st), rw (e, retry_from))
        | inr (st', e) ↦
            let (_, code, _, _, _, early, now) =
              repeats_transient st st' (ready_error n) (callback n) e in
            let grown = wait_round_grows st code in
            let grows : st.retry_age + 10 ≤ st'.retry_age = rw now grown in
            rw (e, retry_from) (retry_from_total fuel (n + 1) st' (omega arith) (omega arith))
      ]

  -- However the connection and the server answer, the loop comes to an end.
  pub retry_total : (r : RetryResult R × RetryState) × (retry ready_error callback ≡ some r)
  unfolding retry
  retry_total = retry_from_total retry_fuel 0 retry_start (omega arith) (omega arith)

  -- What a round's end says of its connection and its answer.
  abbrev pub EndsWith : RetryResult R → RetryState → ℕ → Type 0
  EndsWith (not_ready err) st k = ready_error k ≡ some err
  EndsWith (done res) st k = (ready_error k ≡ none) × (callback k ≡ replied res)
  EndsWith (gave_up err) st k =
      (ready_error k ≡ none)
      × (callback k ≡ failed err)
      × ((code : Code)
          → (msg : String) → err ≡ status_error code msg
          → (is_transient code ≡ false) ⊎ (3000 < st.retry_age))

  -- A round that was not the last: the connection was ready and the server was exhausted or
  -- unavailable.
  abbrev pub Repeated : ℕ → Type 0
  Repeated k =
      (ready_error k ≡ none)
      × (code : Code) × (msg : String) × (callback k ≡ failed (status_error code msg))
      × (is_transient code ≡ true)

  ends_with :
      (st : RetryState) (k : ℕ) (o : Option String) (a : CallAnswer R) (res : RetryResult R)
      → ready_error k ≡ o
      → callback k ≡ a
      → round st o a ≡ ends res
      → EndsWith res st k
  unfolding round next_round
  ends_with st k (some err) a res r c e =
      let x : not_ready err ≡ res = ground arith in
      subst (λ (z : RetryResult R). EndsWith z st k) x r
  ends_with st k none (replied v) res r c e =
      let x : done v ≡ res = ground arith in subst (λ (z : RetryResult R). EndsWith z st k) x (r, c)
  ends_with st k none (failed (plain_error msg)) res r c e =
      let x : gave_up (plain_error msg) ≡ res = ground arith in
      subst (λ (z : RetryResult R). EndsWith z st k) x (r, c, λ code m q. absurd (cc))
  ends_with st k none (failed (status_error code msg)) res r c e =
      let x : gave_up (status_error code msg) ≡ res = ground arith in
      subst (λ (z : RetryResult R). EndsWith z st k) x (r, c, λ code' m q. ground arith)

  abbrev Explained : ℕ → RetryState → RetryResult R × RetryState → Type 0
  Explained n st r =
      (k : ℕ) × (k ≡ n + (r.1.retries - st.retries))
      × (st.retries ≤ r.1.retries)
      × EndsWith r.0 r.1 k
      × ((i : ℕ) → n ≤ i → i < k → Repeated i)

  retry_from_lem :
      (fuel n : ℕ) (st : RetryState) (r : RetryResult R × RetryState)
      → retry_from ready_error callback fuel n st ≡ some r
      → Explained n st r
  unfolding retry_from
  retry_from_lem zero n st r e = absurd (cc)
  retry_from_lem (suc fuel) n st r e = elim (Round-cases (round st (ready_error n) (callback n))) [
    | inl (res, last) ↦
        let x : (res, st) ≡ r = ground arith in
        subst (Explained n st) x (
          n,
          omega arith,
          omega arith,
          ends_with st n (ready_error n) (callback n) res refl refl last,
          λ i lo hi. absurd (omega arith),
        )
    | inr (st', more) ↦
        let (up, code, msg, answer, transient, early, now) =
          repeats_transient st st' (ready_error n) (callback n) more in
        let rest : retry_from ready_error callback fuel (n + 1) st' ≡ some r = ground arith in
        let (k, at, mono, ended, before) = retry_from_lem fuel (n + 1) st' r rest in
        let counted : st'.retries ≡ st.retries + 1 = unfold wait_round in ground arith in
        (
          k,
          omega arith,
          omega arith,
          ended,
          λ i lo hi. elim (dec_lt n i) [
            | yes later ↦ before i (omega arith) hi
            | no here ↦
                let same : n ≡ i = omega arith in
                subst Repeated same (up, code, msg, answer, transient)
          ],
        )
  ]

  -- The loop's result is that of the round after its last retry: the connection's error, the
  -- server's reply, or an error that either calls for no retry or came when more than 3000 ms had
  -- been slept. In every round before that the connection was ready and the server answered that
  -- it was exhausted or unavailable.
  pub retry-EndsWith :
      (r : RetryResult R × RetryState)
      → retry ready_error callback ≡ some r
      → EndsWith r.0 r.1 r.1.retries × ((i : ℕ) → i < r.1.retries → Repeated i)
  unfolding retry
  retry-EndsWith r e =
      let (k, at, mono, ended, before) = retry_from_lem retry_fuel 0 retry_start r e in
      let same : k ≡ r.1.retries = omega arith in
      (subst (EndsWith r.0 r.1) same ended, λ i hi. before i (omega arith) (omega arith))
