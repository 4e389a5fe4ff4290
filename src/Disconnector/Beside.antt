-- ===== src/Disconnector/Beside.antt =====
-- What the loop of `Shutdown` of node/disconnect_queue.go leaves while `Run` receives from the same queue.
use anycable_go.Base.{
  ℕ, suc, ◌+◌, ◌-◌, ◌≤◌, ◌<◌, ◌≡◌, refl, ◌∙◌, ap, subst, String, false, Option, none, some, List,
  [], ◌∷◌, ◌++◌, length, ◌==◌, if_holds, arith, inl, inr, ◌⊎◌, All,
}
use anycable_go.Disconnector.Queue.{List-cases}
use anycable_go.Hub.State.{HubSession}
use anycable_go.Disconnector.{
  DisconnectQueue, stop, no_time, Taker, shutdown_takes, run_takes, Shared, handled_by, drain_one,
  drain_beside, drain_counted, queue_shutdown_beside,
}

abbrev pub sessions_of : List (Taker × HubSession) → List HubSession
sessions_of [] = []
sessions_of ((t, s) ∷ xs) = s ∷ sessions_of xs

abbrev pub runs : List (Taker × HubSession) → ℕ
runs [] = 0
runs ((shutdown_takes, s) ∷ xs) = runs xs
runs ((run_takes, s) ∷ xs) = suc (runs xs)

-- No call that `Shutdown` made gave an error.
abbrev pub Fine : (HubSession → Option String) → Taker × HubSession → Type 0
Fine disconnect_now (shutdown_takes, s) = disconnect_now s ≡ none
Fine disconnect_now (run_takes, s) = Unit

-- Each session is called for in its order, by one of the two, or left. Without an error `Shutdown` has called for
-- all of them. An error is that of its last call, or the timeout's, which comes when the queue is empty
-- since `Run` has called for at least one of those that `Shutdown` had counted.
pub record SharedWell (disconnect_now : HubSession → Option String) (left : ℕ)
    (queue : List HubSession) (d : Shared) : Type 0 where
  pub order : sessions_of d.handled ++ d.rest ≡ queue
  pub complete :
      d.error ≡ none
      → (d.rest ≡ [])
        × (runs d.handled ≡ 0)
        × (left ≡ length queue)
        × All (Fine disconnect_now) d.handled
  pub failed :
      (e : String)
      → d.error ≡ some e
      → ((before : List (Taker × HubSession)) × (s : HubSession) × (d.handled
            ≡ before ++ (shutdown_takes, s) ∷ [])
          × (disconnect_now s ≡ some e)
          × All (Fine disconnect_now) before)
        ⊎ ((e ≡ no_time)
            × (d.rest ≡ [])
            × (length queue < left + runs d.handled)
            × All (Fine disconnect_now) d.handled)

module _ (disconnect_now : HubSession → Option String) (s : HubSession) (queue : List HubSession)
    (left : ℕ) (d : Shared) where
  run-SharedWell :
      length queue < left
      → SharedWell disconnect_now left queue d
      → SharedWell disconnect_now left (s ∷ queue) (handled_by run_takes s d)
  run-SharedWell less w = record {
    order = ap (λ (z : List HubSession). s ∷ z) w.order;
    complete = λ e. absurd (let c = w.complete e in let same = c.2 in omega arith);
    failed = λ e bad. elim (w.failed e bad) [
      | inl (before, t, at_end, answer, fine) ↦ inl (
        (run_takes, s) ∷ before,
        t,
        ap (λ (z : List (Taker × HubSession)). (run_takes, s) ∷ z) at_end,
        answer,
        (tt, fine),
      )
      | inr (late, empty, more, fine) ↦ inr (late, empty, omega arith, (tt, fine))
    ];
  }

  next-SharedWell :
      disconnect_now s ≡ none
      → SharedWell disconnect_now left queue d
      → SharedWell disconnect_now (suc left) (s ∷ queue) (handled_by shutdown_takes s d)
  next-SharedWell fine_now w = record {
    order = ap (λ (z : List HubSession). s ∷ z) w.order;
    complete = λ e.
        let (empty, none_run, same, fine) = w.complete e in
        (empty, none_run, omega arith, (fine_now, fine));
    failed = λ e bad. elim (w.failed e bad) [
      | inl (before, t, at_end, answer, fine) ↦ inl (
        (shutdown_takes, s) ∷ before,
        t,
        ap (λ (z : List (Taker × HubSession)). (shutdown_takes, s) ∷ z) at_end,
        answer,
        (fine_now, fine),
      )
      | inr (late, empty, more, fine) ↦ inr (late, empty, omega arith, (fine_now, fine))
    ];
  }

  -- `left` is what is still to be counted down after this session.
  one-SharedWell :
      (answer : Option String)
      → disconnect_now s ≡ answer
      → length queue ≤ left
      → (0 < left → SharedWell disconnect_now left queue d)
      → SharedWell disconnect_now (suc left) (s ∷ queue) (drain_one s queue left d answer)
  one-SharedWell (some e) answer small more = record {
    order = refl;
    complete = λ z. absurd (cc);
    failed = λ e' same. inl ([], s, refl, answer ∙ same, tt);
  }
  one-SharedWell none answer small more =
      if_holds (SharedWell disconnect_now (suc left) (s ∷ queue)) (left == 0)
        (record { handled = (shutdown_takes, s) ∷ []; rest = queue; error = none })
        (handled_by shutdown_takes s d)
        (λ last.
          let empty : queue ≡ [] = elim (List-cases queue) [
            | inl e ↦ e
            | inr (t, rest, e) ↦
                absurd (let n = ap (λ (z : List HubSession). length z) e in ground arith)
          ] in
          let n = ap (λ (z : List HubSession). length z) empty in
          record {
            order = refl;
            complete = λ _. (empty, refl, ground arith, (answer, tt));
            failed = λ e bad. absurd (cc);
          })
        (λ going. next-SharedWell answer (more (ground arith)))

shutdown-SharedWell :
    (disconnect_now : HubSession → Option String) (s : HubSession) (queue : List HubSession)
    (left : ℕ) (d : Shared)
    → length (s ∷ queue) ≤ left
    → 0 < left
    → (0 < left - 1 → SharedWell disconnect_now (left - 1) queue d)
    → SharedWell disconnect_now left (s ∷ queue) (drain_one s queue (left - 1) d (disconnect_now s))
shutdown-SharedWell disconnect_now s queue left d small some_left more =
    let counted : suc (left - 1) ≡ left = omega arith in
    subst
      (λ n.
        SharedWell disconnect_now n (s ∷ queue) (drain_one s queue (left - 1) d (disconnect_now s)))
      counted
      (one-SharedWell disconnect_now s queue (left - 1) d (disconnect_now s) refl (omega arith)
        more)

drain_beside-SharedWell :
    (disconnect_now : HubSession → Option String) (takers : List Taker) (left : ℕ)
    (queue : List HubSession)
    → length queue ≤ left
    → 0 < left
    → SharedWell disconnect_now left queue (drain_beside disconnect_now takers left queue)
unfolding drain_beside
drain_beside-SharedWell disconnect_now takers left [] small some_left = record {
  order = refl;
  complete = λ e. absurd (cc);
  failed = λ e bad. inr (ground arith, refl, omega arith, tt);
}
drain_beside-SharedWell disconnect_now [] left (s ∷ queue) small some_left =
    shutdown-SharedWell disconnect_now s queue left _ small some_left
      (drain_beside-SharedWell disconnect_now [] (left - 1) queue (omega arith))
drain_beside-SharedWell disconnect_now (shutdown_takes ∷ takers) left (s ∷ queue) small some_left =
    shutdown-SharedWell disconnect_now s queue left _ small some_left
      (drain_beside-SharedWell disconnect_now takers (left - 1) queue (omega arith))
drain_beside-SharedWell disconnect_now (run_takes ∷ takers) left (s ∷ queue) small some_left =
    run-SharedWell disconnect_now s queue left _ (omega arith)
      (drain_beside-SharedWell disconnect_now takers left queue (omega arith) some_left)

drain_counted-SharedWell :
    (disconnect_now : HubSession → Option String) (takers : List Taker) (queue : List HubSession)
    → SharedWell disconnect_now (length queue) queue (drain_counted disconnect_now takers queue)
unfolding drain_counted
drain_counted-SharedWell disconnect_now takers [] = record {
  order = refl;
  complete = λ e. (refl, refl, refl, tt);
  failed = λ e bad. absurd (cc);
}
drain_counted-SharedWell disconnect_now takers (s ∷ queue) =
    drain_beside-SharedWell disconnect_now takers (length (s ∷ queue)) (s ∷ queue) (omega arith)
      (omega arith)

pub queue_shutdown_beside-SharedWell :
    (disconnect_now : HubSession → Option String) (takers : List Taker) (d : DisconnectQueue)
    → d.is_stopped ≡ false
    → let r = queue_shutdown_beside disconnect_now takers d in
      (r.0.disconnect ≡ r.1.rest) × SharedWell disconnect_now (length d.disconnect) d.disconnect r.1
unfolding queue_shutdown_beside stop
queue_shutdown_beside-SharedWell disconnect_now takers d first =
    rw first (refl, drain_counted-SharedWell disconnect_now takers d.disconnect)
