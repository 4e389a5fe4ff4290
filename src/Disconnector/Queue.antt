-- ===== src/Disconnector/Queue.antt =====
-- The order and the fate of the sessions in the queue of node/disconnect_queue.go.
use native.Mathlib.Decide.{dec_lt}
use native.Mathlib.Nat.{le-div_iff_mul-le}
use anycable_go.Base.{
  append-nil, append_assoc, ℕ, suc, ◌-◌, ◌/◌, ◌≤◌, ◌<◌, ◌≡◌, refl, ◌≢◌, ◌⊎◌, inl, inr, sym, ◌∙◌, ap,
  String, Bool, true, false, Option, none, some, List, [], ◌∷◌, ◌++◌, length, arith, All, ◌↔◌,
  Option-cases, Bool-cases,
}
use anycable_go.Base.Outcome.{ok, panic, ◌>>=◌}
use anycable_go.Hub.State.{HubSession}
use anycable_go.Disconnector.{
  DisconnectQueue, DisconnectQueueConfig, new_disconnect_queue, start_run, enqueue, run_once, stop,
  Drained, drain, drain_called, drain_left, queue_shutdown, QueueEvent, enqueues, receives, stops,
  queue_event, queue_events, no_time,
}

-- The sessions that were enqueued before the first stop.
abbrev pub accepted : Bool → List QueueEvent → List HubSession
accepted stopped [] = []
accepted true (e ∷ es) = []
accepted false (enqueues s ∷ es) = s ∷ accepted false es
accepted false (receives ∷ es) = accepted false es
accepted false (stops ∷ es) = []

accepted_stopped : (es : List QueueEvent) → accepted true es ≡ []
accepted_stopped [] = refl
accepted_stopped (e ∷ es) = refl

pub List-cases :
    (xs : List HubSession)
    → (xs ≡ []) ⊎ ((x : HubSession) × (rest : List HubSession) × (xs ≡ x ∷ rest))
List-cases [] = inl refl
List-cases (x ∷ rest) = inr (x, rest, refl)

receives_accepted : (b : Bool) (es : List QueueEvent) → accepted b (receives ∷ es) ≡ accepted b es
receives_accepted true es = sym (accepted_stopped es)
receives_accepted false es = refl

pub queue_events_from :
    (d : DisconnectQueue) (es : List QueueEvent)
    → (queue_events d es).1 ++ (queue_events d es).0.disconnect
      ≡ d.disconnect ++ accepted d.is_stopped es
unfolding queue_events
queue_events_from d [] = sym (append-nil d.disconnect)
queue_events_from d (enqueues s ∷ es) = elim (Bool-cases d.is_stopped) [
  | inl halted ↦
      let more = queue_events_from d es in
      rw (queue_event, enqueue, halted) (rw (halted, accepted_stopped es) at more)
  | inr going ↦
      let more = queue_events_from (record d { disconnect = d.disconnect ++ s ∷ [] }) es in
      rw (queue_event, enqueue, going)
        ((rw going at more) ∙ append_assoc d.disconnect (s ∷ []) (accepted false es))
]
queue_events_from d (stops ∷ es) = elim (Bool-cases d.is_stopped) [
  | inl halted ↦
      let more = queue_events_from d es in
      rw (queue_event, stop, halted) (rw (halted, accepted_stopped es) at more)
  | inr going ↦
      let more = queue_events_from (record d { is_stopped = true; signalled = true }) es in
      rw (queue_event, stop, going) (rw (accepted_stopped es) at more)
]
queue_events_from d (receives ∷ es) = elim (List-cases d.disconnect) [
  | inl none_left ↦
      let more = queue_events_from d es in
      rw (queue_event, run_once, none_left, receives_accepted d.is_stopped es)
        (more ∙ ap (λ (t : List HubSession). t ++ accepted d.is_stopped es) none_left)
  | inr (s, rest, there) ↦
      let more = queue_events_from (record d { disconnect = rest }) es in
      rw (queue_event, run_once, there, receives_accepted d.is_stopped es)
        (ap (λ (t : List HubSession). s ∷ t) more)
]

fresh :
    (xs : List HubSession) (b : Bool) (es : List QueueEvent)
    → xs ≡ []
    → b ≡ false
    → xs ++ accepted b es ≡ accepted false es
fresh xs b es e h = rw (e, h) refl

-- Whatever the order of calls, receives and stops, the sessions that were received and those that
-- are still queued are together exactly the sessions that were enqueued before the first stop, in
-- their order: none is lost, doubled or overtaken, and none is taken in after the stop.
pub queue_events_order :
    (config : DisconnectQueueConfig) (d : DisconnectQueue) (es : List QueueEvent)
    → new_disconnect_queue config ≡ ok d
    → (queue_events d es).1 ++ (queue_events d es).0.disconnect ≡ accepted false es
unfolding new_disconnect_queue
queue_events_order config d es e =
    let empty : d.disconnect ≡ [] = ground arith in
    let running : d.is_stopped ≡ false = ground arith in
    queue_events_from d es ∙ fresh d.disconnect d.is_stopped es empty running

division : (r : ℕ) → 0 < r → (1 ≤ 1000 / r) ↔ (r ≤ 1000)
division r pos = let d = le-div_iff_mul-le {k = r} {x = 1} {y = 1000} pos in ground (arith, d)

-- A queue can be made and its loop started exactly for a rate of 1 to 1000: the other rates panic.
pub start_run_rates :
    (config : DisconnectQueueConfig)
    → ((new_disconnect_queue config >>= start_run) ≢ panic)
      ↔ ((1 ≤ config.rate) × (config.rate ≤ 1000))
unfolding new_disconnect_queue start_run
start_run_rates config = elim (dec_lt 0 config.rate) [
  | yes pos ↦ ground (arith, division config.rate pos)
  | no zero_rate ↦ ground arith
]

-- What the loop of `Shutdown` leaves: the sessions called for come first and in order, all but the
-- last without an error; without an error the queue is empty, and the last call's error ends it.
pub record DrainedWell (disconnect_now : HubSession → Option String) (queue : List HubSession)
    (d : Drained) : Type 0 where
  pub order : d.called ++ d.rest ≡ queue
  pub complete : d.error ≡ none → (d.rest ≡ []) × All (λ s. disconnect_now s ≡ none) d.called
  pub first_error :
      (e : String)
      → d.error ≡ some e
      → (before : List HubSession) × (s : HubSession) × (d.called ≡ before ++ s ∷ [])
        × (disconnect_now s ≡ some e)
        × All (λ t. disconnect_now t ≡ none) before

module _ (disconnect_now : HubSession → Option String) where
  ends_here :
      (s : HubSession) (queue : List HubSession) (e : String)
      → disconnect_now s ≡ some e
      → DrainedWell disconnect_now
          (s ∷ queue)
          (record { called = s ∷ []; rest = queue; error = some e })
  ends_here s queue e bad = record {
    order = refl;
    complete = λ n. absurd (cc);
    first_error = λ e' same. ([], s, refl, bad ∙ same, tt);
  }

  goes_on :
      (s : HubSession) {queue : List HubSession} {d : Drained}
      → disconnect_now s ≡ none
      → DrainedWell disconnect_now queue d
      → DrainedWell disconnect_now (s ∷ queue) (drain_called s d)
  goes_on s fine w = record {
    order = ap (λ (t : List HubSession). s ∷ t) w.order;
    complete = λ e. let (empty, all) = w.complete e in (empty, (fine, all));
    first_error = λ e bad.
        let (before, last, at_end, failed, all) = w.first_error e bad in
        (s ∷ before, last, ap (λ (t : List HubSession). s ∷ t) at_end, failed, (fine, all));
  }

drain_next :
    (disconnect_now : HubSession → Option String) (s t : HubSession) (queue : List HubSession)
    → disconnect_now s ≡ none
    → drain disconnect_now (length (s ∷ t ∷ queue)) (s ∷ t ∷ queue)
      ≡ drain_called s (drain disconnect_now (length (t ∷ queue)) (t ∷ queue))
unfolding drain
drain_next disconnect_now s t queue fine = ground arith

drain-DrainedWell :
    (disconnect_now : HubSession → Option String) (s : HubSession) (queue : List HubSession)
    → DrainedWell disconnect_now (s ∷ queue) (drain disconnect_now (length (s ∷ queue)) (s ∷ queue))
unfolding drain
drain-DrainedWell disconnect_now s [] = elim (Option-cases (disconnect_now s)) [
  | inl fine ↦
      rw (drain, fine)
        (record {
          order = refl;
          complete = λ e. (refl, (fine, tt));
          first_error = λ e bad. absurd (cc);
        })
  | inr (e, bad) ↦ rw (drain, bad) (ends_here disconnect_now s [] e bad)
]
drain-DrainedWell disconnect_now s (t ∷ queue) = elim (Option-cases (disconnect_now s)) [
  | inl fine ↦
      rw (drain_next disconnect_now s t queue fine)
        (goes_on disconnect_now s fine (drain-DrainedWell disconnect_now t queue))
  | inr (e, bad) ↦ rw (drain, bad) (ends_here disconnect_now s (t ∷ queue) e bad)
]

drain_left_some :
    (disconnect_now : HubSession → Option String) (n : ℕ) (queue : List HubSession)
    → drain_left disconnect_now (suc n) queue ≡ drain disconnect_now (suc n) queue
unfolding drain_left
drain_left_some disconnect_now n queue = ground arith

-- A first shutdown of a queue that nobody else uses stops it, and calls for its sessions in order
-- up to the first error: without an error none is left.
pub queue_shutdown-DrainedWell :
    (disconnect_now : HubSession → Option String) (d : DisconnectQueue)
    → d.is_stopped ≡ false
    → let r = queue_shutdown disconnect_now d in
      (r.0.is_stopped ≡ true)
      × (r.0.disconnect ≡ r.1.rest)
      × DrainedWell disconnect_now d.disconnect r.1
unfolding queue_shutdown stop
queue_shutdown-DrainedWell disconnect_now d first = elim (List-cases d.disconnect) [
  | inl empty ↦
      rw (first, empty, drain_left)
        (
          refl,
          refl,
          record { order = refl; complete = λ e. (refl, tt); first_error = λ e bad. absurd (cc) },
        )
  | inr (s, rest, there) ↦
      rw (first, there, drain_left_some disconnect_now (length rest) (s ∷ rest))
        (refl, refl, drain-DrainedWell disconnect_now s rest)
]

-- A shutdown that finds fewer sessions than it counted, since the loop of `Run` has taken some, and
-- whose calls give no error, calls for all that it finds and yet ends with the timeout's error.
pub drain_left_late :
    (disconnect_now : HubSession → Option String) (left : ℕ) (queue : List HubSession)
    → length queue < left
    → All (λ s. disconnect_now s ≡ none) queue
    → drain_left disconnect_now left queue
      ≡ record { called = queue; rest = []; error = some no_time }
unfolding drain_left drain
drain_left_late disconnect_now left [] late fine = ground arith
drain_left_late disconnect_now left (s ∷ queue) late fine =
    ground (arith, drain_left_late disconnect_now (left - 1) queue (omega arith) fine.1)
