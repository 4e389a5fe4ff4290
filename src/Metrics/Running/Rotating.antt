-- ===== src/Metrics/Running/Rotating.antt =====
-- When `Run` of metrics/metrics.go rotates the metrics.
use anycable_go.Base.{
  String, ◌≢◌, Option, if_holds, ℕ, zero, suc, ◌≡◌, refl, ◌∙◌, ap, sym, subst, Bool, true, false,
  none, some, List, [], ◌∷◌, ◌++◌, ◌==◌, append-nil, append_assoc, if◌then◌else◌, arith,
}
use anycable_go.Base.GoMap.{GoMap}
use anycable_go.Server.{HttpServer, already, served, start, start_and_announce}
use anycable_go.Metrics.{Metrics, rotate, interval_snapshot}
use anycable_go.Metrics.Running.{
  Rotation, serving, rotating, writing, returned, announced, run_server, after_server, run_writers,
  default_rotate_interval, metrics_run, RotationEvent, server_ends, ticks, writes, closes, ends_in,
  ticks_in, writes_in, closes_in, shut_server, rotation_event, rotation_events,
}

-- Intervals that pass, and calls of `Shutdown`.
abbrev pub NoEnd : List RotationEvent → Type 0
NoEnd [] = Unit
NoEnd (server_ends e ∷ es) = ⊥
NoEnd (ticks ∷ es) = NoEnd es
NoEnd (writes ∷ es) = NoEnd es
NoEnd (closes ∷ es) = NoEnd es

abbrev pub Untouched : Rotation → Rotation → Type 0
Untouched r r' = (r'.metrics ≡ r.metrics) × (r'.written ≡ r.written)

Waits : Rotation → Rotation → Type 0
Waits r r' = (r'.phase ≡ serving) × Untouched r r'

Waits-trans : (a b c : Rotation) → Waits a b → Waits b c → Waits a c
unfolding Waits
Waits-trans a b c (p, (m, w)) (q, (n, v)) = (q, (n ∙ m, v ∙ w))

ticks-Waits : (r : Rotation) → r.phase ≡ serving → Waits r (rotation_event r ticks)
unfolding Waits rotation_event ticks_in
ticks-Waits r e =
    let p = ap (λ x. ticks_in x r) e in
    (ap (λ x. x.phase) p ∙ e, (ap (λ x. x.metrics) p, ap (λ x. x.written) p))

writes-Waits : (r : Rotation) → r.phase ≡ serving → Waits r (rotation_event r writes)
unfolding Waits rotation_event writes_in
writes-Waits r e =
    let p = ap (λ x. writes_in x r) e in
    (ap (λ x. x.phase) p ∙ e, (ap (λ x. x.metrics) p, ap (λ x. x.written) p))

if-Waits : (r r' : Rotation) (b : Bool) → Waits r r' → Waits r r → Waits r (if b then r' else r)
if-Waits r r' true h g = h
if-Waits r r' false h g = g

closes-Waits : (r : Rotation) → r.phase ≡ serving → Waits r (rotation_event r closes)
unfolding Waits rotation_event closes_in
closes-Waits r e =
    if-Waits r
      (record r { is_open = false; server = shut_server r.server; phase = closes_in r.phase })
      r.is_open (ap closes_in e, (refl, refl)) (e, (refl, refl))

while_serving :
    (es : List RotationEvent) (r : Rotation)
    → NoEnd es
    → r.phase ≡ serving
    → Waits r (rotation_events es r)
unfolding rotation_events Waits
while_serving [] r calm e = (e, (refl, refl))
while_serving (server_ends x ∷ es) r calm e = absurd calm
while_serving (ticks ∷ es) r calm e =
    let step = ticks-Waits r e in
    Waits-trans r (rotation_event r ticks) (rotation_events es (rotation_event r ticks)) step
      (while_serving es (rotation_event r ticks) calm step.0)
while_serving (writes ∷ es) r calm e =
    let step = writes-Waits r e in
    Waits-trans r (rotation_event r writes) (rotation_events es (rotation_event r writes)) step
      (while_serving es (rotation_event r writes) calm step.0)
while_serving (closes ∷ es) r calm e =
    let step = closes-Waits r e in
    Waits-trans r (rotation_event r closes) (rotation_events es (rotation_event r closes)) step
      (while_serving es (rotation_event r closes) calm step.0)

started_now :
    (s : HttpServer)
    → s.started ≡ false
    → start_and_announce s none none ≡ (record s { started = true }, served none)
unfolding start_and_announce start
started_now s fresh = ground arith

run_served :
    (r : Rotation) (s : HttpServer)
    → r.server ≡ some s
    → s.started ≡ false
    → metrics_run r none ≡ record r { server = some (record s { started = true }); phase = serving }
unfolding metrics_run run_server announced
run_served r s has fresh = ap (run_server r none) has ∙ ap (announced r) (started_now s fresh)

-- On a server that was started elsewhere, one writer that runs is enough to come to the loop.
pub run_mounted :
    (r : Rotation) (s : HttpServer)
    → r.server ≡ some s
    → s.started ≡ true
    → r.writers ≡ none ∷ []
    → metrics_run r none ≡ record r {
      interval = if r.interval == 0 then default_rotate_interval else r.interval;
      phase = rotating r.is_open;
    }
unfolding metrics_run run_server announced after_server run_writers start_and_announce
run_mounted r s has up one =
    let mounted : start_and_announce s none none ≡ (s, already) = ground arith in
    ap (run_server r none) has ∙ ap (announced r) mounted ∙ ap (after_server r) one

-- When the metrics have a server of their own that nobody has started and its listener opens, then until
-- that server ends, whatever intervals pass and whoever calls `Shutdown`, the metrics are not rotated
-- and the writers are given nothing.
pub own_server_blocks :
    (r : Rotation) (s : HttpServer) (es : List RotationEvent)
    → r.server ≡ some s
    → s.started ≡ false
    → NoEnd es
    → Untouched r (rotation_events es (metrics_run r none))
unfolding Waits
own_server_blocks r s es has fresh calm =
    let now = record r { server = some (record s { started = true }); phase = serving } in
    subst (λ x. Untouched r (rotation_events es x)) (sym (run_served r s has fresh))
      (while_serving es now calm refl).1

abbrev pub rounds : ℕ → List RotationEvent
rounds zero = []
rounds (suc n) = ticks ∷ writes ∷ rounds n

-- What is written in the next rounds, each a snapshot after one more rotation.
abbrev pub snapshots : ℕ → Metrics → List (GoMap ℕ)
snapshots zero m = []
snapshots (suc n) m = interval_snapshot (rotate m) ∷ snapshots n (rotate m)

-- In its loop, each round of `Run` rotates the metrics once and gives the writers one snapshot.
pub rounds_written :
    (n : ℕ) (r : Rotation) (b : Bool)
    → r.phase ≡ rotating b
    → (rotation_events (rounds n) r).written ≡ r.written ++ snapshots n r.metrics
unfolding rotation_events rotation_event ticks_in writes_in
rounds_written zero r b e = sym (append-nil r.written)
rounds_written (suc n) r b e =
    let m = rotate r.metrics in
    let one = interval_snapshot m in
    let next = record r {
      metrics = m;
      phase = rotating r.is_open;
      written = r.written ++ one ∷ [];
    } in
    ap (λ p. (rotation_events (writes ∷ rounds n) (ticks_in p r)).written) e
    ∙ rounds_written n next r.is_open refl
    ∙ append_assoc r.written (one ∷ []) (snapshots n m)

-- Past the close: between two rounds, or at a channel that is nil.
data Adrift (r : Rotation) : Type 0 where
  between : r.is_open ≡ false → r.phase ≡ writing → Adrift r
  at_nil : r.is_open ≡ false → r.phase ≡ rotating false → Adrift r

shut_already : (r : Rotation) → Adrift r → r.is_open ≡ false
shut_already r (between o e) = o
shut_already r (at_nil o e) = o

event-Adrift : (r : Rotation) (e : RotationEvent) → Adrift r → Adrift (rotation_event r e)
unfolding rotation_event ends_in ticks_in writes_in closes_in
event-Adrift r (server_ends x) (between o e) =
    subst Adrift (sym (ap (λ p. ends_in p r x r.server) e)) (between o e)
event-Adrift r (server_ends x) (at_nil o e) =
    subst Adrift (sym (ap (λ p. ends_in p r x r.server) e)) (at_nil o e)
event-Adrift r ticks (between o e) = subst Adrift (sym (ap (λ p. ticks_in p r) e)) (between o e)
event-Adrift r ticks (at_nil o e) = subst Adrift (sym (ap (λ p. ticks_in p r) e)) (between o refl)
event-Adrift r writes (between o e) =
    subst Adrift (sym (ap (λ p. writes_in p r) e)) (at_nil o (ap (λ b. rotating b) o))
event-Adrift r writes (at_nil o e) = subst Adrift (sym (ap (λ p. writes_in p r) e)) (at_nil o e)
event-Adrift r closes a =
    let o = shut_already r a in if_holds Adrift r.is_open _ r (λ on. absurd (cc)) (λ _. a)

events-Adrift : (es : List RotationEvent) (r : Rotation) → Adrift r → Adrift (rotation_events es r)
unfolding rotation_events
events-Adrift [] r a = a
events-Adrift (e ∷ es) r a = events-Adrift es (rotation_event r e) (event-Adrift r e a)

not_returned : (r : Rotation) → Adrift r → (x : Option String) → r.phase ≢ returned x
not_returned r (between o e) x h = cc
not_returned r (at_nil o e) x h = cc

closed-Adrift :
    (r : Rotation) → r.phase ≡ writing → r.is_open ≡ true → Adrift (rotation_event r closes)
unfolding rotation_event closes_in
closed-Adrift r e on =
    if_holds Adrift r.is_open _ r (λ _. between refl (ap closes_in e)) (λ off. absurd (cc))

-- When `Shutdown` comes while the writers are at work, `Run` never returns, whatever happens afterwards.
pub shutdown_missed :
    (r : Rotation) (es : List RotationEvent) (x : Option String)
    → r.phase ≡ writing
    → r.is_open ≡ true
    → (rotation_events (closes ∷ es) r).phase ≢ returned x
unfolding rotation_events
shutdown_missed r es x e on =
    not_returned (rotation_events es (rotation_event r closes))
      (events-Adrift es (rotation_event r closes) (closed-Adrift r e on)) x
