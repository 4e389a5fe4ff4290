-- ===== src/Commands/Life.antt =====
-- A session's whole life: it is made, authenticated, and read from until the reading ends.
use anycable_go.Base.{
  ◌≡◌, refl, ◌∙◌, ap, ◌≢◌, String, List, [], ◌∷◌, inl, inr, arith, Option, none, some, Option-cases,
}
use anycable_go.Base.GoMap.{GoMap}
use anycable_go.Base.Outcome.{Outcome, ok, err, panic}
use anycable_go.Common.{Message, new_session_env}
use anycable_go.Encoders.{Encoder}
use anycable_go.Node.{Node}
use anycable_go.Session.{World, Ran, ran, start_session, new_session}
use anycable_go.Session.Steps.{SafeWorld}
use anycable_go.Session.Ending.{disconnect_now_ends}
use anycable_go.Commands.{Controller, and_run, Done, authenticate, handle_command}
use anycable_go.Commands.Reading.{
  after_command, read_decoded, read_message, Incoming, incoming, closing, broken, serve,
  count_received, count_failed_command, add_data_received,
}
use anycable_go.Commands.Health.{Healthy, Answers, Calm, Runs, and_run-Runs, ran-Runs, node-Healthy}
use anycable_go.Commands.Calls.{handle_command-Runs, authenticate-Runs}

-- The encoder takes every transmission and every message, if with an error.
pub record CalmEncoder (encoder : Encoder) : Type 0 where
  pub transmissions : Calm encoder
  pub decoding : (raw : String) → encoder.decode raw ≢ panic

-- A run that ends.
abbrev pub Ends : Ran → Type 0
Ends r = (w : World) × (r ≡ ran w) × SafeWorld w

pub Runs-Ends : {r : Ran} → Runs r → Ends r
Runs-Ends (w, e, h) = (w, e, h.safe)

pub start_session-Healthy :
    (n : Node) (url : String) (headers : Option (GoMap String)) (uid : String)
    → headers ≢ none
    → Healthy (start_session n url headers uid)
unfolding start_session new_session new_session_env
start_session-Healthy n url headers uid there = record {
  safe = record { channel = refl; bound = omega arith };
  headers = there;
  connection_state = λ e. absurd (cc);
  channel_states = λ e. absurd (cc);
}

module _ (c : Controller) (answers : Answers c) (encoder : Encoder)
    (calm : CalmEncoder encoder) where
  after_command-Runs : (d : Done) → Runs d.run → Runs (after_command d).run
  after_command-Runs d r = elim (Option-cases d.error) [
    | inl fine ↦ rw fine r
    | inr (e, failed) ↦ rw failed (
        and_run-Runs d.run (λ w. ran (count_failed_command w)) r
          (λ w h.
            ran-Runs (count_failed_command w)
              (node-Healthy encoder calm.transmissions w (count_failed_command w).node h)))
  ]

  read_decoded-Runs :
      (w : World) (o : Outcome (Option Message))
      → o ≢ panic
      → Healthy w
      → Runs (read_decoded c encoder w o).run
  unfolding read_decoded
  read_decoded-Runs w (err e) ne h =
      ran-Runs (count_failed_command w)
        (node-Healthy encoder calm.transmissions w (count_failed_command w).node h)
  read_decoded-Runs w (ok none) ne h = ran-Runs w h
  read_decoded-Runs w (ok (some msg)) ne h =
      after_command-Runs (handle_command c encoder (count_received w) msg) (
        handle_command-Runs encoder calm.transmissions c answers (count_received w)
          (node-Healthy encoder calm.transmissions w (count_received w).node h) msg)
  read_decoded-Runs w panic ne h = absurd (ne refl)

  read_message-Runs :
      (w : World) (raw : String) → Healthy w → Runs (read_message c encoder w raw).run
  unfolding read_message
  read_message-Runs w raw h =
      let w' = add_data_received w _ in
      read_decoded-Runs w' (encoder.decode raw) (calm.decoding raw)
        (node-Healthy encoder calm.transmissions w w'.node h)

  serve-Ends : (reads : List Incoming) (w : World) → Healthy w → Ends (serve c encoder reads w).run
  unfolding serve
  serve-Ends [] w h = (w, refl, h.safe)
  serve-Ends (closing ∷ rest) w h =
      let (w', e, safe, closed, wire, later) = disconnect_now_ends w "Read closed" 1000 h.safe in
      (w', e, safe)
  serve-Ends (broken ∷ rest) w h =
      let (w', e, safe, closed, wire, later) = disconnect_now_ends w "Read failed" 1006 h.safe in
      (w', e, safe)
  serve-Ends (incoming raw ∷ rest) w h =
      let (w', e, h') = read_message-Runs w raw h in
      elim (Option-cases (read_message c encoder w raw).error) [
        | inr (reason, bad) ↦ rw (serve, bad) (w', e, h'.safe)
        | inl fine ↦ rw (serve, fine, e) (serve-Ends rest w' h')
      ]

  -- The life of a session that is made for a connection, with its headers: its authentication and then
  -- its reading, whatever the client sends and however the controller answers, never panic, and
  -- leave the session's channel safe.
  pub session_life :
      (n : Node) (url : String) (headers : Option (GoMap String)) (uid : String)
      (reads : List Incoming)
      → headers ≢ none
      → Ends (
          and_run
            (authenticate c encoder (start_session n url headers uid)).run
            (λ w. (serve c encoder reads w).run))
  unfolding start_session new_session new_session_env
  session_life n url headers uid reads there =
      let w = start_session n url headers uid in
      let healthy = start_session-Healthy n url headers uid there in
      let (w', e, h') = authenticate-Runs encoder calm.transmissions c w answers healthy in
      let (w'', e', safe) = serve-Ends reads w' h' in
      (w'', ap (λ (z : Ran). and_run z (λ v. (serve c encoder reads v).run)) e ∙ e', safe)
