-- ===== src/Commands/Reading.antt =====
-- The reading side of node/session.go: a message from the client, and the loop `Serve`.
use Prim.Native.String.{len}
use anycable_go.Base.{ℕ, String, Bool, true, false, Option, none, some, List, [], ◌∷◌}
use anycable_go.Base.Outcome.{Outcome, ok, err, panic}
use anycable_go.Common.{Message}
use anycable_go.Metrics.{inc, add_u64}
use anycable_go.Encoders.{Encoder}
use anycable_go.Session.{
  World, disconnect_now, Ran, too_deep, panicked, ran, close_normal_closure, close_abnormal_closure,
}
use anycable_go.Commands.{Controller, and_run, Done, refuse, handle_command}

abbrev pub count_received : World → World
count_received w = record w {
  node = record w.node {
    counts = record w.node.counts { received_msg = inc w.node.counts.received_msg };
  };
}

abbrev pub count_failed_command : World → World
count_failed_command w = record w {
  node = record w.node {
    counts = record w.node.counts {
      failed_command_received = inc w.node.counts.failed_command_received;
    };
  };
}

abbrev pub add_data_received : World → ℕ → World
add_data_received w n = record w {
  node = record w.node {
    counts = record w.node.counts { data_received = add_u64 w.node.counts.data_received n };
  };
}

-- A command's error is counted and does not end the reading.
abbrev pub after_command : Done → Done
after_command d = record {
  run = elim d.error [ none ↦ d.run | some e ↦ and_run d.run (λ w. ran (count_failed_command w)) ];
  error = none;
}

unfoldable pub read_decoded : Controller → Encoder → World → Outcome (Option Message) → Done
read_decoded c encoder w (err e) = refuse (count_failed_command w) e
read_decoded c encoder w (ok none) = record { run = ran w; error = none }
read_decoded c encoder w (ok (some msg)) =
    after_command (handle_command c encoder (count_received w) msg)
read_decoded c encoder w panic = record { run = panicked; error = none }

unfoldable pub read_message : Controller → Encoder → World → String → Done
unfolding read_decoded
read_message c encoder w raw =
    read_decoded c encoder (add_data_received w (len raw)) (encoder.decode raw)

-- What `conn.Read` gives: a message, an error of an expected closing, or another error.
pub data Incoming : Type 0 where
  incoming : String → Incoming
  closing : Incoming
  broken : Incoming

-- The loop of `Serve` over what it reads; the second part tells whether it still reads.
pub record Served : Type 0 where
  pub run : Ran
  pub reading : Bool

unfoldable pub serve : Controller → Encoder → List Incoming → World → Served
serve c encoder [] w = record { run = ran w; reading = true }
serve c encoder (closing ∷ rest) w = record {
  run = disconnect_now w "Read closed" close_normal_closure;
  reading = false;
}
serve c encoder (broken ∷ rest) w = record {
  run = disconnect_now w "Read failed" close_abnormal_closure;
  reading = false;
}
serve c encoder (incoming raw ∷ rest) w =
    let d = read_message c encoder w raw in
    elim d.error [
      | some e ↦ record { run = d.run; reading = false }
      | none ↦ elim d.run [
        | ran w' ↦ serve c encoder rest w'
        | too_deep ↦ record { run = too_deep; reading = false }
        | panicked ↦ record { run = panicked; reading = false }
      ]
    ]
