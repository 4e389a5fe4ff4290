-- ===== src/Session/Ping.antt =====
-- The ping timer of node/session.go, with the clock and the connection's answers as arguments.
use anycable_go.Base.{
  ℕ, ◌/◌, String, Bool, true, false, Option, none, some, List, [], ◌∷◌, ◌=s=◌, if◌then◌else◌,
}
use anycable_go.Base.Outcome.{Outcome, ok, err, panic}
use anycable_go.Common.{PingMessage, Json}
use anycable_go.Encoders.{SentFrame, Encoder}
use anycable_go.Encoders
use anycable_go.Session.{World, Ran, panicked, ran, disconnect, write_frame, close_abnormal_closure}

-- The time in the precision that is set, from the clock's nanoseconds.
unfoldable pub ping_timestamp : String → ℕ → ℕ
ping_timestamp format nanos =
    if format =s= "ns"
    then nanos
    else (if format =s= "ms" then nanos / 1000000 else nanos / 1000000000)

-- `literal` writes a number as `encoding/json` does.
unfoldable pub new_ping_message : (ℕ → String) → String → ℕ → PingMessage
unfolding ping_timestamp
new_ping_message literal format nanos = record {
  kind = "ping";
  message = Json.number (literal (ping_timestamp format nanos));
}

abbrev pub set_timer : Bool → World → World
set_timer b w = record w { session = record w.session { ticks = b } }

unfoldable pub ping_written : World × Option String → Ran
ping_written (w, none) = ran (set_timer true w)
ping_written (w, some e) = disconnect w "Ping failed" close_abnormal_closure

unfoldable pub ping_encoded : World → Option String → Outcome (Option SentFrame) → Ran
unfolding ping_written
ping_encoded w answer (ok (some b)) = ping_written (write_frame w b answer)
ping_encoded w answer (ok none) = ping_written (w, none)
ping_encoded w answer (err e) = ping_written (w, some e)
ping_encoded w answer panic = panicked

-- `sendPing`, which the timer has called and which `addPing` follows; `answer` is the error of the
-- connection's write. The frame does not go through the session's channel.
unfoldable pub send_ping : Encoder → PingMessage → Option String → World → Ran
unfolding ping_encoded
send_ping encoder msg answer w =
    if w.session.closed
    then ran (set_timer false w)
    else ping_encoded (set_timer false w) answer (encoder.encode (Encoders.ping msg))

abbrev pub and_ping : Ran → (World → Ran) → Ran
and_ping Ran.too_deep f = Ran.too_deep
and_ping panicked f = panicked
and_ping (ran w) f = f w

-- The timer's calls one after the other, each with the clock's time and the error of its write.
unfoldable pub ping_rounds : Encoder → (ℕ → PingMessage) → List (ℕ × Option String) → World → Ran
unfolding send_ping
ping_rounds encoder build [] w = ran w
ping_rounds encoder build ((nanos, answer) ∷ rest) w =
    and_ping (send_ping encoder (build nanos) answer w) (ping_rounds encoder build rest)
