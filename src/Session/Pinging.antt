-- ===== src/Session/Pinging.antt =====
-- How long the ping timer of node/session.go goes on.
use anycable_go.Base.{
  ℕ, ◌≡◌, refl, ◌≢◌, ◌⊎◌, inl, inr, ◌∙◌, sym, ap, String, Bool, true, false, not, is_some, Option,
  none, some, List, [], ◌∷◌, ◌++◌, append-nil, append_assoc, arith, Bool-cases,
}
use anycable_go.Base.Outcome.{Outcome, ok, err, panic}
use anycable_go.Common.{PingMessage}
use anycable_go.Encoders.{SentFrame, Encoder, FrameType, text_frame, binary_frame, close_frame}
use anycable_go.Encoders
use anycable_go.Session.{
  Session, World, Wire, wrote, Ran, ran, write_frame, write_by_type, close_abnormal_closure,
}
use anycable_go.Node.{NodeCounts, node_disconnect, hub_remove_session}
use anycable_go.Session.Steps.{SafeWorld}
use anycable_go.Session.Ending.{Ended, told_node, disconnect_ends}
use anycable_go.Session.Ping.{
  set_timer, ping_written, ping_encoded, send_ping, ping_rounds, and_ping,
}

-- Whether a ping goes well, by what the encoder makes of it and the error of the write.
abbrev pub is_fine : FrameType → Option String → Bool
is_fine close_frame answer = false
is_fine text_frame answer = not (is_some answer)
is_fine binary_frame answer = not (is_some answer)

abbrev pub goes_well : Outcome (Option SentFrame) → Option String → Bool
goes_well (ok (some b)) answer = is_fine b.frame_type answer
goes_well (ok none) answer = true
goes_well (err e) answer = false
goes_well panic answer = false

abbrev pub frame_wire : Outcome (Option SentFrame) → List Wire
frame_wire (ok (some b)) = wrote b ∷ []
frame_wire _ = []

-- A session after its timer's call.
abbrev pub Pinged : World → Bool → List Wire → World → Type 0
Pinged w fine extra w' =
    ((w.session.closed ≡ true) × (w' ≡ set_timer false w))
    ⊎ ((w.session.closed ≡ false)
        × (fine ≡ true)
        × (w'.session ≡ record w.session { ticks = true })
        × (w'.channel ≡ w.channel)
        × (w'.node.register ≡ w.node.register)
        × (w'.wire ≡ w.wire ++ extra))
    ⊎ ((w.session.closed ≡ false) × (fine ≡ false) × Ended w w')

-- A world that is left alone but for the timer, the counters and the connection.
abbrev aside : World → NodeCounts → List Wire → World
aside w counts wire = record (set_timer false w) {
  node = record w.node { counts = counts };
  wire = wire;
}

module _ (w : World) (s : SafeWorld w) (counts : NodeCounts) (wire : List Wire) where
  told_aside :
      ((told_node (aside w counts wire)).register ≡ (told_node w).register)
      × ((told_node (aside w counts wire)).disconnector ≡ (told_node w).disconnector)
  unfolding node_disconnect hub_remove_session
  told_aside = elim (Bool-cases w.session.connected) [
    | inl on ↦ (rw on refl, rw on refl)
    | inr off ↦ (rw off refl, rw off refl)
  ]

  ping_failed :
      (e : String)
      → (w' : World) × (ping_written (aside w counts wire, some e) ≡ ran w')
        × SafeWorld w'
        × Ended w w'
  unfolding ping_written
  ping_failed e =
      let v = aside w counts wire in
      let (w', ends, safe, ended, last) =
        disconnect_ends v "Ping failed" close_abnormal_closure
          (record { channel = s.channel; bound = s.bound }) in
      (
        w',
        ends,
        safe,
        record {
          closed = ended.closed;
          disconnected = ended.disconnected;
          removal = ended.removal ∙ told_aside.0;
          queued = ended.queued ∙ told_aside.1;
        },
      )

-- A call of the timer that ends.
abbrev pub Pings : World → Bool → List Wire → Ran → Type 0
Pings w fine extra r = (w' : World) × (r ≡ ran w') × SafeWorld w' × Pinged w fine extra w'

module _ (w : World) (s : SafeWorld w) (going : w.session.closed ≡ false) where
  fails :
      (counts : NodeCounts) (wire extra : List Wire) (e : String)
      → Pings w false extra (ping_written (aside w counts wire, some e))
  fails counts wire extra e =
      let (w', ends, safe, ended) = ping_failed w s counts wire e in
      (w', ends, safe, inr (inr (going, refl, ended)))

  works :
      (counts : NodeCounts) (extra : List Wire)
      → Pings w true extra (ping_written (aside w counts (w.wire ++ extra), none))
  unfolding ping_written
  works counts extra = (
    set_timer true (aside w counts (w.wire ++ extra)),
    refl,
    record { channel = s.channel; bound = s.bound },
    inr (inl (going, refl, refl, refl, refl, refl)),
  )

  writes :
      (b : SentFrame) (answer : Option String) (t : FrameType) (counts : NodeCounts)
      → Pings w
          (is_fine t answer)
          (wrote b ∷ [])
          (ping_written (write_by_type t (aside w counts w.wire) b answer))
  unfolding write_by_type
  writes b answer close_frame counts = fails counts _ (wrote b ∷ []) "Closed"
  writes b none text_frame counts = works counts (wrote b ∷ [])
  writes b none binary_frame counts = works counts (wrote b ∷ [])
  writes b (some x) text_frame counts = fails counts _ (wrote b ∷ []) x
  writes b (some x) binary_frame counts = fails counts _ (wrote b ∷ []) x

  encoded :
      (o : Outcome (Option SentFrame)) (answer : Option String)
      → o ≢ panic
      → Pings w (goes_well o answer) (frame_wire o) (ping_encoded (set_timer false w) answer o)
  unfolding ping_encoded write_frame
  encoded (ok (some b)) answer calm = writes b answer b.frame_type _
  encoded (ok none) answer calm = (
    set_timer true w,
    refl,
    record { channel = s.channel; bound = s.bound },
    inr (inl (going, refl, refl, refl, refl, sym (append-nil w.wire))),
  )
  encoded (err e) answer calm = fails w.node.counts w.wire [] e
  encoded panic answer calm = absurd (calm refl)

open_ping :
    (encoder : Encoder) (msg : PingMessage) (answer : Option String) (w : World)
    → w.session.closed ≡ false
    → send_ping encoder msg answer w
      ≡ ping_encoded (set_timer false w) answer (encoder.encode (Encoders.ping msg))
unfolding send_ping
open_ping encoder msg answer w going = ground arith

-- The timer's call always ends. On a closed session it does nothing. Otherwise the ping's frame is
-- written to the connection and the timer is set again, with nothing else of the session changed,
-- exactly if the message is encoded and the write gives no error; if not, the session ends.
pub send_ping_cases :
    (encoder : Encoder) (msg : PingMessage) (answer : Option String) (w : World)
    → SafeWorld w
    → encoder.encode (Encoders.ping msg) ≢ panic
    → let o = encoder.encode (Encoders.ping msg) in
      Pings w (goes_well o answer) (frame_wire o) (send_ping encoder msg answer w)
unfolding send_ping
send_ping_cases encoder msg answer w s calm = elim (Bool-cases w.session.closed) [
  | inl shut ↦ (
    set_timer false w,
    ground arith,
    record { channel = s.channel; bound = s.bound },
    inl (shut, refl),
  )
  | inr going ↦
      let (w', ends, safe, cases) =
        encoded w s going (encoder.encode (Encoders.ping msg)) answer calm in
      (w', open_ping encoder msg answer w going ∙ ends, safe, cases)
]

set_again :
    (w v : World) {fine : Bool} (extra : List Wire)
    → Pinged w fine extra v
    → w.session.closed ≡ false
    → w.session.ticks ≡ true
    → fine ≡ true
    → (v.session ≡ w.session) × (v.channel ≡ w.channel) × (v.wire ≡ w.wire ++ extra)
set_again w v extra (inl (shut, same)) going ticks fine = absurd (cc)
set_again w v extra (inr (inl (a, b, session, channel, register, wire))) going ticks fine =
    (session ∙ ap (λ (b : Bool). record w.session { ticks = b }) (sym ticks), channel, wire)
set_again w v extra (inr (inr (a, unfit, ended))) going ticks fine = absurd (cc)

abbrev pub ping_frames : (ℕ → SentFrame) → List ℕ → List Wire
ping_frames frame [] = []
ping_frames frame (t ∷ ts) = wrote (frame t) ∷ ping_frames frame ts

-- The rounds of the timer at these times, each with a write that gives no error.
abbrev pub quiet_rounds : List ℕ → List (ℕ × Option String)
quiet_rounds [] = []
quiet_rounds (t ∷ ts) = (t, none) ∷ quiet_rounds ts

-- While no write gives an error, the pings of an open session go on: each is written in its turn, and
-- the timer is set again after the last, with the rest of the session as it was.
pub ping_rounds_go_on :
    (encoder : Encoder) (build : ℕ → PingMessage) (frame : ℕ → SentFrame) (ts : List ℕ) (w : World)
    → ((t : ℕ) → encoder.encode (Encoders.ping (build t)) ≡ ok (some (frame t)))
    → ((t : ℕ) → (frame t).frame_type ≡ text_frame)
    → SafeWorld w
    → w.session.closed ≡ false
    → w.session.ticks ≡ true
    → (w' : World) × (ping_rounds encoder build (quiet_rounds ts) w ≡ ran w')
      × (w'.session ≡ w.session)
      × (w'.channel ≡ w.channel)
      × (w'.wire ≡ w.wire ++ ping_frames frame ts)
unfolding ping_rounds
ping_rounds_go_on encoder build frame [] w encodes texts s going ticks =
    (w, refl, refl, refl, sym (append-nil w.wire))
ping_rounds_go_on encoder build frame (t ∷ ts) w encodes texts s going ticks =
    let e = encodes t in
    let o = encoder.encode (Encoders.ping (build t)) in
    let fine : goes_well o none ≡ true = rw (e, texts t) refl in
    let (v, first, safe, cases) = send_ping_cases encoder (build t) none w s (λ p. cc) in
    let (session, channel, wire) = set_again w v (frame_wire o) cases going ticks fine in
    let (w', ends, session', channel', wire') =
      ping_rounds_go_on encoder build frame ts v encodes texts safe
        (ap (λ (z : Session). z.closed) session ∙ going)
        (ap (λ (z : Session). z.ticks) session ∙ ticks) in
    (
      w',
      ap (λ (r : Ran). and_ping r (ping_rounds encoder build (quiet_rounds ts))) first ∙ ends,
      session' ∙ session,
      channel' ∙ channel,
      wire'
          ∙ ap (λ (z : List Wire). z ++ ping_frames frame ts)
              (wire ∙ ap (λ (z : Outcome (Option SentFrame)). w.wire ++ frame_wire z) e)
          ∙ append_assoc w.wire _ _,
    )
