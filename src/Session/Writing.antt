-- ===== src/Session/Writing.antt =====
-- What the writing goroutine of node/session.go writes before a session's end.
use Prim.Native.String.{len}
use anycable_go.Base.{
  append-nil, append_assoc, ℕ, zero, suc, ◌≡◌, refl, sym, ◌∙◌, ap, ◌≢◌, String, true, false, Option,
  none, List, [], ◌∷◌, ◌++◌, length, All, arith,
}
use anycable_go.Encoders.{SentFrame, FrameType, text_frame, close_frame, binary_frame}
use anycable_go.Session.{
  World, Ran, ran, Wire, wrote, shut, write_frame, write_by_type, add_data_sent, disconnect_now,
  close_message,
}
use anycable_go.Session.Writer.{
  count_sent, count_failed_sent, frame_received, receive_frame, goes_on, ended, after_write,
  send_messages_round, send_messages,
}
use anycable_go.Session.Steps.{SafeWorld}
use anycable_go.Session.Ending.{disconnect_now_ends}

-- So many writes without an error.
abbrev pub quiet : ℕ → List (Option String)
quiet zero = []
quiet (suc n) = none ∷ quiet n

abbrev pub wires : List SentFrame → List Wire
wires [] = []
wires (frame ∷ frames) = wrote frame ∷ wires frames

-- A world after a frame was taken from the channel.
abbrev took : World → List SentFrame → World
took w rest = record w { channel = record w.channel { frames = rest } }

-- A world after a frame was written.
abbrev written : World → SentFrame → List SentFrame → World
written w frame rest =
    count_sent (record (add_data_sent (took w rest) (len frame.payload)) {
      wire = w.wire ++ wrote frame ∷ [];
    })

receive_first :
    (w : World) (frame : SentFrame) (rest : List SentFrame)
    → w.channel.frames ≡ frame ∷ rest
    → receive_frame w.channel ≡ frame_received frame (record w.channel { frames = rest })
unfolding receive_frame
receive_first w frame rest e = rw e refl

by_type :
    (t : FrameType) (w : World) (frame : SentFrame)
    → t ≢ close_frame
    → write_by_type t w frame none ≡ (record w { wire = w.wire ++ wrote frame ∷ [] }, none)
unfolding write_by_type
by_type text_frame w frame other = refl
by_type binary_frame w frame other = refl
by_type close_frame w frame other = absurd (other refl)

round_writes :
    (w : World) (frame : SentFrame) (rest : List SentFrame)
    → w.channel.frames ≡ frame ∷ rest
    → frame.frame_type ≢ close_frame
    → send_messages_round w none ≡ goes_on (written w frame rest)
unfolding send_messages_round write_frame after_write
round_writes w frame rest e other =
    rw (send_messages_round, receive_first w frame rest e)
      (ap after_write
        (by_type frame.frame_type (add_data_sent (took w rest) (len frame.payload)) frame other))

-- A world after the close frame was taken and the connection closed, with the failure counted.
abbrev shut_once : World → String → ℕ → List SentFrame → World
shut_once w reason code rest =
    count_failed_sent
      (record (add_data_sent (took w rest) 0) { wire = w.wire ++ shut reason code ∷ [] })

round_shuts :
    (w : World) (reason : String) (code : ℕ) (rest : List SentFrame)
    → w.channel.frames ≡ close_message reason code ∷ rest
    → send_messages_round w none
      ≡ ended (disconnect_now (shut_once w reason code rest) "Write Failed" 1006)
unfolding send_messages_round write_frame write_by_type after_write
round_shuts w reason code rest e =
    rw (send_messages_round, receive_first w (close_message reason code) rest e) refl

ends_now :
    (w : World) (answer : Option String) (answers : List (Option String)) (r : Ran)
    → send_messages_round w answer ≡ ended r
    → send_messages (answer ∷ answers) w ≡ ended r
unfolding send_messages
ends_now w answer answers r e = rw (send_messages, e) refl

goes_now :
    (w : World) (answer : Option String) (answers : List (Option String)) (w' : World)
    → send_messages_round w answer ≡ goes_on w'
    → send_messages (answer ∷ answers) w ≡ send_messages answers w'
unfolding send_messages
goes_now w answer answers w' e = rw (send_messages, e) refl

-- While no write to the connection fails, the frames that stand before a close frame are written, in
-- their order and each once; then the connection is closed with the close frame's reason and code, and
-- the session ends. What stands behind the close frame is not written. The deferred end closes the
-- connection a second time.
pub send_messages_order :
    (before after : List SentFrame) (reason : String) (code : ℕ) (w : World)
    → SafeWorld w
    → w.channel.frames ≡ before ++ close_message reason code ∷ after
    → All (λ (f : SentFrame). f.frame_type ≢ close_frame) before
    → (w' : World) × (send_messages (quiet (suc (length before))) w ≡ ended (ran w'))
      × (w'.wire ≡ (w.wire ++ wires before) ++ shut reason code ∷ shut "Write Failed" 1006 ∷ [])
      × (w'.session.connected ≡ false)
      × (w'.session.closed ≡ true)
send_messages_order [] after reason code w s e h =
    let u = shut_once w reason code after in
    let safe : SafeWorld u = record { channel = s.channel; bound = ground (arith, s.bound) } in
    let (w', now, safe', done_well, wire, later) = disconnect_now_ends u "Write Failed" 1006 safe in
    (
      w',
      ends_now w none [] _ (round_shuts w reason code after e) ∙ ap ended now,
      wire
          ∙ append_assoc w.wire (shut reason code ∷ []) (shut "Write Failed" 1006 ∷ [])
          ∙ ap (λ (z : List Wire). z ++ shut reason code ∷ shut "Write Failed" 1006 ∷ [])
              (sym (append-nil w.wire)),
      done_well.disconnected,
      done_well.closed,
    )
send_messages_order (frame ∷ before) after reason code w s e h =
    let rest = before ++ close_message reason code ∷ after in
    let v = written w frame rest in
    let safe : SafeWorld v = record { channel = s.channel; bound = ground (arith, s.bound) } in
    let (w', run, wire, off, closed) =
      send_messages_order before after reason code v safe refl h.1 in
    (
      w',
      goes_now w none (quiet (suc (length before))) v (round_writes w frame rest e h.0) ∙ run,
      wire
          ∙ ap (λ (z : List Wire). z ++ shut reason code ∷ shut "Write Failed" 1006 ∷ [])
              (append_assoc w.wire (wrote frame ∷ []) (wires before)),
      off,
      closed,
    )
