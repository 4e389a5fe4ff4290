-- ===== src/Commands/Effects.antt =====
-- What authentication, the commands and a message that does not decode leave behind.
use Prim.Native.String.{len}
use anycable_go.Base.{
  ◌≡◌, refl, sym, ◌∙◌, ap, ◌≢◌, String, true, false, List, ◌∷◌, ◌⊎◌, inl, inr, arith, none, some,
  if◌then◌else◌, Option-cases, is_some,
}
use anycable_go.Base.GoMap.{insert, has}
use anycable_go.Base.Outcome.{err}
use anycable_go.Common.{ConnectResult, connect_to_call_result, Status, success, failure, error}
use anycable_go.Encoders.{Encoder}
use anycable_go.Hub.State.{add_session}
use anycable_go.Protocol.{Answer}
use anycable_go.Session.{World, Ran, ran, disconnect}
use anycable_go.Session.Ending.{disconnect_ends}
use anycable_go.Commands.{
  Controller, and_run, Done, with_subscriptions, subscribed, subscribe, authenticate,
  authenticate_answer, authenticated, enter, count_failed_auth,
}
use anycable_go.Commands.Reading.{
  serve, incoming, Incoming, read_message, read_decoded, count_failed_command, add_data_received,
}
use anycable_go.Commands.Frame.{disconnect-Kept}
use anycable_go.Commands.Health.{Answers, Calm, Healthy, node-Healthy}
use anycable_go.Commands.Unmoved.{
  UnmovedRun, Unmoved-refl, handle_call_reply-Unmoved, result_subscriptions,
}

-- A subscription of a healthy session, to a channel that it has not yet, is recorded exactly if the
-- controller gives no error, also if its result is a rejection; the other subscriptions stay.
pub subscribe_subscriptions :
    (c : Controller) (encoder : Encoder) (w : World) (id : String)
    → Calm encoder
    → Healthy w
    → has id w.session.subscriptions ≡ false
    → let a = c.subscribe w.session.uid w.session.env w.session.identifiers id in
      (w' : World) × ((subscribe c encoder w id).run ≡ ran w')
      × ((subscribe c encoder w id).error ≡ a.error)
      × (w'.session.subscriptions ≡ (
          if is_some a.error
          then w.session.subscriptions
          else insert id true w.session.subscriptions))
unfolding subscribe subscribed
subscribe_subscriptions c encoder w id calm h fresh =
    let a = c.subscribe w.session.uid w.session.env w.session.identifiers id in
    elim (Option-cases a.error) [
      | inr (e, failed) ↦
          let (w', run, h', subs) = result_subscriptions encoder calm id a.result w h in
          rw (fresh, failed) (w', run, refl, subs)
      | inl fine ↦
          let v = with_subscriptions w (insert id true w.session.subscriptions) in
          let (w', run, h', subs) = result_subscriptions encoder calm id a.result v (record {
            safe = record { channel = h.safe.channel; bound = h.safe.bound };
            headers = h.headers;
            connection_state = h.connection_state;
            channel_states = h.channel_states;
          }) in
          rw (fresh, fine) (w', run, refl, subs)
    ]

ran_injective : {u v : World} → ran u ≡ ran v → u ≡ v
ran_injective e = cc

auth_error :
    (encoder : Encoder) (w : World) (a : Answer ConnectResult) (e : String)
    → a.error ≡ some e
    → authenticate_answer encoder a w ≡ disconnect w "Auth Error" 1011
unfolding authenticate_answer
auth_error encoder w a e failed = rw failed refl

auth_answer :
    (encoder : Encoder) (w : World) (a : Answer ConnectResult) (res : ConnectResult)
    → a.error ≡ none
    → a.result ≡ some res
    → authenticate_answer encoder a w ≡ authenticated encoder res.status res w
unfolding authenticate_answer
auth_answer encoder w a res fine there = rw (fine, there) refl

-- A session that is let in.
abbrev pub Entered : World → World → Answer ConnectResult → Type 0
Entered w w' a =
    (res : ConnectResult) × (a.error ≡ none)
    × (a.result ≡ some res)
    × (res.status ≡ success)
    × (w'.node.hub
        ≡ add_session w.node.hub (record { uid = w.session.uid; identifiers = res.identifier }))
    × (w'.session.identifiers ≡ res.identifier)

-- A session that is turned away.
abbrev pub TurnedAway : World → World → Answer ConnectResult → Type 0
TurnedAway w w' a =
    ((res : ConnectResult) → a.error ≡ none → a.result ≡ some res → res.status ≢ success)
    × (w'.node.hub ≡ w.node.hub)
    × (w'.session.closed ≡ true)
    × (w'.session.connected ≡ false)

-- A disconnect after a reply that moved nothing.
turned_away_after :
    (w v : World) (r : Ran) (reason : String) (code : Prim.Native.Nat.ℕ)
    → v.node.hub ≡ w.node.hub
    → UnmovedRun v r
    → (w' : World) × (and_run r (λ u. disconnect u reason code) ≡ ran w')
      × (w'.node.hub ≡ w.node.hub)
      × (w'.session.closed ≡ true)
      × (w'.session.connected ≡ false)
turned_away_after w v r reason code same (u, e, unmoved) =
    let (x, sent, safe, ended, room) = disconnect_ends u reason code unmoved.healthy.safe in
    let (y, sent', safe', keeps) = disconnect-Kept u reason code unmoved.healthy.safe in
    let one : y ≡ x = ran_injective (sym sent' ∙ sent) in
    (
      x,
      ap (λ (z : Ran). and_run z (λ t. disconnect t reason code)) e ∙ sent,
      ap (λ (z : World). z.node.hub) (sym one) ∙ keeps.hub ∙ unmoved.hub ∙ same,
      ended.closed,
      ended.disconnected,
    )

authenticated_cases :
    (encoder : Encoder) (s : Status) (res : ConnectResult) (w : World) (a : Answer ConnectResult)
    → Calm encoder
    → Healthy w
    → a.error ≡ none
    → a.result ≡ some res
    → res.status ≡ s
    → (w' : World) × (authenticated encoder s res w ≡ ran w') × (Entered w w' a ⊎ TurnedAway w w' a)
unfolding authenticated
authenticated_cases encoder success res w a calm h fine there is =
    let entered : Healthy (enter w res.identifier) = record {
      safe = record { channel = h.safe.channel; bound = h.safe.bound };
      headers = h.headers;
      connection_state = h.connection_state;
      channel_states = h.channel_states;
    } in
    let (w', e, u) =
      handle_call_reply-Unmoved encoder calm (connect_to_call_result res) (enter w res.identifier)
        entered in
    (w', e, inl (res, fine, there, is, u.hub, u.identifiers))
authenticated_cases encoder failure res w a calm h fine there is =
    let v = count_failed_auth w in
    let (w', e, hub, closed, off) = turned_away_after w v _ "Auth Failed" 1000 refl (
      handle_call_reply-Unmoved encoder calm (connect_to_call_result res) v
        (node-Healthy encoder calm w v.node h)) in
    (w', e, inr ((λ res' f t ok_status. ground arith), hub, closed, off))
authenticated_cases encoder error res w a calm h fine there is =
    let (w', e, hub, closed, off) =
      turned_away_after w w _ "Auth Failed" 1000 refl
        (handle_call_reply-Unmoved encoder calm (connect_to_call_result res) w h) in
    (w', e, inr ((λ res' f t ok_status. ground arith), hub, closed, off))

-- An authentication always ends one of two ways. If the controller answers SUCCESS, the session is
-- registered with the hub at once, under the identifiers of the answer. Otherwise the hub is left
-- alone and the session is closed and not connected.
pub authenticate_cases :
    (c : Controller) (encoder : Encoder) (w : World)
    → Calm encoder
    → Answers c
    → Healthy w
    → let a = c.authenticate w.session.uid w.session.env in
      (w' : World) × ((authenticate c encoder w).run ≡ ran w')
      × (Entered w w' a ⊎ TurnedAway w w' a)
unfolding authenticate authenticate_answer
authenticate_cases c encoder w calm answers h =
    let a = c.authenticate w.session.uid w.session.env in
    elim (Option-cases a.error) [
      | inr (e, failed) ↦
          let (w', sent, hub, closed, off) =
            turned_away_after w w (ran w) "Auth Error" 1011 refl (w, refl, Unmoved-refl w h) in
          let away : TurnedAway w w' a = ((λ res f t s. absurd (cc)), hub, closed, off) in
          (w', auth_error encoder w a e failed ∙ sent, inr away)
      | inl fine ↦ elim (Option-cases a.result) [
        | inl nil ↦ absurd (answers.authenticated w.session.uid w.session.env h.headers fine nil)
        | inr (res, there) ↦
            let (w', e, cases) =
              authenticated_cases encoder res.status res w a calm h fine there refl in
            (w', auth_answer encoder w a res fine there ∙ e, cases)
      ]
    ]

read_undecoded :
    (c : Controller) (encoder : Encoder) (w : World) (raw e : String)
    → encoder.decode raw ≡ err e
    → read_message c encoder w raw
      ≡ record { run = ran (count_failed_command (add_data_received w (len raw))); error = some e }
unfolding read_message read_decoded
read_undecoded c encoder w raw e bad = rw bad refl

-- A message that does not decode ends the reading and nothing else: the session stays connected
-- and open, in the hub, with its channel and its timer, and only two counters have changed.
pub serve_undecoded :
    (c : Controller) (encoder : Encoder) (w : World) (raw e : String) (rest : List Incoming)
    → encoder.decode raw ≡ err e
    → (w' : World) × (serve c encoder (incoming raw ∷ rest) w
        ≡ record { run = ran w'; reading = false })
      × (w'.session ≡ w.session)
      × (w'.channel ≡ w.channel)
      × (w'.wire ≡ w.wire)
      × (w'.node.hub ≡ w.node.hub)
      × (w'.node.register ≡ w.node.register)
unfolding serve
serve_undecoded c encoder w raw e rest bad =
    let w' = count_failed_command (add_data_received w (len raw)) in
    let read = read_undecoded c encoder w raw e bad in
    let failed : (read_message c encoder w raw).error ≡ some e = ap (λ (d : Done). d.error) read in
    let left : (read_message c encoder w raw).run ≡ ran w' = ap (λ (d : Done). d.run) read in
    rw (serve, failed, left) (w', refl, refl, refl, refl, refl, refl)
