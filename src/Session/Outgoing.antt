-- ===== src/Session/Outgoing.antt =====
-- What node/session.go makes of a message before it is sent, and the merge of a whole env.

use anycable_go.Base.{String, Option, none, some, [], ◌∷◌}
use anycable_go.Base.GoMap.{GoMap}
use anycable_go.Base.Outcome.{Outcome, ok, err, panic}
use anycable_go.Common.{SessionEnv, merge_connection_state, merge_channel_state}
use anycable_go.Encoders.{SentFrame, EncodedMessage, Encoder, CachedEncodedMessage, cached_fetch}
use anycable_go.Session.{World, Ran, panicked, ran, send_frame}

-- `sendFrame(b)` unless b is nil; an encoder's error is logged only.
unfoldable pub send_encoded : World → Outcome (Option SentFrame) → Ran
send_encoded w (ok (some b)) = send_frame w b
send_encoded w (ok none) = ran w
send_encoded w (err e) = ran w
send_encoded w panic = panicked

unfoldable pub send_message : Encoder → World → EncodedMessage → Ran
unfolding send_encoded
send_message encoder w msg = send_encoded w (encoder.encode msg)

abbrev pub lifted : Outcome SentFrame → Outcome (Option SentFrame)
lifted (ok b) = ok (some b)
lifted (err e) = err e
lifted panic = panic

-- `Send` of a message that is shared between sessions, with its cache.
unfoldable pub send_cached : Encoder → World → CachedEncodedMessage → CachedEncodedMessage × Ran
unfolding send_encoded
send_cached encoder w msg =
    let (msg', res) = cached_fetch msg encoder.id encoder.encode in
    (msg', send_encoded w (lifted res))

unfoldable pub send_json_transmission : Encoder → World → String → Ran
unfolding send_encoded
send_json_transmission encoder w msg = send_encoded w (encoder.encode_transmission msg)

-- The loop over the states in `MergeEnv`; `none` is a panic at a nil pointer.
unfoldable pub merge_channels : SessionEnv → GoMap (GoMap String) → Option SessionEnv
merge_channels env [] = some env
merge_channels env ((id, state) ∷ rest) = elim (merge_channel_state env id state) [
  | none ↦ none
  | some env' ↦ merge_channels env' rest
]

abbrev pub merge_channels_of : Option (GoMap (GoMap String)) → SessionEnv → Option SessionEnv
merge_channels_of none env = some env
merge_channels_of (some states) env = merge_channels env states

unfoldable pub merge_env : SessionEnv → SessionEnv → Option SessionEnv
merge_env env other = elim other.connection_state [
  | none ↦ merge_channels_of other.channel_states env
  | some state ↦ elim (merge_connection_state env state) [
    | none ↦ none
    | some env' ↦ merge_channels_of other.channel_states env'
  ]
]
