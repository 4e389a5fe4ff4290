-- ===== src/Common/PubSub.antt =====
-- Which texts common/common.go takes for a broadcast and which for a remote disconnect.
use anycable_go.Base.{
  ◌≡◌, ◌∙◌, sym, subst, Bool-cases, =s=_false, ◌⊎◌, inl, inr, ◌≢◌, String, none, some, arith, ◌=s=◌,
  =s=_iff, Option-cases,
}
use anycable_go.Common.{
  StreamMessage, RemoteDisconnectMessage, PubSubCodec, PubSubResult, parsed, failed, PubSubError,
  stream_message, remote_disconnect, pub_sub_message_from_json, RemoteCommandMessage, parse_command,
  parse_payload, malformed, malformed_payload, unknown_message,
}

-- A text for a broadcast: it decodes as a stream message with a stream.
abbrev pub IsBroadcast : PubSubCodec → String → StreamMessage → Type 0
IsBroadcast codec raw msg = (codec.stream_of raw ≡ some msg) × (msg.stream ≢ "")

-- A text for a remote disconnect: no broadcast, and the command "disconnect" with its payload.
abbrev pub IsRemoteDisconnect : PubSubCodec → String → RemoteDisconnectMessage → Type 0
IsRemoteDisconnect codec raw msg =
    ((m : StreamMessage) → codec.stream_of raw ≡ some m → m.stream ≡ "")
    × (c : RemoteCommandMessage) × (codec.command_of raw ≡ some c)
    × (c.command ≡ "disconnect")
    × (codec.disconnect_of c.payload ≡ some msg)

abbrev pub NoBroadcast : PubSubCodec → String → Type 0
NoBroadcast codec raw = (m : StreamMessage) → codec.stream_of raw ≡ some m → m.stream ≡ ""

-- How a command's text is read.
abbrev pub CommandRead : PubSubCodec → String → PubSubResult → Type 0
CommandRead codec raw r =
    ((msg : RemoteDisconnectMessage) × (c : RemoteCommandMessage) × (codec.command_of raw ≡ some c)
      × (c.command ≡ "disconnect")
      × (codec.disconnect_of c.payload ≡ some msg)
      × (r ≡ parsed (remote_disconnect msg)))
    ⊎ ((e : PubSubError) × (r ≡ failed e)
        × ((c : RemoteCommandMessage)
            → codec.command_of raw ≡ some c
            → c.command ≡ "disconnect"
            → codec.disconnect_of c.payload ≡ none))

parse_command_cases :
    (codec : PubSubCodec) (raw : String) → CommandRead codec raw (parse_command codec raw)
unfolding parse_command parse_payload
parse_command_cases codec raw = elim (Option-cases (codec.command_of raw)) [
  | inl bad ↦ inr (malformed, ground arith, λ c e d. absurd (cc))
  | inr (c, e) ↦ elim (Bool-cases (c.command =s= "disconnect")) [
    | inl is_disconnect ↦
        let named : c.command ≡ "disconnect" = (=s=_iff c.command "disconnect").0 is_disconnect in
        elim (Option-cases (codec.disconnect_of c.payload)) [
          | inl bad ↦ inr (
            malformed_payload,
            ground arith,
            λ c' e' d.
                let same : c ≡ c' = ground arith in
                subst (λ (z : RemoteCommandMessage). codec.disconnect_of z.payload ≡ none) same bad,
          )
          | inr (msg, d) ↦ inl (msg, c, e, named, d, ground arith)
        ]
    | inr other ↦ inr (
      unknown_message raw,
      ground arith,
      λ c' e' d.
          let same : c ≡ c' = ground arith in
          absurd (
            =s=_false c.command "disconnect" other
              (subst (λ (z : RemoteCommandMessage). z.command ≡ "disconnect") (sym same) d)),
    )
  ]
]

-- The outcome once the text is no broadcast.
as_command :
    (codec : PubSubCodec) (raw : String) {r : PubSubResult}
    → NoBroadcast codec raw
    → r ≡ parse_command codec raw
    → ((msg : StreamMessage) × IsBroadcast codec raw msg × (r ≡ parsed (stream_message msg)))
      ⊎ ((msg : RemoteDisconnectMessage) × IsRemoteDisconnect codec raw msg
          × (r ≡ parsed (remote_disconnect msg)))
      ⊎ ((e : PubSubError) × ((msg : StreamMessage) → ¬ IsBroadcast codec raw msg)
          × ((msg : RemoteDisconnectMessage) → ¬ IsRemoteDisconnect codec raw msg)
          × (r ≡ failed e))
as_command codec raw nb e = elim (parse_command_cases codec raw) [
  | inl (msg, c, is_c, d, there, q) ↦ inr (inl (msg, (nb, c, is_c, d, there), e ∙ q))
  | inr (err, q, not_one) ↦ inr (
      inr (
        err,
        λ msg b. b.1 (nb msg b.0),
        λ msg (b : IsRemoteDisconnect codec raw msg).
            let (nb', c, is_c, d, there) = b in let gone = not_one c is_c d in absurd (cc),
        e ∙ q,
      ))
]

-- A text from pub/sub is a broadcast exactly if it decodes with a stream that has a name. Otherwise
-- it is a remote disconnect if it decodes as that command with its payload, and an error if not.
pub pub_sub_cases :
    (codec : PubSubCodec) (raw : String)
    → ((msg : StreamMessage) × IsBroadcast codec raw msg
        × (pub_sub_message_from_json codec raw ≡ parsed (stream_message msg)))
      ⊎ ((msg : RemoteDisconnectMessage) × IsRemoteDisconnect codec raw msg
          × (pub_sub_message_from_json codec raw ≡ parsed (remote_disconnect msg)))
      ⊎ ((e : PubSubError) × ((msg : StreamMessage) → ¬ IsBroadcast codec raw msg)
          × ((msg : RemoteDisconnectMessage) → ¬ IsRemoteDisconnect codec raw msg)
          × (pub_sub_message_from_json codec raw ≡ failed e))
unfolding pub_sub_message_from_json
pub_sub_cases codec raw = elim (Option-cases (codec.stream_of raw)) [
  | inl none_there ↦ as_command codec raw (λ m e. absurd (cc)) (ground arith)
  | inr (msg, e) ↦ elim (Bool-cases (msg.stream =s= "")) [
    | inr named ↦ inl (msg, (e, =s=_false msg.stream "" named), ground arith)
    | inl empty ↦
        let is_empty : msg.stream ≡ "" = (=s=_iff msg.stream "").0 empty in
        as_command codec raw
          (λ m f.
            let same : msg ≡ m = ground arith in
            subst (λ (z : StreamMessage). z.stream ≡ "") same is_empty)
          (ground arith)
  ]
]
