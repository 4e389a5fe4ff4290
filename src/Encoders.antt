-- ===== src/Encoders.antt =====
-- encoders/encoder.go, encoders/json.go, the frames of ws/ws.go and node/encoding_cache.go: how a
-- message becomes a frame, and the cache that broadcasts use to encode a message once.
pub mod Cache
use anycable_go.Base.{String, Bool, Option, none, some, List, []}
use anycable_go.Base.{=s=_refl, if◌then◌else◌}
use anycable_go.Base.GoMap.{GoMap, lookup, insert, has}
use anycable_go.Base.Outcome.{Outcome, ok, err, panic}
use anycable_go.Common.{Message, PingMessage, DisconnectMessage, Reply}

pub data FrameType : Type 0 where
  text_frame close_frame binary_frame : FrameType

pub record SentFrame : Type 0 where
  pub frame_type : FrameType
  pub payload : String
  pub close_code : Prim.Native.Nat.ℕ
  pub close_reason : String

-- The three types that implement the interface EncodedMessage beside the cached one.
pub data EncodedMessage : Type 0 where
  reply : Reply → EncodedMessage
  ping : PingMessage → EncodedMessage
  disconnect : DisconnectMessage → EncodedMessage

unfoldable pub get_type : EncodedMessage → String
get_type (reply _) = "message"
get_type (ping _) = "ping"
get_type (disconnect _) = "disconnect"

-- A nil frame or message is `none`; a nil `*Message` comes from the input `null`.
pub record Encoder : Type 0 where
  pub id : String
  pub encode : EncodedMessage → Outcome (Option SentFrame)
  pub encode_transmission : String → Outcome (Option SentFrame)
  pub decode : String → Outcome (Option Message)

-- `json.Marshal` and `json.Unmarshal` into a `*Message`, which decodes `null` to nil.
pub record JsonCodec : Type 0 where
  pub marshal : EncodedMessage → Option String
  pub unmarshal : String → Outcome (Option Message)

abbrev pub text_of : String → SentFrame
text_of payload = record {
  frame_type = text_frame;
  payload = payload;
  close_code = 0;
  close_reason = "";
}

json_encode : JsonCodec → EncodedMessage → Outcome (Option SentFrame)
json_encode codec msg = elim (codec.marshal msg) [ none ↦ panic | some b ↦ ok (some (text_of b)) ]

unfoldable pub json_encoder : JsonCodec → Encoder
unfolding json_encode
json_encoder codec = record {
  id = "json";
  encode = json_encode codec;
  encode_transmission = λ msg. ok (some (text_of msg));
  decode = codec.unmarshal;
}

-- A nil entry records that the encoding failed.
abbrev pub EncodingCache : Type 0
EncodingCache = GoMap (Option SentFrame)

abbrev pub EncodingFunction : Type 0
EncodingFunction = EncodedMessage → Outcome (Option SentFrame)

read_cached : Option (Option SentFrame) → Outcome SentFrame
read_cached none = err "Encoding failed"
read_cached (some none) = err "Encoding failed"
read_cached (some (some b)) = ok b

-- The rest of `Fetch` once the callback has answered.
store_and_read :
    EncodingCache → String → Outcome (Option SentFrame) → EncodingCache × Outcome SentFrame
unfolding read_cached
store_and_read cache encoder (ok b) =
    let cache' = insert encoder b cache in (cache', read_cached (lookup encoder cache'))
store_and_read cache encoder (err _) =
    let cache' = insert encoder none cache in (cache', read_cached (lookup encoder cache'))
store_and_read cache encoder panic = (cache, panic)

unfoldable pub cache_fetch :
    EncodingCache → EncodedMessage → String → EncodingFunction → EncodingCache × Outcome SentFrame
unfolding store_and_read
cache_fetch cache msg encoder callback =
    if has encoder cache
    then (cache, read_cached (lookup encoder cache))
    else store_and_read cache encoder (callback msg)

pub record CachedEncodedMessage : Type 0 where
  pub target : EncodedMessage
  pub cache : EncodingCache

unfoldable pub new_cached_encoded_message : EncodedMessage → CachedEncodedMessage
new_cached_encoded_message msg = record { target = msg; cache = [] }

unfoldable pub cached_get_type : CachedEncodedMessage → String
cached_get_type msg = get_type msg.target

unfoldable pub cached_fetch :
    CachedEncodedMessage → String → EncodingFunction → CachedEncodedMessage × Outcome SentFrame
unfolding cache_fetch
cached_fetch msg id callback =
    let (cache', res) = cache_fetch msg.cache msg.target id callback in
    (record msg { cache = cache' }, res)
