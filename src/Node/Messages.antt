-- ===== src/Node/Messages.antt =====
-- What node/node.go does with a message from pub/sub, whatever its text.
use anycable_go.Base.{◌≡◌, ap, String, ◌⊎◌, inl, inr, ◌++◌, [], ◌∷◌}
use anycable_go.Common.{StreamMessage, RemoteDisconnectMessage, PubSubCodec}
use anycable_go.Common.PubSub.{IsBroadcast, IsRemoteDisconnect, pub_sub_cases}
use anycable_go.Metrics.{inc}
use anycable_go.Node.{Node, handle_pub_sub, handle_parsed}

-- A message from pub/sub is handed on exactly once, as the broadcast or as the remote disconnect
-- that its text is, and counted as a broadcast; any other text changes only the count of unknown
-- messages.
pub handle_pub_sub_cases :
    (codec : PubSubCodec) (n : Node) (raw : String)
    → ((msg : StreamMessage) × IsBroadcast codec raw msg
        × (handle_pub_sub codec n raw ≡ record n {
          broadcast = n.broadcast ++ msg ∷ [];
          counts = record n.counts { broadcast_msg = inc n.counts.broadcast_msg };
        }))
      ⊎ ((msg : RemoteDisconnectMessage) × IsRemoteDisconnect codec raw msg
          × (handle_pub_sub codec n raw ≡ record n {
            disconnect = n.disconnect ++ msg ∷ [];
            counts = record n.counts { broadcast_msg = inc n.counts.broadcast_msg };
          }))
      ⊎ (((msg : StreamMessage) → ¬ IsBroadcast codec raw msg)
          × ((msg : RemoteDisconnectMessage) → ¬ IsRemoteDisconnect codec raw msg)
          × (handle_pub_sub codec n raw ≡ record n {
            counts = record n.counts { unknown_broadcast = inc n.counts.unknown_broadcast };
          }))
unfolding handle_pub_sub
handle_pub_sub_cases codec n raw = elim (pub_sub_cases codec raw) [
  | inl (msg, is_broadcast, e) ↦ inl (msg, is_broadcast, ap (handle_parsed n) e)
  | inr (inl (msg, is_remote, e)) ↦ inr (inl (msg, is_remote, ap (handle_parsed n) e))
  | inr (inr (err, not_one, not_other, e)) ↦ inr (inr (not_one, not_other, ap (handle_parsed n) e))
]
