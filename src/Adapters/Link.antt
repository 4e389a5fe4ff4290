-- ===== src/Adapters/Link.antt =====
-- One connection of pubsub/redis.go: what `listen` hands on, and what it leaves of the subscriber.
use anycable_go.Base.{
  ◌≡◌, refl, inl, inr, String, Bool, true, false, not, ◌&&◌, ◌||◌, Option, none, some, List, [],
  ◌∷◌, ◌++◌, is_some, ◌=s=◌, arith, Bool-cases, Option-cases,
}
use anycable_go.Common.{PubSubCodec}
use anycable_go.Node.{Node, handle_pub_sub}
use anycable_go.Adapters.{
  LinkEvent, message, subscription, receive_error, pinged, link_loop, Round, RedisSubscriber,
  listen,
}

-- The messages that come before the connection's error, and the error.
abbrev pub heard : List LinkEvent → List String
heard [] = []
heard (message raw ∷ es) = raw ∷ heard es
heard (receive_error e ∷ es) = []
heard (subscription ∷ es) = heard es
heard (pinged answer ∷ es) = heard es

abbrev pub ending : List LinkEvent → Option String
ending [] = none
ending (receive_error e ∷ es) = some e
ending (message raw ∷ es) = ending es
ending (subscription ∷ es) = ending es
ending (pinged answer ∷ es) = ending es

abbrev pub hear : PubSubCodec → List String → Node → Node
hear codec [] n = n
hear codec (raw ∷ raws) n = hear codec raws (handle_pub_sub codec n raw)

pub hear-append :
    (codec : PubSubCodec) (xs ys : List String) (n : Node)
    → hear codec (xs ++ ys) n ≡ hear codec ys (hear codec xs n)
hear-append codec [] ys n = refl
hear-append codec (x ∷ xs) ys n = hear-append codec xs ys (handle_pub_sub codec n x)

link_loop-hear :
    (codec : PubSubCodec) (es : List LinkEvent) (n : Node)
    → link_loop codec es n ≡ (hear codec (heard es) n, ending es)
unfolding link_loop
link_loop-hear codec [] n = refl
link_loop-hear codec (message raw ∷ es) n = link_loop-hear codec es (handle_pub_sub codec n raw)
link_loop-hear codec (receive_error e ∷ es) n = refl
link_loop-hear codec (subscription ∷ es) n = link_loop-hear codec es n
link_loop-hear codec (pinged answer ∷ es) n = link_loop-hear codec es n

-- Whether a round comes to be subscribed.
abbrev pub is_up : String → Round → Bool
is_up sentinels r =
    not (is_some r.dial) && (sentinels =s= "" || r.has_role) && not (is_some r.subscribe)

module _ (codec : PubSubCodec) (r : Round) (s : RedisSubscriber) (n : Node) where
  pub listen_up :
      is_up s.sentinels r ≡ true
      → listen codec r s n
        ≡ (record s { reconnect_attempt = 0 }, hear codec (heard r.events) n, ending r.events)
  unfolding listen
  listen_up up = ground (arith, link_loop-hear codec r.events n)

  pub listen_down :
      is_up s.sentinels r ≡ false → (e : String) × (listen codec r s n ≡ (s, n, some e))
  unfolding listen
  listen_down down = elim (Option-cases r.dial) [
    | inr (e, bad) ↦ (e, ground arith)
    | inl dialled ↦ elim (Bool-cases (s.sentinels =s= "" || r.has_role)) [
      | inr replica ↦ ("Failed master role check", ground arith)
      | inl master ↦ elim (Option-cases r.subscribe) [
        | inr (e, bad) ↦ (e, ground arith)
        | inl fine ↦ absurd (ground arith)
      ]
    ]
  ]
