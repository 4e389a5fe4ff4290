-- ===== src/Adapters/Reconnect.antt =====
-- How long `Start` of pubsub/redis.go goes on, and what it hands to the node meanwhile.
use anycable_go.Base.{
  ℕ, ◌+◌, ◌<◌, ◌≡◌, refl, ◌⊎◌, inl, inr, ◌∙◌, sym, String, true, false, Option, none, some, List,
  [], ◌∷◌, ◌++◌, length, leb, if◌then◌else◌, arith, All, Bool-cases,
}
use anycable_go.Common.{PubSubCodec}
use anycable_go.Node.{Node}
use anycable_go.Adapters.{
  RedisConfig, RedisSubscriber, new_redis_subscriber, Round, Running, redis_rounds, redis_start,
}
use anycable_go.Adapters.Link.{heard, ending, hear, hear-append, is_up}
use anycable_go.Adapters.Rounds.{IsLocated, exceeded, round_up, round_down}

-- A round that does not come to be subscribed, though the master is found.
abbrev pub Fails : String → Round → Type 0
Fails sentinels r = IsLocated sentinels r × (is_up sentinels r ≡ false)

abbrev pub GaveUp : List Round → Node → Running → Type 0
GaveUp rs n run = (run.error ≡ some exceeded) × (run.node ≡ n) × (length run.delays + 1 ≡ length rs)

-- Rounds that go on to an error of the connection, with few in a row that fail; `failed` is the number
-- of rounds since the last that was subscribed, with that one. From 0, at the start, four may fail in a
-- row, and from 1, after a round that was subscribed, three.
abbrev pub Steady : String → ℕ → List Round → Type 0
Steady sentinels failed [] = Unit
Steady sentinels failed (r ∷ rs) =
    IsLocated sentinels r
    × (((is_up sentinels r ≡ true)
          × ((e : String) × (ending r.events ≡ some e))
          × Steady sentinels 1 rs)
        ⊎ ((is_up sentinels r ≡ false) × (failed + 1 < 5) × Steady sentinels (failed + 1) rs))

-- The messages of all rounds that are subscribed.
abbrev pub heard_in : String → List Round → List String
heard_in sentinels [] = []
heard_in sentinels (r ∷ rs) =
    (if is_up sentinels r then heard r.events else []) ++ heard_in sentinels rs

module _ (codec : PubSubCodec) (set_host : String → String → String) where
  rounds_give_up :
      (rs more : List Round) (s : RedisSubscriber) (n : Node)
      → All (Fails s.sentinels) rs
      → s.reconnect_attempt < 5
      → length rs + s.reconnect_attempt ≡ 5
      → GaveUp rs n (redis_rounds codec set_host (rs ++ more) s n)
  rounds_give_up [] more s n fails few all = absurd (omega arith)
  rounds_give_up (r ∷ rs) more s n fails few all =
      let (url, round) = round_down codec set_host r (rs ++ more) s n fails.0.0 fails.0.1 in
      elim (Bool-cases (leb 5 (s.reconnect_attempt + 1))) [
        | inl last ↦ rw (round, last) (refl, refl, ground arith)
        | inr going ↦
            let (error, node, delays) =
              rounds_give_up rs more
                (record s { url = url; reconnect_attempt = s.reconnect_attempt + 1 }) n fails.1
                (ground arith) (omega arith) in
            rw (round, going) (error, node, omega arith)
      ]

  pub started :
      (parse : String → Option String) (rs : List Round) (s : RedisSubscriber) (n : Node)
      → parse s.url ≡ none
      → redis_start codec set_host parse rs s n ≡ redis_rounds codec set_host rs s n
  unfolding redis_start
  started parse rs s n parsed = rw (redis_start, parsed) refl

  -- From the start, five rounds in a row that are not subscribed end `Start` with its error, after four
  -- delays: no message reaches the node, and no further round is made.
  pub redis_start_gives_up :
      (parse : String → Option String) (config : RedisConfig) (rs more : List Round) (n : Node)
      → parse config.url ≡ none
      → All (Fails config.sentinels) rs
      → length rs ≡ 5
      → let run = redis_start codec set_host parse (rs ++ more) (new_redis_subscriber config) n in
        (run.error ≡ some "Redis reconnect attempts exceeded")
        × (run.node ≡ n)
        × (length run.delays ≡ 4)
  unfolding new_redis_subscriber
  redis_start_gives_up parse config rs more n parsed fails five =
      let (error, node, delays) =
        rounds_give_up rs more (new_redis_subscriber config) n fails (omega arith) (omega arith) in
      rw (started parse (rs ++ more) (new_redis_subscriber config) n parsed)
        (error, node, omega arith)

  rounds_go_on :
      (rs : List Round) (s : RedisSubscriber) (n : Node)
      → Steady s.sentinels s.reconnect_attempt rs
      → let run = redis_rounds codec set_host rs s n in
        (run.error ≡ none)
        × (run.node ≡ hear codec (heard_in s.sentinels rs) n)
        × (length run.delays ≡ length rs)
  unfolding redis_rounds
  rounds_go_on [] s n steady = (refl, refl, refl)
  rounds_go_on (r ∷ rs) s n (at, inl (up, (e, ends), steady)) =
      let (url, round) = round_up codec set_host r rs s n e at up ends in
      let (error, node, delays) =
        rounds_go_on rs (record s { url = url; reconnect_attempt = 1 })
          (hear codec (heard r.events) n) steady in
      rw (round, up) (error, node ∙ sym (hear-append codec (heard r.events) _ n), omega arith)
  rounds_go_on (r ∷ rs) s n (at, inr (down, few, steady)) =
      let (url, round) = round_down codec set_host r rs s n at down in
      let going : leb 5 (s.reconnect_attempt + 1) ≡ false = ground arith in
      let (error, node, delays) =
        rounds_go_on rs (record s { url = url; reconnect_attempt = s.reconnect_attempt + 1 }) n
          steady in
      rw (round, going, down) (error, node, omega arith)

  -- While the master is found, each connection that is subscribed ends with an error at last, no more
  -- than four rounds in a row fail to be subscribed at the start, and no more than three after a round
  -- that was subscribed, `Start` goes on: the node is handed the messages of all connections in order,
  -- each once, and every round is followed by a delay.
  pub redis_start_goes_on :
      (parse : String → Option String) (config : RedisConfig) (rs : List Round) (n : Node)
      → parse config.url ≡ none
      → Steady config.sentinels 0 rs
      → let run = redis_start codec set_host parse rs (new_redis_subscriber config) n in
        (run.error ≡ none)
        × (run.node ≡ hear codec (heard_in config.sentinels rs) n)
        × (length run.delays ≡ length rs)
  unfolding new_redis_subscriber
  redis_start_goes_on parse config rs n parsed steady =
      rw (started parse rs (new_redis_subscriber config) n parsed)
        (rounds_go_on rs (new_redis_subscriber config) n steady)
