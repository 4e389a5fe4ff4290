-- ===== src/Adapters/Delays.antt =====
-- The delays of `Start` in pubsub/redis.go.
use anycable_go.Base.{
  ℕ, ◌+◌, ◌≤◌, ◌<◌, ◌≡◌, refl, ◌⊎◌, inl, inr, ◌∙◌, ap, String, true, false, Option, none, some,
  List, [], ◌∷◌, leb, ◌=s=◌, arith, All, Bool-cases, Option-cases,
}
use anycable_go.Common.{PubSubCodec}
use anycable_go.Node.{Node}
use anycable_go.Adapters.{
  RedisConfig, RedisSubscriber, new_redis_subscriber, Master, found, unknown, Round, listen,
  next_retry, Running, still, after_listen, with_master, redis_rounds, redis_start,
}
use anycable_go.Adapters.Link.{heard, ending, hear, is_up, listen_up}
use anycable_go.Adapters.Rounds.{next_retry_bounds, IsLocated, located_round, round_up, round_down}
use anycable_go.Adapters.Reconnect.{started}

module _ (codec : PubSubCodec) (set_host : String → String → String) where
  -- One round of any kind: it ends the run, or is followed by a delay and the rest.
  abbrev RoundCases : Round → List Round → Running → Type 0
  RoundCases r rs run =
      (run.delays ≡ [])
      ⊎ ((step : ℕ) × (s' : RedisSubscriber) × (n' : Node) × (1 ≤ step)
          × (step ≤ 4)
          × (s'.reconnect_attempt ≡ step)
          × (run.delays ≡ next_retry step r.drawn ∷ (redis_rounds codec set_host rs s' n').delays))

  unlocated :
      (r : Round) (rs : List Round) (s : RedisSubscriber) (n : Node) (e : String)
      → (s.sentinels =s= "") ≡ false
      → r.master ≡ unknown e
      → redis_rounds codec set_host (r ∷ rs) s n ≡ still s n (some e)
  unfolding redis_rounds with_master
  unlocated r rs s n e sentinels lost = rw sentinels (
      ap
        (with_master codec set_host
          (λ (s' : RedisSubscriber).
            after_listen (redis_rounds codec set_host rs) r.drawn (listen codec r s' n))
          s n)
        lost)

  up_for_ever :
      (r : Round) (rs : List Round) (s : RedisSubscriber) (n : Node)
      → IsLocated s.sentinels r
      → is_up s.sentinels r ≡ true
      → ending r.events ≡ none
      → (redis_rounds codec set_host (r ∷ rs) s n).delays ≡ []
  unfolding after_listen
  up_for_ever r rs s n at up ends =
      let (url, round) = located_round codec set_host r rs s n at in
      let up' = listen_up codec r (record s { url = url }) n up in
      ap (λ (run : Running). run.delays)
        (round
          ∙ ap (after_listen (redis_rounds codec set_host rs) r.drawn) up'
          ∙ ap
              (λ (o : Option String).
                after_listen (redis_rounds codec set_host rs) r.drawn
                  (record s { url = url; reconnect_attempt = 0 }, hear codec (heard r.events) n, o))
              ends)

  located_cases :
      (r : Round) (rs : List Round) (s : RedisSubscriber) (n : Node)
      → s.reconnect_attempt < 5
      → IsLocated s.sentinels r
      → RoundCases r rs (redis_rounds codec set_host (r ∷ rs) s n)
  located_cases r rs s n few at = elim (Bool-cases (is_up s.sentinels r)) [
    | inl up ↦ elim (Option-cases (ending r.events)) [
      | inl stays ↦ inl (up_for_ever r rs s n at up stays)
      | inr (e, ends) ↦
          let (url, round) = round_up codec set_host r rs s n e at up ends in
          inr (
            1,
            record s { url = url; reconnect_attempt = 1 },
            hear codec (heard r.events) n,
            omega arith,
            omega arith,
            refl,
            ap (λ (run : Running). run.delays) round,
          )
    ]
    | inr down ↦
        let (url, round) = round_down codec set_host r rs s n at down in
        elim (Bool-cases (leb 5 (s.reconnect_attempt + 1))) [
          | inl last ↦ inl (rw (round, last) refl)
          | inr going ↦ inr (
            s.reconnect_attempt + 1,
            record s { url = url; reconnect_attempt = s.reconnect_attempt + 1 },
            n,
            omega arith,
            ground arith,
            refl,
            rw (round, going) refl,
          )
        ]
  ]

  by_master :
      (r : Round) (rs : List Round) (s : RedisSubscriber) (n : Node) (master : Master)
      → s.reconnect_attempt < 5
      → (s.sentinels =s= "") ≡ false
      → r.master ≡ master
      → RoundCases r rs (redis_rounds codec set_host (r ∷ rs) s n)
  by_master r rs s n (found address) few sentinels e = located_cases r rs s n few (inr (address, e))
  by_master r rs s n (unknown lost) few sentinels e =
      inl (ap (λ (run : Running). run.delays) (unlocated r rs s n lost sentinels e))

  round_cases :
      (r : Round) (rs : List Round) (s : RedisSubscriber) (n : Node)
      → s.reconnect_attempt < 5
      → RoundCases r rs (redis_rounds codec set_host (r ∷ rs) s n)
  round_cases r rs s n few = elim (Bool-cases (s.sentinels =s= "")) [
    | inl plain ↦ located_cases r rs s n few (inl plain)
    | inr sentinels ↦ by_master r rs s n r.master few sentinels refl
  ]

  rounds_delays :
      (rs : List Round) (s : RedisSubscriber) (n : Node)
      → s.reconnect_attempt < 5
      → All (λ d. (1 ≤ d) × (d ≤ 91)) (redis_rounds codec set_host rs s n).delays
  unfolding redis_rounds
  rounds_delays [] s n few = tt
  rounds_delays (r ∷ rs) s n few = elim (round_cases r rs s n few) [
    | inl over ↦ rw over tt
    | inr (step, s', n', low, high, at, more) ↦
        rw more (next_retry_bounds step r.drawn low high, rounds_delays rs s' n' (omega arith))
  ]

  -- Whatever the answers, a delay is between 1 and 91 seconds.
  pub redis_start_delays :
      (parse : String → Option String) (config : RedisConfig) (rs : List Round) (n : Node)
      → All
          (λ d. (1 ≤ d) × (d ≤ 91))
          (redis_start codec set_host parse rs (new_redis_subscriber config) n).delays
  unfolding redis_start new_redis_subscriber
  redis_start_delays parse config rs n = elim (Option-cases (parse config.url)) [
    | inl parsed ↦
        rw (started codec set_host parse rs (new_redis_subscriber config) n parsed)
          (rounds_delays rs (new_redis_subscriber config) n (omega arith))
    | inr (e, wrong) ↦ rw (redis_start, wrong) tt
  ]
