-- ===== src/Adapters/Rounds.antt =====
-- One round of `Start` in pubsub/redis.go.
use anycable_go.Base.{
  ℕ, zero, suc, ◌+◌, ◌≤◌, ◌≡◌, refl, ◌⊎◌, inl, inr, ◌∙◌, ap, String, true, false, Option, some,
  List, ◌∷◌, leb, ◌=s=◌, if◌then◌else◌, arith, Bool-cases,
}
use anycable_go.Common.{PubSubCodec}
use anycable_go.Node.{Node}
use anycable_go.Adapters.{
  RedisSubscriber, found, Round, listen, next_retry, slept, still, after_listen, with_master,
  redis_rounds,
}
use anycable_go.Adapters.Link.{heard, ending, hear, is_up, listen_up, listen_down}

pub next_retry_bounds :
    (step drawn : ℕ)
    → 1 ≤ step
    → step ≤ 4
    → (1 ≤ next_retry step drawn) × (next_retry step drawn ≤ 91)
unfolding next_retry
next_retry_bounds zero drawn h k = absurd (omega arith)
next_retry_bounds (suc zero) drawn h k = omega arith
next_retry_bounds (suc (suc zero)) drawn h k = omega arith
next_retry_bounds (suc (suc (suc zero))) drawn h k = omega arith
next_retry_bounds (suc (suc (suc (suc zero)))) drawn h k = omega arith
next_retry_bounds (suc (suc (suc (suc (suc n))))) drawn h k = absurd (omega arith)

-- Whether the sentinel, if there is one, finds the master.
abbrev pub IsLocated : String → Round → Type 0
IsLocated sentinels r =
    ((sentinels =s= "") ≡ true) ⊎ ((address : String) × (r.master ≡ found address))

abbrev pub exceeded : String
exceeded = "Redis reconnect attempts exceeded"

module _ (codec : PubSubCodec) (set_host : String → String → String) where
  -- A round is the rest of one with the same subscriber but for its address.
  pub located_round :
      (r : Round) (rest : List Round) (s : RedisSubscriber) (n : Node)
      → IsLocated s.sentinels r
      → (url : String) × (redis_rounds codec set_host (r ∷ rest) s n
          ≡ after_listen
              (redis_rounds codec set_host rest)
              r.drawn
              (listen codec r (record s { url = url }) n))
  unfolding redis_rounds with_master
  located_round r rest s n (inl plain) = (s.url, rw plain refl)
  located_round r rest s n (inr (address, e)) = elim (Bool-cases (s.sentinels =s= "")) [
    | inl plain ↦ (s.url, rw plain refl)
    | inr sentinels ↦ (
      set_host s.url address,
      rw sentinels (
          ap
            (with_master codec set_host
              (λ (s' : RedisSubscriber).
                after_listen (redis_rounds codec set_host rest) r.drawn (listen codec r s' n))
              s n)
            e),
    )
  ]

  -- The subscriber after a round with this many attempts.
  abbrev pub after : RedisSubscriber → String → ℕ → RedisSubscriber
  after s url attempt = record s { url = url; reconnect_attempt = attempt }

  pub round_up :
      (r : Round) (rest : List Round) (s : RedisSubscriber) (n : Node) (e : String)
      → IsLocated s.sentinels r
      → is_up s.sentinels r ≡ true
      → ending r.events ≡ some e
      → (url : String) × (redis_rounds codec set_host (r ∷ rest) s n
          ≡ slept
              (next_retry 1 r.drawn)
              (redis_rounds codec set_host rest (after s url 1) (hear codec (heard r.events) n)))
  unfolding after_listen
  round_up r rest s n e at up ends =
      let (url, round) = located_round r rest s n at in
      let up' = listen_up codec r (record s { url = url }) n up in
      (
        url,
        round
            ∙ ap (after_listen (redis_rounds codec set_host rest) r.drawn) up'
            ∙ ap
                (λ (o : Option String).
                  after_listen (redis_rounds codec set_host rest) r.drawn
                    (after s url 0, hear codec (heard r.events) n, o))
                ends,
      )

  pub round_down :
      (r : Round) (rest : List Round) (s : RedisSubscriber) (n : Node)
      → IsLocated s.sentinels r
      → is_up s.sentinels r ≡ false
      → (url : String) × (redis_rounds codec set_host (r ∷ rest) s n ≡ (
          if leb 5 (s.reconnect_attempt + 1)
          then still (after s url (s.reconnect_attempt + 1)) n (some exceeded)
          else slept
              (next_retry (s.reconnect_attempt + 1) r.drawn)
              (redis_rounds codec set_host rest (after s url (s.reconnect_attempt + 1)) n)))
  unfolding after_listen
  round_down r rest s n at down =
      let (url, round) = located_round r rest s n at in
      let (e, down') = listen_down codec r (record s { url = url }) n down in
      (url, round ∙ ap (after_listen (redis_rounds codec set_host rest) r.drawn) down')
