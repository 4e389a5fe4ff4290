-- ===== src/Delivery/Redis.antt =====
-- The messages of Redis connections, from pubsub/redis.go by the node and the hub's loop to the sessions.
use anycable_go.Base.{
  ℕ, ◌+◌, ◌≡◌, refl, ◌∙◌, sym, ap, inl, inr, String, ◌=s=◌, =s=_iff, =s=_false, Bool-cases,
  Option-cases, ◌&&◌, Option, none, some, List, [], ◌∷◌, ◌++◌, length, append-nil, append_assoc,
  if◌then◌else◌, arith,
}
use anycable_go.Base.Values.{one_if}
use anycable_go.Common.{StreamMessage, PubSubCodec, Json}
use anycable_go.Common.PubSub.{IsBroadcast}
use anycable_go.Hub.State.{Hub, new_hub}
use anycable_go.Hub.Tasks.{broadcast_to_stream, Task, run_task}
use anycable_go.Hub.{HubEvent, run}
use anycable_go.Hub.Refinement.{Membership, nobody, specified_run}
use anycable_go.Hub.Broadcast.{run_tasks, sent_to, sent_to-append, broadcast-once}
use anycable_go.Node.{Node, handle_pub_sub}
use anycable_go.Node.Messages.{handle_pub_sub_cases}
use anycable_go.Adapters.{RedisConfig, new_redis_subscriber, Round, redis_start}
use anycable_go.Adapters.Link.{hear}
use anycable_go.Adapters.Reconnect.{Steady, heard_in, redis_start_goes_on}
use anycable_go.Delivery.{hub_turns}
use anycable_go.Delivery.Broadcasts.{turns_for, tasks_for, tasks_for-append, all_taken}

-- The broadcasts among texts: those that decode with a stream that has a name.
abbrev pub named : Option StreamMessage → List StreamMessage
named none = []
named (some m) = if m.stream =s= "" then [] else m ∷ []

abbrev pub broadcasts_in : PubSubCodec → List String → List StreamMessage
broadcasts_in codec [] = []
broadcasts_in codec (raw ∷ raws) = named (codec.stream_of raw) ++ broadcasts_in codec raws

-- How many of the messages are for an identifier of a session, by the hub's contract.
abbrev pub addressed : Membership → String → String → List StreamMessage → ℕ
addressed a uid identifier [] = 0
addressed a uid identifier (m ∷ ms) =
    one_if (a.live uid && a.listens m.stream uid identifier) + addressed a uid identifier ms

named_broadcast :
    (codec : PubSubCodec) (raw : String) (m : StreamMessage)
    → IsBroadcast codec raw m
    → named (codec.stream_of raw) ≡ m ∷ []
named_broadcast codec raw m (e, has_name) = elim (Bool-cases (m.stream =s= "")) [
  | inl empty ↦ absurd (has_name ((=s=_iff m.stream "").0 empty))
  | inr other ↦ rw (e, other) refl
]

named_other :
    (codec : PubSubCodec) (raw : String)
    → ((m : StreamMessage) → ¬ IsBroadcast codec raw m)
    → named (codec.stream_of raw) ≡ []
named_other codec raw nothing = elim (Option-cases (codec.stream_of raw)) [
  | inl e ↦ rw e refl
  | inr (m, e) ↦ elim (Bool-cases (m.stream =s= "")) [
    | inl empty ↦ rw (e, empty) refl
    | inr other ↦ absurd (nothing m (e, =s=_false m.stream "" other))
  ]
]

-- A text leaves the hub and puts at most its broadcast into the channel.
heard_one :
    (codec : PubSubCodec) (n : Node) (raw : String)
    → let n' = handle_pub_sub codec n raw in
      (n'.hub ≡ n.hub) × (n'.broadcast ≡ n.broadcast ++ named (codec.stream_of raw))
heard_one codec n raw = elim (handle_pub_sub_cases codec n raw) [
  | inl (m, b, e) ↦ rw (e, named_broadcast codec raw m b) (refl, refl)
  | inr (inl (m, (nothing, _, _, _, _), e)) ↦
      rw (e, named_other codec raw (λ x b. b.1 (nothing x b.0))) (refl, sym (append-nil _))
  | inr (inr (nothing, _, e)) ↦ rw (e, named_other codec raw nothing) (refl, sym (append-nil _))
]

hear_all :
    (codec : PubSubCodec) (raws : List String) (n : Node)
    → let n' = hear codec raws n in
      (n'.hub ≡ n.hub) × (n'.broadcast ≡ n.broadcast ++ broadcasts_in codec raws)
hear_all codec [] n = (refl, sym (append-nil _))
hear_all codec (raw ∷ raws) n =
    let one = heard_one codec n raw in
    let rest = hear_all codec raws (handle_pub_sub codec n raw) in
    (
      rest.0 ∙ one.0,
      rest.1
          ∙ ap (λ (l : List StreamMessage). l ++ broadcasts_in codec raws) one.1
          ∙ append_assoc n.broadcast _ _,
    )

run_tasks-append :
    (unmarshal : String → Option Json) (h : Hub) (ts us : List Task)
    → run_tasks unmarshal h (ts ++ us) ≡ run_tasks unmarshal h ts ++ run_tasks unmarshal h us
run_tasks-append unmarshal h [] us = refl
run_tasks-append unmarshal h (t ∷ ts) us =
    ap (λ l. run_task unmarshal h t ++ l) (run_tasks-append unmarshal h ts us)
    ∙ sym (append_assoc (run_task unmarshal h t) _ _)

tasks_send :
    (unmarshal : String → Option Json) (es : List HubEvent) (uid identifier : String)
    (ms : List StreamMessage)
    → let h = (run new_hub es).0 in
      sent_to uid identifier (run_tasks unmarshal h (tasks_for h ms))
      ≡ addressed (specified_run nobody es) uid identifier ms
tasks_send unmarshal es uid identifier [] = refl
tasks_send unmarshal es uid identifier (m ∷ ms) =
    let h = (run new_hub es).0 in
    let first = broadcast_to_stream h m.stream m.content in
    rw (run_tasks-append unmarshal h first (tasks_for h ms)) (
      omega (
        arith,
        sent_to-append uid identifier (run_tasks unmarshal h first)
            (run_tasks unmarshal h (tasks_for h ms)),
        broadcast-once es unmarshal m.stream m.content uid identifier,
        tasks_send unmarshal es uid identifier ms,
      ))

-- While the master is found, each connection that is subscribed ends with an error at last, no more
-- than four rounds in a row fail to be subscribed at the start, and no more than three after a round
-- that was subscribed, `Start` goes on, with a delay after every round, and loses no broadcast: the loop of a hub that has taken some events takes those of all connections after the ones
-- that were in its channel, and they then send to an identifier of a session as many messages as there are
-- broadcasts among them to whose stream the session, registered by the hub's contract, listens under it.
pub redis_broadcasts_delivered :
    (codec : PubSubCodec) (set_host : String → String → String) (parse : String → Option String)
    (unmarshal : String → Option Json) (config : RedisConfig) (rs : List Round) (n : Node)
    (es : List HubEvent)
    → parse config.url ≡ none
    → Steady config.sentinels 0 rs
    → n.hub ≡ (run new_hub es).0
    → let went = redis_start codec set_host parse rs (new_redis_subscriber config) n in
      let msgs = broadcasts_in codec (heard_in config.sentinels rs) in
      (went.error ≡ none)
      × (length went.delays ≡ length rs)
      × ((n' : Node) × (tasks : List Task) × (hub_turns (turns_for (n.broadcast ++ msgs)) went.node
            ≡ some (n', tasks_for n.hub n.broadcast ++ tasks))
          × (n'.broadcast ≡ [])
          × ((uid identifier : String)
              → sent_to uid identifier (run_tasks unmarshal n'.hub tasks)
                ≡ addressed (specified_run nobody es) uid identifier msgs))
redis_broadcasts_delivered codec set_host parse unmarshal config rs n es parsed steady hub =
    let raws = heard_in config.sentinels rs in
    let msgs = broadcasts_in codec raws in
    let (error, node, delays) =
      redis_start_goes_on codec set_host parse config rs n parsed steady in
    let heard = hear codec raws n in
    let (same_hub, channel) = hear_all codec raws n in
    let taken =
      ap (λ (l : List StreamMessage). hub_turns (turns_for l) heard) (sym channel)
      ∙ all_taken heard.broadcast heard
      ∙ ap (λ (h : Hub). some (record heard { broadcast = [] }, tasks_for h heard.broadcast))
          same_hub
      ∙ ap (λ (l : List StreamMessage). some (record heard { broadcast = [] }, tasks_for n.hub l))
          channel
      ∙ ap (λ (ts : List Task). some (record heard { broadcast = [] }, ts))
          (tasks_for-append n.hub n.broadcast msgs) in
    rw node (
      error,
      delays,
      (
        record heard { broadcast = [] },
        tasks_for n.hub msgs,
        taken,
        refl,
        λ uid identifier.
            ap (λ (h : Hub). sent_to uid identifier (run_tasks unmarshal h (tasks_for n.hub msgs)))
              same_hub
            ∙ ap (λ (h : Hub). sent_to uid identifier (run_tasks unmarshal h (tasks_for h msgs)))
                hub
            ∙ tasks_send unmarshal es uid identifier msgs,
      ),
    )
