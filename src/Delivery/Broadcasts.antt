-- ===== src/Delivery/Broadcasts.antt =====
-- A message of the HTTP adapter on its way to the sessions.

use anycable_go.Base.{
  ◌≡◌, refl, inl, inr, ap, ◌∙◌, sym, String, ◌&&◌, Option, some, List, [], ◌∷◌, ◌++◌, append-nil,
  append_assoc, arith,
}
use anycable_go.Base.Values.{one_if}
use anycable_go.Common.{StreamMessage, PubSubCodec, Json}
use anycable_go.Common.PubSub.{IsBroadcast}
use anycable_go.Metrics.{inc}
use anycable_go.Hub.State.{Hub, new_hub}
use anycable_go.Hub.Tasks.{broadcast_to_stream, Task}
use anycable_go.Hub.{HubEvent, run, handle}
use anycable_go.Hub.Refinement.{nobody, specified_run}
use anycable_go.Hub.Broadcast.{run_tasks, sent_to, broadcast-once}
use anycable_go.Node.{Node, handle_pub_sub}
use anycable_go.Node.Messages.{handle_pub_sub_cases}
use anycable_go.Adapters.{HttpConfig, new_http_subscriber, Request, http_handler}
use anycable_go.Adapters.Http.{IsAuthorized, http_handler_cases}
use anycable_go.Delivery.{Turn, broadcasts, hub_takes, take_broadcast, hub_turns, and_tasks}

-- A turn for each message of the channel `broadcast`.
abbrev pub turns_for : List StreamMessage → List Turn
turns_for [] = []
turns_for (m ∷ ms) = broadcasts ∷ turns_for ms

abbrev pub tasks_for : Hub → List StreamMessage → List Task
tasks_for h [] = []
tasks_for h (m ∷ ms) = broadcast_to_stream h m.stream m.content ++ tasks_for h ms

pub tasks_for-append :
    (h : Hub) (xs ys : List StreamMessage)
    → tasks_for h (xs ++ ys) ≡ tasks_for h xs ++ tasks_for h ys
tasks_for-append h [] ys = refl
tasks_for-append h (x ∷ xs) ys =
    ap (λ (t : List Task). broadcast_to_stream h x.stream x.content ++ t) (tasks_for-append h xs ys)
    ∙ sym (append_assoc (broadcast_to_stream h x.stream x.content) _ _)

-- The loop takes every message of the channel, with the hub as it is.
pub all_taken :
    (ms : List StreamMessage) (n : Node)
    → hub_turns (turns_for ms) (record n { broadcast = ms })
      ≡ some (record n { broadcast = [] }, tasks_for n.hub ms)
unfolding hub_turns hub_takes take_broadcast handle
all_taken [] n = refl
all_taken (m ∷ ms) n =
    ap (and_tasks (broadcast_to_stream n.hub m.stream m.content)) (all_taken ms n)

-- What an authorized request leaves in the channel.
posted :
    (codec : PubSubCodec) (config : HttpConfig) (r : Request) (n : Node) (raw : String)
    → r.method ≡ "POST"
    → IsAuthorized config r
    → r.body ≡ some raw
    → http_handler codec (new_http_subscriber config) r n ≡ (handle_pub_sub codec n raw, 201)
posted codec config r n raw post auth body = elim (http_handler_cases codec config r n) [
  | inl (raw', post', auth', body', e) ↦
      let same : raw' ≡ raw = let b = sym body' ∙ body in ground arith in rw same at e
  | inr (inl (other, e)) ↦ absurd (other post)
  | inr (inr (inl (post', stranger, e))) ↦ absurd (stranger auth)
  | inr (inr (inr (post', auth', missing, e))) ↦ absurd (let b = sym body ∙ missing in ground arith)
]

published :
    (codec : PubSubCodec) (n : Node) (raw : String) (msg : StreamMessage)
    → IsBroadcast codec raw msg
    → (handle_pub_sub codec n raw) ≡ record n {
      broadcast = n.broadcast ++ msg ∷ [];
      counts = record n.counts { broadcast_msg = inc n.counts.broadcast_msg };
    }
published codec n raw msg b = elim (handle_pub_sub_cases codec n raw) [
  | inl (m, b', e) ↦
      let same : m ≡ msg = let there = sym b'.0 ∙ b.0 in ground arith in rw (← same) e
  | inr (inl (m, (nothing, _, _, _, _), e)) ↦ absurd (b.1 (nothing msg b.0))
  | inr (inr (nothing, _, e)) ↦ absurd (nothing msg b)
]

-- A broadcast that arrives over HTTP with the authorization that is set is taken by the hub's loop after
-- those that were in the channel before it, and then sends a message for an identifier to a session
-- exactly once if by the hub's contract the session is registered and listens to the message's stream
-- under that identifier, and never otherwise.
pub http_broadcast_delivered :
    (codec : PubSubCodec) (unmarshal : String → Option Json) (config : HttpConfig) (r : Request)
    (n : Node) (raw : String) (msg : StreamMessage) (es : List HubEvent)
    → r.method ≡ "POST"
    → IsAuthorized config r
    → r.body ≡ some raw
    → IsBroadcast codec raw msg
    → n.hub ≡ (run new_hub es).0
    → let (n', status) = http_handler codec (new_http_subscriber config) r n in
      (status ≡ 201)
      × ((n'' : Node) × (tasks : List Task) × (hub_turns (turns_for (n.broadcast ++ msg ∷ [])) n'
            ≡ some (n'', tasks_for n.hub n.broadcast ++ tasks))
          × (n''.broadcast ≡ [])
          × ((uid identifier : String)
              → sent_to uid identifier (run_tasks unmarshal n''.hub tasks)
                ≡ one_if (
                    (specified_run nobody es).live uid
                    && (specified_run nobody es).listens msg.stream uid identifier)))
http_broadcast_delivered codec unmarshal config r n raw msg es post auth body b hub =
    let handled =
      posted codec config r n raw post auth body
      ∙ ap (λ (z : Node). (z, 201)) (published codec n raw msg b) in
    let m : Node = record n {
      counts = record n.counts { broadcast_msg = inc n.counts.broadcast_msg };
    } in
    rw handled (
      refl,
      (
        record m { broadcast = [] },
        broadcast_to_stream n.hub msg.stream msg.content,
        all_taken (n.broadcast ++ msg ∷ []) m
            ∙ ap (λ (t : List Task). some (record m { broadcast = [] }, t))
                (tasks_for-append n.hub n.broadcast (msg ∷ [])
                  ∙ ap (λ (t : List Task). tasks_for n.hub n.broadcast ++ t) (append-nil _)),
        refl,
        λ uid identifier.
            ap
              (λ (h : Hub).
                sent_to uid identifier
                  (run_tasks unmarshal h (broadcast_to_stream h msg.stream msg.content)))
              hub
            ∙ broadcast-once es unmarshal msg.stream msg.content uid identifier,
      ),
    )
