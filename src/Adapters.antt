-- ===== src/Adapters.antt =====
-- pubsub/http.go, pubsub/redis.go and pubsub/subscriber.go: how messages to broadcast reach the node.
-- The Redis client, its connections and the sentinel are what they answer.
pub mod Http
pub mod Link
pub mod Rounds
pub mod Reconnect
pub mod Delays
mod Tests
use Prim.Native.String.{◌++◌ as concat}
use anycable_go.Base.{
  ℕ, ◌+◌, ◌*◌, ◌%◌, String, Bool, true, false, not, ◌&&◌, Option, none, some, List, [], ◌∷◌, ◌=s=◌,
  leb, if◌then◌else◌,
}
use anycable_go.Base.Outcome.{Outcome, ok, err, panic}
use anycable_go.Common.{PubSubCodec}
use anycable_go.Node.{Node, handle_pub_sub}

pub record HttpConfig : Type 0 where
  pub port : ℕ
  pub path : String
  pub secret : String

pub record HttpSubscriber : Type 0 where
  pub port : ℕ
  pub path : String
  pub auth_header : String

unfoldable pub new_http_subscriber : HttpConfig → HttpSubscriber
new_http_subscriber config = record {
  port = config.port;
  path = config.path;
  auth_header = if config.secret =s= "" then "" else concat "Bearer " config.secret;
}

-- What the handler reads of a request; a body that cannot be read is `none`.
pub record Request : Type 0 where
  pub method : String
  pub authorization : String
  pub body : Option String

handle_body : PubSubCodec → Option String → Node → Node × ℕ
handle_body codec none n = (n, 422)
handle_body codec (some raw) n = (handle_pub_sub codec n raw, 201)

-- `Handler`: the node, and the status of the answer.
unfoldable pub http_handler : PubSubCodec → HttpSubscriber → Request → Node → Node × ℕ
unfolding handle_body
http_handler codec s r n =
    if not (r.method =s= "POST")
    then (n, 422)
    else (if not (s.auth_header =s= "") && not (r.authorization =s= s.auth_header)
        then (n, 401)
        else handle_body codec r.body n)

pub record RedisConfig : Type 0 where
  pub url : String
  pub channel : String
  pub sentinels : String

pub record RedisSubscriber : Type 0 where
  pub url : String
  pub sentinels : String
  pub channel : String
  pub reconnect_attempt : ℕ

abbrev pub max_reconnect_attempts : ℕ
max_reconnect_attempts = 5

unfoldable pub new_redis_subscriber : RedisConfig → RedisSubscriber
new_redis_subscriber config = record {
  url = config.url;
  sentinels = config.sentinels;
  channel = config.channel;
  reconnect_attempt = 0;
}

-- What happens on a connection that is subscribed, in its order: what the receiving goroutine gets, and
-- the answers to the pings of the other.
pub data LinkEvent : Type 0 where
  message : String → LinkEvent
  subscription : LinkEvent
  receive_error : String → LinkEvent
  pinged : Option String → LinkEvent

-- Messages are handed on until the receiving goroutine gets an error, which both loops of `listen`
-- return; a ping that fails ends the first loop only. `none` means that `listen` still goes on.
unfoldable pub link_loop : PubSubCodec → List LinkEvent → Node → Node × Option String
link_loop codec [] n = (n, none)
link_loop codec (message raw ∷ es) n = link_loop codec es (handle_pub_sub codec n raw)
link_loop codec (subscription ∷ es) n = link_loop codec es n
link_loop codec (receive_error e ∷ es) n = (n, some e)
link_loop codec (pinged answer ∷ es) n = link_loop codec es n

-- The sentinel's answer: an address, or an error.
pub data Master : Type 0 where
  found : String → Master
  unknown : String → Master

-- The answers to one round of `Start`: the sentinel's address of the master, the errors of the dial and
-- of the subscription, whether the server has the master's role, and what happens then; `drawn` is
-- the random number of the delay.
pub record Round : Type 0 where
  pub master : Master
  pub dial : Option String
  pub has_role : Bool
  pub subscribe : Option String
  pub events : List LinkEvent
  pub drawn : ℕ

unfoldable pub subscribed :
    PubSubCodec → Round → RedisSubscriber → Node → RedisSubscriber × Node × Option String
unfolding link_loop
subscribed codec r s n = elim r.subscribe [
  | some e ↦ (s, n, some e)
  | none ↦
      let (n', ending) = link_loop codec r.events n in
      (record s { reconnect_attempt = 0 }, n', ending)
]

unfoldable pub listen :
    PubSubCodec → Round → RedisSubscriber → Node → RedisSubscriber × Node × Option String
unfolding subscribed
listen codec r s n = elim r.dial [
  | some e ↦ (s, n, some e)
  | none ↦
      if not (s.sentinels =s= "") && not r.has_role
      then (s, n, some "Failed master role check")
      else subscribed codec r s n
]

-- In seconds; `rand.Intn` gives a number below its argument.
unfoldable pub next_retry : ℕ → ℕ → ℕ
next_retry step drawn = step * step + drawn % (step * 4) * (step + 1)

-- How `Start` stands after some rounds: what it has slept, and the error with which it has returned.
pub record Running : Type 0 where
  pub subscriber : RedisSubscriber
  pub node : Node
  pub delays : List ℕ
  pub error : Option String

abbrev pub slept : ℕ → Running → Running
slept delay r = record r { delays = delay ∷ r.delays }

abbrev pub still : RedisSubscriber → Node → Option String → Running
still s n e = record { subscriber = s; node = n; delays = []; error = e }

-- The rest of a round once `listen` has returned.
unfoldable pub after_listen :
    (RedisSubscriber → Node → Running) → ℕ → RedisSubscriber × Node × Option String → Running
unfolding next_retry
after_listen next drawn (s, n, none) = still s n none
after_listen next drawn (s, n, some e) =
    let s' = record s { reconnect_attempt = s.reconnect_attempt + 1 } in
    if leb max_reconnect_attempts s'.reconnect_attempt
    then still s' n (some "Redis reconnect attempts exceeded")
    else slept (next_retry s'.reconnect_attempt drawn) (next s' n)

module _ (codec : PubSubCodec) (set_host : String → String → String) where
  -- `set_host` writes an address into an URL. Without the sentinel its answer is not asked for.
  unfoldable pub with_master :
      (RedisSubscriber → Running) → RedisSubscriber → Node → Master → Running
  with_master go s n (found address) = go (record s { url = set_host s.url address })
  with_master go s n (unknown e) = still s n (some e)

  unfoldable pub redis_rounds : List Round → RedisSubscriber → Node → Running
  unfolding with_master after_listen listen
  redis_rounds [] s n = still s n none
  redis_rounds (r ∷ rest) s n =
      let go =
        λ (s' : RedisSubscriber). after_listen (redis_rounds rest) r.drawn (listen codec r s' n) in
      if s.sentinels =s= "" then go s else with_master go s n r.master

  -- `Start`, where `parse` gives the error of the URL's parser.
  unfoldable pub redis_start :
      (String → Option String) → List Round → RedisSubscriber → Node → Running
  unfolding redis_rounds
  redis_start parse rounds s n = elim (parse s.url) [
    | some e ↦ still s n (some e)
    | none ↦ redis_rounds rounds s n
  ]

-- `NewSubscriber`.
pub data Subscriber : Type 0 where
  redis : RedisSubscriber → Subscriber
  http : HttpSubscriber → Subscriber

unfoldable pub new_subscriber : String → RedisConfig → HttpConfig → Outcome Subscriber
unfolding new_redis_subscriber new_http_subscriber
new_subscriber adapter r h =
    if adapter =s= "redis"
    then ok (redis (new_redis_subscriber r))
    else (if adapter =s= "http"
        then ok (http (new_http_subscriber h))
        else err (concat "Unknown adapter type: " adapter))
