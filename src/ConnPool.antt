-- ===== src/ConnPool.antt =====
-- pool/pool.go: the pool of connections. A locked section, a `select`, a call of the factory, the closing of
-- the channel and a connection taken from the closed channel are one step each, in any order of the
-- goroutines.
pub mod Kept
pub mod Whole
pub mod Making
mod Tests
use Prim.Native.String.{◌++◌ as concat}
use anycable_go.Base.{
  ℕ, zero, suc, ◌+◌, ◌-◌, String, Bool, true, false, ◌||◌, Option, none, some, List, [], ◌∷◌, ◌++◌,
  length, ltb, ◌==◌, if◌then◌else◌,
}

-- Go's `int`, without its bounds.
pub data ℤ : Type 0 where
  pos : ℕ → ℤ
  negsuc : ℕ → ℤ

abbrev pub add_one : ℤ → ℤ
add_one (pos n) = pos (suc n)
add_one (negsuc zero) = pos zero
add_one (negsuc (suc n)) = negsuc n

abbrev pub sub_one : ℤ → ℤ
sub_one (pos zero) = negsuc zero
sub_one (pos (suc n)) = pos n
sub_one (negsuc n) = negsuc (suc n)

-- Connections are told apart by numbers: `made` is how many the factory has made, `shut` are those that
-- have been closed. The field `conns` is nil once `is_open` is false, `factory` once `has_factory` is;
-- `channel` is the channel itself, which `conns` points to and calls of `Get` may have read.
pub record ChannelPool : Type 0 where
  pub max_cap : ℕ
  pub is_open : Bool
  pub has_factory : Bool
  pub channel : List ℕ
  pub is_closed : Bool
  pub active_count : ℤ
  pub getting : ℕ
  pub making : ℕ
  pub wrapping : List ℕ
  pub held : List ℕ
  pub closing : Bool
  pub made : ℕ
  pub shut : List ℕ

-- `getting` counts the calls of `Get` before their `select`, `making` those at its default case, which are about
-- to call the factory, `wrapping` has the connections of those behind it, `held` those of the callers; `closing` is a `Close` that is about to close the channel.
abbrev empty_pool : ℕ → ChannelPool
empty_pool max = record {
  max_cap = max;
  is_open = true;
  has_factory = true;
  channel = [];
  is_closed = false;
  active_count = pos 0;
  getting = 0;
  making = 0;
  wrapping = [];
  held = [];
  closing = false;
  made = 0;
  shut = [];
}

-- What becomes of a pool: a step that is not there to be taken, a panic, or the pool that follows.
pub data Moved : Type 0 where
  impossible : Moved
  panics : Moved
  moves : ChannelPool → Moved

unfoldable pub take_out : ℕ → List ℕ → Option (List ℕ)
take_out c [] = none
take_out c (x ∷ xs) =
    let rest = take_out c xs in
    if x == c then some xs else elim rest [ none ↦ none | some ys ↦ some (x ∷ ys) ]

-- `getConns`.
unfoldable pub get_conns : ChannelPool → ChannelPool
get_conns p = if p.is_open then record p { getting = suc p.getting } else p

-- The `select` of `Get`; a receive from the closed channel gives nil.
pick_conn : ChannelPool → ℕ → List ℕ → Moved
pick_conn p left (c ∷ rest) =
    moves (record p { getting = left; channel = rest; wrapping = c ∷ p.wrapping })
pick_conn p left [] =
    if p.is_closed
    then moves (record p { getting = left })
    else moves (record p { getting = left; making = suc p.making })

select_conn : ChannelPool → ℕ → Moved
unfolding pick_conn
select_conn p zero = impossible
select_conn p (suc left) = pick_conn p left p.channel

-- The factory's answer.
made_conn : ChannelPool → ℕ → Option String → Moved
made_conn p left (some e) = moves (record p { making = left })
made_conn p left none =
    moves (record p { making = left; wrapping = p.made ∷ p.wrapping; made = suc p.made })

-- The default case of `Get`, where no lock is held: a nil factory cannot be called.
make_conn : ChannelPool → ℕ → Option String → Moved
unfolding made_conn
make_conn p zero answer = impossible
make_conn p (suc left) answer = if p.has_factory then made_conn p left answer else panics

wrap_conn : ChannelPool → ℕ → Option (List ℕ) → Moved
wrap_conn p c none = impossible
wrap_conn p c (some rest) =
    moves (record p { wrapping = rest; held = c ∷ p.held; active_count = add_one p.active_count })

-- A send to a closed channel panics. A caller puts a connection back that it has, once: the source does
-- not guard against a second `Close` of one `Conn`.
put : ChannelPool → ℕ → Option (List ℕ) → Moved
put p c none = impossible
put p c (some rest) =
    let p' = record p { held = rest; active_count = sub_one p.active_count } in
    if p.is_open
    then if p.is_closed
      then panics
      else if ltb (length p.channel) p.max_cap
      then moves (record p' { channel = p.channel ++ c ∷ [] })
      else moves (record p' { shut = c ∷ p.shut })
    else moves (record p' { shut = c ∷ p.shut })

-- The locked section of `Close`.
unfoldable pub close_conns : ChannelPool → ChannelPool
close_conns p = record p { is_open = false; has_factory = false; closing = p.is_open || p.closing }

-- `close(conns)`, which panics at a closed channel.
close_waiting_channel : ChannelPool → Moved
close_waiting_channel p =
    if p.closing
    then if p.is_closed then panics else moves (record p { closing = false; is_closed = true })
    else impossible

drain_conn : ChannelPool → List ℕ → Moved
drain_conn p [] = impossible
drain_conn p (c ∷ rest) =
    if p.is_closed then moves (record p { channel = rest; shut = c ∷ p.shut }) else impossible

pub data PoolStep : Type 0 where
  gets : PoolStep
  selects : PoolStep
  makes : Option String → PoolStep
  wraps : ℕ → PoolStep
  puts : ℕ → PoolStep
  closes : PoolStep
  shuts_channel : PoolStep
  drains : PoolStep

unfoldable pub pool_step : ChannelPool → PoolStep → Moved
unfolding get_conns select_conn make_conn wrap_conn put close_conns close_waiting_channel drain_conn
pool_step p gets = moves (get_conns p)
pool_step p selects = select_conn p p.getting
pool_step p (makes answer) = make_conn p p.making answer
pool_step p (wraps c) = wrap_conn p c (take_out c p.wrapping)
pool_step p (puts c) = put p c (take_out c p.held)
pool_step p closes = moves (close_conns p)
pool_step p shuts_channel = close_waiting_channel p
pool_step p drains = drain_conn p p.channel

abbrev pub then_step : (ChannelPool → Moved) → Moved → Moved
then_step f impossible = impossible
then_step f panics = panics
then_step f (moves p) = f p

unfoldable pub pool_steps : List PoolStep → ChannelPool → Moved
unfolding pool_step
pool_steps [] p = moves p
pool_steps (e ∷ es) p = then_step (pool_steps es) (pool_step p e)

-- `Busy` and `Available`.
unfoldable pub busy : ChannelPool → ℤ
busy p = p.active_count

unfoldable pub available : ChannelPool → ℕ
available p = if p.is_open then length p.channel else 0

-- A `Close` with no other goroutine about.
unfoldable pub close_pool : ChannelPool → ChannelPool
close_pool p = record p {
  is_open = false;
  has_factory = false;
  is_closed = p.is_open || p.is_closed;
  channel = if p.is_open then [] else p.channel;
  shut = if p.is_open then p.channel ++ p.shut else p.shut;
}

-- The loop of `NewChannelPool`; `factory n` is the error of the n-th call.
unfoldable pub fill_pool : (ℕ → Option String) → ℕ → ChannelPool → ChannelPool × Option String
unfolding close_pool
fill_pool factory zero p = (p, none)
fill_pool factory (suc n) p = elim (factory p.made) [
  | some e ↦ (close_pool p, some (concat "factory is not able to fill the pool: " e))
  | none ↦ fill_pool factory n (record p { channel = p.channel ++ p.made ∷ []; made = suc p.made })
]

make_pool : (ℕ → Option String) → ℕ → ℕ → ChannelPool × Option String
unfolding fill_pool
make_pool factory initial zero = (empty_pool 0, some "invalid capacity settings")
make_pool factory initial (suc max) =
    if ltb (suc max) initial
    then (empty_pool (suc max), some "invalid capacity settings")
    else fill_pool factory initial (empty_pool (suc max))

-- `NewChannelPool`; with an error, the pool that is left to the collector.
unfoldable pub new_channel_pool : (ℕ → Option String) → ℤ → ℤ → ChannelPool × Option String
unfolding make_pool
new_channel_pool factory (pos initial) (pos max) = make_pool factory initial max
new_channel_pool factory (negsuc n) max = (empty_pool 0, some "invalid capacity settings")
new_channel_pool factory (pos initial) (negsuc n) = (empty_pool 0, some "invalid capacity settings")
