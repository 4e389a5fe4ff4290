-- ===== src/ConnPool/Tests.antt =====
-- ConnPool: the properties at small pools.
use anycable_go.Base.{ℕ, ◌≡◌, ◌≢◌, ◌↔◌, refl, String, Option, none, List, [], ◌∷◌, true, false}
use anycable_go.ConnPool.{
  pos, ChannelPool, panics, moves, PoolStep, gets, selects, makes, wraps, puts, closes,
  shuts_channel, drains, pool_step, pool_steps, new_channel_pool, take_out,
}
use anycable_go.ConnPool.Kept.{IsTidy}
use anycable_go.ConnPool.Whole.{pool-IsTidy, get_panics_iff}

abbrev fine : ℕ → Option String
fine n = none

abbrev small : ChannelPool
small = record {
  max_cap = 1;
  is_open = true;
  has_factory = true;
  channel = 0 ∷ [];
  is_closed = false;
  active_count = pos 0;
  getting = 0;
  making = 0;
  wrapping = [];
  held = [];
  closing = false;
  made = 1;
  shut = [];
}

small_made : new_channel_pool fine (pos 1) (pos 1) ≡ (small, none)
unfolding new_channel_pool
small_made = refl

-- Two connections are lent; the second finds no room when it comes back.
abbrev lending : List PoolStep
lending =
    gets
    ∷ gets
    ∷ selects
    ∷ selects
    ∷ makes none
    ∷ wraps 1
    ∷ wraps 0
    ∷ puts 0
    ∷ puts 1
    ∷ closes
    ∷ shuts_channel
    ∷ drains
    ∷ []

abbrev lent : ChannelPool
lent = record small {
  is_open = false;
  has_factory = false;
  channel = [];
  is_closed = true;
  made = 2;
  shut = 0 ∷ 1 ∷ [];
}

lent_reached : pool_steps lending small ≡ moves lent
unfolding pool_steps take_out
lent_reached = refl

pool-IsTidy_example : IsTidy lent
pool-IsTidy_example = pool-IsTidy fine (pos 1) (pos 1) small lent lending small_made lent_reached

-- `Close` comes and ends between the `select` of the second `Get` and its call of the factory.
abbrev meeting : List PoolStep
meeting = gets ∷ selects ∷ gets ∷ selects ∷ closes ∷ shuts_channel ∷ []

abbrev met : ChannelPool
met = record small {
  is_open = false;
  has_factory = false;
  channel = [];
  making = 1;
  wrapping = 0 ∷ [];
  is_closed = true;
}

met_reached : pool_steps meeting small ≡ moves met
unfolding pool_steps take_out
met_reached = refl

get_panics_iff_example :
    (pool_step met (makes none) ≡ panics) ↔ ((met.making ≢ 0) × (met.is_open ≡ false))
get_panics_iff_example =
    get_panics_iff fine (pos 1) (pos 1) small met meeting small_made met_reached (makes none)
