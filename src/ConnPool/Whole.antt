-- ===== src/ConnPool/Whole.antt =====
-- Every pool that comes of a new one in pool/pool.go.
use anycable_go.Base.{
  ℕ, zero, suc, ◌≡◌, ◌≢◌, ◌↔◌, refl, ◌∙◌, subst, String, false, Option, none, List, [], ◌∷◌, arith,
}
use anycable_go.ConnPool.{
  ℤ, ChannelPool, Moved, impossible, panics, moves, PoolStep, gets, selects, makes, wraps, puts,
  closes, shuts_channel, drains, pool_step, then_step, pool_steps, make_conn, new_channel_pool,
}
use anycable_go.ConnPool.Kept.{IsTidy, Goes, Panics, pool_step-Goes}
use anycable_go.ConnPool.Making.{Made, new_channel_pool_cases}

abbrev AllTidy : Moved → Type 0
AllTidy impossible = Unit
AllTidy panics = Unit
AllTidy (moves q) = IsTidy q

then_tidy :
    (r : Type 0) (es : List PoolStep) (m : Moved)
    → Goes r m
    → ((q : ChannelPool) → IsTidy q → AllTidy (pool_steps es q))
    → AllTidy (then_step (pool_steps es) m)
then_tidy r es impossible g f = tt
then_tidy r es panics g f = tt
then_tidy r es (moves q) g f = f q g

pool_steps-IsTidy : (es : List PoolStep) (p : ChannelPool) → IsTidy p → AllTidy (pool_steps es p)
unfolding pool_steps
pool_steps-IsTidy [] p t = t
pool_steps-IsTidy (e ∷ es) p t =
    then_tidy (Panics p e) es (pool_step p e) (pool_step-Goes p t e) (pool_steps-IsTidy es)

make_panics :
    (p : ChannelPool) (n : ℕ) (answer : Option String)
    → n ≢ 0
    → p.has_factory ≡ false
    → make_conn p n answer ≡ panics
unfolding make_conn
make_panics p zero answer some_left gone = absurd (some_left refl)
make_panics p (suc left) answer some_left gone = ground arith

panics_now : (p : ChannelPool) (e : PoolStep) → IsTidy p → Panics p e → pool_step p e ≡ panics
unfolding pool_step
panics_now p (makes answer) t (some_left, off) =
    make_panics p p.making answer some_left (t.factory ∙ off)
panics_now p gets t h = absurd h
panics_now p selects t h = absurd h
panics_now p (wraps c) t h = absurd h
panics_now p (puts c) t h = absurd h
panics_now p closes t h = absurd h
panics_now p shuts_channel t h = absurd h
panics_now p drains t h = absurd h

module _ (factory : ℕ → Option String) (initial max : ℤ) (p q : ChannelPool) (es : List PoolStep)
    (new : new_channel_pool factory initial max ≡ (p, none))
    (there : pool_steps es p ≡ moves q) where
  -- Whatever the callers, who put each connection back once for each `Get`, the factory and `Close` do,
  -- in any order, to a new pool: each connection made
  -- is in one place, which is the channel, a call of `Get`, a caller's hands, or closed; the channel holds
  -- no more than its capacity, and `Busy` tells how many connections the callers have.
  pub pool-IsTidy : IsTidy q
  pool-IsTidy =
      let t = (subst Made new (new_channel_pool_cases factory initial max)).0 in
      subst AllTidy there (pool_steps-IsTidy es p t)

  -- In every order of the calls, the one step that can panic is the call of the factory in the default
  -- case of `Get`, and it does so exactly if a `Get` is there and `Close` has begun meanwhile, whether or not
  -- it has ended: no send to the closed channel and no second close of it comes about.
  pub get_panics_iff : (e : PoolStep) → (pool_step q e ≡ panics) ↔ Panics q e
  get_panics_iff e = (
    λ h. subst (Goes (Panics q e)) h (pool_step-Goes q pool-IsTidy e),
    panics_now q e pool-IsTidy,
  )
