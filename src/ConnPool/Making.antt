-- ===== src/ConnPool/Making.antt =====
-- What `NewChannelPool` of pool/pool.go makes, and what it leaves when its factory fails.
use Prim.Native.String.{◌++◌ as concat}
use anycable_go.Base.{
  ℕ, zero, suc, ◌+◌, ◌≤◌, ◌≡◌, refl, ap, String, true, Option, none, some, List, [], ◌∷◌, ◌++◌,
  length, length-append, ltb, arith, count, count-append, if_holds,
}
use anycable_go.Base.Values.{one_if}
use anycable_go.ConnPool.{
  ℤ, pos, negsuc, ChannelPool, empty_pool, available, close_pool, fill_pool, make_pool,
  new_channel_pool,
}
use anycable_go.ConnPool.Kept.{IsTidy}

-- With an error, every connection made has been closed once; without, the pool is tidy and all that were
-- made are available.
abbrev pub Made : ChannelPool × Option String → Type 0
Made (p, none) = IsTidy p × (p.is_open ≡ true) × (available p ≡ p.made)
Made (p, some e) = (k : ℕ) → count k p.shut ≡ one_if (ltb k p.made)

-- A pool that is being filled.
record IsFilling (p : ChannelPool) (n : ℕ) : Type 0 where
  tidy : IsTidy p
  on : p.is_open ≡ true
  no_wrapping : p.wrapping ≡ []
  no_held : p.held ≡ []
  no_shut : p.shut ≡ []
  left : length p.channel + n ≤ p.max_cap
  ready : length p.channel ≡ p.made

close_pool-shut :
    (p : ChannelPool) (n k : ℕ)
    → IsFilling p n
    → count k (close_pool p).shut ≡ one_if (ltb k (close_pool p).made)
unfolding close_pool
close_pool-shut p n k f =
    let w = ap (λ (z : List ℕ). count k z) f.no_wrapping in
    let h = ap (λ (z : List ℕ). count k z) f.no_held in
    if_holds (λ z. count k z ≡ one_if (ltb k p.made)) p.is_open (p.channel ++ p.shut) p.shut
      (λ _. omega (arith, count-append k p.channel p.shut, f.tidy.once k))
      (λ off. absurd (ground (arith, f.on)))

next-IsFilling :
    (p : ChannelPool) (n : ℕ)
    → IsFilling p (suc n)
    → IsFilling (record p { channel = p.channel ++ p.made ∷ []; made = suc p.made }) n
next-IsFilling p n f = record {
  tidy = record {
    once = λ k. ground (arith, f.tidy.once k, count-append k p.channel (p.made ∷ []));
    room = let l = f.left in omega (arith, length-append p.channel (p.made ∷ []));
    active = f.tidy.active;
    phase = f.tidy.phase;
    factory = f.tidy.factory;
  };
  on = f.on;
  no_wrapping = f.no_wrapping;
  no_held = f.no_held;
  no_shut = f.no_shut;
  left = let l = f.left in omega (arith, length-append p.channel (p.made ∷ []));
  ready = let r = f.ready in omega (arith, length-append p.channel (p.made ∷ []));
}

abbrev failure : String
failure = "factory is not able to fill the pool: "

answered :
    (o : Option String) (bad : String → ChannelPool × Option String)
    (good : ChannelPool × Option String)
    → ((e : String) → Made (bad e))
    → Made good
    → Made (elim o [ some e ↦ bad e | none ↦ good ])
answered none bad good b g = g
answered (some e) bad good b g = b e

fill_pool-Made :
    (factory : ℕ → Option String) (n : ℕ) (p : ChannelPool)
    → IsFilling p n
    → Made (fill_pool factory n p)
unfolding fill_pool available
fill_pool-Made factory zero p f = (
  f.tidy,
  f.on,
  if_holds (λ z. z ≡ p.made) p.is_open (length p.channel) 0 (λ _. f.ready)
      (λ off. absurd (ground (arith, f.on))),
)
fill_pool-Made factory (suc n) p f =
    answered (factory p.made) (λ e. (close_pool p, some (concat failure e)))
      (fill_pool factory n (record p { channel = p.channel ++ p.made ∷ []; made = suc p.made }))
      (λ e k. close_pool-shut p (suc n) k f) (fill_pool-Made factory n _ (next-IsFilling p n f))

empty-IsFilling : (initial max : ℕ) → initial ≤ max → IsFilling (empty_pool max) initial
empty-IsFilling initial max h = record {
  tidy = record {
    once = λ k. ground arith;
    room = omega arith;
    active = refl;
    phase = omega arith;
    factory = refl;
  };
  on = refl;
  no_wrapping = refl;
  no_held = refl;
  no_shut = refl;
  left = omega arith;
  ready = refl;
}

nothing_made : (k : ℕ) → 0 ≡ one_if (ltb k 0)
nothing_made k = ground arith

make_pool-Made :
    (factory : ℕ → Option String) (initial max : ℕ) → Made (make_pool factory initial max)
unfolding make_pool
make_pool-Made factory initial zero = nothing_made
make_pool-Made factory initial (suc max) =
    if_holds Made (ltb (suc max) initial) (empty_pool (suc max), some "invalid capacity settings")
      (fill_pool factory initial (empty_pool (suc max))) (λ _. nothing_made)
      (λ fits.
        fill_pool-Made factory initial (empty_pool (suc max))
          (empty-IsFilling initial (suc max) (ground arith)))

-- A new pool holds what its factory made, each connection once and all of them available; when the
-- settings are invalid or the factory fails, every connection it made has been closed once.
pub new_channel_pool_cases :
    (factory : ℕ → Option String) (initial max : ℤ) → Made (new_channel_pool factory initial max)
unfolding new_channel_pool
new_channel_pool_cases factory (pos initial) (pos max) = make_pool-Made factory initial max
new_channel_pool_cases factory (pos initial) (negsuc n) = nothing_made
new_channel_pool_cases factory (negsuc n) max = nothing_made
