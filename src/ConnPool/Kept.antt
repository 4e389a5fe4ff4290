-- ===== src/ConnPool/Kept.antt =====
-- What each step of the pool in pool/pool.go keeps: where the connections are, and which calls can panic.
use anycable_go.Base.{
  ℕ, zero, suc, ◌+◌, ◌≤◌, ◌≡◌, refl, ◌∙◌, sym, ap, String, true, false, Option, none, some, List,
  [], ◌∷◌, ◌++◌, length, length-append, ltb, ltb→lt, ◌==◌, arith, inl, inr, Bool-cases, if_holds,
  Option-cases, ◌⊎◌, ◌≢◌, if◌then◌else◌, count, count-append,
}
use anycable_go.Base.Values.{one_if}
use anycable_go.ConnPool.{
  pos, add_one, sub_one, ChannelPool, Moved, impossible, panics, moves, take_out, get_conns,
  made_conn, make_conn, pick_conn, select_conn, wrap_conn, put, close_conns, close_waiting_channel,
  drain_conn, PoolStep, gets, selects, makes, wraps, puts, closes, shuts_channel, drains, pool_step,
}

-- In how many places a connection is: the channel, a call of `Get`, a caller's hands, or closed.
abbrev pub places : ℕ → ChannelPool → ℕ
places k p = count k p.channel + count k p.wrapping + count k p.held + count k p.shut

pub record IsTidy (p : ChannelPool) : Type 0 where
  pub once : (k : ℕ) → places k p ≡ one_if (ltb k p.made)
  pub room : length p.channel ≤ p.max_cap
  pub active : p.active_count ≡ pos (length p.held)
  pub phase : one_if p.is_open + one_if p.closing + one_if p.is_closed ≡ 1
  pub factory : p.has_factory ≡ p.is_open

-- When a step panics: only the call of the factory, once `Close` has begun.
abbrev pub Panics : ChannelPool → PoolStep → Type 0
Panics p (makes answer) = (p.making ≢ 0) × (p.is_open ≡ false)
Panics p gets = ⊥
Panics p selects = ⊥
Panics p (wraps c) = ⊥
Panics p (puts c) = ⊥
Panics p closes = ⊥
Panics p shuts_channel = ⊥
Panics p drains = ⊥

-- A step keeps the pool tidy, and panics only under a condition.
abbrev pub Goes : Type 0 → Moved → Type 0
Goes r impossible = Unit
Goes r panics = r
Goes r (moves q) = IsTidy q

-- It is the first, or taken from the others.
take_out_cons :
    (c x : ℕ) (xs ys : List ℕ)
    → take_out c (x ∷ xs) ≡ some ys
    → ((x ≡ c) × (ys ≡ xs)) ⊎ ((zs : List ℕ) × (take_out c xs ≡ some zs) × (ys ≡ x ∷ zs))
unfolding take_out
take_out_cons c x xs ys e = elim (Bool-cases (x == c)) [
  | inl here ↦ inl (ground arith, ground arith)
  | inr later ↦ elim (Option-cases (take_out c xs)) [
    | inl missing ↦ absurd (ground arith)
    | inr (zs, there) ↦ inr (zs, there, ground arith)
  ]
]

count-take_out :
    (c : ℕ) (xs ys : List ℕ) (k : ℕ)
    → take_out c xs ≡ some ys
    → count k xs ≡ count k ys + count k (c ∷ [])
unfolding take_out
count-take_out c [] ys k e = absurd (cc)
count-take_out c (x ∷ xs) ys k e = elim (take_out_cons c x xs ys e) [
  | inl (here, same) ↦ rw here (rw same (omega arith))
  | inr (zs, there, same) ↦ rw same (omega (arith, count-take_out c xs zs k there))
]

length-take_out : (c : ℕ) (xs ys : List ℕ) → take_out c xs ≡ some ys → length xs ≡ suc (length ys)
unfolding take_out
length-take_out c [] ys e = absurd (cc)
length-take_out c (x ∷ xs) ys e = elim (take_out_cons c x xs ys e) [
  | inl (here, same) ↦ rw same refl
  | inr (zs, there, same) ↦ rw same (ap (λ (n : ℕ). suc n) (length-take_out c xs zs there))
]

module _ (p : ChannelPool) (t : IsTidy p) where
  get_conns-Goes : Goes ⊥ (moves (get_conns p))
  unfolding get_conns
  get_conns-Goes =
      if_holds IsTidy p.is_open (record p { getting = suc p.getting }) p
        (λ _. record {
          once = t.once;
          room = t.room;
          active = t.active;
          phase = t.phase;
          factory = t.factory;
        })
        (λ _. t)

  pick_conn-Goes : (left : ℕ) (xs : List ℕ) → p.channel ≡ xs → Goes ⊥ (pick_conn p left xs)
  unfolding pick_conn
  pick_conn-Goes left (c ∷ rest) e = record {
    once = λ k. let before = ap (λ (z : List ℕ). count k z) e in omega (arith, t.once k);
    room = let shorter = ap (λ (z : List ℕ). length z) e in let r = t.room in omega arith;
    active = t.active;
    phase = t.phase;
    factory = t.factory;
  }
  pick_conn-Goes left [] e =
      if_holds (Goes ⊥) p.is_closed (moves (record p { getting = left }))
        (moves (record p { getting = left; making = suc p.making }))
        (λ _. record {
          once = t.once;
          room = t.room;
          active = t.active;
          phase = t.phase;
          factory = t.factory;
        })
        (λ _. record {
          once = t.once;
          room = t.room;
          active = t.active;
          phase = t.phase;
          factory = t.factory;
        })

  select_conn-Goes : (n : ℕ) → Goes ⊥ (select_conn p n)
  unfolding select_conn
  select_conn-Goes zero = tt
  select_conn-Goes (suc left) = pick_conn-Goes left p.channel refl

  made_conn-Goes :
      (left : ℕ) (answer : Option String) (r : Type 0) → Goes r (made_conn p left answer)
  unfolding made_conn
  made_conn-Goes left (some e) r = record {
    once = t.once;
    room = t.room;
    active = t.active;
    phase = t.phase;
    factory = t.factory;
  }
  made_conn-Goes left none r = record {
    once = λ k. ground (arith, t.once k);
    room = t.room;
    active = t.active;
    phase = t.phase;
    factory = t.factory;
  }

  make_conn-Goes :
      (n : ℕ) (answer : Option String) → Goes ((n ≢ 0) × (p.is_open ≡ false)) (make_conn p n answer)
  unfolding make_conn
  make_conn-Goes zero answer = tt
  make_conn-Goes (suc left) answer =
      if_holds (Goes ((suc left ≢ 0) × (p.is_open ≡ false))) p.has_factory (made_conn p left answer)
        panics (λ _. made_conn-Goes left answer _)
        (λ gone. (λ z. omega arith, sym t.factory ∙ gone))

  wrap_conn-Goes :
      (c : ℕ) (o : Option (List ℕ)) → take_out c p.wrapping ≡ o → Goes ⊥ (wrap_conn p c o)
  unfolding wrap_conn
  wrap_conn-Goes c none e = tt
  wrap_conn-Goes c (some rest) e = record {
    once = λ k. omega (arith, t.once k, count-take_out c p.wrapping rest k e);
    room = t.room;
    active = ap add_one t.active;
    phase = t.phase;
    factory = t.factory;
  }

  held_less :
      (c : ℕ) (rest : List ℕ)
      → take_out c p.held ≡ some rest
      → sub_one p.active_count ≡ pos (length rest)
  held_less c rest e = ap sub_one (t.active ∙ ap pos (length-take_out c p.held rest e))

  put_back :
      (c : ℕ) (rest : List ℕ)
      → take_out c p.held ≡ some rest
      → ltb (length p.channel) p.max_cap ≡ true
      → IsTidy (record p {
        held = rest;
        active_count = sub_one p.active_count;
        channel = p.channel ++ c ∷ [];
      })
  put_back c rest e less = record {
    once = λ k.
        omega
          (arith, t.once k, count-take_out c p.held rest k e, count-append k p.channel (c ∷ []));
    room = let free = ltb→lt _ _ less in omega (arith, length-append p.channel (c ∷ []));
    active = held_less c rest e;
    phase = t.phase;
    factory = t.factory;
  }

  put_away :
      (c : ℕ) (rest : List ℕ)
      → take_out c p.held ≡ some rest
      → IsTidy (record p { held = rest; active_count = sub_one p.active_count; shut = c ∷ p.shut })
  put_away c rest e = record {
    once = λ k. omega (arith, t.once k, count-take_out c p.held rest k e);
    room = t.room;
    active = held_less c rest e;
    phase = t.phase;
    factory = t.factory;
  }

  put-Goes : (c : ℕ) (o : Option (List ℕ)) → take_out c p.held ≡ o → Goes ⊥ (put p c o)
  unfolding put
  put-Goes c none e = tt
  put-Goes c (some rest) e =
      let p' = record p { held = rest; active_count = sub_one p.active_count } in
      let kept = moves (record p' { channel = p.channel ++ c ∷ [] }) in
      let dropped = moves (record p' { shut = c ∷ p.shut }) in
      let sent = if ltb (length p.channel) p.max_cap then kept else dropped in
      if_holds (Goes ⊥) p.is_open (if p.is_closed then panics else sent) dropped
        (λ on.
          if_holds (Goes ⊥) p.is_closed panics sent (λ shut_now. ground (arith, t.phase))
            (λ _.
              if_holds (Goes ⊥) (ltb (length p.channel) p.max_cap) kept dropped
                (λ room. put_back c rest e room) (λ _. put_away c rest e)))
        (λ _. put_away c rest e)

  close_conns-Goes : Goes ⊥ (moves (close_conns p))
  unfolding close_conns
  close_conns-Goes = record {
    once = t.once;
    room = t.room;
    active = t.active;
    phase = ground (arith, t.phase);
    factory = refl;
  }

  close_waiting_channel-Goes : Goes ⊥ (close_waiting_channel p)
  unfolding close_waiting_channel
  close_waiting_channel-Goes =
      let done = moves (record p { closing = false; is_closed = true }) in
      if_holds (Goes ⊥) p.closing (if p.is_closed then panics else done) impossible
        (λ now.
          if_holds (Goes ⊥) p.is_closed panics done (λ shut_now. ground (arith, t.phase))
            (λ _. record {
              once = t.once;
              room = t.room;
              active = t.active;
              phase = ground (arith, t.phase);
              factory = t.factory;
            }))
        (λ _. tt)

  drain_conn-Goes : (xs : List ℕ) → p.channel ≡ xs → Goes ⊥ (drain_conn p xs)
  unfolding drain_conn
  drain_conn-Goes [] e = tt
  drain_conn-Goes (c ∷ rest) e =
      if_holds (Goes ⊥) p.is_closed (moves (record p { channel = rest; shut = c ∷ p.shut }))
        impossible
        (λ _. record {
          once = λ k. let before = ap (λ (z : List ℕ). count k z) e in omega (arith, t.once k);
          room = let shorter = ap (λ (z : List ℕ). length z) e in let r = t.room in omega arith;
          active = t.active;
          phase = t.phase;
          factory = t.factory;
        })
        (λ _. tt)

  pub pool_step-Goes : (e : PoolStep) → Goes (Panics p e) (pool_step p e)
  unfolding pool_step
  pool_step-Goes gets = get_conns-Goes
  pool_step-Goes selects = select_conn-Goes p.getting
  pool_step-Goes (makes answer) = make_conn-Goes p.making answer
  pool_step-Goes (wraps c) = wrap_conn-Goes c (take_out c p.wrapping) refl
  pool_step-Goes (puts c) = put-Goes c (take_out c p.held) refl
  pool_step-Goes closes = close_conns-Goes
  pool_step-Goes shuts_channel = close_waiting_channel-Goes
  pool_step-Goes drains = drain_conn-Goes p.channel refl
