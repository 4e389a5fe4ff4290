-- ===== src/Rpc/Tickets.antt =====
-- Calls of the controller of rpc/rpc.go side by side: the semaphore under every interleaving of
-- calls that arrive, start and end.
use anycable_go.Base.{ℕ, zero, suc, ◌+◌, ◌-◌, ◌%◌, ◌<◌, ◌≤◌, ◌≡◌, refl, some, arith}
use anycable_go.Rpc.Controller.{
  Controller, enqueue_call, start_call, put_ticket, init_semaphore, fill, busy,
}
use anycable_go.Metrics.{dec, u64_mod}

-- The controller, the calls that wait for a ticket and those that hold one.
pub record Load : Type 0 where
  pub controller : Controller
  pub waiting : ℕ
  pub active : ℕ

pub data Step (l : Load) (l' : Load) : Type 0 where
  arrive :
      l' ≡ record l { controller = enqueue_call l.controller; waiting = l.waiting + 1 } → Step l l'
  start :
      (c : Controller)
      → 0 < l.waiting
      → start_call l.controller ≡ some c
      → l' ≡ record { controller = c; waiting = l.waiting - 1; active = l.active + 1 }
      → Step l l'
  finish :
      0 < l.active
      → l' ≡ record l { controller = put_ticket l.controller; active = l.active - 1 }
      → Step l l'

pub data Reach (l : Load) : Load → Type 0 where
  here : Reach l l
  next : {m n : Load} → Reach l m → Step m n → Reach l n

abbrev pub opened : Controller → Load
opened c = record {
  controller = record (init_semaphore c c.concurrency) { pending = 0 };
  waiting = 0;
  active = 0;
}

pub record Balanced (l : Load) : Type 0 where
  pub tickets : l.controller.sem + l.active ≡ l.controller.concurrency
  pub gauge : l.controller.pending ≡ l.waiting % u64_mod

pub fill_all : (k n : ℕ) → fill k n ≡ k + n
unfolding fill
fill_all zero n = omega arith
fill_all (suc k) n = omega (arith, fill_all k (n + 1))

opened-Balanced : (c : Controller) → Balanced (opened c)
unfolding init_semaphore
opened-Balanced c = omega (arith, fill_all c.concurrency 0)

Step-Balanced : (l l' : Load) → Step l l' → Balanced l → Balanced l'
unfolding enqueue_call start_call put_ticket
Step-Balanced l l' (arrive e) b = ground arith
Step-Balanced l l' (start c w s e) b = ground arith
Step-Balanced l l' (finish a e) b = ground arith

Reach-Balanced : {l m : Load} → Balanced l → Reach l m → Balanced m
Reach-Balanced b here = b
Reach-Balanced b (next {m = m} {n = n} r s) = Step-Balanced m n s (Reach-Balanced b r)

-- The concurrency does not change, and with it the number of tickets.
same_concurrency : {l m : Load} → Reach l m → m.controller.concurrency ≡ l.controller.concurrency
unfolding enqueue_call start_call put_ticket
same_concurrency here = refl
same_concurrency (next {m = m} {n = n} r (arrive e)) = ground (arith, same_concurrency r)
same_concurrency (next {m = m} {n = n} r (start c w s e)) = ground (arith, same_concurrency r)
same_concurrency (next {m = m} {n = n} r (finish a e)) = ground (arith, same_concurrency r)

-- However calls arrive, start and end, no more of them are active than the concurrency allows,
-- `busy` is their number, the gauge counts those that wait, and a call that waits can start as
-- long as fewer are active than allowed: no ticket is lost.
pub tickets_bounded :
    (c : Controller) (l : Load)
    → Reach (opened c) l
    → (l.active ≤ c.concurrency)
      × (busy l.controller ≡ l.active)
      × (l.controller.pending ≡ l.waiting % u64_mod)
      × (0 < l.waiting
          → l.active < c.concurrency
          → (l' : Load) × Step l l' × (l'.active ≡ l.active + 1))
unfolding busy
tickets_bounded c l r =
    let b = Reach-Balanced (opened-Balanced c) r in
    let same = same_concurrency r in
    let kept : l.controller.concurrency ≡ c.concurrency = unfold init_semaphore in omega arith in
    (
      omega arith,
      omega arith,
      b.gauge,
      λ w room.
          let free : 0 < l.controller.sem = omega arith in
          (
            _,
            start
                (record l.controller {
                  sem = l.controller.sem - 1;
                  pending = dec l.controller.pending;
                })
                w (unfold start_call in ground arith) refl,
            refl,
          ),
    )
