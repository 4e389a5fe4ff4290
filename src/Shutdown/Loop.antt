-- ===== src/Shutdown/Loop.antt =====
-- The loop over the sessions in `Shutdown` of node/node.go.
use anycable_go.Base.{
  ◌+◌, ◌≤◌, ◌<◌, ◌≡◌, refl, ◌⊎◌, inl, inr, ◌∙◌, sym, ap, String, List, [], ◌∷◌, ◌++◌, length,
  length-append, append-nil, append_assoc, ltb, ltb→lt, Bool-cases, if◌then◌else◌, arith,
}
use anycable_go.Base.GoMap.{GoMap}
use anycable_go.Base.Values.{AllValues}
use anycable_go.Hub.State.{HubSession}
use anycable_go.Hub.{HubRegistration}
use anycable_go.Disconnector.{DisconnectQueue, enqueue}
use anycable_go.Node.{Node, node_disconnect, hub_remove_session}
use anycable_go.Session.{World, hub_session}
use anycable_go.Session.Ending.{told_node}
use anycable_go.Shutdown.{
  Member, world_of, member_of, Closing, waits, all_closed, and_member, after_member, close_members,
  register_capacity,
}
use anycable_go.Shutdown.Each.{SafeMember, IsTold, close_member_ends}

-- The removal that a session sends, and the session for the disconnector.
abbrev pub removal_of : Member → List HubRegistration
removal_of m =
    if m.session.connected
    then record { event = "remove"; session = hub_session m.session } ∷ []
    else []

abbrev pub leaver_of : Member → List HubSession
leaver_of m = if m.session.connected then hub_session m.session ∷ [] else []

abbrev pub removals : GoMap Member → List HubRegistration
removals [] = []
removals ((sid, m) ∷ rest) = removal_of m ++ removals rest

abbrev pub leavers : GoMap Member → List HubSession
leavers [] = []
leavers ((sid, m) ∷ rest) = leaver_of m ++ leavers rest

abbrev pub enqueue_all : DisconnectQueue → List HubSession → DisconnectQueue
enqueue_all d [] = d
enqueue_all d (s ∷ rest) = enqueue_all (enqueue d s) rest

enqueue_all-append :
    (d : DisconnectQueue) (xs ys : List HubSession)
    → enqueue_all d (xs ++ ys) ≡ enqueue_all (enqueue_all d xs) ys
enqueue_all-append d [] ys = refl
enqueue_all-append d (x ∷ xs) ys = enqueue_all-append (enqueue d x) xs ys

told_register :
    (n : Node) (m : Member) → (told_node (world_of n m)).register ≡ n.register ++ removal_of m
unfolding node_disconnect hub_remove_session
told_register n m = ground (arith, append-nil n.register)

told_queue :
    (n : Node) (m : Member)
    → (told_node (world_of n m)).disconnector ≡ enqueue_all n.disconnector (leaver_of m)
unfolding node_disconnect hub_remove_session
told_queue n m = ground arith

-- Each session under its key, before and after.
abbrev pub AllTold : GoMap Member → GoMap Member → Type 0
AllTold [] [] = Unit
AllTold ((k, m) ∷ rest) ((j, m') ∷ rest') = (j ≡ k) × IsTold m m' × AllTold rest rest'
AllTold _ _ = ⊥

abbrev pub Closes : GoMap Member → Node → Closing → Type 0
Closes ms n c =
    (n' : Node) × (ms' : GoMap Member) × (c ≡ all_closed n' ms')
    × AllTold ms ms'
    × (n'.register ≡ n.register ++ removals ms)
    × (n'.disconnector ≡ enqueue_all n.disconnector (leavers ms))

with_first :
    (sid : String) (m : Member) (rest : GoMap Member) (n : Node) (w : World)
    → IsTold m (member_of m w)
    → w.node.register ≡ n.register ++ removal_of m
    → w.node.disconnector ≡ enqueue_all n.disconnector (leaver_of m)
    → Closes rest w.node (close_members rest w.node)
    → Closes ((sid, m) ∷ rest) n (and_member sid (member_of m w) (close_members rest w.node))
with_first sid m rest n w told reg queue (n', ms', closed, all, reg', queue') = (
  n',
  (sid, member_of m w) ∷ ms',
  ap (and_member sid (member_of m w)) closed,
  (refl, told, all),
  reg' ∙ ap (λ (z : List HubRegistration). z ++ removals rest) reg ∙ append_assoc n.register _ _,
  queue'
      ∙ ap (λ (z : DisconnectQueue). enqueue_all z (leavers rest)) queue
      ∙ sym (enqueue_all-append n.disconnector (leaver_of m) (leavers rest)),
)

-- If the channel `register`, from which nobody receives any more, has room for the removals of the
-- sessions that are connected, the loop ends: every session is closed and not connected, with the
-- message of the restart and the close frame in its channel if there was room for both, and the hub and
-- the disconnector are handed each connected session once and in order. Otherwise the loop waits for ever.
pub close_members_cases :
    (ms : GoMap Member) (n : Node)
    → AllValues SafeMember ms
    → length n.register ≤ register_capacity
    → ((length n.register + length (removals ms) ≤ register_capacity)
        × Closes ms n (close_members ms n))
      ⊎ ((register_capacity < length n.register + length (removals ms))
          × (close_members ms n ≡ waits))
unfolding close_members after_member
close_members_cases [] n safe room =
    inl (omega arith, (n, [], refl, tt, sym (append-nil n.register), refl))
close_members_cases ((sid, m) ∷ rest) n safe room =
    let (w, ends, told, reg, queue) = close_member_ends n m safe.0 in
    let reg' = reg ∙ told_register n m in
    let size = ap (λ (z : List HubRegistration). length z) reg' in
    let one = length-append n.register (removal_of m) in
    let more = length-append (removal_of m) (removals rest) in
    elim (Bool-cases (ltb register_capacity (length w.node.register))) [
      | inl full ↦
          inr (let over = ltb→lt _ _ full in omega arith, rw (ends, after_member, full) refl)
      | inr fits ↦ elim (close_members_cases rest w.node safe.1 (ground arith)) [
        | inl (small, closed) ↦ inl (
          omega arith,
          rw (ends, after_member, fits)
              (with_first sid m rest n w told reg' (queue ∙ told_queue n m) closed),
        )
        | inr (large, stuck) ↦
            inr (
              omega arith,
              rw (ends, after_member, fits) (ap (and_member sid (member_of m w)) stuck),
            )
      ]
    ]
