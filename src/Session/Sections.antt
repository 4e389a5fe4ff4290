-- ===== src/Session/Sections.antt =====
-- The sections of node/session.go in any order, as goroutines that send, write, close and
-- authenticate interleave them.
use native.Mathlib.Decide.{dec_lt}
use anycable_go.Base.{
  append-nil, append_assoc, ℕ, ◌+◌, ◌≤◌, ◌<◌, ◌≡◌, refl, sym, ◌∙◌, ap, String, true, false, Option,
  some, List, [], ◌∷◌, ◌++◌, length, length-append, arith, inl, inr, Bool-cases,
}
use anycable_go.Base.GoMap.{GoMap}
use anycable_go.Base.Values.{one_if}
use anycable_go.Encoders.{SentFrame}
use anycable_go.Node.{Node, node_disconnect, hub_remove_session}
use anycable_go.Session.{
  hub_session, World, start_session, new_session, disconnect_from_node, close_session,
  close_channel, pushed, overflowed, push, push_open, shut_channel, send_capacity,
}
use anycable_go.Session.Writer.{receive_frame}
use anycable_go.Session.Steps.{
  Section, connects, leaves, pushes, shuts, takes, flags, Trace, taken_in, after_push, section,
  next_sections, sections, SafeWorld, SafeTrace,
}

told_leaves :
    (base entered : ℕ) (w : World)
    → length w.node.register + one_if w.session.connected ≡ base + entered
    → length (disconnect_from_node w).node.register
        + one_if (disconnect_from_node w).session.connected
      ≡ base + entered
unfolding disconnect_from_node node_disconnect hub_remove_session
told_leaves base entered w h = ground (
  arith,
  length-append w.node.register (record { event = "remove"; session = hub_session w.session } ∷ []),
)

-- A world whose channel is closed and no longer the session's.
abbrev pub without_channel : World → World
without_channel w = record w {
  session = record w.session { sends = false };
  channel = record w.channel { is_closed = true };
}

module _ (w : World) (frame : SentFrame) where
  pub push_nil : w.session.sends ≡ false → push w frame ≡ pushed w
  unfolding push
  push_nil off = ground arith

  abbrev pub with_frame : World
  with_frame = record w { channel = record w.channel { frames = w.channel.frames ++ frame ∷ [] } }

  pub push_room :
      SafeWorld w
      → w.session.sends ≡ true
      → length w.channel.frames < send_capacity
      → push w frame ≡ pushed with_frame
  unfolding push push_open
  push_room safe on room = let field = safe.channel in ground arith

  pub push_full :
      SafeWorld w
      → w.session.sends ≡ true
      → send_capacity ≤ length w.channel.frames
      → push w frame ≡ overflowed (without_channel w)
  unfolding push push_open
  push_full safe on full = let field = safe.channel in ground arith

  taken_in_nil : w.session.sends ≡ false → taken_in w frame ≡ []
  taken_in_nil off = ground arith

  taken_in_room :
      w.session.sends ≡ true
      → length w.channel.frames < send_capacity
      → taken_in w frame ≡ frame ∷ []
  taken_in_room on room = ground arith

pushes-SafeTrace :
    (base : ℕ) (t : Trace) (frame : SentFrame)
    → SafeTrace base t
    → (t' : Trace) × (section t (pushes frame) ≡ some t') × SafeTrace base t'
unfolding section
pushes-SafeTrace base t frame s = elim (Bool-cases t.world.session.sends) [
  | inr off ↦ (
    _,
    ap (after_push t frame) (push_nil t.world frame off),
    record {
      safe = s.safe;
      order = rw (taken_in_nil t.world frame off) (append-nil t.accepted ∙ s.order);
      told = s.told;
    },
  )
  | inl on ↦ elim (dec_lt (length t.world.channel.frames) send_capacity) [
    | yes room ↦ (
      _,
      ap (after_push t frame) (push_room t.world frame s.safe on room),
      record {
        safe = record {
          channel = s.safe.channel;
          bound = omega (arith, length-append t.world.channel.frames (frame ∷ []));
        };
        order = rw (taken_in_room t.world frame on room) (
            ap (λ (xs : List SentFrame). xs ++ frame ∷ []) s.order
            ∙ append_assoc t.taken t.world.channel.frames (frame ∷ []));
        told = s.told;
      },
    )
    | no full ↦ (
      _,
      ap (after_push t frame) (push_full t.world frame s.safe on (omega arith)),
      record {
        safe = record { channel = refl; bound = s.safe.bound };
        order = s.order;
        told = s.told;
      },
    )
  ]
]

shuts-SafeTrace :
    (base : ℕ) (t : Trace)
    → SafeTrace base t
    → (t' : Trace) × (section t shuts ≡ some t') × SafeTrace base t'
unfolding section shut_channel close_channel
shuts-SafeTrace base t s = elim (Bool-cases t.world.session.sends) [
  | inr off ↦ (t, ground arith, s)
  | inl on ↦
      let field = s.safe.channel in
      (
        record t {
          world = record t.world {
            session = record t.world.session { sends = false };
            channel = record t.world.channel { is_closed = true };
          };
        },
        ground arith,
        record {
          safe = record { channel = refl; bound = s.safe.bound };
          order = s.order;
          told = s.told;
        },
      )
]

takes-SafeTrace :
    (base : ℕ) (t : Trace) (frames : List SentFrame)
    → t.world.channel.frames ≡ frames
    → SafeTrace base t
    → (t' : Trace) × (section t takes ≡ some t') × SafeTrace base t'
unfolding section receive_frame
takes-SafeTrace base t [] e s = (t, ground arith, s)
takes-SafeTrace base t (frame ∷ rest) e s =
    let b = s.safe.bound in
    let o = s.order in
    (
      record t {
        world = record t.world { channel = record t.world.channel { frames = rest } };
        taken = t.taken ++ frame ∷ [];
      },
      ground arith,
      record {
        safe = record { channel = s.safe.channel; bound = ground arith };
        order = (rw e at o) ∙ sym (append_assoc t.taken (frame ∷ []) rest);
        told = s.told;
      },
    )

section-SafeTrace :
    (base : ℕ) (t : Trace) (e : Section)
    → SafeTrace base t
    → (t' : Trace) × (section t e ≡ some t') × SafeTrace base t'
unfolding section disconnect_from_node close_session
section-SafeTrace base t (connects identifiers) s =
    let told = s.told in
    (
      _,
      refl,
      record {
        safe = record { channel = s.safe.channel; bound = s.safe.bound };
        order = s.order;
        told = ground arith;
      },
    )
section-SafeTrace base t leaves s = (
  _,
  refl,
  record {
    safe = record {
      channel = ground (arith, s.safe.channel);
      bound = ground (arith, s.safe.bound);
    };
    order = ground (arith, s.order);
    told = told_leaves base t.entered t.world s.told;
  },
)
section-SafeTrace base t (pushes frame) s = pushes-SafeTrace base t frame s
section-SafeTrace base t shuts s = shuts-SafeTrace base t s
section-SafeTrace base t takes s = takes-SafeTrace base t t.world.channel.frames refl s
section-SafeTrace base t flags s = (
  _,
  refl,
  record {
    safe = record {
      channel = ground (arith, s.safe.channel);
      bound = ground (arith, s.safe.bound);
    };
    order = ground (arith, s.order);
    told = ground (arith, s.told);
  },
)

sections-SafeTrace :
    (base : ℕ) (es : List Section) (t : Trace)
    → SafeTrace base t
    → (t' : Trace) × (sections es t ≡ some t') × SafeTrace base t'
unfolding sections
sections-SafeTrace base [] t s = (t, refl, s)
sections-SafeTrace base (e ∷ es) t s =
    let (t', step, s') = section-SafeTrace base t e s in
    let (t'', rest, s'') = sections-SafeTrace base es t' s' in
    (t'', ap (next_sections (sections es)) step ∙ rest, s'')

-- However the sections of a new session are interleaved, none of them panics at a closed channel.
-- The session's channel field is nil exactly when the channel is closed, no more than 256 frames
-- wait in it, the frames leave it in the order in which it took them, and the node is asked to
-- remove the session exactly once for each time that it was connected and no longer is.
pub sections_safe :
    (n : Node) (url : String) (headers : Option (GoMap String)) (uid : String) (es : List Section)
    → (t : Trace) × (sections es (record {
      world = start_session n url headers uid;
      accepted = [];
      taken = [];
      entered = 0;
    })
        ≡ some t)
      × SafeTrace (length n.register) t
unfolding start_session new_session
sections_safe n url headers uid es = sections-SafeTrace (length n.register) es _ (record {
  safe = record { channel = refl; bound = omega arith };
  order = refl;
  told = omega arith;
})
