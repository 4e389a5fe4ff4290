-- ===== src/Hub/Invariant.antt =====
-- What holds of the hub of node/hub.go between two events: the lists of streams kept for each
-- session cover its cells, and the registry of identifiers covers the sessions.
use anycable_go.Base.{
  ◌≡◌, refl, String, Bool, true, not, ◌&&◌, Option, none, some, [], ◌∷◌, arith, inl, inr, ◌=s=◌,
  =s=_refl, elem, Bool-cases, elem-append, opt_map,
}
use anycable_go.Base.GoMap.{GoMap, lookup, delete, has, lookup-insert, lookup-delete}
use anycable_go.Hub.State.{
  Hub, HubSession, or_empty, listed, subscribe_session, unsubscribe_session, new_hub,
}
use anycable_go.Hub.Rows.{cell, drop_id, eq_nil_of_length}
use anycable_go.Hub.Streams.{cell-subscribe_session, listed-subscribe_session, SameLists}

abbrev pub subscribed : Hub → String → String → String → Bool
subscribed h stream sid identifier = has identifier (or_empty (cell h.streams stream sid))

-- Every subscription is listed for its session and channel.
abbrev pub Covered : Hub → Type 0
Covered h =
    (stream sid identifier : String)
    → subscribed h stream sid identifier ≡ true
    → elem stream (listed h.sessions_streams sid identifier) ≡ true

-- A cell, an empty one too, is listed for its session under some channel.
abbrev pub Traced : Hub → Type 0
Traced h =
    (stream sid : String) (ids : GoMap Bool)
    → cell h.streams stream sid ≡ some ids
    → (identifier : String) × (elem stream (listed h.sessions_streams sid identifier) ≡ true)

-- A session stands under its UID, and its identifiers know it.
abbrev pub Registered : Hub → Type 0
Registered h =
    (uid : String) (s : HubSession)
    → lookup uid h.sessions ≡ some s
    → (s.uid ≡ uid) × (has uid (or_empty (lookup s.identifiers h.identifiers)) ≡ true)

pub record Inv (h : Hub) : Type 0 where
  pub covered : Covered h
  pub traced : Traced h
  pub registered : Registered h

pub new_hub-Inv : Inv new_hub
unfolding new_hub lookup
new_hub-Inv = record {
  covered = λ stream sid identifier h. cc;
  traced = λ stream sid ids h. absurd (cc);
  registered = λ uid s h. absurd (cc);
}

module _ (h : Hub) (sid stream identifier : String) (v : Inv h) where
  subscribe-Covered : Covered (subscribe_session h sid stream identifier)
  unfolding lookup
  subscribe-Covered stream' sid' identifier' now = ground (
    arith,
    cell-subscribe_session h sid stream identifier stream' sid',
    listed-subscribe_session h sid stream identifier sid' identifier',
    lookup-insert identifier identifier' true (or_empty (cell h.streams stream' sid')),
    elem-append stream' (listed h.sessions_streams sid' identifier') (stream ∷ []),
    v.covered stream' sid' identifier',
  )

  listed_grows :
      (stream' sid' identifier' : String)
      → elem stream' (listed h.sessions_streams sid' identifier') ≡ true
      → elem stream'
          (listed (subscribe_session h sid stream identifier).sessions_streams sid' identifier')
        ≡ true
  listed_grows stream' sid' identifier' old = ground (
    arith,
    listed-subscribe_session h sid stream identifier sid' identifier',
    elem-append stream' (listed h.sessions_streams sid' identifier') (stream ∷ []),
  )

  subscribe-Traced : Traced (subscribe_session h sid stream identifier)
  subscribe-Traced stream' sid' ids now = elim (Bool-cases (stream =s= stream' && sid =s= sid')) [
    | inl here ↦ (
      identifier,
      ground (
        arith,
        listed-subscribe_session h sid stream identifier sid' identifier,
        elem-append stream' (listed h.sessions_streams sid' identifier) (stream ∷ []),
        =s=_refl identifier,
      ),
    )
    | inr away ↦
        let old : cell h.streams stream' sid' ≡ some ids =
          ground (arith, cell-subscribe_session h sid stream identifier stream' sid') in
        let (id, listed_id) = v.traced stream' sid' ids old in
        (id, listed_grows stream' sid' id listed_id)
  ]

  pub subscribe_session-Inv : Inv (subscribe_session h sid stream identifier)
  unfolding subscribe_session
  subscribe_session-Inv = record {
    covered = subscribe-Covered;
    traced = subscribe-Traced;
    registered = v.registered;
  }

-- Where an operation keeps the lists and no cell gains an identifier or comes to be, the
-- invariant stays.
pub record Shrinks (h h' : Hub) : Type 0 where
  pub same : SameLists h h'
  pub fewer :
      (stream sid identifier : String)
      → subscribed h' stream sid identifier ≡ true
      → subscribed h stream sid identifier ≡ true
  pub older :
      (stream sid : String) (ids : GoMap Bool)
      → cell h'.streams stream sid ≡ some ids
      → (ids' : GoMap Bool) × (cell h.streams stream sid ≡ some ids')

pub Shrinks-Inv : (h h' : Hub) → Shrinks h h' → Inv h → Inv h'
Shrinks-Inv h h' s v = record {
  covered = λ stream sid identifier now.
      rw (s.same.sessions_streams)
        (v.covered stream sid identifier (s.fewer stream sid identifier now));
  traced = λ stream sid ids now.
      rw (s.same.sessions_streams) (v.traced stream sid _ (s.older stream sid ids now).1);
  registered =
      λ uid ses now. rw (s.same.identifiers) (v.registered uid ses (rw (← s.same.sessions) now));
}

pub unsubscribe_session-SameLists :
    (h : Hub) (sid stream identifier : String)
    → SameLists h (unsubscribe_session h sid stream identifier)
unfolding unsubscribe_session
unsubscribe_session-SameLists h sid stream identifier = ground arith

pub some_of_opt_map :
    (f : GoMap Bool → GoMap Bool) (c : Option (GoMap Bool)) (ids : GoMap Bool)
    → opt_map f c ≡ some ids
    → (ids' : GoMap Bool) × (c ≡ some ids')
some_of_opt_map f none ids e = absurd (cc)
some_of_opt_map f (some ids') ids e = (ids', refl)

pub some_of_drop_id :
    (identifier : String) (c : Option (GoMap Bool)) (ids : GoMap Bool)
    → drop_id identifier c ≡ some ids
    → (ids' : GoMap Bool) × (c ≡ some ids')
some_of_drop_id identifier none ids e = absurd (cc)
some_of_drop_id identifier (some ids') ids e = (ids', refl)

pub has-opt_map :
    (identifier id : String) (c : Option (GoMap Bool))
    → has id (or_empty (opt_map (delete identifier) c))
      ≡ (not (identifier =s= id) && has id (or_empty c))
unfolding lookup
has-opt_map identifier id none = ground arith
has-opt_map identifier id (some ids) = ground (arith, lookup-delete identifier id ids)

pub has-drop_id :
    (identifier id : String) (c : Option (GoMap Bool))
    → has id (or_empty (drop_id identifier c)) ≡ (not (identifier =s= id) && has id (or_empty c))
unfolding lookup
has-drop_id identifier id none = ground arith
has-drop_id identifier id (some ids) =
    ground (arith, lookup-delete identifier id ids, eq_nil_of_length (delete identifier ids))
