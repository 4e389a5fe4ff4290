-- ===== src/Hub/Preserve.antt =====
-- Every event of node/hub.go keeps the invariant of the hub, and so does every run of its loop.
use anycable_go.Base.{
  ◌≡◌, ◌∙◌, String, true, ◌&&◌, none, List, arith, inl, inr, ◌=s=◌, =s=_iff, if◌then◌else◌, elem,
  Bool-cases,
}
use anycable_go.Base.GoMap.{GoMap, lookup, delete, keys, has-elem}
use anycable_go.Hub.State.{
  Hub, or_empty, listed, unsubscribe_session_from_channel, unsubscribe_session_from_all_channels,
  unsubscribe_session,
}
use anycable_go.Hub.Rows.{cell}
use anycable_go.Hub.Streams.{
  cell-unsubscribe_session, cell-unsubscribe_session_from_channel, from_channel-SameLists,
  cell-unsubscribe_channels, Remaining, drops-none,
}
use anycable_go.Hub.Invariant.{
  Inv, Shrinks, Shrinks-Inv, unsubscribe_session-SameLists, has-opt_map, has-drop_id,
  some_of_opt_map, some_of_drop_id,
}

module _ (h : Hub) (sid : String) where
  unsubscribe_session-Shrinks :
      (stream identifier : String) → Shrinks h (unsubscribe_session h sid stream identifier)
  unsubscribe_session-Shrinks stream identifier = record {
    same = unsubscribe_session-SameLists h sid stream identifier;
    fewer = λ stream' sid' id now. ground (
      arith,
      cell-unsubscribe_session h sid stream identifier stream' sid',
      has-opt_map identifier id (cell h.streams stream' sid'),
    );
    older = λ stream' sid' ids now. elim (Bool-cases (stream =s= stream' && sid =s= sid')) [
      | inl here ↦
          some_of_opt_map (delete identifier) _ ids
            (ground (arith, cell-unsubscribe_session h sid stream identifier stream' sid'))
      | inr away ↦
          (ids, ground (arith, cell-unsubscribe_session h sid stream identifier stream' sid'))
    ];
  }

  from_channel-Shrinks :
      (identifier : String) → Shrinks h (unsubscribe_session_from_channel h sid identifier)
  from_channel-Shrinks identifier = record {
    same = from_channel-SameLists h sid identifier;
    fewer = λ stream' sid' id now. ground (
      arith,
      cell-unsubscribe_session_from_channel h sid identifier stream' sid',
      has-drop_id identifier id (cell h.streams stream' sid'),
    );
    older = λ stream' sid' ids now.
        elim (Bool-cases
          (sid =s= sid' && elem stream' (listed h.sessions_streams sid identifier))) [
            | inl here ↦ some_of_drop_id identifier _ ids (
                ground (arith, cell-unsubscribe_session_from_channel h sid identifier stream' sid'))
            | inr away ↦ (
              ids,
              ground (arith, cell-unsubscribe_session_from_channel h sid identifier stream' sid'),
            )
          ];
  }

pub unsubscribe_session-Inv :
    (h : Hub) (sid stream identifier : String)
    → Inv h
    → Inv (unsubscribe_session h sid stream identifier)
unsubscribe_session-Inv h sid stream identifier =
    Shrinks-Inv h _ (unsubscribe_session-Shrinks h sid stream identifier)

pub from_channel-Inv :
    (h : Hub) (sid identifier : String)
    → Inv h
    → Inv (unsubscribe_session_from_channel h sid identifier)
from_channel-Inv h sid identifier = Shrinks-Inv h _ (from_channel-Shrinks h sid identifier)

listed_channel :
    (m : GoMap (GoMap (List String))) (stream sid identifier : String)
    → elem stream (listed m sid identifier) ≡ true
    → elem identifier (keys (or_empty (lookup sid m))) ≡ true
listed_channel m stream sid identifier h =
    ground (arith, has-elem identifier (or_empty (lookup sid m)))

module _ (h : Hub) (sid : String) (v : Inv h) where
  all_listed :
      (stream : String)
      → Remaining
          (λ id. elem stream (listed h.sessions_streams sid id))
          (keys (or_empty (lookup sid h.sessions_streams)))
          (cell h.streams stream sid)
  all_listed stream ids e = (
    λ id held.
        let l = v.covered stream sid id (rw e held) in
        let k = listed_channel h.sessions_streams stream sid id l in ground arith,
    let (id, l) = v.traced stream sid ids e in
        let k = listed_channel h.sessions_streams stream sid id l in (id, ground arith),
  )

  -- Leaving every channel empties the session's cells and no other.
  pub cell-all_channels :
      (stream sid' : String)
      → cell (unsubscribe_session_from_all_channels h sid).streams stream sid'
        ≡ (if sid =s= sid' then none else cell h.streams stream sid')
  unfolding unsubscribe_session_from_all_channels
  cell-all_channels stream sid' = elim (Bool-cases (sid =s= sid')) [
    | inl same ↦
        let e : sid ≡ sid' = (=s=_iff sid sid').0 same in
        cell-unsubscribe_channels h sid (keys (or_empty (lookup sid h.sessions_streams))) stream
          sid'
        ∙ rw (same, ← e) (drops-none _ _ _ (all_listed stream))
    | inr other ↦
        cell-unsubscribe_channels h sid (keys (or_empty (lookup sid h.sessions_streams))) stream
          sid'
        ∙ rw other
  ]
