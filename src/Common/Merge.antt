-- ===== src/Common/Merge.antt =====
-- What the merges of common/common.go do to a state, field by field.
use anycable_go.Base.{
  ◌≡◌, refl, ◌∙◌, String, false, Option, none, some, [], ◌∷◌, arith, inl, inr, ap,
}
use anycable_go.Base.{◌=s=◌, =s=_iff, =s=_refl, if◌then◌else◌, Option-cases}
use anycable_go.Base.GoMap.{
  GoMap, lookup, adjust, IsMap, lookup-insert, lookup-delete, has-elem, lookup-adjust_self,
  lookup-adjust_ne,
}
use anycable_go.Common.{
  SessionEnv, merge_entry, merge_entries, merge_connection_state, merge_channel_state,
  ensure_channel, get_connection_state_field, text_or_empty,
}

-- What a merge makes of a field: the new value counts where there is one, and the empty text
-- stands for a removal.
abbrev pub merged : Option String → Option String → Option String
merged none old = old
merged (some v) old = if v =s= "" then none else some v

lookup-merge_entry :
    (k j v : String) (state : GoMap String)
    → lookup j (merge_entry k v state) ≡ (if k =s= j then merged (some v) none else lookup j state)
unfolding merge_entry
lookup-merge_entry k j v state = ground (arith, lookup-insert k j v state, lookup-delete k j state)

pub lookup-merge_entries :
    (j : String) (state other : GoMap String)
    → IsMap other
    → lookup j (merge_entries state other) ≡ merged (lookup j other) (lookup j state)
unfolding merge_entries lookup
lookup-merge_entries j state [] h = refl
lookup-merge_entries j state ((k, v) ∷ other) h = ground (
  arith,
  =s=_iff k j,
  lookup-merge_entry k j v state,
  has-elem k other,
  lookup-merge_entries j (merge_entry k v state) other h.1,
)

-- A merge of a map with distinct keys into a connection state that is there does not panic, and
-- leaves each field with the merged map's value, or without one where that value is empty, or as
-- it was where the map says nothing of it; the channels' states stay as they were.
pub merge_connection_state_lem :
    (st : SessionEnv) (state other : GoMap String) (field : String)
    → st.connection_state ≡ some state
    → IsMap other
    → (st' : SessionEnv) × (merge_connection_state st other ≡ some st')
      × (get_connection_state_field st' field
          ≡ text_or_empty (merged (lookup field other) (lookup field state)))
      × (st'.channel_states ≡ st.channel_states)
unfolding merge_connection_state get_connection_state_field lookup
merge_connection_state_lem st state [] field e h = (st, refl, ground arith, refl)
merge_connection_state_lem st state ((k, v) ∷ other) field e h = (
  record st { connection_state = some (merge_entries state ((k, v) ∷ other)) },
  ground arith,
  ap text_or_empty (lookup-merge_entries field state ((k, v) ∷ other) h),
  refl,
)

abbrev state_or_empty : Option (GoMap String) → GoMap String
state_or_empty none = []
state_or_empty (some state) = state

lookup-ensure_channel :
    (id : String) (states : GoMap (GoMap String))
    → lookup id (ensure_channel id states) ≡ some (state_or_empty (lookup id states))
unfolding ensure_channel
lookup-ensure_channel id states = ground (arith, lookup-insert id id [] states, =s=_refl id)

lookup-ensure_channel_ne :
    (id j : String) (states : GoMap (GoMap String))
    → (id =s= j) ≡ false
    → lookup j (ensure_channel id states) ≡ lookup j states
unfolding ensure_channel
lookup-ensure_channel_ne id j states h = ground (arith, lookup-insert id j [] states)

abbrev pub field_of : Option (GoMap String) → String → Option String
field_of none field = none
field_of (some state) field = lookup field state

-- The value of a channel's field, where a channel that is not there has no fields.
abbrev pub channel_value : GoMap (GoMap String) → String → String → Option String
channel_value states id field = field_of (lookup id states) field

merge_channel_self :
    (id field : String) (states : GoMap (GoMap String)) (other : GoMap String)
    → IsMap other
    → channel_value
        (adjust id (λ state. merge_entries state other) (ensure_channel id states))
        id
        field
      ≡ merged (lookup field other) (channel_value states id field)
unfolding lookup
merge_channel_self id field states other h =
    rw
      (lookup-adjust_self id (λ state. merge_entries state other) (ensure_channel id states) _
        (lookup-ensure_channel id states))
      (elim (Option-cases (lookup id states)) [
        | inl e ↦ rw (e) (lookup-merge_entries field [] other h)
        | inr (state, e) ↦ rw (e) (lookup-merge_entries field state other h)
      ])

-- A merge of a map with distinct keys into one channel, where the channels' states are there,
-- does not panic, sets, removes or keeps each of that channel's fields as the map says, whether or
-- not the channel was there, and leaves every other channel, the connection
-- state and the headers as they were.
pub merge_channel_state_lem :
    (st : SessionEnv) (states : GoMap (GoMap String)) (id : String) (other : GoMap String)
    → st.channel_states ≡ some states
    → IsMap other
    → (st' : SessionEnv) × (states' : GoMap (GoMap String)) × (merge_channel_state st id other
        ≡ some st')
      × (st'.channel_states ≡ some states')
      × ((field : String)
          → channel_value states' id field
            ≡ merged (lookup field other) (channel_value states id field))
      × ((j : String) → (id =s= j) ≡ false → lookup j states' ≡ lookup j states)
      × (st'.connection_state ≡ st.connection_state)
      × (st'.headers ≡ st.headers)
unfolding merge_channel_state
merge_channel_state_lem st states id other e h =
    let states' : GoMap (GoMap String) =
      adjust id (λ state. merge_entries state other) (ensure_channel id states) in
    (
      record st { channel_states = some states' },
      states',
      rw e,
      refl,
      λ field. merge_channel_self id field states other h,
      λ j ne.
          lookup-adjust_ne id j _ (ensure_channel id states) ne
          ∙ lookup-ensure_channel_ne id j states ne,
      refl,
      refl,
    )
