-- ===== src/Common/Tests.antt =====
-- The merges of common/common.go on a small state.
use anycable_go.Base.{String, none, some, [], ◌∷◌}
use anycable_go.Base.GoMap.{GoMap}
use anycable_go.Common.{SessionEnv}

abbrev state : GoMap String
state = ("user", "7") ∷ ("lang", "en") ∷ []

abbrev change : GoMap String
change = ("lang", "") ∷ ("theme", "dark") ∷ []

abbrev env : SessionEnv
env = record {
  url = "/cable";
  headers = none;
  connection_state = some state;
  channel_states = some (("room", state) ∷ []);
}
