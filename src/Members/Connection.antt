-- ===== src/Members/Connection.antt =====
-- RosaServer/api.cpp: the members of `Connection` that are handed out.
use rosa_server.Base.{ℕ, leb, if◌then◌else◌, Call, returns, throws, Error}
use rosa_server.Base.Int.{ℤ}
use rosa_server.Members.Refs.{Ref, ref_or_null, id_or_minus_one}

pub record Connection : Type 0 where
  pub player_id : ℤ
  pub spectating_human_id : ℤ

unfoldable pub get_player : Connection → Ref
get_player s = ref_or_null s.player_id

unfoldable pub set_player : Connection → Ref → Connection
set_player s r = record s { player_id = id_or_minus_one r }

unfoldable pub get_spectating_human : Connection → Ref
get_spectating_human s = ref_or_null s.spectating_human_id

abbrev pub num_ear_shots : ℕ
num_ear_shots = 8

unfoldable pub get_ear_shot : ℕ → Call ℕ
get_ear_shot idx = if leb 8 idx then throws Error.index_out_of_range else returns idx
