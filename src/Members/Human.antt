-- ===== src/Members/Human.antt =====
-- RosaServer/api.cpp: the members of `Human` that are handed out.
use rosa_server.Base.{ℕ, ltb, if◌then◌else◌, Call, returns, throws, Error}
use rosa_server.Base.Int.{ℤ}
use rosa_server.Members.Refs.{Ref, ref_or_null, id_or_minus_one}

pub record Human : Type 0 where
  pub player_id : ℤ
  pub account_id : ℤ
  pub vehicle_id : ℤ

unfoldable pub get_player : Human → Ref
get_player s = ref_or_null s.player_id

unfoldable pub set_player : Human → Ref → Human
set_player s r = record s { player_id = id_or_minus_one r }

unfoldable pub get_account : Human → Ref
get_account s = ref_or_null s.account_id

unfoldable pub set_account : Human → Ref → Human
set_account s r = record s { account_id = id_or_minus_one r }

unfoldable pub get_vehicle : Human → Ref
get_vehicle s = ref_or_null s.vehicle_id

unfoldable pub set_vehicle : Human → Ref → Human
set_vehicle s r = record s { vehicle_id = id_or_minus_one r }

abbrev pub num_bones : ℕ
num_bones = 16

unfoldable pub get_bone : ℕ → Call ℕ
get_bone idx = if ltb 15 idx then throws Error.index_out_of_range else returns idx

abbrev pub num_inventory_slots : ℕ
num_inventory_slots = 6

unfoldable pub get_inventory_slot : ℕ → Call ℕ
get_inventory_slot idx = if ltb 6 idx then throws Error.index_out_of_range else returns idx
