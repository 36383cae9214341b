-- ===== src/Members/Vehicle.antt =====
-- RosaServer/api.cpp: the members of `Vehicle` that are handed out.
use rosa_server.Base.{ℕ, none, some, ltb, if◌then◌else◌, Call, returns, throws, Error}
use rosa_server.Base.Int.{ℤ}
use rosa_server.Members.Refs.{Ref, ref_or_null, id_or_minus_one}

pub record Vehicle : Type 0 where
  pub type_id : ℤ
  pub last_driver_player_id : ℤ
  pub traffic_car_id : ℤ

unfoldable pub get_type : Vehicle → Ref
get_type s = some s.type_id

unfoldable pub set_type : Vehicle → Ref → Vehicle × Call (Unit {0})
set_type s none = (s, throws Error.nil_argument)
set_type s (some n) = (record s { type_id = n }, returns tt)

unfoldable pub get_last_driver : Vehicle → Ref
get_last_driver s = ref_or_null s.last_driver_player_id

unfoldable pub get_traffic_car : Vehicle → Ref
get_traffic_car s = ref_or_null s.traffic_car_id

unfoldable pub set_traffic_car : Vehicle → Ref → Vehicle
set_traffic_car s r = record s { traffic_car_id = id_or_minus_one r }

abbrev pub num_wheels : ℕ
num_wheels = 6

unfoldable pub get_wheel : ℕ → Call ℕ
get_wheel idx = if ltb 6 idx then throws Error.index_out_of_range else returns idx
