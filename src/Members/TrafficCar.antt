-- ===== src/Members/TrafficCar.antt =====
-- RosaServer/api.cpp: the members of `TrafficCar` that are handed out.
use rosa_server.Base.{none, some, Call, returns, throws, Error}
use rosa_server.Base.Int.{ℤ}
use rosa_server.Members.Refs.{Ref, ref_or_null, id_or_minus_one}

pub record TrafficCar : Type 0 where
  pub type_id : ℤ
  pub human_id : ℤ
  pub vehicle_id : ℤ

unfoldable pub get_type : TrafficCar → Ref
get_type s = some s.type_id

unfoldable pub set_type : TrafficCar → Ref → TrafficCar × Call (Unit {0})
set_type s none = (s, throws Error.nil_argument)
set_type s (some n) = (record s { type_id = n }, returns tt)

unfoldable pub get_human : TrafficCar → Ref
get_human s = ref_or_null s.human_id

unfoldable pub set_human : TrafficCar → Ref → TrafficCar
set_human s r = record s { human_id = id_or_minus_one r }

unfoldable pub get_vehicle : TrafficCar → Ref
get_vehicle s = ref_or_null s.vehicle_id

unfoldable pub set_vehicle : TrafficCar → Ref → TrafficCar
set_vehicle s r = record s { vehicle_id = id_or_minus_one r }
