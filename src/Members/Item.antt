-- ===== src/Members/Item.antt =====
-- RosaServer/api.cpp: the members of `Item` that are handed out.
use rosa_server.Base.{none, some, Call, returns, throws, Error}
use rosa_server.Base.Int.{ℤ}
use rosa_server.Members.Refs.{Ref, ref_or_null, id_or_minus_one}

pub record Item : Type 0 where
  pub type_id : ℤ
  pub grenade_primer_id : ℤ
  pub parent_human_id : ℤ
  pub parent_item_id : ℤ
  pub connected_phone_id : ℤ
  pub vehicle_id : ℤ

unfoldable pub get_type : Item → Ref
get_type s = some s.type_id

unfoldable pub set_type : Item → Ref → Item × Call (Unit {0})
set_type s none = (s, throws Error.nil_argument)
set_type s (some n) = (record s { type_id = n }, returns tt)

unfoldable pub get_grenade_primer : Item → Ref
get_grenade_primer s = ref_or_null s.grenade_primer_id

unfoldable pub set_grenade_primer : Item → Ref → Item
set_grenade_primer s r = record s { grenade_primer_id = id_or_minus_one r }

unfoldable pub get_parent_human : Item → Ref
get_parent_human s = ref_or_null s.parent_human_id

unfoldable pub set_parent_human : Item → Ref → Item
set_parent_human s r = record s { parent_human_id = id_or_minus_one r }

unfoldable pub get_parent_item : Item → Ref
get_parent_item s = ref_or_null s.parent_item_id

unfoldable pub set_parent_item : Item → Ref → Item
set_parent_item s r = record s { parent_item_id = id_or_minus_one r }

unfoldable pub get_connected_phone : Item → Ref
get_connected_phone s = ref_or_null s.connected_phone_id

unfoldable pub set_connected_phone : Item → Ref → Item
set_connected_phone s r = record s { connected_phone_id = id_or_minus_one r }

unfoldable pub get_vehicle : Item → Ref
get_vehicle s = ref_or_null s.vehicle_id

unfoldable pub set_vehicle : Item → Ref → Item
set_vehicle s r = record s { vehicle_id = id_or_minus_one r }
