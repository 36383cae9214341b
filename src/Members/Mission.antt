-- ===== src/Members/Mission.antt =====
-- RosaServer/api.cpp: the members of `Mission` that are handed out.
use rosa_server.Base.{none, some, if◌then◌else◌}
use rosa_server.Base.Int.{ℤ, pos, ltb_ℤ}
use rosa_server.Members.Refs.{Ref, ref_or_null, id_or_minus_one}
use rosa_server.Api.{max_item_types}

pub record Mission : Type 0 where
  pub item_id : ℤ
  pub disk_type_id : ℤ

unfoldable pub get_item : Mission → Ref
get_item s = ref_or_null s.item_id

unfoldable pub set_item : Mission → Ref → Mission
set_item s r = record s { item_id = id_or_minus_one r }

-- The bound is compared as a signed number.
unfoldable pub get_disk_type : Mission → Ref
get_disk_type s = if ltb_ℤ s.disk_type_id (pos max_item_types) then some s.disk_type_id else none

unfoldable pub set_disk_type : Mission → Ref → Mission
set_disk_type s r = record s { disk_type_id = id_or_minus_one r }
