-- ===== src/Members/EarShot.antt =====
-- RosaServer/api.cpp: the members of `EarShot` that are handed out.
use rosa_server.Base.Int.{ℤ}
use rosa_server.Members.Refs.{Ref, ref_or_null, id_or_minus_one}

pub record EarShot : Type 0 where
  pub player_id : ℤ
  pub human_id : ℤ
  pub receiving_item_id : ℤ
  pub transmitting_item_id : ℤ

unfoldable pub get_player : EarShot → Ref
get_player s = ref_or_null s.player_id

unfoldable pub set_player : EarShot → Ref → EarShot
set_player s r = record s { player_id = id_or_minus_one r }

unfoldable pub get_human : EarShot → Ref
get_human s = ref_or_null s.human_id

unfoldable pub set_human : EarShot → Ref → EarShot
set_human s r = record s { human_id = id_or_minus_one r }

unfoldable pub get_receiving_item : EarShot → Ref
get_receiving_item s = ref_or_null s.receiving_item_id

unfoldable pub set_receiving_item : EarShot → Ref → EarShot
set_receiving_item s r = record s { receiving_item_id = id_or_minus_one r }

unfoldable pub get_transmitting_item : EarShot → Ref
get_transmitting_item s = ref_or_null s.transmitting_item_id

unfoldable pub set_transmitting_item : EarShot → Ref → EarShot
set_transmitting_item s r = record s { transmitting_item_id = id_or_minus_one r }
