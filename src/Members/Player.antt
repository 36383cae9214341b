-- ===== src/Members/Player.antt =====
-- RosaServer/api.cpp: the members of `Player` that are handed out.
use rosa_server.Base.{ℕ, none, some, ltb, if◌then◌else◌, Call, returns, throws, Error}
use rosa_server.Base.Int.{ℤ}
use rosa_server.Members.Refs.{Ref, ref_or_null, id_or_minus_one}

pub record Player : Type 0 where
  pub human_id : ℤ
  pub account_id : ℤ
  pub menu_tab_building_id : ℤ

unfoldable pub get_human : Player → Ref
get_human s = ref_or_null s.human_id

unfoldable pub set_human : Player → Ref → Player
set_human s r = record s { human_id = id_or_minus_one r }

unfoldable pub get_account : Player → Ref
get_account s = ref_or_null s.account_id

unfoldable pub set_account : Player → Ref → Player × Call (Unit {0})
set_account s none = (s, throws Error.nil_argument)
set_account s (some n) = (record s { account_id = n }, returns tt)

unfoldable pub get_menu_tab_building : Player → Ref
get_menu_tab_building s = ref_or_null s.menu_tab_building_id

unfoldable pub set_menu_tab_building : Player → Ref → Player
set_menu_tab_building s r = record s { menu_tab_building_id = id_or_minus_one r }

abbrev pub num_actions : ℕ
num_actions = 64

unfoldable pub get_action : ℕ → Call ℕ
get_action idx = if ltb 63 idx then throws Error.index_out_of_range else returns idx

abbrev pub num_menu_buttons : ℕ
num_menu_buttons = 32

unfoldable pub get_menu_button : ℕ → Call ℕ
get_menu_button idx = if ltb 31 idx then throws Error.index_out_of_range else returns idx
