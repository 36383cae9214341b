-- ===== src/Members/Guards.antt =====
-- RosaServer/api.cpp: which elements of the arrays in a structure are handed out.
use rosa_server.Base.{ℕ, suc, ◌≡◌, arith, ltb, if◌then◌else◌, Call, returns, throws, Error}
use rosa_server.Members.Connection
use rosa_server.Members.Player
use rosa_server.Members.Human
use rosa_server.Members.Vehicle
use rosa_server.Members.Building
use rosa_server.Members.Corporation

-- Of an array of the given length, exactly the elements are handed out.
abbrev pub IsGuarded : ℕ → (ℕ → Call ℕ) → Type 0
IsGuarded size get =
    (idx : ℕ) → get idx ≡ (if ltb idx size then returns idx else throws Error.index_out_of_range)

connection_ear_shot-IsGuarded : IsGuarded Connection.num_ear_shots Connection.get_ear_shot
unfolding Connection.get_ear_shot
connection_ear_shot-IsGuarded idx = ground arith

player_action-IsGuarded : IsGuarded Player.num_actions Player.get_action
unfolding Player.get_action
player_action-IsGuarded idx = ground arith

player_menu_button-IsGuarded : IsGuarded Player.num_menu_buttons Player.get_menu_button
unfolding Player.get_menu_button
player_menu_button-IsGuarded idx = ground arith

human_bone-IsGuarded : IsGuarded Human.num_bones Human.get_bone
unfolding Human.get_bone
human_bone-IsGuarded idx = ground arith

human_inventory_slot-IsGuarded : IsGuarded (suc Human.num_inventory_slots) Human.get_inventory_slot
unfolding Human.get_inventory_slot
human_inventory_slot-IsGuarded idx = ground arith

vehicle_wheel-IsGuarded : IsGuarded (suc Vehicle.num_wheels) Vehicle.get_wheel
unfolding Vehicle.get_wheel
vehicle_wheel-IsGuarded idx = ground arith

building_shop_car-IsGuarded : IsGuarded Building.num_shop_cars Building.get_shop_car
unfolding Building.get_shop_car
building_shop_car-IsGuarded idx = ground arith

corporation_mission-IsGuarded : IsGuarded Corporation.num_missions Corporation.get_mission
unfolding Corporation.get_mission
corporation_mission-IsGuarded idx = ground arith

-- The accessors of the ear shots of a connection, the actions and menu buttons of a player, the bones
-- of a human, the cars of a shop and the missions of a corporation hand out exactly the elements of
-- their arrays, and throw for any other index. Those of the inventory slots of a human and of the
-- wheels of a vehicle also hand out one more, which is behind the array.
pub elements-IsGuarded :
    IsGuarded Connection.num_ear_shots Connection.get_ear_shot
    × IsGuarded Player.num_actions Player.get_action
    × IsGuarded Player.num_menu_buttons Player.get_menu_button
    × IsGuarded Human.num_bones Human.get_bone
    × IsGuarded Building.num_shop_cars Building.get_shop_car
    × IsGuarded Corporation.num_missions Corporation.get_mission
    × IsGuarded (suc Human.num_inventory_slots) Human.get_inventory_slot
    × IsGuarded (suc Vehicle.num_wheels) Vehicle.get_wheel
elements-IsGuarded = (
  connection_ear_shot-IsGuarded, player_action-IsGuarded, player_menu_button-IsGuarded,
  human_bone-IsGuarded, building_shop_car-IsGuarded, corporation_mission-IsGuarded,
  human_inventory_slot-IsGuarded, vehicle_wheel-IsGuarded,
)
