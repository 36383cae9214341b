-- ===== src/Hooks/Names.antt =====
-- RosaServer/hooks.cpp: `enableNames`; RosaServer/api.cpp: the functions of the namespace `hook`.
use rosa_server.Base.{
  ℕ, Bool, true, false, Option, none, some, List, [], ◌∷◌, take, drop, if◌then◌else◌, ◌==◌, ltb,
  Text, codes, texts_equal,
}
use rosa_server.Hooks.Keys

abbrev pub enable_names : List (Text × ℕ)
enable_names =
    (codes "InterruptSignal", Keys.interrupt_signal)
    ∷ (codes "ResetGame", Keys.reset_game)
    ∷ (codes "CreateTraffic", Keys.create_traffic)
    ∷ (codes "TrafficSimulation", Keys.traffic_simulation)
    ∷ (codes "TrafficCarAI", Keys.traffic_car_ai)
    ∷ (codes "TrafficCarDestination", Keys.traffic_car_destination)
    ∷ (codes "AreaCreateBlock", Keys.area_create_block)
    ∷ (codes "AreaDeleteBlock", Keys.area_delete_block)
    ∷ (codes "Logic", Keys.logic)
    ∷ (codes "ConsoleInput", Keys.console_input)
    ∷ (codes "ConsoleAutoComplete", Keys.console_auto_complete)
    ∷ (codes "LogicRace", Keys.logic_race)
    ∷ (codes "LogicRound", Keys.logic_round)
    ∷ (codes "LogicWorld", Keys.logic_world)
    ∷ (codes "LogicTerminator", Keys.logic_terminator)
    ∷ (codes "LogicCoop", Keys.logic_coop)
    ∷ (codes "LogicVersus", Keys.logic_versus)
    ∷ (codes "PlayerActions", Keys.player_actions)
    ∷ (codes "Physics", Keys.physics)
    ∷ (codes "PhysicsRigidBodies", Keys.physics_rigid_bodies)
    ∷ (codes "VehicleSuspensions", Keys.vehicle_suspensions)
    ∷ (codes "ItemWeaponSimulation", Keys.item_weapon_simulation)
    ∷ (codes "ServerReceive", Keys.server_receive)
    ∷ (codes "ServerSend", Keys.server_send)
    ∷ (codes "PacketBuilding", Keys.packet_building)
    ∷ (codes "PacketReceive", Keys.packet_receive)
    ∷ (codes "CalculateEarShots", Keys.calculate_ear_shots)
    ∷ (codes "SendPacket", Keys.send_packet)
    ∷ (codes "PhysicsBullets", Keys.physics_bullets)
    ∷ (codes "EconomyCarMarket", Keys.economy_car_market)
    ∷ (codes "AccountsSave", Keys.accounts_save)
    ∷ (codes "AccountTicketBegin", Keys.account_ticket_begin)
    ∷ (codes "AccountTicketFound", Keys.account_ticket_found)
    ∷ (codes "AccountTicket", Keys.account_ticket)
    ∷ (codes "SendConnectResponse", Keys.send_connect_response)
    ∷ (codes "ItemLink", Keys.item_link)
    ∷ (codes "ItemComputerInput", Keys.item_computer_input)
    ∷ (codes "HumanDamage", Keys.human_damage)
    ∷ (codes "HumanCollisionVehicle", Keys.human_collision_vehicle)
    ∷ (codes "HumanLimbInverseKinematics", Keys.human_limb_inverse_kinematics)
    ∷ (codes "GrenadeExplode", Keys.grenade_explode)
    ∷ (codes "VehicleDamage", Keys.vehicle_damage)
    ∷ (codes "PlayerChat", Keys.player_chat)
    ∷ (codes "PlayerAI", Keys.player_ai)
    ∷ (codes "PlayerDeathTax", Keys.player_death_tax)
    ∷ (codes "AccountDeathTax", Keys.account_death_tax)
    ∷ (codes "PlayerGiveWantedLevel", Keys.player_give_wanted_level)
    ∷ (codes "CollideBodies", Keys.collide_bodies)
    ∷ (codes "BulletCreate", Keys.bullet_create)
    ∷ (codes "PlayerCreate", Keys.player_create)
    ∷ (codes "PlayerDelete", Keys.player_delete)
    ∷ (codes "HumanCreate", Keys.human_create)
    ∷ (codes "HumanDelete", Keys.human_delete)
    ∷ (codes "ItemCreate", Keys.item_create)
    ∷ (codes "ItemDelete", Keys.item_delete)
    ∷ (codes "VehicleCreate", Keys.vehicle_create)
    ∷ (codes "VehicleDelete", Keys.vehicle_delete)
    ∷ (codes "EventMessage", Keys.event_message)
    ∷ (codes "EventUpdateElimState", Keys.event_update_elim_state)
    ∷ (codes "EventUpdateItemInfo", Keys.event_update_item_info)
    ∷ (codes "EventUpdatePlayer", Keys.event_update_player)
    ∷ (codes "EventUpdateVehicle", Keys.event_update_vehicle)
    ∷ (codes "EventSound", Keys.event_sound)
    ∷ (codes "EventSoundItem", Keys.event_sound_item)
    ∷ (codes "EventBullet", Keys.event_bullet)
    ∷ (codes "EventBulletHit", Keys.event_bullet_hit)
    ∷ (codes "LineIntersectHuman", Keys.line_intersect_human)
    ∷ (codes "BulletMayHit", Keys.bullet_may_hit)
    ∷ (codes "BulletMayHitHuman", Keys.bullet_may_hit_human)
    ∷ (codes "BulletHitHuman", Keys.bullet_hit_human)
    ∷ []

-- `std::unordered_map::find`. The names of the map are all different.
abbrev pub find : List (Text × ℕ) → Text → Option ℕ
find [] name = none
find ((n, key) ∷ rest) name = if texts_equal n name then some key else find rest name

-- `name.rfind("Post", 0) == 0`
abbrev pub has_post_prefix : Text → Bool
has_post_prefix name = texts_equal (take 4 name) (codes "Post")

abbrev pub without_post_prefix : Text → Text
without_post_prefix name = if has_post_prefix name then drop 4 name else name

-- The array `enabledKeys`.
abbrev pub EnabledKeys : Type 0
EnabledKeys = ℕ → Bool

abbrev pub assign : EnabledKeys → ℕ → Bool → EnabledKeys
assign keys k b j = if k == j then b else keys j

-- `if (search != end) { enabledKeys[search->second] = b; return true; } return false;`
abbrev pub switch : Bool → EnabledKeys → Option ℕ → EnabledKeys × Bool
switch b keys none = (keys, false)
switch b keys (some k) = (assign keys k b, true)

unfoldable pub enable : EnabledKeys → Text → EnabledKeys × Bool
enable keys name = switch true keys (find enable_names (without_post_prefix name))

unfoldable pub disable : EnabledKeys → Text → EnabledKeys × Bool
disable keys name = switch false keys (find enable_names (without_post_prefix name))

-- The loop runs over the indices below SIZE.
unfoldable pub clear : EnabledKeys → EnabledKeys
clear keys j = if ltb j Keys.size then false else keys j
