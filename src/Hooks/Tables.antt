-- ===== src/Hooks/Tables.antt =====
-- RosaServer/hooks.cpp: the replacements whose events have the name of one switch, and these names.
use rosa_server.Base.{ℕ, ◌≡◌, refl, false, none, some, List, ◌⊎◌, inl, inr, Text, true, ltb}
use rosa_server.Base.Int.{ℤ}
use rosa_server.Hooks.Names.{enable_names, find, has_post_prefix, without_post_prefix}
use rosa_server.Hooks.Standard.{Hook}
use rosa_server.Hooks.Keys
use rosa_server.Hooks.Simulation
use rosa_server.Hooks.Server
use rosa_server.Hooks.Damage
use rosa_server.Hooks.Events
use rosa_server.Hooks.Entities
use rosa_server.Hooks.Bullets

-- The replacements of the common shape, and those that make and delete entities. Not among them are
-- logicSimulation, createRigidBody, lineIntersectLevel, lineIntersectHuman, packetWrite,
-- serverSendConnectResponse, createAccountByJoinTicket and humanLimbInverseKinematics.
pub data IsReplacement : Hook → Type 0 where
  create_traffic : (a : ℤ) → IsReplacement (Simulation.create_traffic a)
  traffic_simulation : IsReplacement Simulation.traffic_simulation
  ai_traffic_car : (a : ℤ) → IsReplacement (Simulation.ai_traffic_car a)
  ai_traffic_car_destination :
      (a : ℤ) (b : ℤ) (c : ℤ) (d : ℤ) (e : ℤ)
      → IsReplacement (Simulation.ai_traffic_car_destination a b c d e)
  area_create_block :
      (a : ℤ) (b : ℤ) (c : ℤ) (d : ℤ) (e : ℤ) (f : ℕ)
      → IsReplacement (Simulation.area_create_block a b c d e f)
  area_delete_block :
      (a : ℤ) (b : ℤ) (c : ℤ) (d : ℤ) → IsReplacement (Simulation.area_delete_block a b c d)
  logic_simulation_race : IsReplacement Simulation.logic_simulation_race
  logic_simulation_round : IsReplacement Simulation.logic_simulation_round
  logic_simulation_world : IsReplacement Simulation.logic_simulation_world
  logic_simulation_terminator : IsReplacement Simulation.logic_simulation_terminator
  logic_simulation_coop : IsReplacement Simulation.logic_simulation_coop
  logic_simulation_versus : IsReplacement Simulation.logic_simulation_versus
  logic_player_actions : (a : ℤ) → IsReplacement (Simulation.logic_player_actions a)
  physics_simulation : IsReplacement Simulation.physics_simulation
  rigid_body_simulation : IsReplacement Simulation.rigid_body_simulation
  vehicle_simulate_suspensions : IsReplacement Simulation.vehicle_simulate_suspensions
  item_weapon_simulation : (a : ℤ) → IsReplacement (Simulation.item_weapon_simulation a)
  server_receive : IsReplacement Server.server_receive
  server_send : IsReplacement Server.server_send
  packet_receive : IsReplacement Server.packet_receive
  calculate_player_voice : (a : ℤ) (b : ℤ) → IsReplacement (Server.calculate_player_voice a b)
  send_packet :
      (a : ℤ) (b : ℤ) (c : Text) (d : ℤ) (e : ℤ) → IsReplacement (Server.send_packet a b c d e)
  economy_car_market : IsReplacement Server.economy_car_market
  save_accounts_server : IsReplacement Server.save_accounts_server
  server_player_message : (a : ℤ) (b : Text) → IsReplacement (Server.server_player_message a b)
  link_item : (a : ℤ) (b : ℤ) (c : ℤ) (d : ℤ) → IsReplacement (Damage.link_item a b c d)
  item_computer_input : (a : ℤ) (b : ℤ) → IsReplacement (Damage.item_computer_input a b)
  human_apply_damage :
      (a : ℤ) (b : ℤ) (c : ℤ) (d : ℤ) → IsReplacement (Damage.human_apply_damage a b c d)
  human_collision_vehicle : (a : ℤ) (b : ℤ) → IsReplacement (Damage.human_collision_vehicle a b)
  grenade_explosion : (a : ℤ) → IsReplacement (Damage.grenade_explosion a)
  vehicle_apply_damage : (a : ℤ) (b : ℤ) → IsReplacement (Damage.vehicle_apply_damage a b)
  player_ai : (a : ℤ) → IsReplacement (Damage.player_ai a)
  player_death_tax : (a : ℤ) → IsReplacement (Damage.player_death_tax a)
  account_death_tax : (a : ℤ) → IsReplacement (Damage.account_death_tax a)
  player_give_wanted_level :
      (a : ℤ) (b : ℤ) (c : ℤ) → IsReplacement (Damage.player_give_wanted_level a b c)
  add_collision_rigid_body_on_rigid_body :
      (a : ℤ) (b : ℤ) (c : ℕ) (d : ℕ) (e : ℕ) (f : ℤ) (g : ℤ) (h : ℤ) (i : ℤ)
      → IsReplacement (Damage.add_collision_rigid_body_on_rigid_body a b c d e f g h i)
  create_event_message :
      (a : ℤ) (b : Text) (c : ℤ) (d : ℤ) → IsReplacement (Events.create_event_message a b c d)
  create_event_update_item_info : (a : ℤ) → IsReplacement (Events.create_event_update_item_info a)
  create_event_update_player : (a : ℤ) → IsReplacement (Events.create_event_update_player a)
  create_event_update_vehicle :
      (a : ℤ) (b : ℤ) (c : ℤ) (d : ℕ) (e : ℕ)
      → IsReplacement (Events.create_event_update_vehicle a b c d e)
  create_event_sound_item :
      (a : ℤ) (b : ℤ) (c : ℤ) (d : ℤ) → IsReplacement (Events.create_event_sound_item a b c d)
  create_event_sound :
      (a : ℤ) (b : ℕ) (c : ℤ) (d : ℤ) → IsReplacement (Events.create_event_sound a b c d)
  create_event_bullet :
      (a : ℤ) (b : ℕ) (c : ℕ) (d : ℤ) → IsReplacement (Events.create_event_bullet a b c d)
  create_event_bullet_hit :
      (a : ℤ) (b : ℤ) (c : ℕ) (d : ℕ) → IsReplacement (Events.create_event_bullet_hit a b c d)
  create_event_update_elim_state :
      (a : ℤ) (b : ℤ) (c : ℤ) (d : ℤ) (e : ℕ)
      → IsReplacement (Events.create_event_update_elim_state a b c d e)
  physics_bullets : IsReplacement Bullets.physics_bullets
  hook_and_reset : (a : ℤ) → IsReplacement (Server.hook_and_reset a)
  create_bullet : (a : ℤ) (b : ℕ) (c : ℕ) (d : ℤ) → IsReplacement (Entities.create_bullet a b c d)
  create_player : IsReplacement Entities.create_player
  delete_player : (a : ℕ) → IsReplacement (Entities.delete_player a)
  create_human : (a : ℕ) (b : ℕ) (c : ℤ) → IsReplacement (Entities.create_human a b c)
  delete_human : (a : ℕ) → IsReplacement (Entities.delete_human a)
  create_item : (a : ℤ) (b : ℕ) (c : ℕ) (d : ℕ) → IsReplacement (Entities.create_item a b c d)
  delete_item : (a : ℕ) → IsReplacement (Entities.delete_item a)
  create_vehicle :
      (a : ℤ) (b : ℕ) (c : ℕ) (d : ℕ) (e : ℤ) → IsReplacement (Entities.create_vehicle a b c d e)
  delete_vehicle : (a : ℕ) → IsReplacement (Entities.delete_vehicle a)

-- The name of the event, which does not begin with "Post", is that of the replacement's switch, and
-- so is, without its "Post", the name of the event behind, if there is one.
pub record IsNamed (h : Hook) : Type 0 where
  pub in_range : ltb h.key Keys.size ≡ true
  pub by_event : find enable_names h.event ≡ some h.key
  pub plain : has_post_prefix h.event ≡ false
  pub by_post_event :
      ((result : ℤ) (vs : List ℤ) → h.post result vs ≡ none)
      ⊎ (find enable_names (without_post_prefix h.post_event) ≡ some h.key)

named :
    {h : Hook}
    → ltb h.key Keys.size ≡ true
    → find enable_names h.event ≡ some h.key
    → has_post_prefix h.event ≡ false
    → ((result : ℤ) (vs : List ℤ) → h.post result vs ≡ none)
      ⊎ (find enable_names (without_post_prefix h.post_event) ≡ some h.key)
    → IsNamed h
named r e p b = record { in_range = r; by_event = e; plain = p; by_post_event = b }

-- Each of the replacements that `IsReplacement` lists (of the common shape, or one that makes or deletes an
-- entity), whatever its arguments, is switched by the key that the name of its event has among the names,
-- which is below SIZE, and the name of its event behind, if it has one, leads to the same key when the
-- prefix "Post" is taken off. Of the other replacements nothing is said: lineIntersectLevel asks without
-- a switch, and createAccountByJoinTicket under any of three.
pub IsReplacement-IsNamed : {h : Hook} → IsReplacement h → IsNamed h
IsReplacement-IsNamed (create_traffic a) = named refl refl refl (inr refl)
IsReplacement-IsNamed traffic_simulation = named refl refl refl (inr refl)
IsReplacement-IsNamed (ai_traffic_car a) = named refl refl refl (inr refl)
IsReplacement-IsNamed (ai_traffic_car_destination a b c d e) = named refl refl refl (inr refl)
IsReplacement-IsNamed (area_create_block a b c d e f) = named refl refl refl (inr refl)
IsReplacement-IsNamed (area_delete_block a b c d) = named refl refl refl (inr refl)
IsReplacement-IsNamed logic_simulation_race = named refl refl refl (inr refl)
IsReplacement-IsNamed logic_simulation_round = named refl refl refl (inr refl)
IsReplacement-IsNamed logic_simulation_world = named refl refl refl (inr refl)
IsReplacement-IsNamed logic_simulation_terminator = named refl refl refl (inr refl)
IsReplacement-IsNamed logic_simulation_coop = named refl refl refl (inr refl)
IsReplacement-IsNamed logic_simulation_versus = named refl refl refl (inr refl)
IsReplacement-IsNamed (logic_player_actions a) = named refl refl refl (inr refl)
IsReplacement-IsNamed physics_simulation = named refl refl refl (inr refl)
IsReplacement-IsNamed rigid_body_simulation = named refl refl refl (inr refl)
IsReplacement-IsNamed vehicle_simulate_suspensions = named refl refl refl (inr refl)
IsReplacement-IsNamed (item_weapon_simulation a) = named refl refl refl (inr refl)
IsReplacement-IsNamed server_receive = named refl refl refl (inr refl)
IsReplacement-IsNamed server_send = named refl refl refl (inr refl)
IsReplacement-IsNamed packet_receive = named refl refl refl (inr refl)
IsReplacement-IsNamed (calculate_player_voice a b) = named refl refl refl (inr refl)
IsReplacement-IsNamed (send_packet a b c d e) = named refl refl refl (inr refl)
IsReplacement-IsNamed economy_car_market = named refl refl refl (inr refl)
IsReplacement-IsNamed save_accounts_server = named refl refl refl (inr refl)
IsReplacement-IsNamed (server_player_message a b) = named refl refl refl (inl (λ r vs. refl))
IsReplacement-IsNamed (link_item a b c d) = named refl refl refl (inr refl)
IsReplacement-IsNamed (item_computer_input a b) = named refl refl refl (inr refl)
IsReplacement-IsNamed (human_apply_damage a b c d) = named refl refl refl (inr refl)
IsReplacement-IsNamed (human_collision_vehicle a b) = named refl refl refl (inr refl)
IsReplacement-IsNamed (grenade_explosion a) = named refl refl refl (inr refl)
IsReplacement-IsNamed (vehicle_apply_damage a b) = named refl refl refl (inr refl)
IsReplacement-IsNamed (player_ai a) = named refl refl refl (inr refl)
IsReplacement-IsNamed (player_death_tax a) = named refl refl refl (inr refl)
IsReplacement-IsNamed (account_death_tax a) = named refl refl refl (inr refl)
IsReplacement-IsNamed (player_give_wanted_level a b c) = named refl refl refl (inr refl)
IsReplacement-IsNamed (add_collision_rigid_body_on_rigid_body a b c d e f g h i) =
    named refl refl refl (inl (λ r vs. refl))
IsReplacement-IsNamed (create_event_message a b c d) = named refl refl refl (inr refl)
IsReplacement-IsNamed (create_event_update_item_info a) = named refl refl refl (inr refl)
IsReplacement-IsNamed (create_event_update_player a) = named refl refl refl (inr refl)
IsReplacement-IsNamed (create_event_update_vehicle a b c d e) = named refl refl refl (inr refl)
IsReplacement-IsNamed (create_event_sound_item a b c d) = named refl refl refl (inr refl)
IsReplacement-IsNamed (create_event_sound a b c d) = named refl refl refl (inr refl)
IsReplacement-IsNamed (create_event_bullet a b c d) = named refl refl refl (inr refl)
IsReplacement-IsNamed (create_event_bullet_hit a b c d) = named refl refl refl (inr refl)
IsReplacement-IsNamed (create_event_update_elim_state a b c d e) = named refl refl refl (inr refl)
IsReplacement-IsNamed physics_bullets = named refl refl refl (inr refl)
IsReplacement-IsNamed (hook_and_reset a) = named refl refl refl (inr refl)
IsReplacement-IsNamed (create_bullet a b c d) = named refl refl refl (inr refl)
IsReplacement-IsNamed create_player = named refl refl refl (inr refl)
IsReplacement-IsNamed (delete_player a) = named refl refl refl (inr refl)
IsReplacement-IsNamed (create_human a b c) = named refl refl refl (inr refl)
IsReplacement-IsNamed (delete_human a) = named refl refl refl (inr refl)
IsReplacement-IsNamed (create_item a b c d) = named refl refl refl (inr refl)
IsReplacement-IsNamed (delete_item a) = named refl refl refl (inr refl)
IsReplacement-IsNamed (create_vehicle a b c d e) = named refl refl refl (inr refl)
IsReplacement-IsNamed (delete_vehicle a) = named refl refl refl (inr refl)
