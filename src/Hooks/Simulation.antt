-- ===== src/Hooks/Simulation.antt =====
-- RosaServer/hooks.cpp: the replacements for the traffic, the level blocks, the logic of the game modes and the simulation. Each stands for
-- `standard` of the record.
use rosa_server.Base.{ℕ, some, [], ◌∷◌, codes}
use rosa_server.Base.Int.{ℤ, pos}
use rosa_server.Hooks.Keys
use rosa_server.Hooks.Detours
use rosa_server.Hooks.World.{player, item, traffic_car, int, ref, ptr, shared, nth}
use rosa_server.Hooks.Standard.{Hook}

abbrev pub create_traffic : ℤ → Hook
create_traffic amount = record {
  key = Keys.create_traffic;
  event = codes "CreateTraffic";
  args = shared amount ∷ [];
  wrapped = amount ∷ [];
  detour = Detours.create_traffic;
  call = λ vs. int (nth 0 vs) ∷ [];
  post_event = codes "PostCreateTraffic";
  post = λ result vs. some (int (nth 0 vs) ∷ []);
  vetoed = pos 0;
}

abbrev pub traffic_simulation : Hook
traffic_simulation = record {
  key = Keys.traffic_simulation;
  event = codes "TrafficSimulation";
  args = [];
  wrapped = [];
  detour = Detours.traffic_simulation;
  call = λ vs. [];
  post_event = codes "PostTrafficSimulation";
  post = λ result vs. some ([]);
  vetoed = pos 0;
}

abbrev pub ai_traffic_car : ℤ → Hook
ai_traffic_car id = record {
  key = Keys.traffic_car_ai;
  event = codes "TrafficCarAI";
  args = ref traffic_car id ∷ [];
  wrapped = [];
  detour = Detours.ai_traffic_car;
  call = λ vs. int id ∷ [];
  post_event = codes "PostTrafficCarAI";
  post = λ result vs. some (ref traffic_car id ∷ []);
  vetoed = pos 0;
}

abbrev pub ai_traffic_car_destination : ℤ → ℤ → ℤ → ℤ → ℤ → Hook
ai_traffic_car_destination id a b c d = record {
  key = Keys.traffic_car_destination;
  event = codes "TrafficCarDestination";
  args = ref traffic_car id ∷ shared a ∷ shared b ∷ shared c ∷ shared d ∷ [];
  wrapped = a ∷ b ∷ c ∷ d ∷ [];
  detour = Detours.ai_traffic_car_destination;
  call = λ vs. int id ∷ int (nth 0 vs) ∷ int (nth 1 vs) ∷ int (nth 2 vs) ∷ int (nth 3 vs) ∷ [];
  post_event = codes "PostTrafficCarDestination";
  post = λ result vs.
      some (
        ref traffic_car id
        ∷ int (nth 0 vs)
        ∷ int (nth 1 vs)
        ∷ int (nth 2 vs)
        ∷ int (nth 3 vs)
        ∷ []);
  vetoed = pos 0;
}

abbrev pub area_create_block : ℤ → ℤ → ℤ → ℤ → ℤ → ℕ → Hook
area_create_block zero_arg block_x block_y block_z flags unk = record {
  key = Keys.area_create_block;
  event = codes "AreaCreateBlock";
  args = int block_x ∷ int block_y ∷ int block_z ∷ shared flags ∷ [];
  wrapped = flags ∷ [];
  detour = Detours.area_create_block;
  call =
      λ vs. int zero_arg ∷ int block_x ∷ int block_y ∷ int block_z ∷ int (nth 0 vs) ∷ ptr unk ∷ [];
  post_event = codes "PostAreaCreateBlock";
  post = λ result vs. some (int block_x ∷ int block_y ∷ int block_z ∷ int (nth 0 vs) ∷ []);
  vetoed = pos 0;
}

abbrev pub area_delete_block : ℤ → ℤ → ℤ → ℤ → Hook
area_delete_block zero_arg block_x block_y block_z = record {
  key = Keys.area_delete_block;
  event = codes "AreaDeleteBlock";
  args = int block_x ∷ int block_y ∷ int block_z ∷ [];
  wrapped = [];
  detour = Detours.area_delete_block;
  call = λ vs. int zero_arg ∷ int block_x ∷ int block_y ∷ int block_z ∷ [];
  post_event = codes "PostAreaDeleteBlock";
  post = λ result vs. some (int block_x ∷ int block_y ∷ int block_z ∷ []);
  vetoed = pos 0;
}

abbrev pub logic_simulation_race : Hook
logic_simulation_race = record {
  key = Keys.logic_race;
  event = codes "LogicRace";
  args = [];
  wrapped = [];
  detour = Detours.logic_simulation_race;
  call = λ vs. [];
  post_event = codes "PostLogicRace";
  post = λ result vs. some ([]);
  vetoed = pos 0;
}

abbrev pub logic_simulation_round : Hook
logic_simulation_round = record {
  key = Keys.logic_round;
  event = codes "LogicRound";
  args = [];
  wrapped = [];
  detour = Detours.logic_simulation_round;
  call = λ vs. [];
  post_event = codes "PostLogicRound";
  post = λ result vs. some ([]);
  vetoed = pos 0;
}

abbrev pub logic_simulation_world : Hook
logic_simulation_world = record {
  key = Keys.logic_world;
  event = codes "LogicWorld";
  args = [];
  wrapped = [];
  detour = Detours.logic_simulation_world;
  call = λ vs. [];
  post_event = codes "PostLogicWorld";
  post = λ result vs. some ([]);
  vetoed = pos 0;
}

abbrev pub logic_simulation_terminator : Hook
logic_simulation_terminator = record {
  key = Keys.logic_terminator;
  event = codes "LogicTerminator";
  args = [];
  wrapped = [];
  detour = Detours.logic_simulation_terminator;
  call = λ vs. [];
  post_event = codes "PostLogicTerminator";
  post = λ result vs. some ([]);
  vetoed = pos 0;
}

abbrev pub logic_simulation_coop : Hook
logic_simulation_coop = record {
  key = Keys.logic_coop;
  event = codes "LogicCoop";
  args = [];
  wrapped = [];
  detour = Detours.logic_simulation_coop;
  call = λ vs. [];
  post_event = codes "PostLogicCoop";
  post = λ result vs. some ([]);
  vetoed = pos 0;
}

abbrev pub logic_simulation_versus : Hook
logic_simulation_versus = record {
  key = Keys.logic_versus;
  event = codes "LogicVersus";
  args = [];
  wrapped = [];
  detour = Detours.logic_simulation_versus;
  call = λ vs. [];
  post_event = codes "PostLogicVersus";
  post = λ result vs. some ([]);
  vetoed = pos 0;
}

abbrev pub logic_player_actions : ℤ → Hook
logic_player_actions player_id = record {
  key = Keys.player_actions;
  event = codes "PlayerActions";
  args = ref player player_id ∷ [];
  wrapped = [];
  detour = Detours.logic_player_actions;
  call = λ vs. int player_id ∷ [];
  post_event = codes "PostPlayerActions";
  post = λ result vs. some (ref player player_id ∷ []);
  vetoed = pos 0;
}

abbrev pub physics_simulation : Hook
physics_simulation = record {
  key = Keys.physics;
  event = codes "Physics";
  args = [];
  wrapped = [];
  detour = Detours.physics_simulation;
  call = λ vs. [];
  post_event = codes "PostPhysics";
  post = λ result vs. some ([]);
  vetoed = pos 0;
}

abbrev pub rigid_body_simulation : Hook
rigid_body_simulation = record {
  key = Keys.physics_rigid_bodies;
  event = codes "PhysicsRigidBodies";
  args = [];
  wrapped = [];
  detour = Detours.rigid_body_simulation;
  call = λ vs. [];
  post_event = codes "PostPhysicsRigidBodies";
  post = λ result vs. some ([]);
  vetoed = pos 0;
}

abbrev pub vehicle_simulate_suspensions : Hook
vehicle_simulate_suspensions = record {
  key = Keys.vehicle_suspensions;
  event = codes "VehicleSuspensions";
  args = [];
  wrapped = [];
  detour = Detours.vehicle_simulate_suspensions;
  call = λ vs. [];
  post_event = codes "PostVehicleSuspensions";
  post = λ result vs. some ([]);
  vetoed = pos 0;
}

abbrev pub item_weapon_simulation : ℤ → Hook
item_weapon_simulation item_id = record {
  key = Keys.item_weapon_simulation;
  event = codes "ItemWeaponSimulation";
  args = ref item item_id ∷ [];
  wrapped = [];
  detour = Detours.item_weapon_simulation;
  call = λ vs. int item_id ∷ [];
  post_event = codes "PostItemWeaponSimulation";
  post = λ result vs. some (ref item item_id ∷ []);
  vetoed = pos 0;
}
