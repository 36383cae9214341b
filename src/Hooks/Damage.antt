-- ===== src/Hooks/Damage.antt =====
-- RosaServer/hooks.cpp: the replacements for items, damage, penalties and collisions. Each stands for
-- `standard` of the record.
use rosa_server.Base.{ℕ, none, some, [], ◌∷◌, codes}
use rosa_server.Base.Int.{ℤ, pos}
use rosa_server.Hooks.Keys
use rosa_server.Hooks.Detours
use rosa_server.Hooks.World.{
  account, player, human, item, vehicle, body, int, float, flag, ref, ptr, shared, ref_or_null, nth,
  is_true,
}
use rosa_server.Hooks.Standard.{Hook}

abbrev pub link_item : ℤ → ℤ → ℤ → ℤ → Hook
link_item item_id child_item_id parent_human_id slot = record {
  key = Keys.item_link;
  event = codes "ItemLink";
  args =
      ref item item_id
      ∷ ref_or_null item child_item_id
      ∷ ref_or_null human parent_human_id
      ∷ int slot
      ∷ [];
  wrapped = [];
  detour = Detours.link_item;
  call = λ vs. int item_id ∷ int child_item_id ∷ int parent_human_id ∷ int slot ∷ [];
  post_event = codes "PostItemLink";
  post = λ worked vs. some (
      ref item item_id
      ∷ ref_or_null item child_item_id
      ∷ ref_or_null human parent_human_id
      ∷ int slot
      ∷ flag (is_true worked)
      ∷ []);
  vetoed = pos 0;
}

abbrev pub item_computer_input : ℤ → ℤ → Hook
item_computer_input item_id character = record {
  key = Keys.item_computer_input;
  event = codes "ItemComputerInput";
  args = ref item item_id ∷ int character ∷ [];
  wrapped = [];
  detour = Detours.item_computer_input;
  call = λ vs. int item_id ∷ int character ∷ [];
  post_event = codes "PostItemComputerInput";
  post = λ result vs. some (ref item item_id ∷ int character ∷ []);
  vetoed = pos 0;
}

abbrev pub human_apply_damage : ℤ → ℤ → ℤ → ℤ → Hook
human_apply_damage human_id bone unk damage = record {
  key = Keys.human_damage;
  event = codes "HumanDamage";
  args = ref human human_id ∷ int bone ∷ int damage ∷ [];
  wrapped = [];
  detour = Detours.human_apply_damage;
  call = λ vs. int human_id ∷ int bone ∷ int unk ∷ int damage ∷ [];
  post_event = codes "PostHumanDamage";
  post = λ result vs. some (ref human human_id ∷ int bone ∷ int damage ∷ []);
  vetoed = pos 0;
}

abbrev pub human_collision_vehicle : ℤ → ℤ → Hook
human_collision_vehicle human_id vehicle_id = record {
  key = Keys.human_collision_vehicle;
  event = codes "HumanCollisionVehicle";
  args = ref human human_id ∷ ref vehicle vehicle_id ∷ [];
  wrapped = [];
  detour = Detours.human_collision_vehicle;
  call = λ vs. int human_id ∷ int vehicle_id ∷ [];
  post_event = codes "PostHumanCollisionVehicle";
  post = λ result vs. some (ref human human_id ∷ ref vehicle vehicle_id ∷ []);
  vetoed = pos 0;
}

abbrev pub grenade_explosion : ℤ → Hook
grenade_explosion item_id = record {
  key = Keys.grenade_explode;
  event = codes "GrenadeExplode";
  args = ref item item_id ∷ [];
  wrapped = [];
  detour = Detours.grenade_explosion;
  call = λ vs. int item_id ∷ [];
  post_event = codes "PostGrenadeExplode";
  post = λ result vs. some (ref item item_id ∷ []);
  vetoed = pos 0;
}

abbrev pub vehicle_apply_damage : ℤ → ℤ → Hook
vehicle_apply_damage vehicle_id damage = record {
  key = Keys.vehicle_damage;
  event = codes "VehicleDamage";
  args = ref vehicle vehicle_id ∷ int damage ∷ [];
  wrapped = [];
  detour = Detours.vehicle_apply_damage;
  call = λ vs. int vehicle_id ∷ int damage ∷ [];
  post_event = codes "PostVehicleDamage";
  post = λ result vs. some (ref vehicle vehicle_id ∷ int damage ∷ []);
  vetoed = pos 0;
}

abbrev pub player_ai : ℤ → Hook
player_ai player_id = record {
  key = Keys.player_ai;
  event = codes "PlayerAI";
  args = ref player player_id ∷ [];
  wrapped = [];
  detour = Detours.player_ai;
  call = λ vs. int player_id ∷ [];
  post_event = codes "PostPlayerAI";
  post = λ result vs. some (ref player player_id ∷ []);
  vetoed = pos 0;
}

abbrev pub player_death_tax : ℤ → Hook
player_death_tax player_id = record {
  key = Keys.player_death_tax;
  event = codes "PlayerDeathTax";
  args = ref player player_id ∷ [];
  wrapped = [];
  detour = Detours.player_death_tax;
  call = λ vs. int player_id ∷ [];
  post_event = codes "PostPlayerDeathTax";
  post = λ result vs. some (ref player player_id ∷ []);
  vetoed = pos 0;
}

abbrev pub account_death_tax : ℤ → Hook
account_death_tax account_id = record {
  key = Keys.account_death_tax;
  event = codes "AccountDeathTax";
  args = ref account account_id ∷ [];
  wrapped = [];
  detour = Detours.account_death_tax;
  call = λ vs. int account_id ∷ [];
  post_event = codes "PostAccountDeathTax";
  post = λ result vs. some (ref account account_id ∷ []);
  vetoed = pos 0;
}

abbrev pub player_give_wanted_level : ℤ → ℤ → ℤ → Hook
player_give_wanted_level player_id victim_player_id base_points = record {
  key = Keys.player_give_wanted_level;
  event = codes "PlayerGiveWantedLevel";
  args = ref player player_id ∷ ref player victim_player_id ∷ shared base_points ∷ [];
  wrapped = base_points ∷ [];
  detour = Detours.player_give_wanted_level;
  call = λ vs. int player_id ∷ int victim_player_id ∷ int (nth 0 vs) ∷ [];
  post_event = codes "PostPlayerGiveWantedLevel";
  post =
      λ result vs. some (ref player player_id ∷ ref player victim_player_id ∷ int (nth 0 vs) ∷ []);
  vetoed = pos 0;
}

abbrev pub add_collision_rigid_body_on_rigid_body : ℤ → ℤ → ℕ → ℕ → ℕ → ℤ → ℤ → ℤ → ℤ → Hook
add_collision_rigid_body_on_rigid_body a_body_id b_body_id a_local_pos b_local_pos normal a b c d =
    record {
      key = Keys.collide_bodies;
      event = codes "CollideBodies";
      args =
          ref body a_body_id
          ∷ ref body b_body_id
          ∷ ptr a_local_pos
          ∷ ptr b_local_pos
          ∷ ptr normal
          ∷ float a
          ∷ float b
          ∷ float c
          ∷ float d
          ∷ [];
      wrapped = [];
      detour = Detours.add_collision_rigid_body_on_rigid_body;
      call = λ vs.
          int a_body_id
          ∷ int b_body_id
          ∷ ptr a_local_pos
          ∷ ptr b_local_pos
          ∷ ptr normal
          ∷ float a
          ∷ float b
          ∷ float c
          ∷ float d
          ∷ [];
      post_event = [];
      post = λ result vs. none;
      vetoed = pos 0;
    }
