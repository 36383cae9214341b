-- ===== src/Hooks/Events.antt =====
-- RosaServer/hooks.cpp: the replacements for the events for the clients. Each stands for
-- `standard` of the record.
use rosa_server.Base.{ℕ, some, [], ◌∷◌, codes, Text}
use rosa_server.Base.Int.{ℤ, pos}
use rosa_server.Hooks.Keys
use rosa_server.Hooks.Detours
use rosa_server.Hooks.World.{
  player, item, vehicle, int, float, ref, ptr, text, shared, ref_or_null, nth,
}
use rosa_server.Hooks.Standard.{Hook}

abbrev pub create_event_message : ℤ → Text → ℤ → ℤ → Hook
create_event_message speaker_type message speaker_id distance = record {
  key = Keys.event_message;
  event = codes "EventMessage";
  args = int speaker_type ∷ text message ∷ int speaker_id ∷ int distance ∷ [];
  wrapped = [];
  detour = Detours.create_event_message;
  call = λ vs. int speaker_type ∷ text message ∷ int speaker_id ∷ int distance ∷ [];
  post_event = codes "PostEventMessage";
  post = λ result vs. some (int speaker_type ∷ text message ∷ int speaker_id ∷ int distance ∷ []);
  vetoed = pos 0;
}

abbrev pub create_event_update_item_info : ℤ → Hook
create_event_update_item_info id = record {
  key = Keys.event_update_item_info;
  event = codes "EventUpdateItemInfo";
  args = ref item id ∷ [];
  wrapped = [];
  detour = Detours.create_event_update_item_info;
  call = λ vs. int id ∷ [];
  post_event = codes "PostEventUpdateItemInfo";
  post = λ result vs. some (ref item id ∷ []);
  vetoed = pos 0;
}

abbrev pub create_event_update_player : ℤ → Hook
create_event_update_player id = record {
  key = Keys.event_update_player;
  event = codes "EventUpdatePlayer";
  args = ref player id ∷ [];
  wrapped = [];
  detour = Detours.create_event_update_player;
  call = λ vs. int id ∷ [];
  post_event = codes "PostEventUpdatePlayer";
  post = λ result vs. some (ref player id ∷ []);
  vetoed = pos 0;
}

abbrev pub create_event_update_vehicle : ℤ → ℤ → ℤ → ℕ → ℕ → Hook
create_event_update_vehicle vehicle_id update_type part_id pos_ptr hit_velocity = record {
  key = Keys.event_update_vehicle;
  event = codes "EventUpdateVehicle";
  args =
      ref_or_null vehicle vehicle_id
      ∷ int update_type
      ∷ int part_id
      ∷ ptr pos_ptr
      ∷ ptr hit_velocity
      ∷ [];
  wrapped = [];
  detour = Detours.create_event_update_vehicle;
  call = λ vs. int vehicle_id ∷ int update_type ∷ int part_id ∷ ptr pos_ptr ∷ ptr hit_velocity ∷ [];
  post_event = codes "PostEventUpdateVehicle";
  post = λ result vs. some (
      ref_or_null vehicle vehicle_id
      ∷ int update_type
      ∷ int part_id
      ∷ ptr pos_ptr
      ∷ ptr hit_velocity
      ∷ []);
  vetoed = pos 0;
}

abbrev pub create_event_sound_item : ℤ → ℤ → ℤ → ℤ → Hook
create_event_sound_item sound_type item_id volume pitch = record {
  key = Keys.event_sound_item;
  event = codes "EventSoundItem";
  args = shared sound_type ∷ ref_or_null item item_id ∷ shared volume ∷ shared pitch ∷ [];
  wrapped = sound_type ∷ volume ∷ pitch ∷ [];
  detour = Detours.create_event_sound_item;
  call = λ vs. int (nth 0 vs) ∷ int item_id ∷ float (nth 1 vs) ∷ float (nth 2 vs) ∷ [];
  post_event = codes "PostEventSoundItem";
  post = λ result vs.
      some (int (nth 0 vs) ∷ ref_or_null item item_id ∷ float (nth 1 vs) ∷ float (nth 2 vs) ∷ []);
  vetoed = pos 0;
}

abbrev pub create_event_sound : ℤ → ℕ → ℤ → ℤ → Hook
create_event_sound sound_type pos_ptr volume pitch = record {
  key = Keys.event_sound;
  event = codes "EventSound";
  args = int sound_type ∷ ptr pos_ptr ∷ shared volume ∷ shared pitch ∷ [];
  wrapped = volume ∷ pitch ∷ [];
  detour = Detours.create_event_sound;
  call = λ vs. int sound_type ∷ ptr pos_ptr ∷ float (nth 0 vs) ∷ float (nth 1 vs) ∷ [];
  post_event = codes "PostEventSound";
  post =
      λ result vs. some (int sound_type ∷ ptr pos_ptr ∷ float (nth 0 vs) ∷ float (nth 1 vs) ∷ []);
  vetoed = pos 0;
}

abbrev pub create_event_bullet : ℤ → ℕ → ℕ → ℤ → Hook
create_event_bullet bullet_type pos_ptr vel_ptr item_id = record {
  key = Keys.event_bullet;
  event = codes "EventBullet";
  args = int bullet_type ∷ ptr pos_ptr ∷ ptr vel_ptr ∷ ref item item_id ∷ [];
  wrapped = [];
  detour = Detours.create_event_bullet;
  call = λ vs. int bullet_type ∷ ptr pos_ptr ∷ ptr vel_ptr ∷ int item_id ∷ [];
  post_event = codes "PostEventBullet";
  post = λ result vs. some (int bullet_type ∷ ptr pos_ptr ∷ ptr vel_ptr ∷ ref item item_id ∷ []);
  vetoed = pos 0;
}

abbrev pub create_event_bullet_hit : ℤ → ℤ → ℕ → ℕ → Hook
create_event_bullet_hit unk hit_type pos_ptr normal = record {
  key = Keys.event_bullet_hit;
  event = codes "EventBulletHit";
  args = int hit_type ∷ ptr pos_ptr ∷ ptr normal ∷ [];
  wrapped = [];
  detour = Detours.create_event_bullet_hit;
  call = λ vs. int unk ∷ int hit_type ∷ ptr pos_ptr ∷ ptr normal ∷ [];
  post_event = codes "PostEventBulletHit";
  post = λ result vs. some (int hit_type ∷ ptr pos_ptr ∷ ptr normal ∷ []);
  vetoed = pos 0;
}

abbrev pub create_event_update_elim_state : ℤ → ℤ → ℤ → ℤ → ℕ → Hook
create_event_update_elim_state player_id tracker_visible player_team savior_player_id savior_pos =
    record {
      key = Keys.event_update_elim_state;
      event = codes "EventUpdateElimState";
      args =
          ref_or_null player player_id
          ∷ shared tracker_visible
          ∷ shared player_team
          ∷ ref_or_null player savior_player_id
          ∷ ptr savior_pos
          ∷ [];
      wrapped = tracker_visible ∷ player_team ∷ [];
      detour = Detours.create_event_update_elim_state;
      call = λ vs.
          int player_id
          ∷ int (nth 0 vs)
          ∷ int (nth 1 vs)
          ∷ int savior_player_id
          ∷ ptr savior_pos
          ∷ [];
      post_event = codes "PostEventUpdateElimState";
      post = λ result vs. some (
          ref_or_null player player_id
          ∷ int (nth 0 vs)
          ∷ int (nth 1 vs)
          ∷ ref_or_null player savior_player_id
          ∷ ptr savior_pos
          ∷ []);
      vetoed = pos 0;
    }
