-- ===== src/Hooks/Entities.antt =====
-- RosaServer/hooks.cpp: the replacements that make and delete entities, and so throw away the data
-- tables that Lua keeps by their index. `Hook` says what each asks and enters; `creating`,
-- `creating_item` and `deleting` say when the table goes. An index that the engine gives is -1 or
-- one of the array. `create_bullet` has no tables and the common shape.
use rosa_server.Base.{
  ℕ, Bool, true, false, Option, none, some, List, [], ◌∷◌, if◌then◌else◌, ◌==◌, ◌&&◌, codes,
}
use rosa_server.Base.Int.{ℤ, pos, negsuc}
use rosa_server.Hooks.Keys
use rosa_server.Hooks.Detours
use rosa_server.Hooks.World.{
  Kind, account, player, human, item, vehicle, body, item_type, vehicle_type, bullet, Arg, int,
  float, ref, ptr, World, Answer, Outside, after_answer, vetoes, left, enter, is_minus_one,
}
use rosa_server.Hooks.Standard.{Hook, ask_post}

-- Whether two arrays are the same, of those that have data tables.
abbrev pub same_kind : Kind → Kind → Bool
same_kind account account = true
same_kind player player = true
same_kind human human = true
same_kind item item = true
same_kind vehicle vehicle = true
same_kind body body = true
same_kind k j = false

-- `if (tables[n]) { delete tables[n]; tables[n] = nullptr; }`
abbrev pub forget : Kind → ℕ → World → World
forget k n w = record w {
  has_table = λ j m. if same_kind k j && (n == m) then false else w.has_table j m;
}

-- `if (id != -1 && tables[id]) { … }`
abbrev pub forget_made : Kind → ℤ → World → World
forget_made k (pos n) w = forget k n w
forget_made k (negsuc n) w = w

-- The question with the event, before what `go` does with the values of the wrappers.
abbrev pub asking : Outside → Hook → (List ℤ → World → World × ℤ) → World → Answer → World × ℤ
asking o h go w a =
    let w' = after_answer w h.event h.args a in
    if vetoes a then (w', h.vetoed) else go (left a 0 h.wrapped) w'

abbrev pub framed :
    Outside → Hook → (List ℤ → World → World × ℤ) → (World → World × ℤ) → World → World × ℤ
framed o h go plain w =
    if w.enabled h.key
    then (if w.run_set then asking o h go w (o.lua w h.event h.args) else go h.wrapped w)
    else plain w

-- The engine's call, after which the table of what it made goes.
abbrev pub make : Outside → Hook → Kind → List ℤ → World → World × ℤ
make o h k vs w = let (w', id) = enter o h.detour (h.call vs) w in (forget_made k id w', id)

abbrev pub make_and_tell : Outside → Hook → Kind → List ℤ → World → World × ℤ
make_and_tell o h k vs w =
    let (w', id) = make o h k vs w in (ask_post o h.post_event (h.post id vs) w', id)

unfoldable pub creating : Outside → Hook → Kind → World → World × ℤ
creating o h k w = framed o h (make_and_tell o h k) (make o h k h.wrapped) w

-- `createItem`: the table goes behind the event.
abbrev pub tell_and_forget : Outside → Hook → Kind → List ℤ → World → World × ℤ
tell_and_forget o h k vs w =
    let (w', id) = enter o h.detour (h.call vs) w in
    (forget_made k id (ask_post o h.post_event (h.post id vs) w'), id)

unfoldable pub creating_item : Outside → Hook → Kind → World → World × ℤ
creating_item o h k w = framed o h (tell_and_forget o h k) (make o h k h.wrapped) w

-- The engine's call for element n of an array, after which its table goes.
abbrev pub remove : Outside → Hook → Kind → ℕ → List ℤ → World → World × ℤ
remove o h k n vs w = let (w', result) = enter o h.detour (h.call vs) w in (forget k n w', result)

abbrev pub remove_and_tell : Outside → Hook → Kind → ℕ → List ℤ → World → World × ℤ
remove_and_tell o h k n vs w =
    let (w', result) = enter o h.detour (h.call vs) w in
    (forget k n (ask_post o h.post_event (h.post result vs) w'), result)

unfoldable pub deleting : Outside → Hook → Kind → ℕ → World → World × ℤ
deleting o h k n w = framed o h (remove_and_tell o h k n) (remove o h k n h.wrapped) w

-- `id != -1 && run != sol::nil`
abbrev pub told_of : Kind → ℤ → Option (List Arg)
told_of k id = if is_minus_one id then none else some (ref k id ∷ [])

abbrev pub create_bullet : ℤ → ℕ → ℕ → ℤ → Hook
create_bullet type position velocity player_id = record {
  key = Keys.bullet_create;
  event = codes "BulletCreate";
  args = int type ∷ ptr position ∷ ptr velocity ∷ ref player player_id ∷ [];
  wrapped = [];
  detour = Detours.create_bullet;
  call = λ vs. int type ∷ ptr position ∷ ptr velocity ∷ int player_id ∷ [];
  post_event = codes "PostBulletCreate";
  post = λ result vs. told_of bullet result;
  vetoed = negsuc 0;
}

abbrev pub create_player : Hook
create_player = record {
  key = Keys.player_create;
  event = codes "PlayerCreate";
  args = [];
  wrapped = [];
  detour = Detours.create_player;
  call = λ vs. [];
  post_event = codes "PostPlayerCreate";
  post = λ result vs. told_of player result;
  vetoed = negsuc 0;
}

abbrev pub delete_player : ℕ → Hook
delete_player player_id = record {
  key = Keys.player_delete;
  event = codes "PlayerDelete";
  args = ref player (pos player_id) ∷ [];
  wrapped = [];
  detour = Detours.delete_player;
  call = λ vs. int (pos player_id) ∷ [];
  post_event = codes "PostPlayerDelete";
  post = λ result vs. some (ref player (pos player_id) ∷ []);
  vetoed = pos 0;
}

abbrev pub create_human : ℕ → ℕ → ℤ → Hook
create_human position rotation player_id = record {
  key = Keys.human_create;
  event = codes "HumanCreate";
  args = ptr position ∷ ptr rotation ∷ ref player player_id ∷ [];
  wrapped = [];
  detour = Detours.create_human;
  call = λ vs. ptr position ∷ ptr rotation ∷ int player_id ∷ [];
  post_event = codes "PostHumanCreate";
  post = λ result vs. told_of human result;
  vetoed = negsuc 0;
}

abbrev pub delete_human : ℕ → Hook
delete_human human_id = record {
  key = Keys.human_delete;
  event = codes "HumanDelete";
  args = ref human (pos human_id) ∷ [];
  wrapped = [];
  detour = Detours.delete_human;
  call = λ vs. int (pos human_id) ∷ [];
  post_event = codes "PostHumanDelete";
  post = λ result vs. some (ref human (pos human_id) ∷ []);
  vetoed = pos 0;
}

abbrev pub create_item : ℤ → ℕ → ℕ → ℕ → Hook
create_item type position velocity rotation = record {
  key = Keys.item_create;
  event = codes "ItemCreate";
  args = ref item_type type ∷ ptr position ∷ ptr rotation ∷ [];
  wrapped = [];
  detour = Detours.create_item;
  call = λ vs. int type ∷ ptr position ∷ ptr velocity ∷ ptr rotation ∷ [];
  post_event = codes "PostItemCreate";
  post = λ result vs. told_of item result;
  vetoed = negsuc 0;
}

abbrev pub delete_item : ℕ → Hook
delete_item item_id = record {
  key = Keys.item_delete;
  event = codes "ItemDelete";
  args = ref item (pos item_id) ∷ [];
  wrapped = [];
  detour = Detours.delete_item;
  call = λ vs. int (pos item_id) ∷ [];
  post_event = codes "PostItemDelete";
  post = λ result vs. some (ref item (pos item_id) ∷ []);
  vetoed = pos 0;
}

abbrev pub create_vehicle : ℤ → ℕ → ℕ → ℕ → ℤ → Hook
create_vehicle type position velocity rotation color = record {
  key = Keys.vehicle_create;
  event = codes "VehicleCreate";
  args = ref vehicle_type type ∷ ptr position ∷ ptr rotation ∷ int color ∷ [];
  wrapped = [];
  detour = Detours.create_vehicle;
  call = λ vs. int type ∷ ptr position ∷ ptr velocity ∷ ptr rotation ∷ int color ∷ [];
  post_event = codes "PostVehicleCreate";
  post = λ result vs. told_of vehicle result;
  vetoed = negsuc 0;
}

abbrev pub delete_vehicle : ℕ → Hook
delete_vehicle vehicle_id = record {
  key = Keys.vehicle_delete;
  event = codes "VehicleDelete";
  args = ref vehicle (pos vehicle_id) ∷ [];
  wrapped = [];
  detour = Detours.delete_vehicle;
  call = λ vs. int (pos vehicle_id) ∷ [];
  post_event = codes "PostVehicleDelete";
  post = λ result vs. some (ref vehicle (pos vehicle_id) ∷ []);
  vetoed = pos 0;
}

-- `createRigidBody` asks nothing.
unfoldable pub create_rigid_body : Outside → ℤ → ℕ → ℕ → ℕ → ℤ → ℕ → World → World × ℤ
create_rigid_body o type position rotation velocity mass scale w =
    let args =
      int type ∷ ptr position ∷ ptr rotation ∷ ptr velocity ∷ float mass ∷ ptr scale ∷ [] in
    let (w', id) = enter o Detours.create_rigid_body args w in (forget_made body id w', id)
