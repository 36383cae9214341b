-- ===== src/Members/Kept.antt =====
-- RosaServer/api.cpp: a reference that is written into a member is read from it.
use rosa_server.Base.{
  ℕ, ◌<◌, arith, ◌≡◌, refl, ◌⊎◌, inl, inr, none, some, Call, returns, throws, Error,
}
use rosa_server.Base.Int.{pos, negsuc}
use rosa_server.Members.Refs.{Ref, ref_or_null, id_or_minus_one}
use rosa_server.Api.{max_item_types}
use rosa_server.Members.EarShot
use rosa_server.Members.Connection
use rosa_server.Members.Player
use rosa_server.Members.Human
use rosa_server.Members.Item
use rosa_server.Members.Vehicle
use rosa_server.Members.TrafficCar
use rosa_server.Members.ShopCar
use rosa_server.Members.Mission

-- nil, or an element of an array.
abbrev pub IsElement : Ref → Type 0
IsElement none = Unit {0}
IsElement (some (pos n)) = Unit {0}
IsElement (some (negsuc n)) = ⊥

ref_or_null-id_or_minus_one : (r : Ref) → IsElement r → ref_or_null (id_or_minus_one r) ≡ r
ref_or_null-id_or_minus_one none e = refl
ref_or_null-id_or_minus_one (some (pos n)) e = refl
ref_or_null-id_or_minus_one (some (negsuc n)) e = absurd e

-- What is written is read.
abbrev pub IsKept : {A : Type 0} → (A → Ref) → (A → Ref → A) → Type 0
IsKept {A} get set = (s : A) (r : Ref) → IsElement r → get (set s r) ≡ r

-- nil is refused, and nothing changes; what else is written is read.
abbrev pub IsKeptObject : {A : Type 0} → (A → Ref) → (A → Ref → A × Call (Unit {0})) → Type 0
IsKeptObject {A} get set =
    (s : A) (r : Ref)
    → IsElement r
    → ((r ≡ none) × (set s r ≡ (s, throws Error.nil_argument)))
      ⊎ ((get (set s r).0 ≡ r) × ((set s r).1 ≡ returns tt))

player_account_kept : IsKeptObject Player.get_account Player.set_account
unfolding Player.get_account Player.set_account
player_account_kept s none e = inl (refl, refl)
player_account_kept s (some (pos n)) e = inr (refl, refl)
player_account_kept s (some (negsuc n)) e = absurd e

item_type_kept : IsKeptObject Item.get_type Item.set_type
unfolding Item.get_type Item.set_type
item_type_kept s none e = inl (refl, refl)
item_type_kept s (some (pos n)) e = inr (refl, refl)
item_type_kept s (some (negsuc n)) e = absurd e

vehicle_type_kept : IsKeptObject Vehicle.get_type Vehicle.set_type
unfolding Vehicle.get_type Vehicle.set_type
vehicle_type_kept s none e = inl (refl, refl)
vehicle_type_kept s (some (pos n)) e = inr (refl, refl)
vehicle_type_kept s (some (negsuc n)) e = absurd e

traffic_car_type_kept : IsKeptObject TrafficCar.get_type TrafficCar.set_type
unfolding TrafficCar.get_type TrafficCar.set_type
traffic_car_type_kept s none e = inl (refl, refl)
traffic_car_type_kept s (some (pos n)) e = inr (refl, refl)
traffic_car_type_kept s (some (negsuc n)) e = absurd e

shop_car_type_kept : IsKeptObject ShopCar.get_type ShopCar.set_type
unfolding ShopCar.get_type ShopCar.set_type
shop_car_type_kept s none e = inl (refl, refl)
shop_car_type_kept s (some (pos n)) e = inr (refl, refl)
shop_car_type_kept s (some (negsuc n)) e = absurd e

abbrev pub AllKept : Type 0
AllKept =
    IsKept EarShot.get_player EarShot.set_player
    × IsKept EarShot.get_human EarShot.set_human
    × IsKept EarShot.get_receiving_item EarShot.set_receiving_item
    × IsKept EarShot.get_transmitting_item EarShot.set_transmitting_item
    × IsKept Connection.get_player Connection.set_player
    × IsKept Player.get_human Player.set_human
    × IsKept Player.get_menu_tab_building Player.set_menu_tab_building
    × IsKept Human.get_player Human.set_player
    × IsKept Human.get_account Human.set_account
    × IsKept Human.get_vehicle Human.set_vehicle
    × IsKept Item.get_grenade_primer Item.set_grenade_primer
    × IsKept Item.get_parent_human Item.set_parent_human
    × IsKept Item.get_parent_item Item.set_parent_item
    × IsKept Item.get_connected_phone Item.set_connected_phone
    × IsKept Item.get_vehicle Item.set_vehicle
    × IsKept Vehicle.get_traffic_car Vehicle.set_traffic_car
    × IsKept TrafficCar.get_human TrafficCar.set_human
    × IsKept TrafficCar.get_vehicle TrafficCar.set_vehicle
    × IsKept Mission.get_item Mission.set_item

abbrev pub AllObjectsKept : Type 0
AllObjectsKept =
    IsKeptObject Player.get_account Player.set_account
    × IsKeptObject Item.get_type Item.set_type
    × IsKeptObject Vehicle.get_type Vehicle.set_type
    × IsKeptObject TrafficCar.get_type TrafficCar.set_type
    × IsKeptObject ShopCar.get_type ShopCar.set_type

all_kept : AllKept
unfolding Connection.get_player Connection.set_player EarShot.get_human EarShot.get_player
    EarShot.get_receiving_item EarShot.get_transmitting_item EarShot.set_human EarShot.set_player
    EarShot.set_receiving_item EarShot.set_transmitting_item Human.get_account Human.get_player
    Human.get_vehicle Human.set_account Human.set_player Human.set_vehicle Item.get_connected_phone
    Item.get_grenade_primer Item.get_parent_human Item.get_parent_item Item.get_vehicle
    Item.set_connected_phone Item.set_grenade_primer Item.set_parent_human Item.set_parent_item
    Item.set_vehicle Mission.get_item Mission.set_item Player.get_human Player.get_menu_tab_building
    Player.set_human Player.set_menu_tab_building TrafficCar.get_human TrafficCar.get_vehicle
    TrafficCar.set_human TrafficCar.set_vehicle Vehicle.get_traffic_car Vehicle.set_traffic_car
all_kept = (
  (λ s. ref_or_null-id_or_minus_one),
  (λ s. ref_or_null-id_or_minus_one),
  (λ s. ref_or_null-id_or_minus_one),
  (λ s. ref_or_null-id_or_minus_one),
  (λ s. ref_or_null-id_or_minus_one),
  (λ s. ref_or_null-id_or_minus_one),
  (λ s. ref_or_null-id_or_minus_one),
  (λ s. ref_or_null-id_or_minus_one),
  (λ s. ref_or_null-id_or_minus_one),
  (λ s. ref_or_null-id_or_minus_one),
  (λ s. ref_or_null-id_or_minus_one),
  (λ s. ref_or_null-id_or_minus_one),
  (λ s. ref_or_null-id_or_minus_one),
  (λ s. ref_or_null-id_or_minus_one),
  (λ s. ref_or_null-id_or_minus_one),
  (λ s. ref_or_null-id_or_minus_one),
  (λ s. ref_or_null-id_or_minus_one),
  (λ s. ref_or_null-id_or_minus_one),
  (λ s. ref_or_null-id_or_minus_one),
)

-- Of every structure: a reference, nil or an element of an array, that is written into one of the
-- members that take nil is what is read from it then; and the members that take no nil refuse it,
-- without a change, and keep what else is written. The disk type of a mission keeps the elements of its
-- array, but not nil: then what is read is no nil, but the address before the array.
pub references-IsKept :
    AllKept
    × AllObjectsKept
    × ((s : Mission.Mission) (n : ℕ)
        → n < max_item_types
        → Mission.get_disk_type (Mission.set_disk_type s (some (pos n))) ≡ some (pos n))
    × ((s : Mission.Mission)
        → Mission.get_disk_type (Mission.set_disk_type s none) ≡ some (negsuc 0))
unfolding Mission.get_disk_type Mission.set_disk_type
references-IsKept = (
  all_kept,
  (
    player_account_kept, item_type_kept, vehicle_type_kept, traffic_car_type_kept,
    shop_car_type_kept,
  ),
  (λ s n l. ground (arith, l)),
  λ s. refl,
)
