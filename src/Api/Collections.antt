-- ===== src/Api/Collections.antt =====
-- RosaServer/api.cpp: what the functions list, count and find.
use rosa_server.Base.{
  ℕ, zero, suc, ◌≤◌, ◌<◌, ◌≡◌, refl, sym, ◌∙◌, Bool, true, false, ◌&&◌, ◌||◌, List, [], ◌∷◌, length,
  has, ◌==◌, ltb, arith, Call, returns, throws, Error, Text, texts_equal,
}
use rosa_server.Base.Int.{ℤ, pos, negsuc, ◌≤ℤ◌}
use rosa_server.Api.{
  max_players, max_humans, max_item_types, max_items, max_vehicle_types, max_vehicles, max_bodies,
  max_bonds, count_if, indices_if, indices_from, at_index, is_active, is_active_vehicle,
  is_non_traffic_car, is_traffic_car, is_active_player, is_non_bot, is_bot, all_item_types,
  item_type_at, item_type_by_name, count_items, all_items, item_at, all_vehicle_types,
  vehicle_type_at, vehicle_type_by_name, count_vehicles, all_vehicles, non_traffic_cars,
  traffic_cars, vehicle_at, count_players, all_players, player_at, player_by_phone, non_bots, bots,
  count_humans, all_humans, human_at, count_bodies, all_bodies, body_at, count_bonds, all_bonds,
  bond_at, all_streets, street_at, all_intersections, intersection_at, all_traffic, traffic_car_at,
  all_buildings, building_at, all_events, event_at, Vehicle, Player, Engine, IsSized,
}
use rosa_server.Api.Scan.{
  has-indices_from_count, IsIncreasing-indices_from, length-indices_from, test_at, has-indices_if,
  length-indices_if, test_at-below, IsIncreasing, IsIncreasing-indices_if, IsFirst,
  first_index-IsFirst, at_index-below, at_index-beyond,
}

-- A list has exactly the indices of the elements that pass, each once and in their order; the count is
-- that of the list; an index of the list is accepted, and one behind the array is refused.
abbrev pub IsListed : {A : Type 0} → (A → Bool) → List A → List ℕ → ℕ → (ℕ → Call ℕ) → Type 0
IsListed keep array all count at =
    ((i : ℕ) → has all i ≡ test_at keep array i)
    × IsIncreasing 0 all
    × (length all ≡ count)
    × ((i : ℕ) → has all i ≡ true → at i ≡ returns i)
    × ((i : ℕ) → length array ≤ i → at i ≡ throws Error.index_out_of_range)

indices_if-IsListed :
    {A : Type 0} (keep : A → Bool) (array : List A) (limit : ℕ)
    → length array ≡ limit
    → IsListed keep array (indices_if keep array 0) (count_if keep array) (at_index limit)
indices_if-IsListed keep array limit e = (
  has-indices_if keep array,
  IsIncreasing-indices_if keep array 0,
  length-indices_if keep array 0,
  (λ i h.
      at_index-below limit i
        (omega (arith, e, test_at-below keep array i (sym (has-indices_if keep array i) ∙ h)))),
  (λ i l. at_index-beyond limit i (omega (arith, e, l))),
)

-- A list has the indices below a count, in their order; each of them is accepted, and one that is not
-- below the count is refused.
abbrev pub IsCounted : ℕ → List ℕ → (ℕ → Call ℕ) → Type 0
IsCounted num all at =
    ((i : ℕ) → has all i ≡ ltb i num)
    × IsIncreasing 0 all
    × (length all ≡ num)
    × ((i : ℕ) → i < num → at i ≡ returns i)
    × ((i : ℕ) → num ≤ i → at i ≡ throws Error.index_out_of_range)

indices_from-IsCounted : (num : ℕ) → IsCounted num (indices_from num 0) (at_index num)
indices_from-IsCounted num = (
  (λ i. has-indices_from_count num 0 i ∙ ground arith),
  IsIncreasing-indices_from num 0,
  length-indices_from num 0,
  at_index-below num,
  at_index-beyond num,
)

abbrev pub AllCounted : Engine → Type 0
AllCounted e =
    IsCounted max_item_types (all_item_types e) (item_type_at e)
    × IsCounted max_vehicle_types (all_vehicle_types e) (vehicle_type_at e)
    × IsCounted e.num_streets (all_streets e) (street_at e)
    × IsCounted e.num_intersections (all_intersections e) (intersection_at e)
    × IsCounted e.num_traffic_cars (all_traffic e) (traffic_car_at e)
    × IsCounted e.num_buildings (all_buildings e) (building_at e)
    × IsCounted e.num_events (all_events e) (event_at e)

AllCounted_lem : (e : Engine) → AllCounted e
AllCounted_lem e = (
  indices_from-IsCounted max_item_types,
  indices_from-IsCounted max_vehicle_types,
  indices_from-IsCounted e.num_streets,
  indices_from-IsCounted e.num_intersections,
  indices_from-IsCounted e.num_traffic_cars,
  indices_from-IsCounted e.num_buildings,
  indices_from-IsCounted e.num_events,
)

-- In an engine whose arrays have their lengths, of items, vehicles, players, humans, bodies and bonds:
-- `getAll` lists exactly the active ones, each once and in the order of their indices; `getCount` is
-- their number; and `getByIndex` gives each of them, and throws for an index behind the array. Of the
-- types of items and vehicles, and of streets, intersections, cars of the traffic, buildings and
-- events: `getAll` lists the indices below their count, and `getByIndex` accepts exactly these.
pub entities-IsListed :
    (e : Engine)
    → IsSized e
    → IsListed is_active e.items (all_items e) (count_items e) (item_at e)
      × IsListed is_active_vehicle e.vehicles (all_vehicles e) (count_vehicles e) (vehicle_at e)
      × IsListed is_active_player e.players (all_players e) (count_players e) (player_at e)
      × IsListed is_active e.humans (all_humans e) (count_humans e) (human_at e)
      × IsListed is_active e.bodies (all_bodies e) (count_bodies e) (body_at e)
      × IsListed is_active e.bonds (all_bonds e) (count_bonds e) (bond_at e)
      × AllCounted e
entities-IsListed e s = (
  indices_if-IsListed is_active e.items max_items s.items_length,
  indices_if-IsListed is_active_vehicle e.vehicles max_vehicles s.vehicles_length,
  indices_if-IsListed is_active_player e.players max_players s.players_length,
  indices_if-IsListed is_active e.humans max_humans s.humans_length,
  indices_if-IsListed is_active e.bodies max_bodies s.bodies_length,
  indices_if-IsListed is_active e.bonds max_bonds s.bonds_length,
  AllCounted_lem e,
)

-- `getByName` of the types of items and of vehicles and `players::getByPhone` give the lowest index
-- of a type with the name, or of an active player with the number, and nil only if there is none.
pub searches-IsFirst :
    (e : Engine) (name : Text) (phone : ℕ)
    → IsFirst (λ t. texts_equal name t) e.item_types (item_type_by_name e name)
      × IsFirst (λ t. texts_equal name t) e.vehicle_types (vehicle_type_by_name e name)
      × IsFirst
          (λ p. is_active_player p && p.phone_number == phone)
          e.players
          (player_by_phone e phone)
searches-IsFirst e name phone = (
  first_index-IsFirst (λ t. texts_equal name t) e.item_types,
  first_index-IsFirst (λ t. texts_equal name t) e.vehicle_types,
  first_index-IsFirst (λ p. is_active_player p && p.phone_number == phone) e.players,
)

-- The traffic index of a vehicle is not below -1.
abbrev pub IsTrafficIndex : List Vehicle → Type 0
IsTrafficIndex [] = Unit {0}
IsTrafficIndex (v ∷ vehicles) = (negsuc 0 ≤ℤ v.traffic_car_id) × IsTrafficIndex vehicles

vehicle_split :
    (a : ℕ) (t : ℤ)
    → negsuc 0 ≤ℤ t
    → let v : Vehicle = record { active = a; traffic_car_id = t } in
      (is_active_vehicle v ≡ (is_non_traffic_car v || is_traffic_car v))
      × ((is_non_traffic_car v && is_traffic_car v) ≡ false)
vehicle_split a (pos n) l = (ground arith, ground arith)
vehicle_split a (negsuc zero) l = (ground arith, ground arith)
vehicle_split a (negsuc (suc n)) l = absurd (omega (arith, l))

vehicles_split :
    (vehicles : List Vehicle) (i : ℕ)
    → IsTrafficIndex vehicles
    → (test_at is_active_vehicle vehicles i
        ≡ (test_at is_non_traffic_car vehicles i || test_at is_traffic_car vehicles i))
      × ((test_at is_non_traffic_car vehicles i && test_at is_traffic_car vehicles i) ≡ false)
vehicles_split [] i t = (refl, refl)
vehicles_split (v ∷ vehicles) zero (l, t) = vehicle_split v.active v.traffic_car_id l
vehicles_split (v ∷ vehicles) (suc i) (l, t) = vehicles_split vehicles i t

players_split :
    (players : List Player) (i : ℕ)
    → ((test_at is_bot players i && test_at is_non_bot players i) ≡ false)
      × ((test_at is_bot players i || test_at is_non_bot players i) ≡ (
          test_at is_active_player players i
          && (test_at is_bot players i || test_at is_non_bot players i)))
players_split [] i = (refl, refl)
players_split (p ∷ players) zero = (ground arith, ground arith)
players_split (p ∷ players) (suc i) = players_split players i

-- With traffic indices not below -1, every active vehicle is in exactly one of `getNonTrafficCars`
-- and `getTrafficCars`, and no other vehicle is in either. No player is both in `getBots` and in
-- `getNonBots`, and only active ones are.
pub traffic_and_bots_apart :
    (e : Engine) (i : ℕ)
    → IsTrafficIndex e.vehicles
    → (has (all_vehicles e) i ≡ (has (non_traffic_cars e) i || has (traffic_cars e) i))
      × ((has (non_traffic_cars e) i && has (traffic_cars e) i) ≡ false)
      × ((has (bots e) i && has (non_bots e) i) ≡ false)
      × ((has (bots e) i || has (non_bots e) i)
          ≡ (has (all_players e) i && (has (bots e) i || has (non_bots e) i)))
traffic_and_bots_apart e i t =
    rw
      (
        has-indices_if is_active_vehicle e.vehicles i,
        has-indices_if is_non_traffic_car e.vehicles i,
        has-indices_if is_traffic_car e.vehicles i,
        has-indices_if is_bot e.players i,
        has-indices_if is_non_bot e.players i,
        has-indices_if is_active_player e.players i,
      )
      (let (a, b) = vehicles_split e.vehicles i t in
        let (c, d) = players_split e.players i in (a, b, c, d))
