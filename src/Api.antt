-- ===== src/Api.antt =====
-- RosaServer/api.cpp: the functions of the Lua API that list, count and find entities in the arrays of
-- the engine. An entity is given by its index; each array has the members that these functions read.
-- A member of 32 bits is its pattern, and of an array whose length is counted only the count is kept.
mod Arrays
pub mod Scan
pub mod Collections
pub mod Accounts
mod Tests
unfoldable pub use Arrays.{count_if, indices_if, first_index, indices_from}
pub use Arrays.{
  is_set, Active, Vehicle, Account, Player, Engine, max_accounts, max_players, max_humans,
  max_item_types, max_items, max_vehicle_types, max_vehicles, max_bodies, max_bonds, IsSized,
  at_index,
}
use rosa_server.Base.{
  ℕ, zero, suc, ◌≡◌, Bool, true, false, not, ◌&&◌, ◌||◌, Option, none, some, List, [], ◌∷◌, length,
  ◌==◌, leb, if◌then◌else◌, Call, returns, throws, Error, Text, texts_equal, ◌>>=◌,
}
use rosa_server.Base.Int.{ℤ, pos, negsuc, ltb_ℤ}

abbrev pub is_active : Active → Bool
is_active x = is_set x.active

abbrev pub is_active_vehicle : Vehicle → Bool
is_active_vehicle v = is_set v.active

-- The guards of the loops of `getNonTrafficCars` and `getTrafficCars`; a car of the traffic has an
-- index in it, another vehicle -1.
abbrev pub is_non_traffic_car : Vehicle → Bool
is_non_traffic_car v = not (not (is_set v.active) || ltb_ℤ (negsuc 0) v.traffic_car_id)

abbrev pub is_minus_one : ℤ → Bool
is_minus_one (negsuc zero) = true
is_minus_one (negsuc (suc n)) = false
is_minus_one (pos n) = false

abbrev pub is_traffic_car : Vehicle → Bool
is_traffic_car v = not (not (is_set v.active) || is_minus_one v.traffic_car_id)

abbrev pub is_active_player : Player → Bool
is_active_player p = is_set p.active

abbrev pub is_non_bot : Player → Bool
is_non_bot p = not (not (is_set p.active) || (not (is_set p.sub_rosa_id) || is_set p.is_bot))

abbrev pub is_bot : Player → Bool
is_bot p = not (not (is_set p.active) || not (is_set p.is_bot))

-- `accounts::getCount`, `getAll` and `getByPhone`: the loops end at an account without a
-- subRosaID and nowhere else; behind the array nothing is defined.
unfoldable pub count_accounts_from : List Account → ℕ → Call ℕ
count_accounts_from [] count = throws Error.undefined_access
count_accounts_from (a ∷ accounts) count =
    let rest = count_accounts_from accounts (suc count) in
    if is_set a.sub_rosa_id then rest else returns count

unfoldable pub all_accounts_from : List Account → ℕ → Call (List ℕ)
all_accounts_from [] i = throws Error.undefined_access
all_accounts_from (a ∷ accounts) i =
    let rest = all_accounts_from accounts (suc i) in
    if is_set a.sub_rosa_id then (rest >>= λ is. returns (i ∷ is)) else returns []

unfoldable pub account_by_phone_from : List Account → ℕ → ℕ → Call (Option ℕ)
account_by_phone_from [] phone i = throws Error.undefined_access
account_by_phone_from (a ∷ accounts) phone i =
    let rest = account_by_phone_from accounts phone (suc i) in
    if is_set a.sub_rosa_id
    then (if a.phone_number == phone then returns (some i) else rest)
    else returns none

module _ (e : Engine) where
  abbrev pub all_item_types : List ℕ
  all_item_types = indices_from max_item_types 0

  abbrev pub item_type_at : ℕ → Call ℕ
  item_type_at idx = at_index max_item_types idx

  abbrev pub item_type_by_name : Text → Option ℕ
  item_type_by_name name = first_index (λ t. texts_equal name t) e.item_types 0

  abbrev pub count_items : ℕ
  count_items = count_if is_active e.items

  abbrev pub all_items : List ℕ
  all_items = indices_if is_active e.items 0

  abbrev pub item_at : ℕ → Call ℕ
  item_at idx = at_index max_items idx

  abbrev pub all_vehicle_types : List ℕ
  all_vehicle_types = indices_from max_vehicle_types 0

  abbrev pub vehicle_type_at : ℕ → Call ℕ
  vehicle_type_at idx = at_index max_vehicle_types idx

  abbrev pub vehicle_type_by_name : Text → Option ℕ
  vehicle_type_by_name name = first_index (λ t. texts_equal name t) e.vehicle_types 0

  abbrev pub count_vehicles : ℕ
  count_vehicles = count_if is_active_vehicle e.vehicles

  abbrev pub all_vehicles : List ℕ
  all_vehicles = indices_if is_active_vehicle e.vehicles 0

  abbrev pub non_traffic_cars : List ℕ
  non_traffic_cars = indices_if is_non_traffic_car e.vehicles 0

  abbrev pub traffic_cars : List ℕ
  traffic_cars = indices_if is_traffic_car e.vehicles 0

  abbrev pub vehicle_at : ℕ → Call ℕ
  vehicle_at idx = at_index max_vehicles idx

  abbrev pub count_accounts : Call ℕ
  count_accounts = count_accounts_from e.accounts 0

  abbrev pub all_accounts : Call (List ℕ)
  all_accounts = all_accounts_from e.accounts 0

  abbrev pub account_by_phone : ℕ → Call (Option ℕ)
  account_by_phone phone = account_by_phone_from e.accounts phone 0

  abbrev pub account_at : ℕ → Call ℕ
  account_at idx = at_index max_accounts idx

  abbrev pub count_players : ℕ
  count_players = count_if is_active_player e.players

  abbrev pub all_players : List ℕ
  all_players = indices_if is_active_player e.players 0

  abbrev pub player_at : ℕ → Call ℕ
  player_at idx = at_index max_players idx

  -- The phone number is compared as an unsigned one.
  abbrev pub player_by_phone : ℕ → Option ℕ
  player_by_phone phone =
      first_index (λ p. is_active_player p && p.phone_number == phone) e.players 0

  abbrev pub non_bots : List ℕ
  non_bots = indices_if is_non_bot e.players 0

  abbrev pub bots : List ℕ
  bots = indices_if is_bot e.players 0

  abbrev pub count_humans : ℕ
  count_humans = count_if is_active e.humans

  abbrev pub all_humans : List ℕ
  all_humans = indices_if is_active e.humans 0

  abbrev pub human_at : ℕ → Call ℕ
  human_at idx = at_index max_humans idx

  abbrev pub all_bullets : List ℕ
  all_bullets = indices_from e.num_bullets 0

  abbrev pub count_bodies : ℕ
  count_bodies = count_if is_active e.bodies

  abbrev pub all_bodies : List ℕ
  all_bodies = indices_if is_active e.bodies 0

  abbrev pub body_at : ℕ → Call ℕ
  body_at idx = at_index max_bodies idx

  abbrev pub count_bonds : ℕ
  count_bonds = count_if is_active e.bonds

  abbrev pub all_bonds : List ℕ
  all_bonds = indices_if is_active e.bonds 0

  abbrev pub bond_at : ℕ → Call ℕ
  bond_at idx = at_index max_bonds idx

  abbrev pub all_streets : List ℕ
  all_streets = indices_from e.num_streets 0

  abbrev pub street_at : ℕ → Call ℕ
  street_at idx = at_index e.num_streets idx

  abbrev pub all_intersections : List ℕ
  all_intersections = indices_from e.num_intersections 0

  abbrev pub intersection_at : ℕ → Call ℕ
  intersection_at idx = at_index e.num_intersections idx

  abbrev pub all_traffic : List ℕ
  all_traffic = indices_from e.num_traffic_cars 0

  abbrev pub traffic_car_at : ℕ → Call ℕ
  traffic_car_at idx = at_index e.num_traffic_cars idx

  abbrev pub all_buildings : List ℕ
  all_buildings = indices_from e.num_buildings 0

  abbrev pub building_at : ℕ → Call ℕ
  building_at idx = at_index e.num_buildings idx

  abbrev pub all_events : List ℕ
  all_events = indices_from e.num_events 0

  abbrev pub event_at : ℕ → Call ℕ
  event_at idx = at_index e.num_events idx
