-- ===== src/Api/Arrays.antt =====
-- RosaServer/api.cpp and structs.h: the arrays of the engine, and the loops over an array.
use rosa_server.Base.{
  ℕ, zero, suc, ◌≡◌, Bool, not, Option, none, some, List, [], ◌∷◌, length, ◌==◌, leb, if◌then◌else◌,
  Call, returns, throws, Error, Text,
}
use rosa_server.Base.Int.{ℤ}

-- An `int` as a truth value.
abbrev pub is_set : ℕ → Bool
is_set n = not (n == 0)

pub record Active : Type 0 where
  pub active : ℕ

pub record Vehicle : Type 0 where
  pub active : ℕ
  pub traffic_car_id : ℤ

pub record Account : Type 0 where
  pub sub_rosa_id : ℕ
  pub phone_number : ℕ

pub record Player : Type 0 where
  pub active : ℕ
  pub sub_rosa_id : ℕ
  pub phone_number : ℕ
  pub is_bot : ℕ

pub record Engine : Type 0 where
  pub item_types : List Text
  pub vehicle_types : List Text
  pub items : List Active
  pub humans : List Active
  pub bodies : List Active
  pub bonds : List Active
  pub vehicles : List Vehicle
  pub accounts : List Account
  pub players : List Player
  pub num_bullets : ℕ
  pub num_streets : ℕ
  pub num_intersections : ℕ
  pub num_traffic_cars : ℕ
  pub num_buildings : ℕ
  pub num_events : ℕ

abbrev pub max_accounts : ℕ
max_accounts = 32768

abbrev pub max_players : ℕ
max_players = 256

abbrev pub max_humans : ℕ
max_humans = 256

abbrev pub max_item_types : ℕ
max_item_types = 46

abbrev pub max_items : ℕ
max_items = 1024

abbrev pub max_vehicle_types : ℕ
max_vehicle_types = 17

abbrev pub max_vehicles : ℕ
max_vehicles = 512

abbrev pub max_bodies : ℕ
max_bodies = 8192

abbrev pub max_bonds : ℕ
max_bonds = 16384

-- The arrays that have a fixed length.
pub record IsSized (e : Engine) : Type 0 where
  pub item_types_length : length e.item_types ≡ max_item_types
  pub vehicle_types_length : length e.vehicle_types ≡ max_vehicle_types
  pub items_length : length e.items ≡ max_items
  pub vehicles_length : length e.vehicles ≡ max_vehicles
  pub players_length : length e.players ≡ max_players
  pub humans_length : length e.humans ≡ max_humans
  pub bodies_length : length e.bodies ≡ max_bodies
  pub bonds_length : length e.bonds ≡ max_bonds

-- The loops over an array: how many elements pass a test, the indices of those that do, and the first
-- index of one that does. The index of the first element of the list is i.
module _ {ℓ} {A : Type ℓ} where
  unfoldable pub count_if : (A → Bool) → List A → ℕ
  count_if keep [] = 0
  count_if keep (x ∷ xs) = let rest = count_if keep xs in if keep x then suc rest else rest

  unfoldable pub indices_if : (A → Bool) → List A → ℕ → List ℕ
  indices_if keep [] i = []
  indices_if keep (x ∷ xs) i =
      let rest = indices_if keep xs (suc i) in if keep x then i ∷ rest else rest

  unfoldable pub first_index : (A → Bool) → List A → ℕ → Option ℕ
  first_index keep [] i = none
  first_index keep (x ∷ xs) i =
      let rest = first_index keep xs (suc i) in if keep x then some i else rest

-- The indices from i on, n of them.
unfoldable pub indices_from : ℕ → ℕ → List ℕ
indices_from zero i = []
indices_from (suc n) i = i ∷ indices_from n (suc i)

abbrev pub at_index : ℕ → ℕ → Call ℕ
at_index limit idx = if leb limit idx then throws Error.index_out_of_range else returns idx
