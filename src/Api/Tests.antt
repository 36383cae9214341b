-- ===== src/Api/Tests.antt =====
-- RosaServer/api.cpp: an engine with an active item, two vehicles, two players and an account.
use rosa_server.Base.{
  ℕ, zero, suc, ◌≡◌, refl, ap, ◌⊎◌, none, some, [], ◌∷◌, ◌==◌, replicate, length-replicate, take,
  returns, throws, Error, codes, arith,
}
use rosa_server.Base.Int.{pos, negsuc}
use rosa_server.Api.{
  Active, Vehicle, Player, Engine, IsSized, all_items, count_items, item_at, all_vehicles,
  count_vehicles, vehicle_at, all_players, count_players, player_at, all_humans, count_humans,
  human_at, all_bodies, count_bodies, body_at, all_bonds, count_bonds, bond_at, is_active,
  is_active_vehicle, is_active_player, count_accounts, all_accounts, account_by_phone, indices_from,
  first_index, count_accounts_from,
}
use rosa_server.Api.Scan.{IsFirst}
use rosa_server.Api.Collections.{AllCounted, IsListed, entities-IsListed, IsTrafficIndex}
use rosa_server.Api.Accounts.{is_free, accounts_outcomes}

abbrev off : Active
off = record { active = 0 }

abbrev no_vehicle : Vehicle
no_vehicle = record { active = 0; traffic_car_id = negsuc 0 }

abbrev no_player : Player
no_player = record { active = 0; sub_rosa_id = 0; phone_number = 0; is_bot = 0 }

abbrev engine : Engine
engine = record {
  item_types = codes "Rope" ∷ replicate 45 (codes "AK-47");
  vehicle_types = replicate 17 (codes "Town Car");
  items = off ∷ record { active = 1 } ∷ replicate 1022 off;
  humans = replicate 256 off;
  bodies = replicate 8192 off;
  bonds = replicate 16384 off;
  vehicles =
      record { active = 1; traffic_car_id = negsuc 0 }
      ∷ record { active = 1; traffic_car_id = pos 0 }
      ∷ replicate 510 no_vehicle;
  accounts =
      record { sub_rosa_id = 5; phone_number = 2564096 }
      ∷ record { sub_rosa_id = 0; phone_number = 0 }
      ∷ [];
  players =
      record { active = 1; sub_rosa_id = 5; phone_number = 2564096; is_bot = 0 }
      ∷ record { active = 1; sub_rosa_id = 0; phone_number = 0; is_bot = 1 }
      ∷ replicate 254 no_player;
  num_bullets = 0;
  num_streets = 0;
  num_intersections = 0;
  num_traffic_cars = 1;
  num_buildings = 0;
  num_events = 0;
}

engine-IsSized : IsSized engine
engine-IsSized = record {
  item_types_length = ap suc (length-replicate 45 (codes "AK-47"));
  vehicle_types_length = length-replicate 17 (codes "Town Car");
  items_length = ap (λ n. suc (suc n)) (length-replicate 1022 off);
  vehicles_length = ap (λ n. suc (suc n)) (length-replicate 510 no_vehicle);
  players_length = ap (λ n. suc (suc n)) (length-replicate 254 no_player);
  humans_length = length-replicate 256 off;
  bodies_length = length-replicate 8192 off;
  bonds_length = length-replicate 16384 off;
}

entities-IsListed_example :
    IsListed is_active engine.items (all_items engine) (count_items engine) (item_at engine)
    × IsListed is_active_vehicle engine.vehicles
        (all_vehicles engine)
        (count_vehicles engine)
        (vehicle_at engine)
    × IsListed is_active_player engine.players
        (all_players engine)
        (count_players engine)
        (player_at engine)
    × IsListed is_active engine.humans (all_humans engine) (count_humans engine) (human_at engine)
    × IsListed is_active engine.bodies (all_bodies engine) (count_bodies engine) (body_at engine)
    × IsListed is_active engine.bonds (all_bonds engine) (count_bonds engine) (bond_at engine)
    × AllCounted engine
entities-IsListed_example = entities-IsListed engine engine-IsSized

vehicles-IsTrafficIndex : (n : ℕ) → IsTrafficIndex (replicate n no_vehicle)
vehicles-IsTrafficIndex zero = tt
vehicles-IsTrafficIndex (suc n) = (omega arith, vehicles-IsTrafficIndex n)

accounts_outcomes_example :
    ((n : ℕ) × IsFirst is_free engine.accounts (some n)
      × (count_accounts engine ≡ returns n)
      × (all_accounts engine ≡ returns (indices_from n 0))
      × ((phone : ℕ)
          → account_by_phone engine phone
            ≡ returns (first_index (λ a. a.phone_number == phone) (take n engine.accounts) 0)))
    ⊎ (IsFirst is_free engine.accounts none
        × (count_accounts engine ≡ throws Error.undefined_access)
        × (all_accounts engine ≡ throws Error.undefined_access))
accounts_outcomes_example = accounts_outcomes engine

counted_accounts : count_accounts engine ≡ returns 1
unfolding count_accounts_from
counted_accounts = refl
