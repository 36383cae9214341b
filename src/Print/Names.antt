-- ===== src/Print/Names.antt =====
-- RosaServer/api.cpp: the methods `__tostring`.
use rosa_server.Base.{ℕ, Text, codes}
use rosa_server.Print.{named}

unfoldable pub account_name : ℕ → Text
account_name index = named (codes "Account") index

unfoldable pub player_name : ℕ → Text
player_name index = named (codes "Player") index

unfoldable pub human_name : ℕ → Text
human_name index = named (codes "Human") index

unfoldable pub item_type_name : ℕ → Text
item_type_name index = named (codes "ItemType") index

unfoldable pub item_name : ℕ → Text
item_name index = named (codes "Item") index

unfoldable pub vehicle_type_name : ℕ → Text
vehicle_type_name index = named (codes "VehicleType") index

unfoldable pub vehicle_name : ℕ → Text
vehicle_name index = named (codes "Vehicle") index

unfoldable pub rigid_body_name : ℕ → Text
rigid_body_name index = named (codes "RigidBody") index

unfoldable pub bond_name : ℕ → Text
bond_name index = named (codes "Bond") index

unfoldable pub street_name : ℕ → Text
street_name index = named (codes "Street") index

unfoldable pub street_intersection_name : ℕ → Text
street_intersection_name index = named (codes "StreetIntersection") index

unfoldable pub traffic_car_name : ℕ → Text
traffic_car_name index = named (codes "TrafficCar") index

unfoldable pub building_name : ℕ → Text
building_name index = named (codes "Building") index

unfoldable pub event_name : ℕ → Text
event_name index = named (codes "Event") index
