-- ===== src/Members.antt =====
-- RosaServer/api.cpp and structs.h: the members of the engine's structures that Lua reads and writes:
-- references to elements of the engine's arrays, and elements of the arrays in a structure.
pub mod Refs
pub mod EarShot
pub mod Connection
pub mod Player
pub mod Human
pub mod Item
pub mod Vehicle
pub mod TrafficCar
pub mod ShopCar
pub mod Mission
pub mod Building
pub mod Corporation
pub mod Intersection
pub mod Voice
pub mod Recorded
pub mod Kept
pub mod Guards
mod Tests
