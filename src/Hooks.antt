-- ===== src/Hooks.antt =====
-- RosaServer/hooks.cpp and the hook switches of RosaServer/api.cpp: the functions that replace the
-- engine's, ask the Lua function `run` before and after, and enter the engine with the replacement
-- taken out. `World` has the state, `Names` the switches, `Standard` the common shape of the
-- replacements, `Simulation`, `Server`, `Damage`, `Events` its instances, `Entities` those that make
-- and delete entities, `Bullets` those about the simulation of bullets.
pub mod World
pub mod Keys
pub mod Detours
pub mod Names
pub mod Standard
pub mod Simulation
pub mod Server
pub mod Damage
pub mod Events
pub mod Entities
pub mod Bullets
pub mod Protocol
pub mod Tables
pub mod Fresh
pub mod Switches
mod Tests
