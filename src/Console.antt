-- ===== src/Console.antt =====
-- RosaServer/console.cpp: the line editor of the server's console. Its variables are one record,
-- and what it writes to the terminal is kept as a list of writes, oldest first. `Keys` has a
-- function for each branch of `threadMain`, `Loop` the loop and the calls of the other threads.
pub mod State
pub mod Keys
pub mod Loop
pub mod Invariant
pub mod Progress
pub mod Terminal
pub mod Reads
pub mod Display
pub mod Plain
pub mod Stale
pub mod Recall
mod Tests
