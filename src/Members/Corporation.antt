-- ===== src/Members/Corporation.antt =====
-- RosaServer/api.cpp: the elements of an array of `Corporation` that are handed out.
use rosa_server.Base.{ℕ, leb, if◌then◌else◌, Call, returns, throws, Error}

abbrev pub num_missions : ℕ
num_missions = 16

unfoldable pub get_mission : ℕ → Call ℕ
get_mission idx = if leb 16 idx then throws Error.index_out_of_range else returns idx
