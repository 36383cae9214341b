-- ===== src/Members/Building.antt =====
-- RosaServer/api.cpp: the elements of an array of `Building` that are handed out.
use rosa_server.Base.{ℕ, ltb, if◌then◌else◌, Call, returns, throws, Error}

abbrev pub num_shop_cars : ℕ
num_shop_cars = 16

unfoldable pub get_shop_car : ℕ → Call ℕ
get_shop_car idx = if ltb 15 idx then throws Error.index_out_of_range else returns idx
