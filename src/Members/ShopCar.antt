-- ===== src/Members/ShopCar.antt =====
-- RosaServer/api.cpp: the members of `ShopCar` that are handed out.
use rosa_server.Base.{none, some, Call, returns, throws, Error}
use rosa_server.Base.Int.{ℤ}
use rosa_server.Members.Refs.{Ref}

pub record ShopCar : Type 0 where
  pub type_id : ℤ

unfoldable pub get_type : ShopCar → Ref
get_type s = some s.type_id

unfoldable pub set_type : ShopCar → Ref → ShopCar × Call (Unit {0})
set_type s none = (s, throws Error.nil_argument)
set_type s (some n) = (record s { type_id = n }, returns tt)
