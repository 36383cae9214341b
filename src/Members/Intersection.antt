-- ===== src/Members/Intersection.antt =====
-- RosaServer/api.cpp: the members of `StreetIntersection` that are handed out.
use rosa_server.Base.Int.{ℤ}
use rosa_server.Members.Refs.{Ref, ref_or_null}

pub record Intersection : Type 0 where
  pub street_east : ℤ
  pub street_south : ℤ
  pub street_west : ℤ
  pub street_north : ℤ

unfoldable pub get_street_east : Intersection → Ref
get_street_east s = ref_or_null s.street_east

unfoldable pub get_street_south : Intersection → Ref
get_street_south s = ref_or_null s.street_south

unfoldable pub get_street_west : Intersection → Ref
get_street_west s = ref_or_null s.street_west

unfoldable pub get_street_north : Intersection → Ref
get_street_north s = ref_or_null s.street_north
