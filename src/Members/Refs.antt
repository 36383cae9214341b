-- ===== src/Members/Refs.antt =====
-- RosaServer/api.cpp: addresses of elements of the engine's arrays, and the numbers that stand for them.
use rosa_server.Base.{zero, suc, Option, none, some}
use rosa_server.Base.Int.{ℤ, pos, negsuc}

-- `&array[n]`, also for an n that is no index of the array, or nullptr.
abbrev pub Ref : Type 0
Ref = Option ℤ

-- `id == -1 ? nullptr : &array[id]`
abbrev pub ref_or_null : ℤ → Ref
ref_or_null (pos n) = some (pos n)
ref_or_null (negsuc zero) = none
ref_or_null (negsuc (suc n)) = some (negsuc (suc n))

-- `object == nullptr ? -1 : object->getIndex()`
abbrev pub id_or_minus_one : Ref → ℤ
id_or_minus_one none = negsuc 0
id_or_minus_one (some n) = n
