-- ===== src/Hooks/World.antt =====
-- RosaServer/hooks.cpp: the state that the hooks share, the calls of Lua and of the engine.
use rosa_server.Base.{
  Text, ℕ, zero, suc, Bool, true, false, not, ◌&&◌, List, [], ◌∷◌, ◌++◌, if◌then◌else◌, ◌==◌,
}
use rosa_server.Base.Int.{ℤ, pos, negsuc}

-- The arrays of the engine whose elements are handed to Lua.
pub data Kind : Type 0 where
  account player human item vehicle body bullet traffic_car connection item_type vehicle_type : Kind

-- What is handed to Lua or to the engine. `ref k n` is the address of element n of an array, `ptr`
-- another address, a number of type float is kept as its bits. `shared` is a wrapper object that Lua
-- can change: sol hands an object that has a name over by reference, with or without `&`.
pub data Arg : Type 0 where
  int : ℤ → Arg
  float : ℤ → Arg
  flag : Bool → Arg
  ref : Kind → ℤ → Arg
  ptr : ℕ → Arg
  null : Arg
  text : List ℕ → Arg
  shared : ℤ → Arg

abbrev pub is_minus_one : ℤ → Bool
is_minus_one (pos n) = false
is_minus_one (negsuc zero) = true
is_minus_one (negsuc (suc n)) = false

abbrev pub is_negative : ℤ → Bool
is_negative (pos n) = false
is_negative (negsuc n) = true

-- `id == -1 ? nullptr : &array[id]`
abbrev pub ref_or_null : Kind → ℤ → Arg
ref_or_null k n = if is_minus_one n then null else ref k n

-- A detour is known by the name of the engine's function that it replaces.
abbrev pub Detour : Type 0
Detour = ℕ

-- What happened, in order: a call of `run` with an event, an error of such a call that was printed,
-- a call of the engine with the state of its detour, `true` if it was taken out.
pub data Happening : Type 0 where
  asked : Text → List Arg → Happening
  error_printed : Happening
  entered : Detour → List Arg → Bool → Happening

-- `has_table k n` says that a data table of Lua is stored for element n.
pub record World : Type 0 where
  pub enabled : ℕ → Bool
  pub run_set : Bool
  pub removed : Detour → Bool
  pub has_table : Kind → ℕ → Bool
  pub in_bullet_simulation : Bool
  pub happened : List Happening

-- What a call of `run` gives back: whether it failed, the truth of its result, what it left in the
-- wrappers that it could reach (by position and old value), and the switches and tables after it.
pub record Answer : Type 0 where
  pub failed : Bool
  pub truthy : Bool
  pub left_in : ℕ → ℤ → ℤ
  pub enabled_after : ℕ → Bool
  pub tables_after : Kind → ℕ → Bool

-- What a call of the engine gives back, and the switches and tables after what it made Lua do.
pub record Outcome : Type 0 where
  pub value : ℤ
  pub enabled_then : ℕ → Bool
  pub tables_then : Kind → ℕ → Bool

-- Lua and the engine: they answer by all that happened before.
pub record Outside : Type 0 where
  pub lua : World → Text → List Arg → Answer
  pub engine : World → Detour → List Arg → Outcome

-- A call of `run` followed by `noLuaCallError`.
abbrev pub after_answer : World → Text → List Arg → Answer → World
after_answer w name args a = record w {
  enabled = a.enabled_after;
  has_table = a.tables_after;
  happened =
      if a.failed
      then w.happened ++ (asked name args ∷ error_printed ∷ [])
      else w.happened ++ asked name args ∷ [];
}

-- `if (noLuaCallError(&res)) noParent = (bool)res;`
abbrev pub vetoes : Answer → Bool
vetoes a = not a.failed && a.truthy

-- What the wrappers hold after a call that could reach them.
abbrev pub left : Answer → ℕ → List ℤ → List ℤ
left a n [] = []
left a n (v ∷ vs) = a.left_in n v ∷ left a (suc n) vs

abbrev pub put_removed : Detour → Bool → (Detour → Bool) → Detour → Bool
put_removed d b f e = if d == e then b else f e

-- A call of the engine in the scope of a `ScopedHookRemove`: the detour is taken out, and put back
-- as it was. What is recorded of it is the state of the detour at the call.
unfoldable pub enter : Outside → Detour → List Arg → World → World × ℤ
enter o d args w =
    let scope = record w { removed = put_removed d true w.removed } in
    let inside = record scope { happened = w.happened ++ entered d args (scope.removed d) ∷ [] } in
    let out = o.engine inside d args in
    (
      record inside {
        enabled = out.enabled_then;
        has_table = out.tables_then;
        removed = put_removed d (w.removed d) inside.removed;
      },
      out.value,
    )

-- The value of a wrapper, by its position among those that Lua can reach.
abbrev pub nth : ℕ → List ℤ → ℤ
nth n [] = pos 0
nth zero (v ∷ vs) = v
nth (suc n) (v ∷ vs) = nth n vs

-- `(bool)n`
abbrev pub is_true : ℤ → Bool
is_true (pos zero) = false
is_true (pos (suc n)) = true
is_true (negsuc n) = true
