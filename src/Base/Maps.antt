-- ===== src/Base/Maps.antt =====
-- Hash maps with native keys as association lists: `find`, and `insert`, which leaves an entry that
-- is there.
use Prim.Native.Nat.{ℕ}
use mathlib.Core.List.{List, [], ◌∷◌}
use mathlib.Core.Option.{Option, none, some}
use rosa_server.Base.Tests.{◌==◌, if◌then◌else◌}

module _ {ℓ} {A : Type ℓ} where
  abbrev pub find_entry : List (ℕ × A) → ℕ → Option A
  find_entry [] k = none
  find_entry ((j, v) ∷ m) k = if j == k then some v else find_entry m k

  abbrev pub insert_entry : List (ℕ × A) → ℕ → A → List (ℕ × A)
  insert_entry m k v = elim (find_entry m k) [ none ↦ (k, v) ∷ m | some w ↦ m ]
