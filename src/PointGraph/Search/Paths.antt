-- ===== src/PointGraph/Search/Paths.antt =====
-- RosaServer/pointgraph.cpp: paths of a graph, and the ones that `cameFrom` has.
use rosa_server.Base.{
  ℕ, zero, suc, ◌≤◌, ◌≡◌, refl, sym, ap, ◌∙◌, ◌≢◌, true, false, none, some, List, [], ◌∷◌, ◌++◌,
  length, length-append, arith, map, get_elem?, ◌==◌, ==→eq, Bool-cases, inl, inr, find_entry,
}
use mathlib.Core.List.{append_assoc}
use rosa_server.PointGraph.{Node, PointGraph}
use rosa_server.PointGraph.Search.{contains, reconstruct_path}

abbrev pub targets : Node → List ℕ
targets n = map (λ l. l.to_id) n.links

-- The graph has a link from u to v.
abbrev pub Linked : PointGraph → ℕ → ℕ → Type 0
Linked g u v = (n : Node) × (get_elem? g.nodes u ≡ some n) × (contains (targets n) v ≡ true)

-- The list is a path from start to a node, both ends included.
pub data IsPath (g : PointGraph) (start : ℕ) : ℕ → List ℕ → Type 0 where
  alone : IsPath g start start (start ∷ [])
  onward :
      {u v : ℕ} {p q : List ℕ}
      → IsPath g start u p
      → Linked g u v
      → q ≡ p ++ v ∷ []
      → IsPath g start v q

-- Such a path, the nodes of which but the first have the one before them as their entry.
pub data IsTraced (g : PointGraph) (start : ℕ) (came_from : List (ℕ × ℕ))
    : ℕ → List ℕ → Type 0 where
  first : find_entry came_from start ≡ none → IsTraced g start came_from start (start ∷ [])
  after :
      {u v : ℕ} {p q : List ℕ}
      → IsTraced g start came_from u p
      → find_entry came_from v ≡ some u
      → Linked g u v
      → q ≡ p ++ v ∷ []
      → IsTraced g start came_from v q

pub IsTraced-IsPath :
    {g : PointGraph} {start : ℕ} {came_from : List (ℕ × ℕ)} {v : ℕ} {p : List ℕ}
    → IsTraced g start came_from v p
    → IsPath g start v p
IsTraced-IsPath (first e) = alone
IsTraced-IsPath (after t e l q) = onward (IsTraced-IsPath t) l q

pub find_entry-ne :
    {A : Type 0} (m : List (ℕ × A)) (k j : ℕ) (v : A)
    → (k == j) ≡ false
    → find_entry ((k, v) ∷ m) j ≡ find_entry m j
find_entry-ne m k j v e = rw e refl

pub none≢some : {A : Type 0} {a : A} → none ≢ some a
none≢some e = cc

-- An entry of a map is not under a key that it does not have.
pub key-ne :
    {A : Type 0} (m : List (ℕ × A)) (k j : ℕ) (a : A)
    → find_entry m k ≡ none
    → find_entry m j ≡ some a
    → (k == j) ≡ false
key-ne m k j a missing there = elim (Bool-cases (k == j)) [
  | inl same ↦ absurd (none≢some (sym missing ∙ ap (find_entry m) (==→eq k j same) ∙ there))
  | inr other ↦ other
]

-- A new entry, not for the start, leaves the paths that there are.
pub IsTraced-cons :
    {g : PointGraph} {start : ℕ} {came_from : List (ℕ × ℕ)} {v : ℕ} {p : List ℕ} (w u : ℕ)
    → find_entry came_from w ≡ none
    → (w == start) ≡ false
    → IsTraced g start came_from v p
    → IsTraced g start ((w, u) ∷ came_from) v p
IsTraced-cons {start = start} {came_from = came_from} w u new apart (first e) =
    first (find_entry-ne came_from w start u apart ∙ e)
IsTraced-cons {came_from = came_from} w u new apart (after {u = x} {v = v} t e l q) =
    after (IsTraced-cons w u new apart t)
      (find_entry-ne came_from w v u (key-ne came_from w v x new e) ∙ e) l q

reconstruct_path-found :
    (fuel : ℕ) (came_from : List (ℕ × ℕ)) (v u : ℕ) (rest : List ℕ)
    → find_entry came_from v ≡ some u
    → reconstruct_path (suc fuel) came_from v rest ≡ reconstruct_path fuel came_from u (u ∷ rest)
unfolding reconstruct_path
reconstruct_path-found fuel came_from v u rest e = rw (e, reconstruct_path) refl

reconstruct_path-missing :
    (fuel : ℕ) (came_from : List (ℕ × ℕ)) (v : ℕ) (rest : List ℕ)
    → find_entry came_from v ≡ none
    → reconstruct_path (suc fuel) came_from v rest ≡ some rest
unfolding reconstruct_path
reconstruct_path-missing fuel came_from v rest e = rw (e, reconstruct_path) refl

-- With a round for each node of it, the reconstruction returns the path.
pub reconstruct_path-IsTraced :
    {g : PointGraph} {start : ℕ} {came_from : List (ℕ × ℕ)} {v : ℕ} {p : List ℕ} (fuel : ℕ)
    (rest : List ℕ)
    → IsTraced g start came_from v p
    → length p ≤ fuel
    → reconstruct_path fuel came_from v (v ∷ rest) ≡ some (p ++ rest)
reconstruct_path-IsTraced zero rest (first e) few = absurd (omega arith)
reconstruct_path-IsTraced {start = start} {came_from = came_from} (suc fuel) rest (first e) few =
    reconstruct_path-missing fuel came_from start (start ∷ rest) e
reconstruct_path-IsTraced zero rest (after {v = v} {p = p} t e l q) few =
    absurd (omega (arith, ap length q, length-append p (v ∷ [])))
reconstruct_path-IsTraced {came_from = came_from} (suc fuel) rest
      (after {u = u} {v = v} {p = p} t e l q) few =
    reconstruct_path-found fuel came_from v u (v ∷ rest) e
    ∙ reconstruct_path-IsTraced fuel (v ∷ rest) t
        (omega (arith, ap length q, length-append p (v ∷ [])))
    ∙ ap some (sym (append_assoc p (v ∷ []) rest) ∙ ap (λ l. l ++ rest) (sym q))
