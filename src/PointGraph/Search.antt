-- ===== src/PointGraph/Search.antt =====
-- RosaServer/pointgraph.cpp: `findShortestPath`. A double score is kept as the integer that it is. The
-- map `fScores` is left out: it is only written. `std::push_heap` behind `push_back`, and
-- `std::pop_heap` with `pop_back`, are the parameters `push` and `pop`, functions of the order and
-- of the vector below the queue, whose front is `top`.
pub mod Paths
pub mod States
pub mod Relax
pub mod Work
pub mod Ready
pub mod Rounds
pub mod Loop
pub mod Final
mod Tests
use rosa_server.Base.{
  ℕ, zero, suc, ◌+◌, Bool, true, false, Option, none, some, List, [], ◌∷◌, length, ◌==◌,
  if◌then◌else◌, Call, returns, throws, Error, ◌>>=◌, ◌>>◌, find_entry, insert_entry,
}
use rosa_server.Base.Int.{ℤ, pos, ◌+ℤ◌, ltb_ℤ}
use rosa_server.PointGraph.{Link, Node, PointGraph, node_at}

pub record Search : Type 0 where
  pub g_scores : List (ℕ × ℤ)
  pub came_from : List (ℕ × ℕ)
  pub open_set : List ℕ
  pub has_visited : List ℕ

-- `gScores.at(a) > gScores.at(b)`
abbrev pub greater : Option ℤ → Option ℤ → Bool
greater (some a) (some b) = ltb_ℤ b a
greater a b = false

abbrev pub Compare : Type 0
Compare = ℕ → ℕ → Bool

abbrev pub compare_by : List (ℕ × ℤ) → Compare
compare_by scores a b = greater (find_entry scores a) (find_entry scores b)

-- What the search comes to. `endless` stands for a reconstruction that never ends, and `ran_out`
-- for more rounds than the fuel.
pub data Found : Type 0 where
  path : List ℕ → Found
  thrown : Error → Found
  nil endless ran_out : Found

pub data Round : Type 0 where
  finished : Found → Round
  again : Search → Round

-- `hasVisited.count(id)`
abbrev pub contains : List ℕ → ℕ → Bool
contains [] k = false
contains (j ∷ ids) k = if j == k then true else contains ids k

-- `gScores.at(id)`
abbrev pub score_at : List (ℕ × ℤ) → ℕ → Call ℤ
score_at scores id = elim (find_entry scores id) [ none ↦ throws Error.map_at | some d ↦ returns d ]

-- `tentativeGScore < getScoreOrInfinity(…)`
abbrev pub is_better : ℤ → Option ℤ → Bool
is_better score none = true
is_better score (some d) = ltb_ℤ score d

-- `reconstructPath` on fuel.
unfoldable pub reconstruct_path : ℕ → List (ℕ × ℕ) → ℕ → List ℕ → Option (List ℕ)
reconstruct_path zero came_from id walked = none
reconstruct_path (suc fuel) came_from id walked = elim (find_entry came_from id) [
  | none ↦ some walked
  | some before ↦ reconstruct_path fuel came_from before (before ∷ walked)
]

abbrev pub reconstructed : Option (List ℕ) → Found
reconstructed none = endless
reconstructed (some ids) = path ids

-- The rounds that a search can take: one for the start and one for each link.
abbrev pub count_links : List Node → ℕ
count_links [] = 0
count_links (n ∷ nodes) = length n.links + count_links nodes

module _ (push : Compare → ℕ → List ℕ → List ℕ) (pop : Compare → List ℕ → List ℕ) where
  -- The body of the `if` in the loop over the links.
  unfoldable pub discover : ℕ → ℕ → ℤ → Search → Search
  discover current to_id score s =
      let scores = insert_entry s.g_scores to_id score in
      record s {
        g_scores = scores;
        came_from = insert_entry s.came_from to_id current;
        open_set = push (compare_by scores) to_id s.open_set;
      }

  -- The heuristic score, which nothing reads, evaluates `nodes.at(link.toId)`.
  unfoldable pub relax : PointGraph → ℕ → Search → Link → Call Search
  relax g current s l = do
    base ← score_at s.g_scores current
    let tentative = base +ℤ l.cost
    if is_better tentative (find_entry s.g_scores l.to_id)
        then (node_at g l.to_id >>= λ n. returns (discover current l.to_id tentative s))
        else returns s

  unfoldable pub relax_all : PointGraph → ℕ → List Link → Search → Call Search
  relax_all g current [] s = returns s
  relax_all g current (l ∷ links) s = relax g current s l >>= λ t. relax_all g current links t

  abbrev pub expanded : Call Search → Round
  expanded (returns s) = again s
  expanded (throws e) = finished (thrown e)

  abbrev pub expand : PointGraph → ℕ → Search → Round
  expand g current s = expanded (node_at g current >>= λ n. relax_all g current n.links s)

  -- The body of the `while` loop for the top of the queue.
  abbrev pub take_top : PointGraph → ℕ → Search → ℕ → Round
  take_top g goal s current =
      let popped = record s { open_set = pop (compare_by s.g_scores) s.open_set } in
      if current == goal
      then finished (
          reconstructed
            (reconstruct_path (suc (length s.came_from)) s.came_from current (current ∷ [])))
      else if contains s.has_visited current
      then again popped
      else expand g current (record popped { has_visited = current ∷ s.has_visited })

  unfoldable pub round : PointGraph → ℕ → Search → Round
  round g goal s = elim s.open_set [
    | [] ↦ finished nil
    | current ∷ rest ↦ take_top g goal s current
  ]

  unfoldable pub rounds : PointGraph → ℕ → ℕ → Search → Found
  rounds g goal zero s = ran_out
  rounds g goal (suc fuel) s = elim (round g goal s) [
    | finished found ↦ found
    | again t ↦ rounds g goal fuel t
  ]

  abbrev pub initial : ℕ → Search
  initial start = record {
    g_scores = (start, pos 0) ∷ [];
    came_from = [];
    open_set = push (compare_by ((start, pos 0) ∷ [])) start [];
    has_visited = [];
  }

  abbrev pub round_limit : PointGraph → ℕ
  round_limit g = suc (suc (count_links g.nodes))

  unfoldable pub find_shortest_path : PointGraph → ℕ → ℕ → Found
  find_shortest_path g start goal = elim (node_at g goal) [
    | throws e ↦ thrown e
    | returns goal_node ↦ elim (node_at g start) [
      | throws e ↦ thrown e
      | returns start_node ↦ rounds g goal (round_limit g) (initial start)
    ]
  ]
