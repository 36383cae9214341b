-- ===== src/PointGraph/Search/Tests.antt =====
-- RosaServer/pointgraph.cpp: `findShortestPath` with a queue that is kept in order.
use rosa_server.Base.{
  ℕ, suc, ◌≤◌, ◌<◌, ◌≡◌, refl, subst, zero, ◌⊎◌, true, some, List, [], ◌∷◌, length, arith, ◌==◌,
  if◌then◌else◌, get_elem?, Error,
}
use rosa_server.Base.Int.{pos, ◌+ℤ◌}
use rosa_server.PointGraph.{Link, Node, PointGraph}
use rosa_server.PointGraph.Search.{
  Search, Compare, contains, path, thrown, find_shortest_path, rounds, round, relax, relax_all,
  discover, reconstruct_path, initial, again,
}
use rosa_server.PointGraph.Search.States.{IsQueue, Fit, value-eq}
use rosa_server.PointGraph.Search.Paths.{none≢some}
use rosa_server.PointGraph.Search.Work.{IsFit}
use rosa_server.PointGraph.Search.Loop.{Answers, find_shortest_path-Answers}
use rosa_server.PointGraph.Search.Final.{Keeps, now, then_round, first_scores_final}

-- Puts x in front of the first element that it is not worse than.
abbrev push : Compare → ℕ → List ℕ → List ℕ
push worse x [] = x ∷ []
push worse x (y ∷ q) = let rest = push worse x q in if worse x y then y ∷ rest else x ∷ y ∷ q

abbrev pop : Compare → List ℕ → List ℕ
pop worse [] = []
pop worse (x ∷ q) = q

length-push : (o : Compare) (x : ℕ) (q : List ℕ) → length (push o x q) ≡ suc (length q)
length-push o x [] = refl
length-push o x (y ∷ q) = ground (arith, length-push o x q)

contains-push :
    (o : Compare) (x : ℕ) (q : List ℕ) (v : ℕ)
    → contains (push o x q) v ≡ (if x == v then true else contains q v)
contains-push o x [] v = refl
contains-push o x (y ∷ q) v = ground (arith, contains-push o x q v)

laws : IsQueue push pop
laws = record {
  length_push = length-push;
  contains_push = contains-push;
  length_pop = λ o x q. refl;
  contains_pop = λ o x q v. refl;
}

abbrev node : List Link → Node
node links = record { point = record { x = pos 0; y = pos 0; z = pos 0 }; links = links }

abbrev link : ℕ → ℕ → Link
link to_id cost = record { to_id = to_id; cost = pos cost }

-- The way from 0 to 3 over 1 costs 11, that over 2 and 1 costs 3.
abbrev square : PointGraph
square = record {
  nodes =
      node (link 1 10 ∷ link 2 1 ∷ []) ∷ node (link 3 1 ∷ []) ∷ node (link 1 1 ∷ []) ∷ node [] ∷ [];
  node_id_by_point = [];
}

find_shortest_path-dearer : find_shortest_path push pop square 0 3 ≡ path (0 ∷ 1 ∷ 3 ∷ [])
unfolding find_shortest_path rounds round relax relax_all discover reconstruct_path ◌+ℤ◌
find_shortest_path-dearer = refl

abbrev AllFit : ℕ → List Node → Type 0
AllFit size [] = Unit {0}
AllFit size (n ∷ nodes) = Fit size n.links × AllFit size nodes

Fit-each :
    (size : ℕ) (nodes : List Node)
    → AllFit size nodes
    → (u : ℕ) (n : Node) → get_elem? nodes u ≡ some n
    → Fit size n.links
Fit-each size [] f u n e = absurd (none≢some e)
Fit-each size (m ∷ nodes) (f, fs) zero n e = subst (λ k. Fit size k.links) (value-eq e) f
Fit-each size (m ∷ nodes) (f, fs) (suc u) n e = Fit-each size nodes fs u n e

square-IsFit : IsFit square
square-IsFit = Fit-each 4 square.nodes (omega arith)

find_shortest_path-Answers_example :
    ((0 < 4) × (3 < 4) × Answers square 0 3 (find_shortest_path push pop square 0 3))
    ⊎ (((4 ≤ 0) ⊎ (4 ≤ 3)) × (find_shortest_path push pop square 0 3 ≡ thrown Error.vector_at))
find_shortest_path-Answers_example =
    find_shortest_path-Answers push pop laws square square-IsFit 0 3

abbrev after_start : Search
after_start = record {
  g_scores = (2, pos 1) ∷ (1, pos 10) ∷ (0, pos 0) ∷ [];
  came_from = (2, 0) ∷ (1, 0) ∷ [];
  open_set = 2 ∷ 1 ∷ [];
  has_visited = 0 ∷ [];
}

round-start : round push pop square 3 (initial push pop 0) ≡ again after_start
unfolding round relax relax_all discover ◌+ℤ◌
round-start = refl

first_scores_final_example : Keeps (initial push pop 0) after_start
first_scores_final_example = first_scores_final push pop square 3 (then_round now round-start)
