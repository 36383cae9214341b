-- ===== src/PointGraph/Search/Loop.antt =====
-- RosaServer/pointgraph.cpp: the rounds of the search, when no link has a negative cost.
use rosa_server.Base.{
  ℕ, zero, suc, ◌≤◌, ◌<◌, ◌≡◌, refl, sym, ap, subst, ◌∙◌, ◌⊎◌, none, some, List, [], ◌∷◌, length,
  arith, get_elem?, ◌==◌, ==_self, Bool-cases, inl, inr, Error,
}
use rosa_server.Base.Int.{pos, neg_part}
use rosa_server.PointGraph.{Node, PointGraph}
use rosa_server.PointGraph.Search.{
  Search, Compare, compare_by, Found, path, thrown, nil, Round, finished, again, round, rounds,
  initial, round_limit, find_shortest_path,
}
use rosa_server.PointGraph.Search.Paths.{IsPath, IsTraced, first, none≢some}
use rosa_server.PointGraph.Search.States.{IsQueue, find_entry-cons, true≢false}
use rosa_server.PointGraph.Search.Work.{rest_links-none, index_cases, IsFit}
use rosa_server.PointGraph.Search.Ready.{IsReady, work}
use rosa_server.PointGraph.Search.Rounds.{Ends, round-Ends, with_path, without_path, goes_on}

-- What is to be returned.
pub data Answers (g : PointGraph) (start goal : ℕ) : Found → Type 0 where
  is_path : {p : List ℕ} → IsPath g start goal p → Answers g start goal (path p)
  no_path : ((p : List ℕ) → ¬ IsPath g start goal p) → Answers g start goal nil

module _ (push : Compare → ℕ → List ℕ → List ℕ) (pop : Compare → List ℕ → List ℕ)
    (laws : IsQueue push pop) (g : PointGraph) (fit : IsFit g) (start goal : ℕ)
    (start_in : start < length g.nodes) where
  Answers-round :
      (fuel : ℕ)
      → ((t : Search)
          → (IsReady push pop laws g fit start goal start_in) t
          → (work push pop laws g fit start goal start_in) t < fuel
          → Answers g start goal (rounds push pop g goal fuel t))
      → (s : Search) (o : Round) → (Ends push pop laws g fit start goal start_in) s o
      → (work push pop laws g fit start goal start_in) s < suc fuel
      → Answers g start goal (elim o as (λ _. Found) [
        | finished found ↦ found
        | again t ↦ rounds push pop g goal fuel t
      ])
  Answers-round fuel ih s _ (with_path t) few = is_path t
  Answers-round fuel ih s _ (without_path n) few = no_path n
  Answers-round fuel ih s _ (goes_on {t = t} r less) few = ih t r (omega arith)

  Answers-rounds :
      (fuel : ℕ) (s : Search)
      → (IsReady push pop laws g fit start goal start_in) s
      → (work push pop laws g fit start goal start_in) s < fuel
      → Answers g start goal (rounds push pop g goal fuel s)
  unfolding rounds
  Answers-rounds zero s r few = absurd (omega arith)
  Answers-rounds (suc fuel) s r few =
      Answers-round fuel (Answers-rounds fuel) s (round push pop g goal s)
        ((round-Ends push pop laws g fit start goal start_in) s r) few

  IsReady-initial : (IsReady push pop laws g fit start goal start_in) (initial push pop start)
  IsReady-initial = record {
    search = record {
      start_scored = rw (==_self start) refl;
      score_known = λ v d e. elim (find_entry-cons [] start v (pos 0) d e) [
        | inl (same, value) ↦ (
          ap neg_part (sym value),
          (
            start ∷ [],
            subst (λ x. IsTraced g start [] x (start ∷ [])) same (first refl),
            omega arith,
          ),
        )
        | inr (other, old) ↦ absurd (none≢some old)
      ];
      unscored = λ v e. refl;
      waiting_scored = λ v e. elim (Bool-cases (start == v)) [
        | inl same ↦ (pos 0, rw same refl)
        | inr other ↦ absurd (
            true≢false (
              sym e
              ∙ laws.contains_push (compare_by ((start, pos 0) ∷ [])) start [] v
              ∙ rw other refl))
      ];
      pending = λ v h. elim (Bool-cases (start == v)) [
        | inl same ↦
            inl (laws.contains_push (compare_by ((start, pos 0) ∷ [])) start [] v ∙ rw same refl)
        | inr other ↦ absurd (none≢some (sym (rw other refl) ∙ h.1))
      ];
    };
    closed = λ u v e. absurd (true≢false (sym e));
    goal_open = refl;
  }

module _ (push : Compare → ℕ → List ℕ → List ℕ) (pop : Compare → List ℕ → List ℕ) (g : PointGraph)
    (start goal : ℕ) where
  find_shortest_path-runs :
      (m n : Node)
      → get_elem? g.nodes start ≡ some m
      → get_elem? g.nodes goal ≡ some n
      → find_shortest_path push pop g start goal
        ≡ rounds push pop g goal (round_limit push pop g) (initial push pop start)
  unfolding find_shortest_path
  find_shortest_path-runs m n e f = rw (f, find_shortest_path) (rw (e, find_shortest_path) refl)

  find_shortest_path-no_goal :
      get_elem? g.nodes goal ≡ none
      → find_shortest_path push pop g start goal ≡ thrown Error.vector_at
  unfolding find_shortest_path
  find_shortest_path-no_goal f = rw (f, find_shortest_path) refl

  find_shortest_path-no_start :
      (n : Node)
      → get_elem? g.nodes goal ≡ some n
      → get_elem? g.nodes start ≡ none
      → find_shortest_path push pop g start goal ≡ thrown Error.vector_at
  unfolding find_shortest_path
  find_shortest_path-no_start n f e = rw (f, find_shortest_path) (rw (e, find_shortest_path) refl)

-- In a graph whose links lead to its nodes at costs that are not negative, whatever queue meets what
-- is documented: from a node of the graph, the search ends; it returns a path of the graph from the
-- start to the goal, or nil, and nil only if there is no such path. If the start or the goal is no
-- node of the graph, it throws.
pub find_shortest_path-Answers :
    (push : Compare → ℕ → List ℕ → List ℕ) (pop : Compare → List ℕ → List ℕ)
    → IsQueue push pop
    → (g : PointGraph) → IsFit g
    → (start goal : ℕ)
    → ((start < length g.nodes)
        × (goal < length g.nodes)
        × Answers g start goal (find_shortest_path push pop g start goal))
      ⊎ (((length g.nodes ≤ start) ⊎ (length g.nodes ≤ goal))
          × (find_shortest_path push pop g start goal ≡ thrown Error.vector_at))
find_shortest_path-Answers push pop laws g fit start goal = elim (index_cases g.nodes goal) [
  | inr (no_goal, far) ↦ inr (inr far, find_shortest_path-no_goal push pop g start goal no_goal)
  | inl (goal_node, goal_there, goal_in) ↦ elim (index_cases g.nodes start) [
    | inr (no_start, far) ↦
        inr
          (inl far, find_shortest_path-no_start push pop g start goal goal_node goal_there no_start)
    | inl (start_node, start_there, start_in) ↦
        let first_open = compare_by ((start, pos 0) ∷ []) in
        let one = laws.length_push first_open start [] in
        let enough = rest_links-none g.nodes 0 in
        inl (
          start_in,
          goal_in,
          subst (Answers g start goal)
              (sym (
                find_shortest_path-runs push pop g start goal start_node goal_node start_there
                  goal_there))
              (Answers-rounds push pop laws g fit start goal start_in (round_limit push pop g)
                (initial push pop start) (IsReady-initial push pop laws g fit start goal start_in)
                (omega (arith, one, enough))),
        )
  ]
]
