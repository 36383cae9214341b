-- ===== src/PointGraph/Search/Ready.antt =====
-- RosaServer/pointgraph.cpp: a state between two rounds of the search, when no link has a negative
-- cost.
use rosa_server.Base.{
  ℕ, suc, ◌+◌, ◌<◌, ◌≡◌, refl, sym, ap, subst, ◌∙◌, true, false, List, [], ◌∷◌, length, arith, map,
  ◌==◌, ==→eq, ==_self, Bool-cases, inl, inr, returns, ◌>>=◌,
}
use rosa_server.PointGraph.{Link, PointGraph}
use rosa_server.PointGraph.Search.{Search, Compare, compare_by, contains, relax_all}
use rosa_server.PointGraph.Search.Paths.{Linked, IsPath, alone, onward}
use rosa_server.PointGraph.Search.States.{IsQueue, Fit, HasScore, IsSearch, true≢false}
use rosa_server.PointGraph.Search.Relax.{relax-Steps, Steps}
use rosa_server.PointGraph.Search.Work.{rest_links, Linked-lt, node_there, IsFit}

module _ (push : Compare → ℕ → List ℕ → List ℕ) (pop : Compare → List ℕ → List ℕ)
    (laws : IsQueue push pop) (g : PointGraph) (fit : IsFit g) (start goal : ℕ)
    (start_in : start < length g.nodes) where
  abbrev Moves : Search → Search → ℕ → Type 0
  Moves = Steps push pop laws g start

  Moves-trans : (s t u : Search) (m n k : ℕ) → m + n ≡ k → Moves s t m → Moves t u n → Moves s u k
  Moves-trans s t u m n k sum (v, grows, visited, few) (v', grows', visited', few') =
      (v', λ w d e. grows' w d (grows w d e), visited' ∙ visited, omega arith)

  -- The loop over the links of a node ends, nothing is thrown, and their targets have scores.
  pub relax_all-Steps :
      (current : ℕ) (links : List Link) (s : Search)
      → IsSearch g start s
      → HasScore s current
      → Fit (length g.nodes) links
      → ((v : ℕ) → contains (map (λ l. l.to_id) links) v ≡ true → Linked g current v)
      → (t : Search) × (relax_all push pop g current links s ≡ returns t)
        × Moves s t (length links)
        × ((v : ℕ) → contains (map (λ l. l.to_id) links) v ≡ true → HasScore t v)
  unfolding relax_all
  relax_all-Steps current [] s v h f linked =
      (s, refl, (v, λ w d e. e, refl, omega arith), λ w e. absurd (true≢false (sym e)))
  relax_all-Steps current (l ∷ links) s v h (in_range, nonneg, f) linked =
      let (n, there) = node_there g.nodes l.to_id in_range in
      let (t, run, moves, scored) =
        relax-Steps push pop laws g start current s l n v h there nonneg
          (linked l.to_id (rw (==_self l.to_id) refl)) in
      let (u, runs, moves', scored') =
        relax_all-Steps current links t moves.0 (h.0, moves.1 current h.0 h.1) f
          (λ w e. linked w (elim (Bool-cases (l.to_id == w)) [
            | inl same ↦ rw same refl
            | inr other ↦ rw other e
          ])) in
      (
        u,
        ap (λ c. c >>= λ x. relax_all push pop g current links x) run ∙ runs,
        Moves-trans s t u 1 (length links) (suc (length links)) (omega arith) moves moves',
        λ w e. elim (Bool-cases (l.to_id == w)) [
          | inl same ↦
              subst (HasScore u) (==→eq l.to_id w same)
                (scored.0, moves'.1 l.to_id scored.0 scored.1)
          | inr other ↦ scored' w (sym (rw other refl) ∙ e)
        ],
      )

  -- Between two rounds: the targets of the links of visited nodes have scores, and the goal has not
  -- been visited.
  pub record IsReady (s : Search) : Type 0 where
    pub search : IsSearch g start s
    pub closed : (u v : ℕ) → contains s.has_visited u ≡ true → Linked g u v → HasScore s v
    pub goal_open : contains s.has_visited goal ≡ false

  abbrev pub work : Search → ℕ
  work s = length s.open_set + rest_links g.nodes 0 s.has_visited

  -- The search that goes on once the top of the queue is taken off and marked.
  abbrev popped : Search → Search
  popped s = record s { open_set = pop (compare_by s.g_scores) s.open_set }

  abbrev pub marked : Search → ℕ → Search
  marked s current = record (popped s) { has_visited = current ∷ s.has_visited }

  contains-pop :
      (s : Search) (current : ℕ) (rest : List ℕ) (v : ℕ)
      → s.open_set ≡ current ∷ rest
      → contains (popped s).open_set v ≡ contains rest v
  contains-pop s current rest v e =
      ap (λ q. contains (pop (compare_by s.g_scores) q) v) e
      ∙ laws.contains_pop (compare_by s.g_scores) current rest v

  pub length-pop :
      (s : Search) (current : ℕ) (rest : List ℕ)
      → s.open_set ≡ current ∷ rest
      → length (popped s).open_set ≡ length rest
  length-pop s current rest e =
      ap (λ q. length (pop (compare_by s.g_scores) q)) e
      ∙ laws.length_pop (compare_by s.g_scores) current rest

  contains-rest :
      (s : Search) (current : ℕ) (rest : List ℕ) (v : ℕ)
      → s.open_set ≡ current ∷ rest
      → contains rest v ≡ true
      → contains s.open_set v ≡ true
  contains-rest s current rest v e c = ap (λ q. contains q v) e ∙ ground (arith, c)

  pub IsSearch-marked :
      (s : Search) (current : ℕ) (rest : List ℕ)
      → s.open_set ≡ current ∷ rest
      → IsSearch g start s
      → IsSearch g start (marked s current)
  IsSearch-marked s current rest e v = record {
    start_scored = v.start_scored;
    score_known = v.score_known;
    unscored = v.unscored;
    waiting_scored = λ w c.
        v.waiting_scored w
          (contains-rest s current rest w e (sym (contains-pop s current rest w e) ∙ c));
    pending = λ w h. elim (Bool-cases (current == w)) [
      | inl same ↦ inr (rw same refl)
      | inr other ↦ elim (v.pending w h) [
        | inl waiting ↦ inl (
            contains-pop s current rest w e
            ∙ sym (rw other refl)
            ∙ sym (ap (λ q. contains q w) e)
            ∙ waiting)
        | inr visited ↦ inr (rw other visited)
      ]
    ];
  }

  pub IsSearch-popped :
      (s : Search) (current : ℕ) (rest : List ℕ)
      → s.open_set ≡ current ∷ rest
      → contains s.has_visited current ≡ true
      → IsSearch g start s
      → IsSearch g start (popped s)
  IsSearch-popped s current rest e twice v = record {
    start_scored = v.start_scored;
    score_known = v.score_known;
    unscored = v.unscored;
    waiting_scored = λ w c.
        v.waiting_scored w
          (contains-rest s current rest w e (sym (contains-pop s current rest w e) ∙ c));
    pending = λ w h. elim (Bool-cases (current == w)) [
      | inl same ↦ inr (ap (contains s.has_visited) (sym (==→eq current w same)) ∙ twice)
      | inr other ↦ elim (v.pending w h) [
        | inl waiting ↦ inl (
            contains-pop s current rest w e
            ∙ sym (rw other refl)
            ∙ sym (ap (λ q. contains q w) e)
            ∙ waiting)
        | inr visited ↦ inr visited
      ]
    ];
  }

  pub IsPath-lt : {v : ℕ} {p : List ℕ} → IsPath g start v p → v < length g.nodes
  IsPath-lt alone = start_in
  IsPath-lt (onward {u = u} {v = v} t (n, there, linked) q) =
      Linked-lt (length g.nodes) n.links v (fit u n there) linked
