-- ===== src/PointGraph/Search/Rounds.antt =====
-- RosaServer/pointgraph.cpp: what a round of the search comes to, when no link has a negative cost.
use mathlib.Core.List.{append-nil}
use rosa_server.Base.{
  ℕ, suc, ◌<◌, ◌≡◌, refl, sym, ap, subst, ◌∙◌, true, false, some, List, [], ◌∷◌, ◌++◌, length,
  arith, get_elem?, ◌==◌, ==→eq, ==_self, Bool-cases, inl, inr, returns, ◌>>=◌,
}
use rosa_server.Base.Int.{pos}
use rosa_server.PointGraph.{Node, PointGraph}
use rosa_server.PointGraph.Search.{
  Search, Compare, contains, relax_all, path, nil, Round, finished, again, round, take_top, expand,
  expanded, reconstruct_path, reconstructed,
}
use rosa_server.PointGraph.Search.Paths.{
  Linked, IsPath, alone, onward, IsTraced-IsPath, reconstruct_path-IsTraced,
}
use rosa_server.PointGraph.Search.States.{IsQueue, HasScore, true≢false}
use rosa_server.PointGraph.Search.Work.{
  List-cases, rest_links, rest_links-visit, node_there, node_at-found, targets_of, IsFit,
}
use rosa_server.PointGraph.Search.Ready.{
  relax_all-Steps, IsReady, work, marked, length-pop, IsSearch-marked, IsSearch-popped, IsPath-lt,
}

module _ (push : Compare → ℕ → List ℕ → List ℕ) (pop : Compare → List ℕ → List ℕ)
    (laws : IsQueue push pop) (g : PointGraph) (fit : IsFit g) (start goal : ℕ)
    (start_in : start < length g.nodes) where
  -- What a round comes to: a path to the goal, or nothing where there is none, or less (work push pop laws g fit start goal start_in).
  pub data Ends (s : Search) : Round → Type 0 where
    with_path : {p : List ℕ} → IsPath g start goal p → Ends s (finished (path p))
    without_path : ((p : List ℕ) → ¬ IsPath g start goal p) → Ends s (finished nil)
    goes_on :
        {t : Search}
        → (IsReady push pop laws g fit start goal start_in) t
        → (work push pop laws g fit start goal start_in) t
          < (work push pop laws g fit start goal start_in) s
        → Ends s (again t)

  visited_of_scored :
      (s : Search) (v : ℕ)
      → (IsReady push pop laws g fit start goal start_in) s
      → s.open_set ≡ []
      → HasScore s v
      → contains s.has_visited v ≡ true
  visited_of_scored s v r e h = elim (r.search.pending v h) [
    | inl waiting ↦ absurd (true≢false (sym waiting ∙ ap (λ q. contains q v) e))
    | inr visited ↦ visited
  ]

  expand-returns :
      (current : ℕ) (s : Search) (n : Node) (t : Search)
      → get_elem? g.nodes current ≡ some n
      → relax_all push pop g current n.links s ≡ returns t
      → expand push pop g current s ≡ again t
  expand-returns current s n t there runs = ap (expanded push pop) (
      ap (λ c. c >>= λ m. relax_all push pop g current m.links s) (node_at-found g current n there)
      ∙ runs)

  -- With an empty queue every node that a path leads to has been visited.
  visited_end :
      (s : Search)
      → (IsReady push pop laws g fit start goal start_in) s
      → s.open_set ≡ []
      → {v : ℕ} {p : List ℕ} → IsPath g start v p
      → contains s.has_visited v ≡ true
  visited_end s r e alone = visited_of_scored s start r e (pos 0, r.search.start_scored)
  visited_end s r e (onward {u = u} {v = v} t link q) =
      visited_of_scored s v r e (r.closed u v (visited_end s r e t) link)

  Ends-expand :
      (s : Search) (current : ℕ) (rest : List ℕ)
      → s.open_set ≡ current ∷ rest
      → (IsReady push pop laws g fit start goal start_in) s
      → (current == goal) ≡ false
      → contains s.has_visited current ≡ false
      → Ends s
          (expand push pop g current ((marked push pop laws g fit start goal start_in) s current))
  Ends-expand s current rest e r other new =
      let h =
        r.search.waiting_scored current
          (ap (λ q. contains q current) e ∙ rw (==_self current) refl) in
      let (_, (p, traced, _)) = r.search.score_known current h.0 h.1 in
      let (n, there) =
        node_there g.nodes current
          ((IsPath-lt push pop laws g fit start goal start_in) (IsTraced-IsPath traced)) in
      let (t, runs, (v, grows, visited, few), scored) =
        (relax_all-Steps push pop laws g fit start goal start_in) current n.links
          ((marked push pop laws g fit start goal start_in) s current)
          ((IsSearch-marked push pop laws g fit start goal start_in) s current rest e r.search) h
          (fit current n there) (λ w c. (n, there, c)) in
      subst (Ends s)
        (sym (
          expand-returns current ((marked push pop laws g fit start goal start_in) s current) n t
            there runs))
        (goes_on
          (record {
            search = v;
            closed = λ u w c link. elim (Bool-cases (current == u)) [
              | inl same ↦ scored w (
                  targets_of g current n w there
                    (subst (λ x. Linked g x w) (sym (==→eq current u same)) link))
              | inr apart ↦
                  let h' =
                    r.closed u w (sym (rw apart refl) ∙ ap (λ q. contains q u) (sym visited) ∙ c)
                      link in
                  (h'.0, grows w h'.0 h'.1)
            ];
            goal_open = ap (λ q. contains q goal) visited ∙ rw other r.goal_open;
          })
          (omega (
            arith,
            (length-pop push pop laws g fit start goal start_in) s current rest e,
            ap length e,
            ap (rest_links g.nodes 0) visited,
            rest_links-visit g.nodes 0 current current n s.has_visited there (omega arith) new,
          )))

  Ends-goal :
      (s : Search) (current : ℕ) (rest : List ℕ)
      → s.open_set ≡ current ∷ rest
      → (IsReady push pop laws g fit start goal start_in) s
      → current ≡ goal
      → Ends s (
          finished (
            reconstructed
              (reconstruct_path (suc (length s.came_from)) s.came_from current (current ∷ []))))
  Ends-goal s current rest e r same =
      let h =
        r.search.waiting_scored current
          (ap (λ q. contains q current) e ∙ rw (==_self current) refl) in
      let (_, (p, traced, short)) = r.search.score_known current h.0 h.1 in
      let found = reconstruct_path-IsTraced (suc (length s.came_from)) [] traced short in
      rw found (
        with_path (
          subst (λ v. IsPath g start v (p ++ [])) same
            (subst (IsPath g start current) (sym (append-nil p)) (IsTraced-IsPath traced))))

  Ends-take_top :
      (s : Search) (current : ℕ) (rest : List ℕ)
      → s.open_set ≡ current ∷ rest
      → (IsReady push pop laws g fit start goal start_in) s
      → Ends s (take_top push pop g goal s current)
  Ends-take_top s current rest e r = elim (Bool-cases (current == goal)) [
    | inl same ↦ rw same (Ends-goal s current rest e r (==→eq current goal same))
    | inr other ↦ rw other (elim (Bool-cases (contains s.has_visited current)) [
      | inl twice ↦ rw twice (
          goes_on
            (record {
              search =
                  (IsSearch-popped push pop laws g fit start goal start_in) s current rest e twice
                    r.search;
              closed = r.closed;
              goal_open = r.goal_open;
            })
            (omega (
              arith,
              (length-pop push pop laws g fit start goal start_in) s current rest e,
              ap length e,
            )))
      | inr new ↦ rw new (Ends-expand s current rest e r other new)
    ])
  ]

  round-top :
      (s : Search) (current : ℕ) (rest : List ℕ)
      → s.open_set ≡ current ∷ rest
      → round push pop g goal s ≡ take_top push pop g goal s current
  unfolding round
  round-top s current rest e =
      ap
        (λ q. elim q as (λ _. Round) [
          | [] ↦ finished nil
          | x ∷ others ↦ take_top push pop g goal s x
        ])
        e

  -- Every round of a search ends in one of these ways.
  pub round-Ends :
      (s : Search)
      → (IsReady push pop laws g fit start goal start_in) s
      → Ends s (round push pop g goal s)
  unfolding round
  round-Ends s r = elim (List-cases s.open_set) [
    | inl empty ↦
        rw (empty, round)
          (without_path (λ p t. true≢false (sym (visited_end s r empty t) ∙ r.goal_open)))
    | inr (current, rest, e) ↦
        subst (Ends s) (sym (round-top s current rest e)) (Ends-take_top s current rest e r)
  ]
