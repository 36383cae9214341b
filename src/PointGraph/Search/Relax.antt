-- ===== src/PointGraph/Search/Relax.antt =====
-- RosaServer/pointgraph.cpp: what the loop over the links keeps, when no link has a negative cost.
use rosa_server.Base.{
  ℕ, suc, ◌+◌, ◌≤◌, ◌≡◌, refl, sym, ap, subst, ◌∙◌, ◌⊎◌, true, false, none, some, List, [], ◌∷◌,
  ◌++◌, length, length-append, arith, get_elem?, ◌==◌, ==→eq, ==_self, Bool-cases, Option-cases,
  inl, inr, find_entry, insert_entry, returns,
}
use rosa_server.Base.Int.{ℤ, pos, neg_part, ◌+ℤ◌, ltb_ℤ}
use rosa_server.PointGraph.{Link, Node, PointGraph}
use rosa_server.PointGraph.Search.{
  Search, Compare, compare_by, contains, is_better, discover, relax,
}
use rosa_server.PointGraph.Search.Paths.{
  Linked, IsTraced, IsTraced-cons, after, find_entry-ne, key-ne, none≢some,
}
use rosa_server.PointGraph.Search.States.{
  IsQueue, HasScore, IsSearch, Grows, find_entry_self, sum_nonneg, not_better, value-eq, found-same,
  true≢false, find_entry-cons, came_from_known,
}

module _ (push : Compare → ℕ → List ℕ → List ℕ) (pop : Compare → List ℕ → List ℕ)
    (laws : IsQueue push pop) (g : PointGraph) (start : ℕ) where
  contains-push_old :
      (o : Compare) (x : ℕ) (q : List ℕ) (y : ℕ)
      → contains q y ≡ true
      → contains (push o x q) y ≡ true
  contains-push_old o x q y e = laws.contains_push o x q y ∙ ground (arith, e)

  contains-push_self : (o : Compare) (x : ℕ) (q : List ℕ) → contains (push o x q) x ≡ true
  contains-push_self o x q = laws.contains_push o x q x ∙ rw (==_self x) refl

  contains-push_inv :
      (o : Compare) (x : ℕ) (q : List ℕ) (y : ℕ)
      → contains (push o x q) y ≡ true
      → (x ≡ y) ⊎ (contains q y ≡ true)
  contains-push_inv o x q y e = elim (Bool-cases (x == y)) [
    | inl same ↦ inl (==→eq x y same)
    | inr other ↦ inr (sym (rw other refl) ∙ sym (laws.contains_push o x q y) ∙ e)
  ]

  -- The search with a node that had no score.
  abbrev with_node : Compare → ℕ → ℕ → ℤ → Search → Search
  with_node o current to_id t s = record s {
    g_scores = (to_id, t) ∷ s.g_scores;
    came_from = (to_id, current) ∷ s.came_from;
    open_set = push o to_id s.open_set;
  }

  IsSearch-with_node :
      (o : Compare) (current to_id : ℕ) (t : ℤ) (s : Search)
      → IsSearch g start s
      → HasScore s current
      → find_entry s.g_scores to_id ≡ none
      → neg_part t ≡ 0
      → Linked g current to_id
      → IsSearch g start (with_node o current to_id t s)
  IsSearch-with_node o current to_id t s v (base, scored) new nonneg link =
      let apart = key-ne s.g_scores to_id start (pos 0) new v.start_scored in
      let no_entry = v.unscored to_id new in
      let (_, (p, traced, short)) = v.score_known current base scored in
      record {
        start_scored = find_entry-ne s.g_scores to_id start t apart ∙ v.start_scored;
        score_known = λ w d e. elim (find_entry-cons s.g_scores to_id w t d e) [
          | inl (same, value) ↦ (
            ap neg_part (sym value) ∙ nonneg,
            subst
                (λ x.
                  (q : List ℕ) × IsTraced g start ((to_id, current) ∷ s.came_from) x q
                  × (length q ≤ suc (suc (length s.came_from))))
                same
                (
                  p ++ to_id ∷ [],
                  after (IsTraced-cons to_id current no_entry apart traced)
                      (find_entry_self s.came_from to_id current) link refl,
                  omega (arith, length-append p (to_id ∷ [])),
                ),
          )
          | inr (other, old) ↦
              let (sign, (q, traced_q, short_q)) = v.score_known w d old in
              (sign, (q, IsTraced-cons to_id current no_entry apart traced_q, omega arith))
        ];
        unscored = λ w e. elim (Bool-cases (to_id == w)) [
          | inl same ↦ absurd (none≢some (sym e ∙ found-same s.g_scores to_id w t same))
          | inr other ↦
              find_entry-ne s.came_from to_id w current other
              ∙ v.unscored w (sym (find_entry-ne s.g_scores to_id w t other) ∙ e)
        ];
        waiting_scored = λ w e. elim (contains-push_inv o to_id s.open_set w e) [
          | inl same ↦ (
            t,
            ap (find_entry ((to_id, t) ∷ s.g_scores)) (sym same)
                ∙ find_entry_self s.g_scores to_id t,
          )
          | inr old ↦
              let (d, there) = v.waiting_scored w old in
              (
                d,
                find_entry-ne s.g_scores to_id w t (key-ne s.g_scores to_id w d new there) ∙ there,
              )
        ];
        pending = λ w h. elim (find_entry-cons s.g_scores to_id w t h.0 h.1) [
          | inl (same, value) ↦ inl (
              ap (contains (push o to_id s.open_set)) (sym same)
              ∙ contains-push_self o to_id s.open_set)
          | inr (other, old) ↦ elim (v.pending w (h.0, old)) [
            | inl waiting ↦ inl (contains-push_old o to_id s.open_set w waiting)
            | inr visited ↦ inr visited
          ]
        ];
      }

  -- The search in which a node that had a score is put into the queue once more.
  abbrev with_copy : Compare → ℕ → Search → Search
  with_copy o to_id s = record s { open_set = push o to_id s.open_set }

  IsSearch-with_copy :
      (o : Compare) (to_id : ℕ) (s : Search)
      → IsSearch g start s
      → HasScore s to_id
      → IsSearch g start (with_copy o to_id s)
  IsSearch-with_copy o to_id s v h = record {
    start_scored = v.start_scored;
    score_known = v.score_known;
    unscored = v.unscored;
    waiting_scored = λ w e. elim (contains-push_inv o to_id s.open_set w e) [
      | inl same ↦ subst (HasScore s) same h
      | inr old ↦ v.waiting_scored w old
    ];
    pending = λ w scored. elim (v.pending w scored) [
      | inl waiting ↦ inl (contains-push_old o to_id s.open_set w waiting)
      | inr visited ↦ inr visited
    ];
  }

  discover-new :
      (current to_id : ℕ) (t : ℤ) (s : Search)
      → find_entry s.g_scores to_id ≡ none
      → find_entry s.came_from to_id ≡ none
      → discover push pop current to_id t s
        ≡ with_node (compare_by ((to_id, t) ∷ s.g_scores)) current to_id t s
  unfolding discover
  discover-new current to_id t s e f = rw (e, insert_entry) (rw (f, insert_entry) refl)

  discover-copy :
      (current to_id : ℕ) (t d : ℤ) (u : ℕ) (s : Search)
      → find_entry s.g_scores to_id ≡ some d
      → find_entry s.came_from to_id ≡ some u
      → discover push pop current to_id t s ≡ with_copy (compare_by s.g_scores) to_id s
  unfolding discover
  discover-copy current to_id t d u s e f = rw (e, insert_entry) (rw (f, insert_entry) refl)

  -- What a part of the loop over the links of a node comes to.
  abbrev pub Steps : Search → Search → ℕ → Type 0
  Steps s t pushes =
      IsSearch g start t
      × Grows s t
      × (t.has_visited ≡ s.has_visited)
      × (length t.open_set ≤ pushes + length s.open_set)

  Steps-with_node :
      (o : Compare) (current to_id : ℕ) (t : ℤ) (s : Search)
      → IsSearch g start s
      → HasScore s current
      → find_entry s.g_scores to_id ≡ none
      → neg_part t ≡ 0
      → Linked g current to_id
      → Steps s (with_node o current to_id t s) 1
  Steps-with_node o current to_id t s v h new nonneg link = (
    IsSearch-with_node o current to_id t s v h new nonneg link,
    λ w d e. find_entry-ne s.g_scores to_id w t (key-ne s.g_scores to_id w d new e) ∙ e,
    refl,
    omega (arith, laws.length_push o to_id s.open_set),
  )

  Steps-with_copy :
      (o : Compare) (to_id : ℕ) (s : Search)
      → IsSearch g start s
      → HasScore s to_id
      → Steps s (with_copy o to_id s) 1
  Steps-with_copy o to_id s v h = (
    IsSearch-with_copy o to_id s v h,
    λ w d e. e,
    refl,
    omega (arith, laws.length_push o to_id s.open_set),
  )

  relax-better :
      (current : ℕ) (s : Search) (l : Link) (base : ℤ) (n : Node)
      → find_entry s.g_scores current ≡ some base
      → is_better (base +ℤ l.cost) (find_entry s.g_scores l.to_id) ≡ true
      → get_elem? g.nodes l.to_id ≡ some n
      → relax push pop g current s l
        ≡ returns (discover push pop current l.to_id (base +ℤ l.cost) s)
  unfolding relax
  relax-better current s l base n e b f = ground arith

  relax-worse :
      (current : ℕ) (s : Search) (l : Link) (base : ℤ)
      → find_entry s.g_scores current ≡ some base
      → is_better (base +ℤ l.cost) (find_entry s.g_scores l.to_id) ≡ false
      → relax push pop g current s l ≡ returns s
  unfolding relax
  relax-worse current s l base e b = ground arith

  -- A node whose score can be bettered is not the start, and so it has an entry.
  entry_of_better :
      (s : Search) (to_id : ℕ) (t d : ℤ)
      → IsSearch g start s
      → find_entry s.g_scores to_id ≡ some d
      → neg_part t ≡ 0
      → ltb_ℤ t d ≡ true
      → (u : ℕ) × (find_entry s.came_from to_id ≡ some u)
  entry_of_better s to_id t d v old sign better =
      elim (came_from_known (v.score_known to_id d old).1.1) [
        | inl at_start ↦
            let zero_score : d ≡ pos 0 =
              value-eq (sym old ∙ ap (find_entry s.g_scores) at_start ∙ v.start_scored) in
            absurd (true≢false (sym better ∙ ap (ltb_ℤ t) zero_score ∙ not_better t sign))
        | inr entry ↦ entry
      ]

  -- A link of a node with a score: nothing is thrown, and its target has a score afterwards.
  pub relax-Steps :
      (current : ℕ) (s : Search) (l : Link) (n : Node)
      → IsSearch g start s
      → HasScore s current
      → get_elem? g.nodes l.to_id ≡ some n
      → neg_part l.cost ≡ 0
      → Linked g current l.to_id
      → (t : Search) × (relax push pop g current s l ≡ returns t) × Steps s t 1 × HasScore t l.to_id
  relax-Steps current s l n v (base, scored) there nonneg link =
      let tentative = base +ℤ l.cost in
      let sign = sum_nonneg base l.cost (v.score_known current base scored).0 nonneg in
      elim (Option-cases (find_entry s.g_scores l.to_id)) [
        | inl new ↦
            let run = relax-better current s l base n scored (rw new refl) there in
            let made = discover-new current l.to_id tentative s new (v.unscored l.to_id new) in
            let o = compare_by ((l.to_id, tentative) ∷ s.g_scores) in
            (
              with_node o current l.to_id tentative s,
              run ∙ ap returns made,
              Steps-with_node o current l.to_id tentative s v (base, scored) new sign link,
              (tentative, find_entry_self s.g_scores l.to_id tentative),
            )
        | inr (d, old) ↦ elim (Bool-cases (ltb_ℤ tentative d)) [
          | inl better ↦
              let (u, entry) = entry_of_better s l.to_id tentative d v old sign better in
              let o = compare_by s.g_scores in
              (
                with_copy o l.to_id s,
                relax-better current s l base n scored (rw old better) there
                    ∙ ap returns (discover-copy current l.to_id tentative d u s old entry),
                Steps-with_copy o l.to_id s v (d, old),
                (d, old),
              )
          | inr worse ↦ (
            s,
            relax-worse current s l base scored (rw old worse),
            (v, λ w c e. e, refl, omega arith),
            (d, old),
          )
        ]
      ]
