-- ===== src/PointGraph/Search/States.antt =====
-- RosaServer/pointgraph.cpp: the states of a search when no link has a negative cost.
use rosa_server.Base.{
  ℕ, suc, ◌≤◌, ◌<◌, ◌≡◌, refl, sym, ◌∙◌, ◌≢◌, ◌⊎◌, true, false, none, some, List, [], ◌∷◌, length,
  arith, ◌==◌, ==→eq, ==_self, Bool-cases, inl, inr, if◌then◌else◌, find_entry, insert_entry,
}
use rosa_server.Base.Int.{ℤ, pos, neg_part, ◌+ℤ◌, ltb_ℤ}
use rosa_server.PointGraph.{Link, PointGraph}
use rosa_server.PointGraph.Search.{Search, Compare, contains}
use rosa_server.PointGraph.Search.Paths.{IsTraced, first, after, find_entry-ne}

-- What is documented of `std::push_heap` and `std::pop_heap`, each with its vector operation: they
-- reorder the elements, and `pop` takes off the one at the front.
pub record IsQueue (push : Compare → ℕ → List ℕ → List ℕ) (pop : Compare → List ℕ → List ℕ)
    : Type 0 where
  pub length_push : (o : Compare) (x : ℕ) (q : List ℕ) → length (push o x q) ≡ suc (length q)
  pub contains_push :
      (o : Compare) (x : ℕ) (q : List ℕ) (y : ℕ)
      → contains (push o x q) y ≡ (if x == y then true else contains q y)
  pub length_pop : (o : Compare) (x : ℕ) (q : List ℕ) → length (pop o (x ∷ q)) ≡ length q
  pub contains_pop :
      (o : Compare) (x : ℕ) (q : List ℕ) (y : ℕ) → contains (pop o (x ∷ q)) y ≡ contains q y

-- Links to nodes of the graph, none with a negative cost.
abbrev pub Fit : ℕ → List Link → Type 0
Fit size [] = Unit {0}
Fit size (l ∷ links) = (l.to_id < size) × (neg_part l.cost ≡ 0) × Fit size links

abbrev pub HasScore : Search → ℕ → Type 0
HasScore s v = (d : ℤ) × (find_entry s.g_scores v ≡ some d)

-- Scores are not negative and belong to paths that `cameFrom` has; what has a score is waiting or
-- visited, and the start has the score 0.
pub record IsSearch (g : PointGraph) (start : ℕ) (s : Search) : Type 0 where
  pub start_scored : find_entry s.g_scores start ≡ some (pos 0)
  pub score_known :
      (v : ℕ) (d : ℤ)
      → find_entry s.g_scores v ≡ some d
      → (neg_part d ≡ 0)
        × ((p : List ℕ) × IsTraced g start s.came_from v p × (length p ≤ suc (length s.came_from)))
  pub unscored : (v : ℕ) → find_entry s.g_scores v ≡ none → find_entry s.came_from v ≡ none
  pub waiting_scored : (v : ℕ) → contains s.open_set v ≡ true → HasScore s v
  pub pending :
      (v : ℕ) → HasScore s v → (contains s.open_set v ≡ true) ⊎ (contains s.has_visited v ≡ true)

-- The scores that there are stay.
abbrev pub Grows : Search → Search → Type 0
Grows s t = (v : ℕ) (d : ℤ) → find_entry s.g_scores v ≡ some d → find_entry t.g_scores v ≡ some d

pub insert-new :
    {A : Type 0} (m : List (ℕ × A)) (k : ℕ) (v : A)
    → find_entry m k ≡ none
    → insert_entry m k v ≡ (k, v) ∷ m
insert-new m k v e = rw (e, insert_entry) refl

pub insert-old :
    {A : Type 0} (m : List (ℕ × A)) (k : ℕ) (v w : A)
    → find_entry m k ≡ some w
    → insert_entry m k v ≡ m
insert-old m k v w e = rw (e, insert_entry) refl

pub find_entry_self :
    {A : Type 0} (m : List (ℕ × A)) (k : ℕ) (v : A) → find_entry ((k, v) ∷ m) k ≡ some v
find_entry_self m k v = rw (==_self k) refl

pub sum_nonneg : (a b : ℤ) → neg_part a ≡ 0 → neg_part b ≡ 0 → neg_part (a +ℤ b) ≡ 0
unfolding ◌+ℤ◌
sum_nonneg a b p q = ground arith

-- No score is better than that of the start.
pub not_better : (t : ℤ) → neg_part t ≡ 0 → ltb_ℤ t (pos 0) ≡ false
not_better t p = ground arith

pub value-eq : {A : Type 0} {a d : A} → some a ≡ some d → a ≡ d
value-eq e = cc

pub found-same :
    {A : Type 0} (m : List (ℕ × A)) (k v : ℕ) (a : A)
    → (k == v) ≡ true
    → find_entry ((k, a) ∷ m) v ≡ some a
found-same m k v a e = rw e refl

pub true≢false : true ≢ false
true≢false e = cc

pub find_entry-cons :
    {A : Type 0} (m : List (ℕ × A)) (k v : ℕ) (a d : A)
    → find_entry ((k, a) ∷ m) v ≡ some d
    → ((k ≡ v) × (a ≡ d)) ⊎ (((k == v) ≡ false) × (find_entry m v ≡ some d))
find_entry-cons m k v a d e = elim (Bool-cases (k == v)) [
  | inl same ↦ inl (==→eq k v same, value-eq (sym (found-same m k v a same) ∙ e))
  | inr other ↦ inr (other, sym (find_entry-ne m k v a other) ∙ e)
]

pub came_from_known :
    {g : PointGraph} {start : ℕ} {came_from : List (ℕ × ℕ)} {v : ℕ} {p : List ℕ}
    → IsTraced g start came_from v p
    → (v ≡ start) ⊎ ((u : ℕ) × (find_entry came_from v ≡ some u))
came_from_known (first e) = inl refl
came_from_known (after {u = u} t e l q) = inr (u, e)
