-- ===== src/PointGraph/Search/Final.antt =====
-- RosaServer/pointgraph.cpp: what `insert` does in `findShortestPath`, whatever the costs.
use rosa_server.Base.{
  ℕ, ◌≡◌, refl, sym, ap, subst, ◌∙◌, Bool, true, false, some, List, [], ◌∷◌, ◌==◌, Option-cases,
  inl, inr, if◌then◌else◌, find_entry, insert_entry, Call, returns, throws, ◌>>=◌,
}
use rosa_server.Base.Int.{ℤ, ◌+ℤ◌}
use rosa_server.PointGraph.{Link, PointGraph, node_at}
use rosa_server.PointGraph.Search.{
  Search, Compare, compare_by, Found, contains, score_at, is_better, discover, relax, relax_all,
  Round, finished, again, round, take_top, expanded,
}
use rosa_server.PointGraph.Search.Paths.{find_entry-ne, key-ne}

-- Scores and predecessors that there are stay.
pub record Keeps (s t : Search) : Type 0 where
  pub scores : (v : ℕ) (d : ℤ) → find_entry s.g_scores v ≡ some d → find_entry t.g_scores v ≡ some d
  pub entries : (v u : ℕ) → find_entry s.came_from v ≡ some u → find_entry t.came_from v ≡ some u

Keeps-refl : (s : Search) → Keeps s s
Keeps-refl s = record { scores = λ v d e. e; entries = λ v u e. e }

Keeps-trans : {s t u : Search} → Keeps s t → Keeps t u → Keeps s u
Keeps-trans k l = record {
  scores = λ v d e. l.scores v d (k.scores v d e);
  entries = λ v x e. l.entries v x (k.entries v x e);
}

insert_entry-Keeps :
    {A : Type 0} (m : List (ℕ × A)) (k : ℕ) (a : A) (v : ℕ) (d : A)
    → find_entry m v ≡ some d
    → find_entry (insert_entry m k a) v ≡ some d
insert_entry-Keeps m k a v d e = elim (Option-cases (find_entry m k)) [
  | inl new ↦ rw (new, insert_entry) (find_entry-ne m k v a (key-ne m k v d new e) ∙ e)
  | inr (w, old) ↦ rw (old, insert_entry) e
]

abbrev CallKeeps : Search → Call Search → Type 0
CallKeeps s (returns t) = Keeps s t
CallKeeps s (throws e) = Unit {0}

-- What a round leaves for the next one.
abbrev RoundKeeps : Search → Round → Type 0
RoundKeeps s (again t) = Keeps s t
RoundKeeps s (finished found) = Unit {0}

bind-Keeps :
    {A : Type 0} (s : Search) (c : Call A) (f : A → Call Search)
    → ((a : A) → CallKeeps s (f a))
    → CallKeeps s (c >>= f)
bind-Keeps s (returns a) f h = h a
bind-Keeps s (throws e) f h = tt

Keeps-Call : (s t : Search) (c : Call Search) → Keeps s t → CallKeeps t c → CallKeeps s c
Keeps-Call s t (returns u) k l = Keeps-trans k l
Keeps-Call s t (throws e) k l = tt

next-Keeps :
    (s : Search) (c : Call Search) (f : Search → Call Search)
    → CallKeeps s c
    → ((t : Search) → CallKeeps t (f t))
    → CallKeeps s (c >>= f)
next-Keeps s (returns t) f k h = Keeps-Call s t (f t) k (h t)
next-Keeps s (throws e) f k h = tt

if-Keeps :
    (s : Search) (b : Bool) (x y : Call Search)
    → CallKeeps s x
    → CallKeeps s y
    → CallKeeps s (if b then x else y)
if-Keeps s true x y h k = h
if-Keeps s false x y h k = k

module _ (push : Compare → ℕ → List ℕ → List ℕ) (pop : Compare → List ℕ → List ℕ)
    (g : PointGraph) where
  discover-Keeps :
      (current to_id : ℕ) (d : ℤ) (s : Search) → Keeps s (discover push pop current to_id d s)
  unfolding discover
  discover-Keeps current to_id d s = record {
    scores = λ v c e. insert_entry-Keeps s.g_scores to_id d v c e;
    entries = λ v u e. insert_entry-Keeps s.came_from to_id current v u e;
  }

  relax-Keeps : (current : ℕ) (s : Search) (l : Link) → CallKeeps s (relax push pop g current s l)
  unfolding relax
  relax-Keeps current s l = bind-Keeps s (score_at s.g_scores current) _ (λ base.
      if-Keeps s (is_better (base +ℤ l.cost) (find_entry s.g_scores l.to_id)) _ (returns s)
        (bind-Keeps s (node_at g l.to_id) _
          (λ n. discover-Keeps current l.to_id (base +ℤ l.cost) s))
        (Keeps-refl s))

  relax_all-Keeps :
      (current : ℕ) (links : List Link) (s : Search)
      → CallKeeps s (relax_all push pop g current links s)
  unfolding relax_all
  relax_all-Keeps current [] s = Keeps-refl s
  relax_all-Keeps current (l ∷ links) s =
      next-Keeps s (relax push pop g current s l) _ (relax-Keeps current s l)
        (relax_all-Keeps current links)

  expanded-Keeps :
      (s : Search) (c : Call Search) → CallKeeps s c → RoundKeeps s (expanded push pop c)
  expanded-Keeps s (returns t) k = k
  expanded-Keeps s (throws e) k = tt

  if-RoundKeeps :
      (s : Search) (b : Bool) (x y : Round)
      → RoundKeeps s x
      → RoundKeeps s y
      → RoundKeeps s (if b then x else y)
  if-RoundKeeps s true x y h k = h
  if-RoundKeeps s false x y h k = k

  marked-Keeps : (s t : Search) → s.g_scores ≡ t.g_scores → s.came_from ≡ t.came_from → Keeps s t
  marked-Keeps s t e f = record {
    scores = λ v d h. ap (λ m. find_entry m v) (sym e) ∙ h;
    entries = λ v u h. ap (λ m. find_entry m v) (sym f) ∙ h;
  }

  take_top-Keeps :
      (goal : ℕ) (s : Search) (current : ℕ) → RoundKeeps s (take_top push pop g goal s current)
  take_top-Keeps goal s current =
      let popped = record s { open_set = pop (compare_by s.g_scores) s.open_set } in
      let marked = record popped { has_visited = current ∷ s.has_visited } in
      if-RoundKeeps s (current == goal) _ _ tt (
        if-RoundKeeps s (contains s.has_visited current) (again popped) _
          (marked-Keeps s popped refl refl)
          (expanded-Keeps s (node_at g current >>= λ n. relax_all push pop g current n.links marked)
            (bind-Keeps s (node_at g current) _ (λ n.
              Keeps-Call s marked (relax_all push pop g current n.links marked)
                (marked-Keeps s marked refl refl) (relax_all-Keeps current n.links marked)))))

  round-step :
      (goal : ℕ) (s : Search) (current : ℕ) (rest : List ℕ)
      → s.open_set ≡ current ∷ rest
      → round push pop g goal s ≡ take_top push pop g goal s current
  unfolding round
  round-step goal s current rest e =
      ap
        (λ q. elim q as (λ _. Round) [
          | [] ↦ finished Found.nil
          | x ∷ others ↦ take_top push pop g goal s x
        ])
        e

  round-Keeps :
      (goal : ℕ) (s : Search) (q : List ℕ) → s.open_set ≡ q → RoundKeeps s (round push pop g goal s)
  unfolding round
  round-Keeps goal s [] e = rw (e, round) tt
  round-Keeps goal s (current ∷ rest) e =
      subst (RoundKeeps s) (sym (round-step goal s current rest e)) (take_top-Keeps goal s current)

  -- The states that rounds lead to from s.
  pub data Later (goal : ℕ) (s : Search) : Search → Type 0 where
    now : Later goal s s
    then_round :
        {t u : Search} → Later goal s t → round push pop g goal t ≡ again u → Later goal s u

-- Whatever the costs of the links, and however the queue orders them: the score and the predecessor
-- that a node got first stay to the end of the search, also when a cheaper path to it is found.
pub first_scores_final :
    (push : Compare → ℕ → List ℕ → List ℕ) (pop : Compare → List ℕ → List ℕ) (g : PointGraph)
    (goal : ℕ) {s t : Search}
    → Later push pop g goal s t
    → Keeps s t
first_scores_final push pop g goal {s = s} now = Keeps-refl s
first_scores_final push pop g goal {s = s} (then_round {t = t} {u = u} later e) =
    Keeps-trans (first_scores_final push pop g goal later)
      (subst (RoundKeeps t) e (round-Keeps push pop g goal t t.open_set refl))
