-- ===== src/PointGraph/Search/Work.antt =====
-- RosaServer/pointgraph.cpp: the links that a search has yet to follow, and graphs that it is for.
use rosa_server.Base.{
  ℕ, zero, suc, ◌+◌, ◌≤◌, ◌<◌, ◌≡◌, refl, sym, ap, subst, ◌∙◌, ◌⊎◌, true, false, none, some, List,
  [], ◌∷◌, length, arith, map, get_elem?, ◌==◌, ==→eq, Bool-cases, inl, inr, if◌then◌else◌, returns,
}
use rosa_server.PointGraph.{Link, Node, PointGraph, node_at}
use rosa_server.PointGraph.Search.{contains, count_links}
use rosa_server.PointGraph.Search.Paths.{Linked, targets, none≢some}
use rosa_server.PointGraph.Search.States.{Fit, value-eq, true≢false}

pub List-cases : (q : List ℕ) → (q ≡ []) ⊎ ((x : ℕ) × (rest : List ℕ) × (q ≡ x ∷ rest))
List-cases [] = inl refl
List-cases (x ∷ rest) = inr (x, rest, refl)

-- The links of the nodes from index i on that are not in a list.
abbrev pub rest_links : List Node → ℕ → List ℕ → ℕ
rest_links [] i visited = 0
rest_links (n ∷ nodes) i visited =
    (if contains visited i then 0 else length n.links) + rest_links nodes (suc i) visited

pub rest_links-none : (nodes : List Node) (i : ℕ) → rest_links nodes i [] ≡ count_links nodes
rest_links-none [] i = refl
rest_links-none (n ∷ nodes) i = ap (λ k. length n.links + k) (rest_links-none nodes (suc i))

pub rest_links-below :
    (nodes : List Node) (i k : ℕ) (visited : List ℕ)
    → k < i
    → rest_links nodes i (k ∷ visited) ≡ rest_links nodes i visited
rest_links-below [] i k visited l = refl
rest_links-below (n ∷ nodes) i k visited l =
    ground (arith, rest_links-below nodes (suc i) k visited (omega arith))

pub rest_links-visit :
    (nodes : List Node) (i j k : ℕ) (n : Node) (visited : List ℕ)
    → get_elem? nodes j ≡ some n
    → k ≡ i + j
    → contains visited k ≡ false
    → rest_links nodes i visited ≡ length n.links + rest_links nodes i (k ∷ visited)
rest_links-visit [] i j k n visited e s c = absurd (none≢some e)
rest_links-visit (m ∷ nodes) i zero k n visited e s c =
    let here : k ≡ i = omega arith in
    let size : length m.links ≡ length n.links = ap (λ o. length o.links) (value-eq e) in
    ground
      (arith, rest_links-below nodes (suc i) k visited (omega arith), ap (contains visited) here)
rest_links-visit (m ∷ nodes) i (suc j) k n visited e s c =
    let later : i < k = omega arith in
    ground (arith, rest_links-visit nodes (suc i) j k n visited e (omega arith) c)

pub Linked-lt :
    (size : ℕ) (links : List Link) (v : ℕ)
    → Fit size links
    → contains (map (λ l. l.to_id) links) v ≡ true
    → (v < size)
Linked-lt size [] v f e = absurd (true≢false (sym e))
Linked-lt size (l ∷ links) v (in_range, nonneg, fit) e = elim (Bool-cases (l.to_id == v)) [
  | inl same ↦ subst (λ x. x < size) (==→eq l.to_id v same) in_range
  | inr other ↦ Linked-lt size links v fit (sym (rw other refl) ∙ e)
]

pub node_there :
    (nodes : List Node) (i : ℕ) → i < length nodes → (n : Node) × (get_elem? nodes i ≡ some n)
node_there [] i l = absurd (omega arith)
node_there (n ∷ nodes) zero l = (n, refl)
node_there (n ∷ nodes) (suc i) l = node_there nodes i (omega arith)

pub index_cases :
    (nodes : List Node) (i : ℕ)
    → ((n : Node) × (get_elem? nodes i ≡ some n) × (i < length nodes))
      ⊎ ((get_elem? nodes i ≡ none) × (length nodes ≤ i))
index_cases [] i = inr (refl, omega arith)
index_cases (n ∷ nodes) zero = inl (n, refl, omega arith)
index_cases (n ∷ nodes) (suc i) = elim (index_cases nodes i) [
  | inl (m, there, l) ↦ inl (m, there, omega arith)
  | inr (missing, l) ↦ inr (missing, omega arith)
]

pub node_at-found :
    (g : PointGraph) (i : ℕ) (n : Node) → get_elem? g.nodes i ≡ some n → node_at g i ≡ returns n
node_at-found g i n e = rw (e, node_at) refl

pub targets_of :
    (g : PointGraph) (u : ℕ) (n : Node) (v : ℕ)
    → get_elem? g.nodes u ≡ some n
    → Linked g u v
    → contains (targets n) v ≡ true
targets_of g u n v there (m, there', c) =
    subst (λ k. contains (targets k) v ≡ true) (value-eq (sym there' ∙ there)) c

-- A graph whose links lead to its nodes, at costs that are not negative.
abbrev pub IsFit : PointGraph → Type 0
IsFit g = (u : ℕ) (n : Node) → get_elem? g.nodes u ≡ some n → Fit (length g.nodes) n.links
