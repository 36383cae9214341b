-- ===== src/PointGraph/Index.antt =====
-- RosaServer/pointgraph.cpp: nodes by their index and by their point.
use rosa_server.Base.{
  ℕ, map, ◌≢◌, zero, suc, ◌%◌, ◌^◌, ◌≤◌, ◌<◌, ◌≡◌, refl, sym, ap, subst, ◌∙◌, inl, inr, true, false,
  Option, none, some, List, [], ◌∷◌, ◌++◌, length, get_elem?, set, arith, leb, Bool-cases,
  Option-cases, length-map, returns, throws, Error,
}
use rosa_server.Base.Int.{ℤ}
use rosa_server.PointGraph.{
  Link, NodePoint, Node, PointGraph, find_point, insert_point, empty_graph, add_node,
  get_node_point, with_link, add_link, get_node_by_point,
}
use rosa_server.PointGraph.Points.{
  IsIndexed, none≢some, IsIndexed-known, IsIndexed-new, below_length,
}

abbrev pub points_of : PointGraph → List NodePoint
points_of g = map (λ n. n.point) g.nodes

IsIndexed-insert_point :
    (points : List NodePoint) (entries : List (NodePoint × ℕ)) (p : NodePoint) (o : Option ℕ)
    → find_point entries p ≡ o
    → IsIndexed points entries
    → IsIndexed (points ++ p ∷ []) (insert_point entries p (length points))
IsIndexed-insert_point points entries p none e v = rw (e, insert_point) (IsIndexed-new p e v)
IsIndexed-insert_point points entries p (some j) e v =
    rw (e, insert_point) (IsIndexed-known p j e (below_length points j p (v.found p j e)) v)

node-injective : {m n : Node} → some m ≡ some n → m ≡ n
node-injective e = cc

-- The points of a graph do not change by a link.
map-set :
    (nodes : List Node) (i : ℕ) (n : Node) (l : Link)
    → get_elem? nodes i ≡ some n
    → map (λ m. m.point) (set nodes i (with_link n l)) ≡ map (λ m. m.point) nodes
map-set [] i n l e = refl
map-set (m ∷ nodes) zero n l e =
    ap (λ q. q ∷ map (λ m. m.point) nodes) (ap (λ o. o.point) (sym (node-injective e)))
map-set (m ∷ nodes) (suc i) n l e = ap (λ t. m.point ∷ t) (map-set nodes i n l e)

graph-injective : {g h : PointGraph} → returns g ≡ returns h → g ≡ h
graph-injective e = cc

throws≢returns : {e : Error} {g : PointGraph} → throws e ≢ returns g
throws≢returns e = cc

add_link-missing :
    (g : PointGraph) (from_id to_id : ℕ) (cost : ℤ)
    → get_elem? g.nodes from_id ≡ none
    → add_link g from_id to_id cost ≡ throws Error.vector_at
unfolding add_link
add_link-missing g from_id to_id cost e = ground arith

add_link-past :
    (g : PointGraph) (from_id to_id : ℕ) (cost : ℤ) (n : Node)
    → get_elem? g.nodes from_id ≡ some n
    → leb (length g.nodes) to_id ≡ true
    → add_link g from_id to_id cost ≡ throws Error.bad_link
unfolding add_link
add_link-past g from_id to_id cost n e l = ground arith

abbrev pub linked_graph : PointGraph → ℕ → Node → Link → PointGraph
linked_graph g i n l = record g { nodes = set g.nodes i (with_link n l) }

add_link-fits :
    (g : PointGraph) (from_id to_id : ℕ) (cost : ℤ) (n : Node)
    → get_elem? g.nodes from_id ≡ some n
    → leb (length g.nodes) to_id ≡ false
    → add_link g from_id to_id cost
      ≡ returns (linked_graph g from_id n (record { to_id = to_id; cost = cost }))
unfolding add_link
add_link-fits g from_id to_id cost n e l = ground arith

-- A link leaves the points and their entries.
add_link-kept :
    (g h : PointGraph) (from_id to_id : ℕ) (cost : ℤ)
    → add_link g from_id to_id cost ≡ returns h
    → (points_of h ≡ points_of g) × (h.node_id_by_point ≡ g.node_id_by_point)
add_link-kept g h from_id to_id cost e = elim (Option-cases (get_elem? g.nodes from_id)) [
  | inl missing ↦ absurd (throws≢returns (sym (add_link-missing g from_id to_id cost missing) ∙ e))
  | inr (n, there) ↦ elim (Bool-cases (leb (length g.nodes) to_id)) [
    | inl past ↦ absurd (throws≢returns (sym (add_link-past g from_id to_id cost n there past) ∙ e))
    | inr fits ↦
        let l : Link = record { to_id = to_id; cost = cost } in
        let same : h ≡ linked_graph g from_id n l =
          graph-injective (sym e ∙ add_link-fits g from_id to_id cost n there fits) in
        (ap points_of same ∙ map-set g.nodes from_id n l there, ap (λ k. k.node_id_by_point) same)
  ]
]

map-snoc :
    (nodes : List Node) (n : Node)
    → map (λ m. m.point) (nodes ++ n ∷ []) ≡ map (λ m. m.point) nodes ++ n.point ∷ []
map-snoc [] n = refl
map-snoc (m ∷ nodes) n = ap (λ t. m.point ∷ t) (map-snoc nodes n)

length-points_of : (g : PointGraph) → length (points_of g) ≡ length g.nodes
length-points_of g = length-map (λ n. n.point) g.nodes

-- The graphs that calls of the methods make, with fewer nodes than an `unsigned int` can count.
pub data Built : PointGraph → Type 0 where
  empty : Built empty_graph
  added :
      {g : PointGraph} (p : NodePoint) → Built g → length g.nodes < 2 ^ 32 → Built (add_node g p)
  linked :
      {g h : PointGraph} (from_id to_id : ℕ) (cost : ℤ)
      → Built g
      → add_link g from_id to_id cost ≡ returns h
      → Built h

Built-IsIndexed : {g : PointGraph} → Built g → IsIndexed (points_of g) g.node_id_by_point
unfolding add_node
Built-IsIndexed empty = record {
  found = λ p i e. absurd (none≢some e);
  listed = λ i p e. absurd (none≢some e);
}
Built-IsIndexed (added {g = g} p b few) =
    let index : length (points_of g) ≡ length g.nodes % 2 ^ 32 =
      omega (arith, length-points_of g) in
    subst (λ k. IsIndexed (points_of (add_node g p)) (insert_point g.node_id_by_point p k)) index
      (subst (λ ps. IsIndexed ps (insert_point g.node_id_by_point p (length (points_of g))))
        (sym (map-snoc g.nodes (record { point = p; links = [] })))
        (IsIndexed-insert_point (points_of g) g.node_id_by_point p (find_point g.node_id_by_point p)
          refl (Built-IsIndexed b)))
Built-IsIndexed (linked {g = g} {h = h} from_id to_id cost b e) =
    let (points, entries) = add_link-kept g h from_id to_id cost e in
    subst (λ es. IsIndexed (points_of h) es) (sym entries)
      (subst (λ ps. IsIndexed ps g.node_id_by_point) (sym points) (Built-IsIndexed b))

node_of_point :
    (nodes : List Node) (i : ℕ) (p : NodePoint)
    → get_elem? (map (λ n. n.point) nodes) i ≡ some p
    → (n : Node) × (get_elem? nodes i ≡ some n) × (n.point ≡ p)
node_of_point [] i p e = absurd (none≢some e)
node_of_point (n ∷ nodes) zero p e = (n, refl, cc)
node_of_point (n ∷ nodes) (suc i) p e = node_of_point nodes i p e

point_of_node :
    (nodes : List Node) (i : ℕ) (n : Node)
    → get_elem? nodes i ≡ some n
    → get_elem? (map (λ m. m.point) nodes) i ≡ some n.point
point_of_node [] i n e = absurd (none≢some e)
point_of_node (m ∷ nodes) zero n e = ap (λ o. some o.point) (node-injective e)
point_of_node (m ∷ nodes) (suc i) n e = point_of_node nodes i n e

get_node_point-found :
    (g : PointGraph) (i : ℕ) (n : Node)
    → get_elem? g.nodes i ≡ some n
    → get_node_point g i ≡ returns n.point
unfolding get_node_point
get_node_point-found g i n e = ground arith

get_node_point-missing :
    (g : PointGraph) (i : ℕ)
    → get_elem? g.nodes i ≡ none
    → get_node_point g i ≡ throws Error.vector_at
unfolding get_node_point
get_node_point-missing g i e = ground arith

point-injective : {p q : NodePoint} → returns p ≡ returns q → p ≡ q
point-injective e = cc

point_not_thrown : {e : Error} {p : NodePoint} → throws e ≢ returns p
point_not_thrown e = cc

node_at-point :
    (g : PointGraph) (i : ℕ) (p : NodePoint)
    → get_elem? (points_of g) i ≡ some p
    → get_node_point g i ≡ returns p
node_at-point g i p e =
    let (n, there, same) = node_of_point g.nodes i p e in
    get_node_point-found g i n there ∙ ap returns same

point-node_at :
    (g : PointGraph) (i : ℕ) (p : NodePoint)
    → get_node_point g i ≡ returns p
    → get_elem? (points_of g) i ≡ some p
point-node_at g i p e = elim (Option-cases (get_elem? g.nodes i)) [
  | inl missing ↦ absurd (point_not_thrown (sym (get_node_point-missing g i missing) ∙ e))
  | inr (n, there) ↦
      point_of_node g.nodes i n there
      ∙ ap some (point-injective (sym (get_node_point-found g i n there) ∙ e))
]

-- In a graph made by the methods, with fewer than 2 ^ 32 nodes: the index found for a point is that
-- of a node with this point; and for the point of every node an index is found, which is that of the
-- node or of an earlier one with the same point.
pub get_node_by_point-lowest :
    (g : PointGraph)
    → Built g
    → ((p : NodePoint) (j : ℕ) → get_node_by_point g p ≡ some j → get_node_point g j ≡ returns p)
      × ((i : ℕ) (p : NodePoint)
          → get_node_point g i ≡ returns p
          → (j : ℕ) × (get_node_by_point g p ≡ some j) × (j ≤ i) × (get_node_point g j ≡ returns p))
unfolding get_node_by_point
get_node_by_point-lowest g b =
    let v = Built-IsIndexed b in
    (
      λ p j e. node_at-point g j p (v.found p j e),
      λ i p e.
          let (j, there, le) = v.listed i p (point-node_at g i p e) in
          (j, there, le, node_at-point g j p (v.found p j there)),
    )
