-- ===== src/PointGraph.antt =====
-- RosaServer/pointgraph.cpp and pointgraph.h: the nodes, links and points of the class `PointGraph`.
-- The hash map is an association list, in which `insert` leaves an entry that is there.
pub mod Points
pub mod Index
pub mod Search
mod Tests
use rosa_server.Base.{
  ℕ, ◌%◌, ◌^◌, Bool, true, false, ◌&&◌, Option, none, some, List, [], ◌∷◌, ◌++◌, length, get_elem?,
  set, leb, ◌==◌, if◌then◌else◌, Call, returns, throws, Error, ◌>>=◌, ◌>>◌, require, not,
}
use rosa_server.Base.Int.{ℤ, pos, negsuc}

pub record Link : Type 0 where
  pub to_id : ℕ
  pub cost : ℤ

pub record NodePoint : Type 0 where
  pub x : ℤ
  pub y : ℤ
  pub z : ℤ

pub record Node : Type 0 where
  pub point : NodePoint
  pub links : List Link

pub record PointGraph : Type 0 where
  pub nodes : List Node
  pub node_id_by_point : List (NodePoint × ℕ)

abbrev pub ints_equal : ℤ → ℤ → Bool
ints_equal (pos a) (pos b) = a == b
ints_equal (pos a) (negsuc b) = false
ints_equal (negsuc a) (pos b) = false
ints_equal (negsuc a) (negsuc b) = a == b

-- `NodePoint::operator==`
abbrev pub points_equal : NodePoint → NodePoint → Bool
points_equal p q = ints_equal p.x q.x && ints_equal p.y q.y && ints_equal p.z q.z

abbrev pub find_point : List (NodePoint × ℕ) → NodePoint → Option ℕ
find_point [] p = none
find_point ((q, i) ∷ entries) p = if points_equal q p then some i else find_point entries p

abbrev pub insert_point : List (NodePoint × ℕ) → NodePoint → ℕ → List (NodePoint × ℕ)
insert_point entries p i = elim (find_point entries p) [
  | none ↦ (p, i) ∷ entries
  | some j ↦ entries
]

abbrev pub empty_graph : PointGraph
empty_graph = record { nodes = []; node_id_by_point = [] }

abbrev pub get_size : PointGraph → ℕ
get_size g = length g.nodes

-- The index is converted to `unsigned int`.
unfoldable pub add_node : PointGraph → NodePoint → PointGraph
add_node g p = record {
  nodes = g.nodes ++ record { point = p; links = [] } ∷ [];
  node_id_by_point = insert_point g.node_id_by_point p (length g.nodes % 2 ^ 32);
}

-- `nodes.at(index)`
abbrev pub node_at : PointGraph → ℕ → Call Node
node_at g i = elim (get_elem? g.nodes i) [ none ↦ throws Error.vector_at | some n ↦ returns n ]

unfoldable pub get_node_point : PointGraph → ℕ → Call NodePoint
get_node_point g i = do n ← node_at g i; returns n.point

abbrev pub with_link : Node → Link → Node
with_link n l = record n { links = n.links ++ l ∷ [] }

unfoldable pub add_link : PointGraph → ℕ → ℕ → ℤ → Call PointGraph
add_link g from_id to_id cost = do
  n ← node_at g from_id
  require (not (leb (length g.nodes) to_id)) Error.bad_link
  returns (record g {
    nodes = set g.nodes from_id (with_link n (record { to_id = to_id; cost = cost }));
  })

unfoldable pub get_node_by_point : PointGraph → NodePoint → Option ℕ
get_node_by_point g p = find_point g.node_id_by_point p
