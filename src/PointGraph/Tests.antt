-- ===== src/PointGraph/Tests.antt =====
-- RosaServer/pointgraph.cpp: a graph with a point that two nodes have.
use rosa_server.Base.{ℕ, ◌≤◌, ◌≡◌, refl, some, returns, arith}
use rosa_server.Base.Int.{pos, negsuc}
use rosa_server.PointGraph.{
  NodePoint, PointGraph, empty_graph, add_node, get_node_by_point, get_node_point,
}
use rosa_server.PointGraph.Index.{Built, empty, added, get_node_by_point-lowest}

abbrev corner : NodePoint
corner = record { x = pos 1; y = negsuc 1; z = pos 0 }

abbrev middle : NodePoint
middle = record { x = pos 5; y = pos 5; z = pos 5 }

abbrev three : PointGraph
three = add_node (add_node (add_node empty_graph corner) middle) corner

three-Built : Built three
unfolding add_node
three-Built =
    added corner (added middle (added corner empty (omega arith)) (omega arith)) (omega arith)

get_node_by_point-third : get_node_by_point three corner ≡ some 0
unfolding get_node_by_point add_node
get_node_by_point-third = refl

third : get_node_point three 2 ≡ returns corner
unfolding get_node_point add_node
third = refl

get_node_by_point-lowest_example :
    (j : ℕ) × (get_node_by_point three corner ≡ some j)
    × (j ≤ 2)
    × (get_node_point three j ≡ returns corner)
get_node_by_point-lowest_example = (get_node_by_point-lowest three three-Built).1 2 corner third
