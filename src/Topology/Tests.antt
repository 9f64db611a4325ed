-- ===== src/Topology/Tests.antt =====
-- A small graph, and the theorems at it.
use k8s_sentinel.Base.{
  Text, lit, ◌===◌, trim, lower, member, starts_with, includes, true, false, List, [], ◌∷◌, map,
  All, none, ◌≡◌, refl,
}
use k8s_sentinel.Topology.{
  Kind, pod, external, TopologyNode, TopologyEdge, View, ids, ends, filtered_edges, visible_nodes,
}
use k8s_sentinel.Topology.Asked.{IsAsked}
use k8s_sentinel.Topology.Closed.{Joins, visible_nodes-Joins}
use k8s_sentinel.Topology.Layout.{AllApart, layout_nodes, layout_nodes-AllApart}

abbrev node_of : Text → Text → Kind → TopologyNode
node_of id ns kind = record {
  id = id;
  label = id;
  pod_name = id;
  namespace = ns;
  kind = kind;
  ip = none;
  via_node = none;
  exposures = [];
  quarantined = false;
  ext_inbound = false;
}

abbrev edge_of : Text → Text → Text → TopologyEdge
edge_of id source target = record {
  id = id;
  source = source;
  target = target;
  count = 1;
  blocked = false;
  health_probe = false;
  l7_type = none;
}

abbrev nodes : List TopologyNode
nodes =
    node_of (lit "web") (lit "shop") pod
    ∷ node_of (lit "dns") (lit "kube-system") pod
    ∷ node_of (lit "lone") (lit "shop") pod
    ∷ node_of (lit "ext:1") [] external
    ∷ []

abbrev edges : List TopologyEdge
edges = edge_of (lit "a") (lit "ext:1") (lit "web") ∷ edge_of (lit "b") (lit "web") (lit "dns") ∷ []

abbrev view : View
view = record {
  ns_filter = [];
  pod_search = [];
  hide_system = true;
  hide_probes = false;
  exposed_only = false;
}

drawn : ids (visible_nodes view nodes edges) ≡ lit "web" ∷ lit "ext:1" ∷ []
unfolding visible_nodes lit ◌===◌ member trim lower starts_with includes
drawn = refl

edges-Joins : All (Joins (ids nodes)) edges
unfolding lit ◌===◌ member
edges-Joins = ((refl, refl), ((refl, refl), tt))

visible_nodes-Joins_example :
    All (Joins (ids (visible_nodes view nodes edges))) (filtered_edges view nodes edges)
    × All (IsAsked view nodes) (filtered_edges view nodes edges)
    × ((j : Text)
        → member j (ids (visible_nodes view nodes edges)) ≡ true
        → member j (ends (filtered_edges view nodes edges)) ≡ true)
visible_nodes-Joins_example = visible_nodes-Joins view nodes edges edges-Joins

layout_nodes-AllApart_example :
    (map (λ p. p.id) (layout_nodes nodes) ≡ map (λ n. n.id) nodes) × AllApart (layout_nodes nodes)
layout_nodes-AllApart_example = layout_nodes-AllApart nodes
