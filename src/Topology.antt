-- ===== src/Topology.antt =====
-- pages/NetworkTopologyPage.tsx: which nodes and edges of the graph the page draws, by its filters, and
-- the columns and colours that it gives them.
pub mod Asked
pub mod Closed
pub mod Layout
mod Tests
use k8s_sentinel.Base.{
  Text, lit, ◌===◌, trim, lower, includes, starts_with, member, is_empty, any, filter, flat_map,
  map, if◌then◌else◌, ◌&&◌, ◌||◌, not, Bool, true, false, List, [], ◌∷◌, Option, none, some, ℕ, ◌+◌,
  ◌*◌,
}

pub data Kind : Type 0 where
  pod external node linklocal : Kind

abbrev pub is_pod : Kind → Bool
is_pod pod = true
is_pod _ = false

pub record Exposure : Type 0 where
  pub type_name : Text
  pub address : Text
  pub detail : Option Text

pub record TopologyNode : Type 0 where
  pub id : Text
  pub label : Text
  pub pod_name : Text
  pub namespace : Text
  pub kind : Kind
  pub ip : Option Text
  pub via_node : Option Text
  pub exposures : List Exposure
  pub quarantined : Bool
  pub ext_inbound : Bool

pub record TopologyEdge : Type 0 where
  pub id : Text
  pub source : Text
  pub target : Text
  pub count : ℕ
  pub blocked : Bool
  pub health_probe : Bool
  pub l7_type : Option Text

-- The filters of the page.
pub record View : Type 0 where
  pub ns_filter : List Text
  pub pod_search : Text
  pub hide_system : Bool
  pub hide_probes : Bool
  pub exposed_only : Bool

abbrev pub ids : List TopologyNode → List Text
ids = map (λ n. n.id)

unfoldable pub is_visible_edge : View → TopologyEdge → Bool
is_visible_edge v e = not v.hide_probes || not e.health_probe

abbrev pub system : Text
system = lit "kube-system"

-- `effectiveHide`
unfoldable pub hides : View → Bool
unfolding member
hides v = v.hide_system && not (member system v.ns_filter)

unfoldable pub scoped_nodes : View → List TopologyNode → List TopologyNode
unfolding hides
scoped_nodes v nodes = if hides v then filter (λ n. not (n.namespace === system)) nodes else nodes

unfoldable pub scoped_edges : View → List TopologyNode → List TopologyEdge → List TopologyEdge
unfolding is_visible_edge scoped_nodes
scoped_edges v nodes edges =
    if hides v
    then filter
        (λ e.
          member e.source (ids (scoped_nodes v nodes))
          && member e.target (ids (scoped_nodes v nodes)))
        (filter (is_visible_edge v) edges)
    else filter (is_visible_edge v) edges

-- `podQ`
unfoldable pub pod_query : View → Text
unfolding trim lower
pod_query v = lower (trim v.pod_search)

unfoldable pub is_primary : View → TopologyNode → Bool
unfolding pod_query includes member lower
is_primary v n =
    is_pod n.kind
    && (is_empty v.ns_filter || member n.namespace v.ns_filter)
    && (not v.exposed_only || not (is_empty n.exposures))
    && (is_empty (pod_query v)
        || includes (lower n.pod_name) (pod_query v)
        || includes (lower n.label) (pod_query v))

unfoldable pub has_no_filter : View → Bool
unfolding pod_query
has_no_filter v = is_empty v.ns_filter && is_empty (pod_query v) && not v.exposed_only

unfoldable pub primary_ids : View → List TopologyNode → List Text
unfolding is_primary has_no_filter scoped_nodes
primary_ids v nodes =
    if has_no_filter v
    then ids (filter (λ n. is_pod n.kind) (scoped_nodes v nodes))
    else ids (filter (is_primary v) (scoped_nodes v nodes))

unfoldable pub filtered_edges : View → List TopologyNode → List TopologyEdge → List TopologyEdge
unfolding scoped_edges primary_ids
filtered_edges v nodes edges =
    filter (λ e. member e.source (primary_ids v nodes) || member e.target (primary_ids v nodes))
      (scoped_edges v nodes edges)

abbrev pub ends : List TopologyEdge → List Text
ends = flat_map (λ e. e.source ∷ e.target ∷ [])

-- The pods that receive traffic from outside that was let through.
unfoldable pub ext_inbound_targets : List TopologyEdge → List Text
unfolding starts_with
ext_inbound_targets edges =
    map (λ e. e.target) (filter (λ e. starts_with e.source (lit "ext:") && not e.blocked) edges)

unfoldable pub mark : List Text → TopologyNode → TopologyNode
unfolding member
mark targets n = if is_pod n.kind then record n { ext_inbound = member n.id targets } else n

unfoldable pub visible_nodes : View → List TopologyNode → List TopologyEdge → List TopologyNode
unfolding filtered_edges ext_inbound_targets mark
visible_nodes v nodes edges =
    map (mark (ext_inbound_targets (filtered_edges v nodes edges)))
      (filter (λ n. member n.id (ends (filtered_edges v nodes edges))) (scoped_nodes v nodes))

-- The selection that is kept: the node if it is still drawn.
unfoldable pub keep_node : List TopologyNode → Option Text → Option Text
unfolding member
keep_node visible none = none
keep_node visible (some id) = if member id (ids visible) then some id else none
