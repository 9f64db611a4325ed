-- ===== src/Topology/Closed.antt =====
-- pages/NetworkTopologyPage.tsx: the graph that is drawn has no dangling edge and no lone node.
use k8s_sentinel.Base.{
  Text, ◌===◌, ===_iff, ===_refl, member, member-append, filter, map, if◌then◌else◌, ◌&&◌, not,
  Bool, true, false, Bool-cases, List, [], ◌∷◌, ◌++◌, All, All-map, and-eq_true, ◌≡◌, refl, inl,
  inr, arith, ap, ap₂, subst, ◌∙◌, sym,
}
use k8s_sentinel.Topology.Asked.{IsAsked, primary-IsAsked}
use k8s_sentinel.Topology.{
  TopologyNode, TopologyEdge, View, ids, ends, scoped_nodes, scoped_edges, filtered_edges,
  ext_inbound_targets, mark, visible_nodes, is_visible_edge, is_pod, system,
}

All-filter {ℓ κ} :
    {A : Type ℓ} (P : A → Type κ) (p : A → Bool) (xs : List A)
    → All P xs
    → All (λ x. P x × (p x ≡ true)) (filter p xs)
All-filter P p [] h = tt
All-filter P p (x ∷ xs) (h, hs) = elim (Bool-cases (p x)) [
  | inl kept ↦ rw kept ((h, kept), All-filter P p xs hs)
  | inr gone ↦ rw gone (All-filter P p xs hs)
]

-- Both ends of an edge are nodes of a list.
abbrev pub Joins : List Text → TopologyEdge → Type 0
Joins ns e = (member e.source ns ≡ true) × (member e.target ns ≡ true)

-- A test of the id alone.
member-ids-filter :
    (t : Text → Bool) (j : Text) (ns : List TopologyNode)
    → member j (ids (filter (λ n. t n.id) ns)) ≡ (member j (ids ns) && t j)
unfolding member
member-ids-filter t j [] = refl
member-ids-filter t j (n ∷ ns) = elim (Bool-cases (n.id === j)) [
  | inl same ↦
      let e = ap t ((===_iff n.id j).0 same) in ground (arith, member-ids-filter t j ns, e, same)
  | inr other ↦ ground (arith, member-ids-filter t j ns, other)
]

id-mark : (targets : List Text) (n : TopologyNode) → (mark targets n).id ≡ n.id
unfolding mark
id-mark targets n = elim (Bool-cases (is_pod n.kind)) [
  | inl p ↦ rw p refl
  | inr other ↦ rw other refl
]

ids-mark : (targets : List Text) (ns : List TopologyNode) → ids (map (mark targets) ns) ≡ ids ns
unfolding mark
ids-mark targets [] = refl
ids-mark targets (n ∷ ns) = ap₂ ◌∷◌ (id-mark targets n) (ids-mark targets ns)

scoped-Joins :
    (hidden : Bool) (ns ns' : List Text) (edges : List TopologyEdge)
    → (hidden ≡ false → ns ≡ ns')
    → All (Joins ns) edges
    → All
        (Joins ns')
        (if hidden then filter (λ e. member e.source ns' && member e.target ns') edges else edges)
scoped-Joins true ns ns' edges same h =
    All-map (λ e q. and-eq_true (member e.source ns') (member e.target ns') q.1) _
      (All-filter (Joins ns) _ edges h)
scoped-Joins false ns ns' edges same h = subst (λ l. All (Joins l) edges) (same refl) h

scoped_nodes-shown :
    (v : View) (nodes : List TopologyNode)
    → (v.hide_system && not (member system v.ns_filter)) ≡ false
    → scoped_nodes v nodes ≡ nodes
unfolding scoped_nodes
scoped_nodes-shown v nodes h = rw h refl

scoped_edges-Joins :
    (v : View) (nodes : List TopologyNode) (edges : List TopologyEdge)
    → All (Joins (ids nodes)) edges
    → All (Joins (ids (scoped_nodes v nodes))) (scoped_edges v nodes edges)
unfolding scoped_edges
scoped_edges-Joins v nodes edges h =
    scoped-Joins (v.hide_system && not (member system v.ns_filter)) (ids nodes)
      (ids (scoped_nodes v nodes)) (filter (is_visible_edge v) edges)
      (λ shown. ap ids (sym (scoped_nodes-shown v nodes shown)))
      (All-map (λ e q. q.0) _ (All-filter (Joins (ids nodes)) (is_visible_edge v) edges h))

member-skip :
    (k : Text) (before xs : List Text) → member k xs ≡ true → member k (before ++ xs) ≡ true
member-skip k before xs h = member-append k before xs ∙ ground (arith, h)

Joins-skip :
    (before : List Text) (ns : List Text) (e : TopologyEdge) → Joins ns e → Joins (before ++ ns) e
Joins-skip before ns e (s, t) = (member-skip e.source before ns s, member-skip e.target before ns t)

first_end : (e : TopologyEdge) (ns : List Text) → Joins (e.source ∷ e.target ∷ ns) e
unfolding member
first_end e ns = ground (arith, ===_refl e.source, ===_refl e.target)

-- An edge of a list joins two ends of the list.
ends-Joins : (es : List TopologyEdge) → All (Joins (ends es)) es
ends-Joins [] = tt
ends-Joins (e ∷ es) = (
  first_end e (ends es),
  All-map (λ f h. Joins-skip (e.source ∷ e.target ∷ []) (ends es) f h) es (ends-Joins es),
)

both-Joins :
    (ns ms : List Text) (es : List TopologyEdge)
    → All (Joins ns) es
    → All (Joins ms) es
    → All (λ e. Joins ns e × Joins ms e) es
both-Joins ns ms [] h k = tt
both-Joins ns ms (e ∷ es) (h, hs) (k, ks) = ((h, k), both-Joins ns ms es hs ks)

-- A drawn node is a scoped node that an edge ends at.
member-visible_nodes :
    (v : View) (nodes : List TopologyNode) (edges : List TopologyEdge) (j : Text)
    → member j (ids (visible_nodes v nodes edges))
      ≡ (member j (ids (scoped_nodes v nodes)) && member j (ends (filtered_edges v nodes edges)))
unfolding visible_nodes
member-visible_nodes v nodes edges j =
    ap (member j) (ids-mark (ext_inbound_targets (filtered_edges v nodes edges)) _)
    ∙ member-ids-filter (λ k. member k (ends (filtered_edges v nodes edges))) j
        (scoped_nodes v nodes)

filtered_edges-Joins :
    (v : View) (nodes : List TopologyNode) (edges : List TopologyEdge)
    → All (Joins (ids nodes)) edges
    → All (Joins (ids (scoped_nodes v nodes))) (filtered_edges v nodes edges)
unfolding filtered_edges
filtered_edges-Joins v nodes edges h =
    All-map (λ e q. q.0) _
      (All-filter (Joins (ids (scoped_nodes v nodes))) _ (scoped_edges v nodes edges)
        (scoped_edges-Joins v nodes edges h))

filtered_edges-IsAsked :
    (v : View) (nodes : List TopologyNode) (edges : List TopologyEdge)
    → All (IsAsked v nodes) (filtered_edges v nodes edges)
unfolding filtered_edges
filtered_edges-IsAsked v nodes edges =
    All-map (λ e q. primary-IsAsked v nodes e q.1) _
      (All-filter (λ e. Unit {0}) _ (scoped_edges v nodes edges)
        (All-trivial (scoped_edges v nodes edges)))
  where
    All-trivial : (es : List TopologyEdge) → All (λ e. Unit {0}) es
    All-trivial [] = tt
    All-trivial (e ∷ es) = (tt, All-trivial es)

-- Where the edges of the answer join nodes of the answer, every edge that is drawn, whatever the
-- filters, joins two nodes that are drawn and ends at a pod that the filters ask for: by its namespace, its
-- exposure, its name or label, and not being of the system. Every node that is drawn is an end of a
-- drawn edge.
pub visible_nodes-Joins :
    (v : View) (nodes : List TopologyNode) (edges : List TopologyEdge)
    → All (Joins (ids nodes)) edges
    → All (Joins (ids (visible_nodes v nodes edges))) (filtered_edges v nodes edges)
      × All (IsAsked v nodes) (filtered_edges v nodes edges)
      × ((j : Text)
          → member j (ids (visible_nodes v nodes edges)) ≡ true
          → member j (ends (filtered_edges v nodes edges)) ≡ true)
visible_nodes-Joins v nodes edges h = (
  All-map (λ e (n, m). (drawn (e.source) (n.0) (m.0), drawn (e.target) (n.1) (m.1)))
      (filtered_edges v nodes edges)
      (both-Joins (ids (scoped_nodes v nodes)) (ends (filtered_edges v nodes edges))
        (filtered_edges v nodes edges) (filtered_edges-Joins v nodes edges h)
        (ends-Joins (filtered_edges v nodes edges))),
  filtered_edges-IsAsked v nodes edges,
  λ j m. (and-eq_true _ _ (sym (member-visible_nodes v nodes edges j) ∙ m)).1,
)
  where
    drawn :
        (j : Text)
        → member j (ids (scoped_nodes v nodes)) ≡ true
        → member j (ends (filtered_edges v nodes edges)) ≡ true
        → member j (ids (visible_nodes v nodes edges)) ≡ true
    drawn j n m = member-visible_nodes v nodes edges j ∙ rw (n, m) refl
