-- ===== src/Topology/Asked.antt =====
-- pages/NetworkTopologyPage.tsx: the pods that the filters ask for.
use k8s_sentinel.Base.{
  Text, ◌===◌, ===_iff, member, filter, if◌then◌else◌, ◌&&◌, ◌||◌, not, trim, lower, includes,
  is_empty, Bool, true, false, Bool-cases, List, [], ◌∷◌, and-eq_true, ◌≡◌, ◌⊎◌, refl, inl, inr,
  arith, subst,
}
use k8s_sentinel.Topology.{
  TopologyNode, TopologyEdge, View, ids, scoped_nodes, primary_ids, has_no_filter, is_primary,
  pod_query, hides, Kind, pod, external, node, linklocal, is_pod, system,
}

-- The filters ask for the pod: its namespace is one of the chosen ones, if some are; it is exposed, if
-- only exposed pods are shown; its name or label has the text that is searched for; and it is no pod of
-- the system, if these are hidden and their namespace is not chosen.
abbrev pub Wants : View → TopologyNode → Type 0
Wants v n =
    (n.kind ≡ pod)
    × ((v.ns_filter ≡ []) ⊎ (member n.namespace v.ns_filter ≡ true))
    × ((v.exposed_only ≡ false) ⊎ (is_empty n.exposures ≡ false))
    × ((lower (trim v.pod_search) ≡ [])
        ⊎ ((includes (lower n.pod_name) (lower (trim v.pod_search)) ≡ true)
            ⊎ (includes (lower n.label) (lower (trim v.pod_search)) ≡ true)))
    × ((v.hide_system ≡ false)
        ⊎ ((member system v.ns_filter ≡ true) ⊎ ((n.namespace === system) ≡ false)))

abbrev pub In : TopologyNode → List TopologyNode → Type 0
In n [] = ⊥
In n (x ∷ xs) = (x ≡ n) ⊎ In n xs

-- An edge has a pod that the filters ask for at one end.
abbrev pub IsAsked : View → List TopologyNode → TopologyEdge → Type 0
IsAsked v nodes e =
    (n : TopologyNode) × In n nodes × ((n.id ≡ e.source) ⊎ (n.id ≡ e.target)) × Wants v n

-- A node with that id that passes a test.
abbrev Found : (TopologyNode → Bool) → Text → List TopologyNode → Type 0
Found p j ns = (n : TopologyNode) × In n ns × (n.id ≡ j) × (p n ≡ true)

ids-filter-Found :
    (p : TopologyNode → Bool) (j : Text) (ns : List TopologyNode)
    → member j (ids (filter p ns)) ≡ true
    → Found p j ns
unfolding member
ids-filter-Found p j [] h = absurd (ground arith)
ids-filter-Found p j (x ∷ xs) h = elim (Bool-cases (p x)) [
  | inl kept ↦ elim (Bool-cases (x.id === j)) [
    | inl same ↦ (x, inl refl, (===_iff x.id j).0 same, kept)
    | inr other ↦ later (ids-filter-Found p j xs (ground (arith, kept, other)))
  ]
  | inr gone ↦ later (ids-filter-Found p j xs (ground (arith, gone)))
]
  where
    later : Found p j xs → Found p j (x ∷ xs)
    later (n, there, e, t) = (n, inr there, e, t)

In-filter :
    (p : TopologyNode → Bool) (n : TopologyNode) (ns : List TopologyNode)
    → In n (filter p ns)
    → In n ns × (p n ≡ true)
In-filter p n [] h = absurd h
In-filter p n (x ∷ xs) h = elim (Bool-cases (p x)) [
  | inl kept ↦ first (In-filter p n xs) kept (rw kept at h)
  | inr gone ↦ later (In-filter p n xs (rw gone at h))
]
  where
    later : In n xs × (p n ≡ true) → In n (x ∷ xs) × (p n ≡ true)
    later (there, t) = (inr there, t)

    first :
        (In n (filter p xs) → In n xs × (p n ≡ true))
        → p x ≡ true
        → In n (x ∷ filter p xs)
        → In n (x ∷ xs) × (p n ≡ true)
    first rest kept (inl e) = (inl e, subst (λ y. p y ≡ true) e kept)
    first rest kept (inr there) = later (rest there)

abbrev Unhidden : View → TopologyNode → Type 0
Unhidden v n =
    (v.hide_system ≡ false)
    ⊎ ((member system v.ns_filter ≡ true) ⊎ ((n.namespace === system) ≡ false))

In-scoped_nodes :
    (v : View) (n : TopologyNode) (nodes : List TopologyNode)
    → In n (scoped_nodes v nodes)
    → In n nodes × Unhidden v n
unfolding scoped_nodes hides
In-scoped_nodes v n nodes h = by (v.hide_system) (member system v.ns_filter) h
  where
    by :
        (b c : Bool)
        → In n (if b && not c then filter (λ n. not (n.namespace === system)) nodes else nodes)
        → In n nodes × ((b ≡ false) ⊎ ((c ≡ true) ⊎ ((n.namespace === system) ≡ false)))
    by false c h = (h, inl refl)
    by true true h = (h, inr (inl refl))
    by true false h =
        let (there, t) = In-filter (λ n. not (n.namespace === system)) n nodes h in
        (there, inr (inr (ground arith)))

is_pod-pod : (k : Kind) → is_pod k ≡ true → k ≡ pod
is_pod-pod pod h = refl
is_pod-pod external h = absurd (ground arith)
is_pod-pod node h = absurd (ground arith)
is_pod-pod linklocal h = absurd (ground arith)

is_empty-nil {ℓ} : {A : Type ℓ} (xs : List A) → is_empty xs ≡ true → xs ≡ []
is_empty-nil [] h = refl
is_empty-nil (x ∷ xs) h = absurd (ground arith)

either : (a b : Bool) → (a || b) ≡ true → (a ≡ true) ⊎ (b ≡ true)
either true b h = inl refl
either false b h = inr h

not-false : (b : Bool) → not b ≡ true → b ≡ false
not-false false h = refl
not-false true h = absurd (ground arith)

is_primary-Wants : (v : View) (n : TopologyNode) → is_primary v n ≡ true → Unhidden v n → Wants v n
unfolding is_primary pod_query
is_primary-Wants v n h u =
    let q = lower (trim v.pod_search) in
    let a = is_empty v.ns_filter || member n.namespace v.ns_filter in
    let b = not v.exposed_only || not (is_empty n.exposures) in
    let c = is_empty q || includes (lower n.pod_name) q || includes (lower n.label) q in
    let (s, t) = and-eq_true (is_pod n.kind && a && b) c h in
    let (r, exposed) = and-eq_true (is_pod n.kind && a) b s in
    let (kind, named) = and-eq_true (is_pod n.kind) a r in
    (
      is_pod-pod n.kind kind,
      elim (either _ _ named) [ inl e ↦ inl (is_empty-nil v.ns_filter e) | inr m ↦ inr m ],
      elim (either _ _ exposed) [
        | inl e ↦ inl (not-false v.exposed_only e)
        | inr m ↦ inr (not-false (is_empty n.exposures) m)
      ],
      elim (either (is_empty q || includes (lower n.pod_name) q) (includes (lower n.label) q) t) [
        | inl l ↦ elim (either (is_empty q) (includes (lower n.pod_name) q) l) [
          | inl e ↦ inl (is_empty-nil q e)
          | inr m ↦ inr (inl m)
        ]
        | inr m ↦ inr (inr m)
      ],
      u,
    )

no_filter-Wants :
    (v : View) (n : TopologyNode)
    → has_no_filter v ≡ true
    → is_pod n.kind ≡ true
    → Unhidden v n
    → Wants v n
unfolding has_no_filter pod_query
no_filter-Wants v n h kind u = (
  is_pod-pod n.kind kind,
  inl (is_empty-nil v.ns_filter (ground arith)),
  inl (not-false v.exposed_only (ground arith)),
  inl (is_empty-nil (lower (trim v.pod_search)) (ground arith)),
  u,
)

primary_ids-Wants :
    (v : View) (nodes : List TopologyNode) (j : Text)
    → member j (primary_ids v nodes) ≡ true
    → (n : TopologyNode) × In n nodes × (n.id ≡ j) × Wants v n
unfolding primary_ids
primary_ids-Wants v nodes j h = elim (Bool-cases (has_no_filter v)) [
  | inl free ↦
      let (n, there, e, t) =
        ids-filter-Found (λ n. is_pod n.kind) j (scoped_nodes v nodes)
          (subst
            (λ b.
              member j (
                if b
                then ids (filter (λ n. is_pod n.kind) (scoped_nodes v nodes))
                else ids (filter (is_primary v) (scoped_nodes v nodes)))
              ≡ true)
            free h) in
      let (here, u) = In-scoped_nodes v n nodes there in (n, here, e, no_filter-Wants v n free t u)
  | inr some_filter ↦
      let (n, there, e, t) = ids-filter-Found (is_primary v) j (scoped_nodes v nodes) (
        subst
          (λ b.
            member j (
              if b
              then ids (filter (λ n. is_pod n.kind) (scoped_nodes v nodes))
              else ids (filter (is_primary v) (scoped_nodes v nodes)))
            ≡ true)
          some_filter h) in
      let (here, u) = In-scoped_nodes v n nodes there in (n, here, e, is_primary-Wants v n t u)
]

pub primary-IsAsked :
    (v : View) (nodes : List TopologyNode) (e : TopologyEdge)
    → (member e.source (primary_ids v nodes) || member e.target (primary_ids v nodes)) ≡ true
    → IsAsked v nodes e
primary-IsAsked v nodes e h = elim (either _ _ h) [
  | inl s ↦
      let (n, there, same, w) = primary_ids-Wants v nodes e.source s in (n, there, inl same, w)
  | inr t ↦
      let (n, there, same, w) = primary_ids-Wants v nodes e.target t in (n, there, inr same, w)
]
