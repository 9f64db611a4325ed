-- ===== src/Topology/Layout.antt =====
-- pages/NetworkTopologyPage.tsx: `layoutNodes`, the columns that the nodes start in, and the colours of
-- `layoutEdges`. A colour is the text of the source.
use k8s_sentinel.Base.{
  Text, lit, ◌===◌, if◌then◌else◌, ◌&&◌, ◌==◌, Bool, true, false, List, [], ◌∷◌, map, All, All-map,
  Option, none, some, ℕ, ◌+◌, ◌*◌, ◌≤◌, ◌≡◌, refl, arith, or_else,
}
use k8s_sentinel.Topology.{Kind, pod, external, node, linklocal, TopologyNode, TopologyEdge}

-- `KIND_COLUMN`: it has a column for each of the declared kinds, so the column of external nodes, which
-- layoutNodes falls back to, is for none of them.
abbrev pub kind_column : Kind → ℕ
kind_column pod = 80
kind_column node = 380
kind_column linklocal = 530
kind_column external = 680

abbrev pub same_kind : Kind → Kind → Bool
same_kind pod pod = true
same_kind external external = true
same_kind node node = true
same_kind linklocal linklocal = true
same_kind _ _ = false

pub record Placed : Type 0 where
  pub id : Text
  pub kind : Kind
  pub x : ℕ
  pub y : ℕ

-- `rows`: how many nodes of each kind have a place.
abbrev pub next_row : Kind → (Kind → ℕ) → Kind → ℕ
next_row k rows j = if same_kind k j then rows j + 1 else rows j

unfoldable pub layout_from : (Kind → ℕ) → List TopologyNode → List Placed
layout_from rows [] = []
layout_from rows (n ∷ ns) =
    record { id = n.id; kind = n.kind; x = kind_column n.kind; y = 80 + rows n.kind * 100 }
    ∷ layout_from (next_row n.kind rows) ns

unfoldable pub layout_nodes : List TopologyNode → List Placed
unfolding layout_from
layout_nodes nodes = layout_from (λ k. 0) nodes

-- `nodeMap[id]?.kind`: of nodes with one id the last is in the map.
unfoldable pub kind_of : Text → List TopologyNode → Option Kind
kind_of id [] = none
kind_of id (n ∷ ns) =
    let rest = kind_of id ns in
    elim rest [ some k ↦ some k | none ↦ if n.id === id then some n.kind else none ]

abbrev pub color_of : Kind → Text
color_of external = lit "#f59e0b"
color_of linklocal = lit "#64748b"
color_of pod = lit "#6366f1"
color_of node = lit "#6366f1"

unfoldable pub edge_color : List TopologyNode → TopologyEdge → Text
unfolding kind_of
edge_color nodes e = color_of (or_else (kind_of e.target nodes) external)

-- Two places are not the same.
abbrev pub Apart : Placed → Placed → Type 0
Apart p q = (p.x == q.x && p.y == q.y) ≡ false

abbrev pub AllApart : List Placed → Type 0
AllApart [] = Unit
AllApart (p ∷ ps) = All (Apart p) ps × AllApart ps

-- A place in its kind's column, under the rows that are taken.
abbrev Below : (Kind → ℕ) → Placed → Type 0
Below rows p = (p.x ≡ kind_column p.kind) × (80 + rows p.kind * 100 ≤ p.y)

next_row-le : (k : Kind) (rows : Kind → ℕ) (j : Kind) → rows j ≤ next_row k rows j
next_row-le k rows j = ground arith

layout_from-Below :
    (rows : Kind → ℕ) (ns : List TopologyNode) → All (Below rows) (layout_from rows ns)
unfolding layout_from
layout_from-Below rows [] = tt
layout_from-Below rows (n ∷ ns) = (
  (refl, omega arith),
  All-map (λ p h. (h.0, omega (arith, h.1, next_row-le n.kind rows p.kind)))
      (layout_from (next_row n.kind rows) ns) (layout_from-Below (next_row n.kind rows) ns),
)

column-Apart :
    (k j : Kind) (rows : Kind → ℕ) (y : ℕ)
    → 80 + next_row k rows j * 100 ≤ y
    → (kind_column k == kind_column j && (80 + rows k * 100 == y)) ≡ false
column-Apart k j rows y h = ground arith

Below-Apart :
    (n : TopologyNode) (rows : Kind → ℕ) (q : Placed)
    → Below (next_row n.kind rows) q
    → Apart
        (record { id = n.id; kind = n.kind; x = kind_column n.kind; y = 80 + rows n.kind * 100 })
        q
Below-Apart n rows q (x, y) = rw x (column-Apart n.kind q.kind rows q.y y)

layout_from-AllApart : (rows : Kind → ℕ) (ns : List TopologyNode) → AllApart (layout_from rows ns)
unfolding layout_from
layout_from-AllApart rows [] = tt
layout_from-AllApart rows (n ∷ ns) = (
  All-map (Below-Apart n rows) (layout_from (next_row n.kind rows) ns)
      (layout_from-Below (next_row n.kind rows) ns),
  layout_from-AllApart (next_row n.kind rows) ns,
)

layout_from-ids :
    (rows : Kind → ℕ) (ns : List TopologyNode)
    → map (λ p. p.id) (layout_from rows ns) ≡ map (λ n. n.id) ns
unfolding layout_from
layout_from-ids rows [] = refl
layout_from-ids rows (n ∷ ns) = λ i. n.id ∷ layout_from-ids (next_row n.kind rows) ns i

-- Every node gets a place, whatever its kind, in the order of the nodes, and no two get the same place.
pub layout_nodes-AllApart :
    (ns : List TopologyNode)
    → (map (λ p. p.id) (layout_nodes ns) ≡ map (λ n. n.id) ns) × AllApart (layout_nodes ns)
unfolding layout_nodes
layout_nodes-AllApart ns = (layout_from-ids (λ k. 0) ns, layout_from-AllApart (λ k. 0) ns)
