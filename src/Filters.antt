-- ===== src/Filters.antt =====
-- components/ScopeFilter.tsx and components/FilterPopover.tsx: the filters that the lists share.
mod Tests
use k8s_sentinel.Base.{
  Text, lit, ◌===◌, ===_iff, ===_refl, member, member-append, is_empty, length, filter,
  if◌then◌else◌, ◌&&◌, ◌||◌, not, Bool, true, false, Bool-cases, List, [], ◌∷◌, ◌++◌, map, Option,
  none, some, or_else, ℕ, ◌+◌, decimal, ◌≡◌, refl, ap, ◌↔◌, ◌⊎◌, inl, inr, arith, zero,
}

abbrev pub scope_cluster : Text
scope_cluster = lit "__cluster__"

-- Whether a record passes the namespace filter.
unfoldable pub matches_scope_filter : Text → Option Text → List Text → Bool
unfolding member
matches_scope_filter scope namespace selected =
    if is_empty selected
    then true
    else if scope === lit "cluster"
    then member scope_cluster selected
    else member (or_else namespace []) selected

-- Whether a value passes one group of the filter panel.
unfoldable pub matches_filter : List Text → Option Text → Bool
unfolding member
matches_filter selected none = is_empty selected
matches_filter selected (some value) = is_empty selected || member value selected

unfoldable pub summarise : List Text → Text
summarise [] = lit "All namespaces"
summarise (k ∷ []) = if k === scope_cluster then lit "Cluster-wide" else k
summarise (k ∷ j ∷ rest) = decimal (length (k ∷ j ∷ rest)) ++ lit " selected"

unfoldable pub toggle : Text → List Text → List Text
unfolding member
toggle key value =
    if member key value then filter (λ v. not (v === key)) value else value ++ key ∷ []

-- The entries that the control offers: a key and a label each.
unfoldable pub scope_entries : Bool → List Text → List (Text × Text)
scope_entries include_cluster namespaces =
    (if include_cluster then (scope_cluster, lit "Cluster-wide") ∷ [] else [])
    ++ map (λ ns. (ns, ns)) namespaces

pub record FilterSection : Type 0 where
  pub label : Text
  pub options : List (Text × Text)
  pub value : List Text

-- How many options are ticked in all sections.
unfoldable pub active : ℕ → List FilterSection → ℕ
active n [] = n
active n (s ∷ ss) = active (n + length s.value) ss

member-filter_ne :
    (k j : Text) (xs : List Text)
    → member j (filter (λ v. not (v === k)) xs) ≡ (if k === j then false else member j xs)
unfolding member
member-filter_ne k j [] = ground arith
member-filter_ne k j (x ∷ xs) =
    ground (arith, ===_iff x k, ===_iff x j, ===_iff k j, member-filter_ne k j xs)

-- Ticking an entry changes that entry and no other.
member-toggle :
    (key j : Text) (value : List Text)
    → member j (toggle key value) ≡ (if key === j then not (member j value) else member j value)
unfolding toggle member
member-toggle key j value = elim (Bool-cases (member key value)) [
  | inl on ↦ rw on (ground (arith, member-filter_ne key j value, ===_iff key j, on))
  | inr off ↦ rw off (ground (arith, member-append j value (key ∷ []), ===_iff key j, off))
]
