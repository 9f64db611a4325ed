-- ===== src/Filters/Tests.antt =====
-- Concrete selections, and the theorems at them.
use k8s_sentinel.Base.{
  Text, lit, ◌===◌, member, Bool, true, false, not, if◌then◌else◌, List, [], ◌∷◌, some, ◌≡◌, refl,
}
use k8s_sentinel.Filters.{matches_scope_filter, matches_filter, summarise}

filters :
    (matches_scope_filter (lit "cluster") (some (lit "a")) (lit "a" ∷ []) ≡ false)
    × (matches_scope_filter (lit "namespaced") (some (lit "a")) (lit "a" ∷ []) ≡ true)
    × (matches_filter [] (some (lit "x")) ≡ true)
    × (summarise (lit "a" ∷ lit "b" ∷ []) ≡ lit "2 selected")
unfolding matches_scope_filter matches_filter summarise lit ◌===◌ k8s_sentinel.Base.decimal
filters = (refl, refl, refl, refl)
