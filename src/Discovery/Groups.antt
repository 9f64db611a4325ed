-- ===== src/Discovery/Groups.antt =====
-- pages/DiscoveryPage.tsx: `buildWorkloadGroups`. The order of `localeCompare` is a parameter.
use k8s_sentinel.Base.{
  Text, lit, ◌===◌, ===_iff, ===_refl, member, member-append, is_empty, ltb, ◌==◌, if◌then◌else◌,
  ◌&&◌, ◌||◌, not, Bool, true, false, Bool-cases, List, [], ◌∷◌, ◌++◌, any, all, or_else, ◌≡◌, refl,
  arith, ap, ◌∙◌, inl, inr, All, All-map, and-eq_true,
}
use k8s_sentinel.Discovery.{PodProfile, WorkloadProfile}

-- `a < b` on strings: by code units.
unfoldable pub text_lt : Text → Text → Bool
text_lt [] [] = false
text_lt [] (b ∷ t) = true
text_lt (a ∷ s) [] = false
text_lt (a ∷ s) (b ∷ t) = ltb a b || (a == b && text_lt s t)

abbrev pub slash : Text
slash = b'/' ∷ []

-- The key of a profile's group: its workload, or the pod itself.
unfoldable pub group_key : PodProfile → Text
group_key p =
    if not (is_empty (or_else p.workload_kind [])) && not (is_empty (or_else p.workload_name []))
    then p.namespace
      ++ (slash ++ (or_else p.workload_kind [] ++ (slash ++ or_else p.workload_name [])))
    else p.namespace ++ (lit "/pod/" ++ p.pod)

-- `a || b`
abbrev pub or_text : Text → Text → Text
or_text a b = if is_empty a then b else a

-- `if (!xs.includes(x)) xs.push(x)`
unfoldable pub add_new : Text → List Text → List Text
add_new x xs = if member x xs then xs else xs ++ x ∷ []

unfoldable pub add_all_new : List Text → List Text → List Text
unfolding add_new
add_all_new [] xs = xs
add_all_new (b ∷ bs) xs = add_all_new bs (add_new b xs)

unfoldable pub new_group : PodProfile → WorkloadProfile
unfolding group_key
new_group p = record {
  key = group_key p;
  namespace = p.namespace;
  workload_kind = or_text (or_else p.workload_kind []) (lit "Pod");
  workload_name = or_text (or_else p.workload_name []) p.pod;
  pods = p.pod ∷ [];
  binaries = p.binaries;
  first_seen = p.first_seen;
  last_seen = p.last_seen;
}

unfoldable pub merge : PodProfile → WorkloadProfile → WorkloadProfile
unfolding add_new add_all_new text_lt
merge p g = record g {
  pods = add_new p.pod g.pods;
  binaries = add_all_new p.binaries g.binaries;
  first_seen = if text_lt p.first_seen g.first_seen then p.first_seen else g.first_seen;
  last_seen = if text_lt g.last_seen p.last_seen then p.last_seen else g.last_seen;
}

-- One round of the loop, over the map's values in their order.
unfoldable pub add_profile : PodProfile → List WorkloadProfile → List WorkloadProfile
unfolding new_group merge group_key
add_profile p [] = new_group p ∷ []
add_profile p (g ∷ gs) = if g.key === group_key p then merge p g ∷ gs else g ∷ add_profile p gs

unfoldable pub add_profiles : List PodProfile → List WorkloadProfile → List WorkloadProfile
unfolding add_profile
add_profiles [] gs = gs
add_profiles (p ∷ ps) gs = add_profiles ps (add_profile p gs)

module _ (after : Text → Text → Bool) where
  abbrev sort_text : WorkloadProfile → Text
  sort_text g = g.namespace ++ g.workload_name

  -- Sorting keeps the order of entries that compare equal.
  unfoldable pub insert_sorted : WorkloadProfile → List WorkloadProfile → List WorkloadProfile
  insert_sorted g [] = g ∷ []
  insert_sorted g (h ∷ hs) =
      let rest = insert_sorted g hs in
      if after (sort_text g) (sort_text h) then h ∷ rest else g ∷ h ∷ hs

  unfoldable pub sort_groups : List WorkloadProfile → List WorkloadProfile
  unfolding insert_sorted
  sort_groups [] = []
  sort_groups (g ∷ gs) = insert_sorted g (sort_groups gs)

  unfoldable pub build_workload_groups : List PodProfile → List WorkloadProfile
  unfolding add_profiles sort_groups
  build_workload_groups profiles = sort_groups (add_profiles profiles [])

-- The group has the profile's key, its pod and all its binaries.
unfoldable pub holds : PodProfile → WorkloadProfile → Bool
unfolding group_key
holds p g =
    (g.key === group_key p) && (member p.pod g.pods && all (λ b. member b g.binaries) p.binaries)

abbrev pub IsIn : PodProfile → List WorkloadProfile → Type 0
IsIn p gs = any (holds p) gs ≡ true

member-add_new :
    (x k : Text) (xs : List Text) → member k (add_new x xs) ≡ ((x === k) || member k xs)
unfolding add_new member
member-add_new x k xs = ground (arith, member-append k xs (x ∷ []), ===_iff x k)

unfoldable pub has_key : Text → List WorkloadProfile → Bool
has_key k = any (λ g. g.key === k)

has_key-add_profile :
    (k : Text) (p : PodProfile) (gs : List WorkloadProfile)
    → has_key k (add_profile p gs) ≡ (has_key k gs || (group_key p === k))
unfolding has_key add_profile
has_key-add_profile k p [] = ground arith
has_key-add_profile k p (g ∷ gs) = ground (
  arith,
  has_key-add_profile k p gs,
  ===_iff g.key (group_key p),
  ===_iff g.key k,
  ===_iff (group_key p) k,
)

abbrev pub HasDistinctKeys : List WorkloadProfile → Type 0
HasDistinctKeys [] = Unit
HasDistinctKeys (g ∷ gs) = (any (λ h. h.key === g.key) gs ≡ false) × HasDistinctKeys gs

add_profile-HasDistinctKeys :
    (p : PodProfile) (gs : List WorkloadProfile)
    → HasDistinctKeys gs
    → HasDistinctKeys (add_profile p gs)
unfolding add_profile has_key
add_profile-HasDistinctKeys p [] h = (refl, tt)
add_profile-HasDistinctKeys p (g ∷ gs) (new, h) = elim (Bool-cases (g.key === group_key p)) [
  | inl same ↦ rw same (new, h)
  | inr other ↦ rw other (
    (ground (
      arith,
      has_key-add_profile g.key p gs,
      ===_iff g.key (group_key p),
      ===_iff (group_key p) g.key,
    )),
    add_profile-HasDistinctKeys p gs h,
  )
]

member-add_all_new :
    (bs : List Text) (k : Text) (xs : List Text)
    → member k (add_all_new bs xs) ≡ (member k bs || member k xs)
unfolding add_all_new member
member-add_all_new [] k xs = refl
member-add_all_new (b ∷ bs) k xs =
    ground (arith, member-add_all_new bs k (add_new b xs), member-add_new b k xs)

-- Every element of a list is a member of a longer one.
all-member_grows :
    (bs : List Text) (xs ys : List Text)
    → ((k : Text) → member k xs ≡ true → member k ys ≡ true)
    → all (λ b. member b xs) bs ≡ true
    → all (λ b. member b ys) bs ≡ true
all-member_grows [] xs ys grows h = refl
all-member_grows (b ∷ bs) xs ys grows h =
    let (here, rest) = and-eq_true (member b xs) _ h in
    rw (grows b here) (all-member_grows bs xs ys grows rest)

all-member_self :
    (bs xs : List Text)
    → ((k : Text) → member k bs ≡ true → member k xs ≡ true)
    → all (λ b. member b xs) bs ≡ true
unfolding member
all-member_self [] xs h = refl
all-member_self (b ∷ bs) xs h =
    rw (h b (ground (arith, ===_refl b))) (all-member_self bs xs (λ k m. h k (ground (arith, m))))

merge_keeps :
    (p q : PodProfile) (g : WorkloadProfile) → holds p g ≡ true → holds p (merge q g) ≡ true
unfolding holds merge
merge_keeps p q g h =
    let (key, rest) = and-eq_true (g.key === group_key p) _ h in
    let (pod, binaries) = and-eq_true (member p.pod g.pods) _ rest in
    rw key (
      rw (member-add_new q.pod p.pod g.pods) (
        rw pod (
          ground (
            arith,
            all-member_grows p.binaries g.binaries (add_all_new q.binaries g.binaries)
                (λ k m. member-add_all_new q.binaries k g.binaries ∙ ground (arith, m)) binaries,
          ))))

merge-holds :
    (p : PodProfile) (g : WorkloadProfile)
    → (g.key === group_key p) ≡ true
    → holds p (merge p g) ≡ true
unfolding holds merge
merge-holds p g key = ground (
  arith,
  key,
  member-add_new p.pod p.pod g.pods,
  ===_refl p.pod,
  all-member_self p.binaries (add_all_new p.binaries g.binaries)
      (λ k m. member-add_all_new p.binaries k g.binaries ∙ ground (arith, m)),
)

new_group-holds : (p : PodProfile) → holds p (new_group p) ≡ true
unfolding holds new_group member
new_group-holds p = ground (
  arith,
  ===_refl (group_key p),
  ===_refl p.pod,
  all-member_self p.binaries p.binaries (λ k m. m),
)

add_profile_keeps :
    (p q : PodProfile) (gs : List WorkloadProfile) → IsIn p gs → IsIn p (add_profile q gs)
unfolding add_profile
add_profile_keeps p q [] h = cc
add_profile_keeps p q (g ∷ gs) h = ground (arith, merge_keeps p q g, add_profile_keeps p q gs)

add_profile_holds : (p : PodProfile) (gs : List WorkloadProfile) → IsIn p (add_profile p gs)
unfolding add_profile
add_profile_holds p [] = ground (arith, new_group-holds p)
add_profile_holds p (g ∷ gs) = ground (arith, merge-holds p g, add_profile_holds p gs)

add_profiles_keeps :
    (p : PodProfile) (ps : List PodProfile) (gs : List WorkloadProfile)
    → IsIn p gs
    → IsIn p (add_profiles ps gs)
unfolding add_profiles
add_profiles_keeps p [] gs h = h
add_profiles_keeps p (q ∷ ps) gs h =
    add_profiles_keeps p ps (add_profile q gs) (add_profile_keeps p q gs h)

add_profiles_hold :
    (ps : List PodProfile) (gs : List WorkloadProfile) → All (λ p. IsIn p (add_profiles ps gs)) ps
unfolding add_profiles
add_profiles_hold [] gs = tt
add_profiles_hold (p ∷ ps) gs = (
  add_profiles_keeps p ps (add_profile p gs) (add_profile_holds p gs),
  add_profiles_hold ps (add_profile p gs),
)

add_profiles-HasDistinctKeys :
    (ps : List PodProfile) (gs : List WorkloadProfile)
    → HasDistinctKeys gs
    → HasDistinctKeys (add_profiles ps gs)
unfolding add_profiles
add_profiles-HasDistinctKeys [] gs h = h
add_profiles-HasDistinctKeys (p ∷ ps) gs h =
    add_profiles-HasDistinctKeys ps (add_profile p gs) (add_profile-HasDistinctKeys p gs h)

module _ (after : Text → Text → Bool) where
  any-insert_sorted :
      (q : WorkloadProfile → Bool) (g : WorkloadProfile) (gs : List WorkloadProfile)
      → any q (insert_sorted after g gs) ≡ (q g || any q gs)
  unfolding insert_sorted
  any-insert_sorted q g [] = refl
  any-insert_sorted q g (h ∷ hs) = ground (arith, any-insert_sorted q g hs)

  any-sort_groups :
      (q : WorkloadProfile → Bool) (gs : List WorkloadProfile)
      → any q (sort_groups after gs) ≡ any q gs
  unfolding sort_groups
  any-sort_groups q [] = refl
  any-sort_groups q (g ∷ gs) =
      any-insert_sorted q g (sort_groups after gs) ∙ ap (λ b. q g || b) (any-sort_groups q gs)

  insert_sorted-HasDistinctKeys :
      (g : WorkloadProfile) (gs : List WorkloadProfile)
      → any (λ h. h.key === g.key) gs ≡ false
      → HasDistinctKeys gs
      → HasDistinctKeys (insert_sorted after g gs)
  unfolding insert_sorted
  insert_sorted-HasDistinctKeys g [] new h = (refl, tt)
  insert_sorted-HasDistinctKeys g (x ∷ xs) new (new_x, h) = ground (
    arith,
    insert_sorted-HasDistinctKeys g xs,
    any-insert_sorted (λ y. y.key === x.key) g xs,
    ===_iff g.key x.key,
    ===_iff x.key g.key,
  )

  sort_groups-HasDistinctKeys :
      (gs : List WorkloadProfile) → HasDistinctKeys gs → HasDistinctKeys (sort_groups after gs)
  unfolding sort_groups
  sort_groups-HasDistinctKeys [] h = tt
  sort_groups-HasDistinctKeys (g ∷ gs) (new, h) =
      insert_sorted-HasDistinctKeys g (sort_groups after gs)
        (any-sort_groups (λ x. x.key === g.key) gs ∙ new) (sort_groups-HasDistinctKeys gs h)

-- Grouping loses nothing and repeats nothing, whatever the collation: every profile has a group with
-- its key that lists its pod and all its binaries, and no two groups have one key.
pub build_workload_groups-IsIn :
    (after : Text → Text → Bool) (ps : List PodProfile)
    → All (λ p. IsIn p (build_workload_groups after ps)) ps
      × HasDistinctKeys (build_workload_groups after ps)
unfolding build_workload_groups
build_workload_groups-IsIn after ps = (
  All-map (λ p h. any-sort_groups after (holds p) (add_profiles ps []) ∙ h) ps
      (add_profiles_hold ps []),
  sort_groups-HasDistinctKeys after (add_profiles ps []) (add_profiles-HasDistinctKeys ps [] tt),
)
