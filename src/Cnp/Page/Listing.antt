-- ===== src/Cnp/Page/Listing.antt =====
-- pages/CNPPage.tsx: which screen is up, and what the list offers and shows.
use k8s_sentinel.Base.{
  Text, lit, ◌===◌, ===_iff, lower, includes, is_empty, filter, member, not, ◌&&◌, ◌||◌, ltb, ◌==◌,
  Bool, true, false, List, [], ◌∷◌, map, Option, none, some, if◌then◌else◌, ◌≡◌, refl, arith, ap,
  sym, ◌∙◌, if_cases, All, subst, ◌⊎◌, inl, inr, Bool-cases,
}
use k8s_sentinel.Filters.{matches_scope_filter}
use k8s_sentinel.Cnp.Page

pub data Screen : Type 0 where
  unavailable editor policy_list : Screen

abbrev is_missing : Option Bool → Bool
is_missing none = false
is_missing (some b) = not b

unfoldable pub screen : {Doc : Type 0} → Page.Page Doc → Screen
screen p =
    if is_missing p.available && not p.editor_open
    then unavailable
    else if p.editor_open
    then editor
    else policy_list

-- `DenyBadge`
unfoldable pub deny_label : Text → Option Text
deny_label deny =
    if is_empty deny
    then none
    else if deny === lit "both"
    then some (lit "Ingress + Egress")
    else if deny === lit "ingress"
    then some (lit "Ingress")
    else some (lit "Egress")

-- The scope of a row: the namespace of a policy that is not cluster-wide.
unfoldable pub scope_label : {Doc : Type 0} → Page.Saved Doc → Text
scope_label x = if x.scope === lit "cluster" then lit "cluster-wide" else x.namespace

-- The order of `sort()`: that of code units.
unfoldable pub before : Text → Text → Bool
before [] t = true
before (c ∷ s) [] = false
before (c ∷ s) (d ∷ t) = ltb c d || ((c == d) && before s t)

unfoldable pub insert_sorted : Text → List Text → List Text
unfolding before
insert_sorted k [] = k ∷ []
insert_sorted k (x ∷ xs) =
    let rest = insert_sorted k xs in if before k x then k ∷ x ∷ xs else x ∷ rest

-- `[...new Set(xs)].sort()`
unfoldable pub sorted_set : List Text → List Text
unfolding insert_sorted member
sorted_set [] = []
sorted_set (x ∷ xs) =
    let rest = sorted_set xs in if member x rest then rest else insert_sorted x rest

-- `filter(Boolean)`
abbrev pub namespaces_of : {Doc : Type 0} → List (Page.Saved Doc) → List Text
namespaces_of ps = filter (λ ns. not (is_empty ns)) (map (λ p. p.namespace) ps)

module _ {Doc : Type 0} where
  unfoldable pub namespaces : List (Page.Saved Doc) → List Text
  unfolding sorted_set
  namespaces policies = sorted_set (namespaces_of policies)

  -- Whether the search box leaves a policy.
  unfoldable pub matches_search : Text → Page.Saved Doc → Bool
  unfolding lower includes
  matches_search search p =
      is_empty search
      || includes (lower p.name) (lower search)
      || includes (lower p.namespace) (lower search)
      || includes (lower p.selector) (lower search)

  unfoldable pub filtered : Text → List Text → List (Page.Saved Doc) → List (Page.Saved Doc)
  unfolding matches_search matches_scope_filter
  filtered search selected =
      filter
        (λ p. matches_scope_filter p.scope (some p.namespace) selected && matches_search search p)

member-insert_sorted :
    (k x : Text) (xs : List Text) → member k (insert_sorted x xs) ≡ ((x === k) || member k xs)
unfolding insert_sorted member
member-insert_sorted k x [] = refl
member-insert_sorted k x (y ∷ ys) =
    if_cases (λ l. member k l ≡ ((x === k) || ((y === k) || member k ys))) (before x y) _ _
      (λ _. refl) (λ _. let e = member-insert_sorted k x ys in ground arith)

absorbed : (a b : Bool) → (a ≡ true → b ≡ true) → b ≡ (a || b)
absorbed true b h = h refl
absorbed false b h = refl

-- A sorted set has the members of the list.
member-sorted_set : (k : Text) (xs : List Text) → member k (sorted_set xs) ≡ member k xs
unfolding sorted_set member
member-sorted_set k [] = refl
member-sorted_set k (x ∷ xs) =
    if_cases (λ l. member k l ≡ ((x === k) || member k xs)) (member x (sorted_set xs)) _ _
      (λ there.
        member-sorted_set k xs
        ∙ absorbed (x === k) (member k xs) (λ e.
          sym (member-sorted_set k xs)
          ∙ subst (λ y. member y (sorted_set xs) ≡ true) ((===_iff x k).0 e) there))
      (λ _.
        member-insert_sorted k x (sorted_set xs)
        ∙ ap (λ b. (x === k) || b) (member-sorted_set k xs))

-- What the server says of a policy: a cluster-wide one has no namespace.
abbrev pub HasOwnNamespace : {Doc : Type 0} → Page.Saved Doc → Type 0
HasOwnNamespace p = (p.scope === lit "cluster") ≡ true → p.namespace ≡ []

-- A member of a list of texts that are not empty is the first, or one of the others.
head_or_tail :
    (ns t : Text) (rest : List Text)
    → member ns (if not (is_empty t) then t ∷ rest else rest) ≡ true
    → ((is_empty t ≡ false) × (t ≡ ns)) ⊎ (member ns rest ≡ true)
unfolding member
head_or_tail ns [] rest m = inr m
head_or_tail ns (c ∷ t) rest m = elim (Bool-cases ((c ∷ t) === ns)) [
  | inl e ↦ inl (refl, (===_iff (c ∷ t) ns).0 e)
  | inr e ↦ inr (ground arith)
]

-- Whether a policy is left, on its own.
shown_alone :
    (ns scope t : Text)
    → ((scope === lit "cluster") ≡ true → t ≡ [])
    → is_empty t ≡ false
    → t ≡ ns
    → matches_scope_filter scope (some t) (ns ∷ []) ≡ true
unfolding matches_scope_filter member
shown_alone ns scope t own filled e =
    if_cases (λ b. b ≡ true) (scope === lit "cluster") _ _
      (λ c. let n = own c in absurd (ground arith)) (λ _. ground (arith, ===_iff ns t))

module _ {Doc : Type 0} where
  named_here :
      (ns : Text) (ps : List (Page.Saved Doc))
      → All HasOwnNamespace ps
      → member ns (namespaces_of ps) ≡ true
      → is_empty (filtered [] (ns ∷ []) ps) ≡ false
  unfolding filtered matches_search member
  named_here ns [] h m = ground arith
  named_here ns (p ∷ ps) (own, h) m =
      if_cases (λ l. is_empty l ≡ false)
        (matches_scope_filter p.scope (some p.namespace) (ns ∷ []) && true)
        (p ∷ filtered [] (ns ∷ []) ps) (filtered [] (ns ∷ []) ps) (λ _. refl)
        (λ out. elim (head_or_tail ns p.namespace (namespaces_of ps) m) [
          | inl (filled, e) ↦
              absurd (let t = shown_alone ns p.scope p.namespace own filled e in ground arith)
          | inr m' ↦ named_here ns ps h m'
        ])

  -- No namespace that the filter offers is a dead end: choosing it alone leaves some policy, where
  -- nothing is searched for.
  namespaces-filtered :
      (ps : List (Page.Saved Doc)) (ns : Text)
      → All HasOwnNamespace ps
      → member ns (namespaces ps) ≡ true
      → is_empty (filtered [] (ns ∷ []) ps) ≡ false
  unfolding namespaces
  namespaces-filtered ps ns h m = named_here ns ps h (sym (member-sorted_set ns _) ∙ m)
