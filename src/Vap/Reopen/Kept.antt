-- ===== src/Vap/Reopen/Kept.antt =====
-- pages/VAPPage.tsx: what a spec and the spec without the defaults of the API server have in common, as a
-- relation.
use k8s_sentinel.Base.{
  Text, lit, List, [], ◌∷◌, Option, none, some, Object, get, Json, null, str, arr, obj, nil, end,
  items, of_items, of_fields, object, ◌≡◌, ◌≢◌, ◌⊎◌,
}

-- What stands under a key afterwards: what stood there, unless that was the default.
abbrev pub Kept : (Option Json → Type 0) → Option Json → Option Json → Type 0
Kept IsDefault before after = (after ≡ before) ⊎ (IsDefault before × (after ≡ none))

abbrev pub IsText : Text → Option Json → Type 0
IsText t o = o ≡ some (str t)

-- `{}`, or the empty list, which has no keys either.
abbrev pub IsEmptyObject : Option Json → Type 0
IsEmptyObject o = (o ≡ some (obj end)) ⊎ (o ≡ some (arr nil))

-- One rule: nothing but the scope of all is left out.
abbrev pub RuleKept : Json → Json → Type 0
RuleKept (obj o) r' =
    (o' : Object Json) × (r' ≡ object o')
    × ((k : Text) → k ≢ lit "scope" → get k o' ≡ get k (of_fields o))
    × Kept (IsText (lit "*")) (get (lit "scope") (of_fields o)) (get (lit "scope") o')
RuleKept r r' = r' ≡ r

abbrev pub RuleListKept : List Json → List Json → Type 0
RuleListKept [] [] = Unit
RuleListKept (r ∷ rs) (r' ∷ rs') = RuleKept r r' × RuleListKept rs rs'
RuleListKept _ _ = ⊥

abbrev pub RulesKept : Option Json → Option Json → Type 0
RulesKept (some (arr xs)) o' =
    (ys : List Json) × (o' ≡ some (arr (items ys))) × RuleListKept (of_items xs) ys
RulesKept o o' = o' ≡ o

-- A match object: nothing but an equivalent match policy, empty selectors and the scopes of all in its
-- rules is left out.
abbrev pub MatchKept : Object Json → Object Json → Type 0
MatchKept mc mc' =
    ((k : Text)
      → k ≢ lit "matchPolicy"
      → k ≢ lit "namespaceSelector"
      → k ≢ lit "objectSelector"
      → k ≢ lit "resourceRules"
      → k ≢ lit "excludeResourceRules"
      → get k mc' ≡ get k mc)
    × Kept (IsText (lit "Equivalent")) (get (lit "matchPolicy") mc) (get (lit "matchPolicy") mc')
    × Kept IsEmptyObject (get (lit "namespaceSelector") mc) (get (lit "namespaceSelector") mc')
    × Kept IsEmptyObject (get (lit "objectSelector") mc) (get (lit "objectSelector") mc')
    × RulesKept (get (lit "resourceRules") mc) (get (lit "resourceRules") mc')
    × RulesKept (get (lit "excludeResourceRules") mc) (get (lit "excludeResourceRules") mc')

abbrev pub PartKept : Option Json → Option Json → Type 0
PartKept (some (obj mc)) o' =
    (mc' : Object Json) × (o' ≡ some (object mc')) × MatchKept (of_fields mc) mc'
PartKept o o' = o' ≡ o

-- A spec: nothing but these defaults of its two match objects is left out.
abbrev pub SpecKept : Option Json → Json → Type 0
SpecKept none a = a ≡ object []
SpecKept (some null) a = a ≡ object []
SpecKept (some (obj o)) a =
    (o' : Object Json) × (a ≡ object o')
    × ((k : Text)
        → k ≢ lit "matchConstraints"
        → k ≢ lit "matchResources"
        → get k o' ≡ get k (of_fields o))
    × PartKept (get (lit "matchConstraints") (of_fields o)) (get (lit "matchConstraints") o')
    × PartKept (get (lit "matchResources") (of_fields o)) (get (lit "matchResources") o')
SpecKept (some j) a = a ≡ j
