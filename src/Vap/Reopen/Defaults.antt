-- ===== src/Vap/Reopen/Defaults.antt =====
-- pages/VAPPage.tsx: what `specForCompare` takes away from a spec, and what it leaves.
use k8s_sentinel.Base.{
  Text, lit, ◌===◌, ===_iff, if_cases, Bool, true, false, List, [], ◌∷◌, Option, none, some, Object,
  get, assign, without, get-assign, get-without, Json, null, bool, num, str, arr, obj, nil, cons,
  end, field, of_items, of_fields, ◌≡◌, ◌≢◌, inl, inr, refl, Ensures, nothing, just, Ensures->>=,
  Ensures-weaken, arith, ap, ◌∙◌, sym, subst,
}
use k8s_sentinel.Vap.Reopen.Kept.{
  Kept, IsText, IsEmptyObject, RuleKept, RuleListKept, RulesKept, MatchKept, PartKept, SpecKept,
}
use k8s_sentinel.Vap.Reopen.{
  is_text, is_empty_object, without_if, strip_scope, strip_scopes, strip_rules_at, strip_rules,
  strip_match, strip_part, strip_at, spec_for_compare,
}

-- Every key but one is as before.
abbrev Else : Text → Object Json → Object Json → Type 0
Else j o o' = (k : Text) → k ≢ j → get k o' ≡ get k o

apart : (s t : Text) → (s === t) ≡ false → s ≢ t
apart s t h e = ground (arith, ===_iff s t)

get-without_same : (k : Text) (o : Object Json) → get k (without k o) ≡ none
get-without_same k o = ground (arith, get-without k k o, ===_iff k k)

without-Else : (j : Text) (o : Object Json) → Else j o (without j o)
without-Else j o k n = ground (arith, get-without j k o, ===_iff j k)

without_if-Else : (b : Bool) (j : Text) (o : Object Json) → Else j o (without_if b j o)
without_if-Else b j o = if_cases (Else j o) b _ _ (λ _. without-Else j o) (λ _ k n. refl)

without_if-Kept :
    (D : Option Json → Type 0) (b : Bool) (j : Text) (o : Object Json)
    → (b ≡ true → D (get j o))
    → Kept D (get j o) (get j (without_if b j o))
without_if-Kept D b j o d =
    if_cases (λ o'. Kept D (get j o) (get j o')) b _ _ (λ t. inr (d t, get-without_same j o))
      (λ _. inl refl)

is_text-IsText : (t : Text) (o : Option Json) → is_text t o ≡ true → IsText t o
is_text-IsText t none h = absurd (ground arith)
is_text-IsText t (some (str s)) h = ap (λ s. some (str s)) ((===_iff s t).0 h)
is_text-IsText t (some null) h = absurd (ground arith)
is_text-IsText t (some (bool b)) h = absurd (ground arith)
is_text-IsText t (some (num n)) h = absurd (ground arith)
is_text-IsText t (some (arr xs)) h = absurd (ground arith)
is_text-IsText t (some (obj o)) h = absurd (ground arith)

is_empty_object-IsEmptyObject : (o : Option Json) → is_empty_object o ≡ true → IsEmptyObject o
is_empty_object-IsEmptyObject none h = absurd (ground arith)
is_empty_object-IsEmptyObject (some (obj end)) h = inl refl
is_empty_object-IsEmptyObject (some (obj (field k v o))) h = absurd (ground arith)
is_empty_object-IsEmptyObject (some (arr nil)) h = inr refl
is_empty_object-IsEmptyObject (some (arr (cons x xs))) h = absurd (ground arith)
is_empty_object-IsEmptyObject (some null) h = absurd (ground arith)
is_empty_object-IsEmptyObject (some (bool b)) h = absurd (ground arith)
is_empty_object-IsEmptyObject (some (num n)) h = absurd (ground arith)
is_empty_object-IsEmptyObject (some (str s)) h = absurd (ground arith)

strip_scope-RuleKept : (r : Json) → Ensures (RuleKept r) (strip_scope r)
unfolding strip_scope
strip_scope-RuleKept null = nothing
strip_scope-RuleKept (obj o) = just (
  _,
  refl,
  without_if-Else _ (lit "scope") (of_fields o),
  without_if-Kept (IsText (lit "*")) _ (lit "scope") (of_fields o) (is_text-IsText (lit "*") _),
)
strip_scope-RuleKept (bool b) = just refl
strip_scope-RuleKept (num n) = just refl
strip_scope-RuleKept (str s) = just refl
strip_scope-RuleKept (arr xs) = just refl

strip_scopes-RuleListKept : (rs : List Json) → Ensures (RuleListKept rs) (strip_scopes rs)
unfolding strip_scopes
strip_scopes-RuleListKept [] = just tt
strip_scopes-RuleListKept (r ∷ rs) =
    Ensures->>= (strip_scope-RuleKept r)
      (λ r' h. Ensures->>= (strip_scopes-RuleListKept rs) (λ rs' t. just (h, t)))

get-assign_same : (k : Text) (v : Json) (o : Object Json) → get k (assign k v o) ≡ some v
get-assign_same k v o = ground (arith, get-assign k k v o, ===_iff k k)

assign-Else : (j : Text) (v : Json) (o : Object Json) → Else j o (assign j v o)
assign-Else j v o k n = ground (arith, get-assign j k v o, ===_iff j k)

strip_rules-RulesKept :
    (j : Text) (o : Object Json)
    → Ensures (λ o'. Else j o o' × RulesKept (get j o) (get j o')) (strip_rules j o)
unfolding strip_rules
strip_rules-RulesKept j o = go (get j o) refl
  where
    go :
        (v : Option Json)
        → get j o ≡ v
        → Ensures (λ o'. Else j o o' × RulesKept v (get j o')) (strip_rules_at j o v)
    go none e = just (λ k n. refl, e)
    go (some null) e = just (λ k n. refl, e)
    go (some (str s)) e = just (λ k n. refl, e)
    go (some (arr xs)) e =
        Ensures->>= (strip_scopes-RuleListKept (of_items xs))
          (λ rs h. just (assign-Else j _ o, (rs, get-assign_same j _ o, h)))
    go (some (bool b)) e = nothing
    go (some (num n)) e = nothing
    go (some (obj m)) e = nothing

carry :
    {a a' b b' : Option Json} (P : Option Json → Option Json → Type 0)
    → a ≡ a'
    → b' ≡ b
    → P a b
    → P a' b'
carry {a} {b'} P e f h = subst (λ x. P x b') e (subst (P a) (sym f) h)

strip_match-MatchKept : (mc : Object Json) → Ensures (MatchKept mc) (strip_match mc)
unfolding strip_match lit ◌===◌
strip_match-MatchKept mc =
    let p =
      without_if (is_text (lit "Equivalent") (get (lit "matchPolicy") mc)) (lit "matchPolicy") mc in
    let n =
      without_if (is_empty_object (get (lit "namespaceSelector") p)) (lit "namespaceSelector") p in
    let o = without_if (is_empty_object (get (lit "objectSelector") n)) (lit "objectSelector") n in
    let ep = without_if-Else _ (lit "matchPolicy") mc in
    let en = without_if-Else _ (lit "namespaceSelector") p in
    let eo = without_if-Else _ (lit "objectSelector") n in
    Ensures->>= (strip_rules-RulesKept (lit "resourceRules") o) (λ r (er, kr).
      Ensures-weaken
        (λ x (ex, kx). (
          λ k a b c d e. ex k e ∙ er k d ∙ eo k c ∙ en k b ∙ ep k a,
          carry (Kept (IsText (lit "Equivalent"))) refl
              (ex _ (apart _ _ refl)
                ∙ er _ (apart _ _ refl)
                ∙ eo _ (apart _ _ refl)
                ∙ en _ (apart _ _ refl))
              (without_if-Kept (IsText (lit "Equivalent"))
                (is_text (lit "Equivalent") (get (lit "matchPolicy") mc)) (lit "matchPolicy") mc
                (is_text-IsText (lit "Equivalent") _)),
          carry (Kept IsEmptyObject) (ep _ (apart _ _ refl))
              (ex _ (apart _ _ refl) ∙ er _ (apart _ _ refl) ∙ eo _ (apart _ _ refl))
              (without_if-Kept IsEmptyObject (is_empty_object (get (lit "namespaceSelector") p))
                (lit "namespaceSelector") p (is_empty_object-IsEmptyObject _)),
          carry (Kept IsEmptyObject) (en _ (apart _ _ refl) ∙ ep _ (apart _ _ refl))
              (ex _ (apart _ _ refl) ∙ er _ (apart _ _ refl))
              (without_if-Kept IsEmptyObject (is_empty_object (get (lit "objectSelector") n))
                (lit "objectSelector") n (is_empty_object-IsEmptyObject _)),
          carry RulesKept (eo _ (apart _ _ refl) ∙ en _ (apart _ _ refl) ∙ ep _ (apart _ _ refl))
              (ex _ (apart _ _ refl)) kr,
          carry RulesKept
              (er _ (apart _ _ refl)
                ∙ eo _ (apart _ _ refl)
                ∙ en _ (apart _ _ refl)
                ∙ ep _ (apart _ _ refl))
              refl kx,
        ))
        (strip_rules-RulesKept (lit "excludeResourceRules") r))

strip_at-PartKept :
    (j : Text) (o : Object Json)
    → Ensures (λ o'. Else j o o' × PartKept (get j o) (get j o')) (strip_at j o)
unfolding strip_at
strip_at-PartKept j o = go (get j o) refl
  where
    go :
        (v : Option Json)
        → get j o ≡ v
        → Ensures (λ o'. Else j o o' × PartKept v (get j o')) (strip_part j o v)
    go none e = just (λ k n. refl, e)
    go (some null) e = just (λ k n. refl, e)
    go (some (str s)) e = just (λ k n. refl, e)
    go (some (arr xs)) e = just (λ k n. refl, e)
    go (some (bool b)) e = just (λ k n. refl, e)
    go (some (num n)) e = just (λ k n. refl, e)
    go (some (obj m)) e =
        Ensures->>= (strip_match-MatchKept (of_fields m))
          (λ mc' h. just (assign-Else j _ o, (mc', get-assign_same j _ o, h)))

-- What is compared of a spec is the spec without defaults.
pub spec_for_compare-SpecKept : (o : Option Json) → Ensures (SpecKept o) (spec_for_compare o)
unfolding spec_for_compare lit ◌===◌
spec_for_compare-SpecKept none = just refl
spec_for_compare-SpecKept (some null) = just refl
spec_for_compare-SpecKept (some (str s)) = just refl
spec_for_compare-SpecKept (some (arr xs)) = just refl
spec_for_compare-SpecKept (some (bool b)) = just refl
spec_for_compare-SpecKept (some (num n)) = just refl
spec_for_compare-SpecKept (some (obj o)) =
    Ensures->>= (strip_at-PartKept (lit "matchConstraints") (of_fields o)) (λ c (ec, kc).
      Ensures->>= (strip_at-PartKept (lit "matchResources") c) (λ r (er, kr). just (
        r,
        refl,
        (λ k a b. er k b ∙ ec k a),
        carry PartKept refl (er _ (apart _ _ refl)) kc,
        carry PartKept (ec _ (apart _ _ refl)) refl kr,
      )))
