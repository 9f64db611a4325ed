-- ===== src/Vap/Open/Counts.antt =====
-- pages/VAPPage.tsx: what the loop over the validations collects, counted.
use k8s_sentinel.Base.{
  Text, ℕ, ◌+◌, ◌<◌, ◌==◌, ltb, length, length-append, is_empty, ap, subst, not, Bool, true, false,
  List, [], ◌∷◌, Option, none, some, ◌≡◌, refl, arith, Json, Ensures, nothing, just, Ensures->>=,
  Ensures-weaken, Ensures-if, found, Ensures-both, ◌⊎◌, prop, lit, if◌then◌else◌, Ensures-or_go_on,
  inl, inr,
}
use k8s_sentinel.Vap.{
  SizeLimitRule, RuleType, label, annotation, image, replica, resource_limits, security_context,
  host_access, configmap_size, secret_size, ApplyTo,
}
use k8s_sentinel.Vap.Policy.{Builder}
use k8s_sentinel.Vap.Sizes.{SizeKind, config_map, secret}
use k8s_sentinel.Vap.Expressions.{
  parse_expression_to_replica_rule, parse_expression_to_resource_limit_rule,
  parse_expression_to_security_context_part, parse_expression_to_host_access_part,
}
use k8s_sentinel.Vap.Expressions.Quoted.{
  parse_expression_to_rule, parse_expression_to_annotation_rule, parse_expression_to_image_rule,
}
use k8s_sentinel.Vap.Open.{
  Parsed, nothing_parsed, parse_validation, parse_validations, types_used, rule_type_of, form_of,
  sized_form, is_found, one_if, sized_validation, parse_size_limit_spec, after_size,
  is_builder_policy, read_rules, read_policy, validations_of,
}

-- The rules that were collected, host access aside.
abbrev total : Parsed → ℕ
total p =
    length p.label_rules
    + length p.annotation_rules
    + length p.image_rules
    + length p.replica_rules
    + length p.resource_limit_rules
    + length p.sc_parts

-- Of `n` validations, `hosts` were about host access, and each of the others was collected.
abbrev Collects : ℕ → Parsed → Type 0
Collects n p = (hosts : ℕ) × (total p + hosts ≡ n) × (is_found p.host_access ≡ ltb 0 hosts)

parse_validation-Collects :
    (p : Parsed) (expr msg : Text) (n : ℕ)
    → Collects n p
    → Ensures (Collects (n + 1)) (parse_validation p expr msg)
unfolding parse_validation
parse_validation-Collects p expr msg n (hosts, e, f) =
    Ensures-or_go_on (parse_expression_to_rule expr msg)
      (λ r _. just (hosts, omega (arith, length-append p.label_rules (r ∷ [])), f))
      (λ _.
        Ensures-or_go_on (parse_expression_to_annotation_rule expr msg)
          (λ r _. just (hosts, omega (arith, length-append p.annotation_rules (r ∷ [])), f))
          (λ _.
            Ensures-or_go_on (parse_expression_to_image_rule expr msg)
              (λ r _. just (hosts, omega (arith, length-append p.image_rules (r ∷ [])), f))
              (λ _.
                Ensures-or_go_on (parse_expression_to_replica_rule expr msg)
                  (λ r _. just (hosts, omega (arith, length-append p.replica_rules (r ∷ [])), f))
                  (λ _.
                    Ensures-or_go_on (parse_expression_to_resource_limit_rule expr msg)
                      (λ r _.
                        just
                          (hosts, omega (arith, length-append p.resource_limit_rules (r ∷ [])), f))
                      (λ _.
                        Ensures-or_go_on (parse_expression_to_security_context_part expr)
                          (λ part _.
                            just (
                              hosts,
                              omega (arith, length-append p.sc_parts ((part, msg) ∷ [])),
                              f,
                            ))
                          (λ _.
                            Ensures-or_go_on (parse_expression_to_host_access_part expr)
                              (λ check _. just (hosts + 1, omega arith, ground arith))
                              (λ _. nothing)))))))

parse_validations-Collects :
    (vs : List Json) (p : Parsed) (n : ℕ)
    → Collects n p
    → Ensures (Collects (n + length vs)) (parse_validations vs p)
unfolding parse_validations
parse_validations-Collects [] p n (hosts, e, f) = just (hosts, omega arith, f)
parse_validations-Collects (v ∷ vs) p n h = Ensures->>= (found _) (λ expr _.
    Ensures->>= (found _) (λ msg _. Ensures->>= (parse_validation-Collects p expr msg n h) (λ p' h'.
      Ensures-weaken (λ q (hosts, e, f). (hosts, omega arith, f))
        (parse_validations-Collects vs p' (n + 1) h'))))

-- How many rules of each kind a form of a type lists, where there are `n` validations.
abbrev pub Counted : RuleType → ℕ → ℕ → ℕ → ℕ → ℕ → Type 0
Counted label n l i r m = (l ≡ n) × (i + r + m ≡ 0)
Counted annotation n l i r m = (l ≡ n) × (i + r + m ≡ 0)
Counted image n l i r m = (i ≡ n) × (l + r + m ≡ 0)
Counted replica n l i r m = (r ≡ n) × (l + i + m ≡ 0)
Counted resource_limits n l i r m = (m ≡ n) × (l + i + r ≡ 0)
Counted security_context n l i r m = l + i + r + m ≡ 0
Counted host_access n l i r m = l + i + r + m ≡ 0
Counted configmap_size n l i r m = (n ≡ 1) × (l + i + r + m ≡ 0)
Counted secret_size n l i r m = (n ≡ 1) × (l + i + r + m ≡ 0)

-- The rules that the form lists are of its type, and as many as there are validations; a form of the
-- other types lists none.
abbrev pub ListsAll : ℕ → Builder → Type 0
ListsAll n b =
    Counted b.rule_type n (length b.label_rules) (length b.image_rules) (length b.replica_rules)
      (length b.resource_limit_rules)

abbrev some_of : ℕ → ℕ
some_of n = if n == 0 then 0 else 1

-- The type by the numbers of rules, and whether there is a host check.
abbrev type_by : ℕ → ℕ → ℕ → ℕ → ℕ → Bool → RuleType
type_by a i r m s h =
    if not (r == 0)
    then replica
    else if not (i == 0)
    then image
    else if not (a == 0)
    then annotation
    else if not (m == 0)
    then resource_limits
    else if not (s == 0)
    then security_context
    else if h
    then host_access
    else label

type_by-Counted :
    (l a i r m s hosts n : ℕ)
    → l + a + i + r + m + s + hosts ≡ n
    → 0 < n
    → some_of l + some_of a + some_of i + some_of r + some_of m + some_of s + some_of hosts < 2
    → Counted (type_by a i r m s (ltb 0 hosts)) n (if a == 0 then l else a) i r m
type_by-Counted l a i r m s hosts n e pos one = ground arith

is_empty-length {ℓ} : {A : Type ℓ} (xs : List A) → is_empty xs ≡ (length xs == 0)
is_empty-length [] = refl
is_empty-length (x ∷ xs) = ground arith

length-if {ℓ} :
    {A : Type ℓ} (b : Bool) (xs ys : List A)
    → length (if b then xs else ys) ≡ (if b then length xs else length ys)
length-if true xs ys = refl
length-if false xs ys = refl

one_if-not {ℓ} : {A : Type ℓ} (xs : List A) → one_if (not (is_empty xs)) ≡ some_of (length xs)
one_if-not [] = refl
one_if-not (x ∷ xs) = ground arith

rule_type_of-type_by :
    (p : Parsed) (hosts : ℕ)
    → is_found p.host_access ≡ ltb 0 hosts
    → rule_type_of p
      ≡ type_by
          (length p.annotation_rules)
          (length p.image_rules)
          (length p.replica_rules)
          (length p.resource_limit_rules)
          (length p.sc_parts)
          (ltb 0 hosts)
unfolding rule_type_of
rule_type_of-type_by p hosts f =
    rw
      (
        is_empty-length p.annotation_rules,
        is_empty-length p.image_rules,
        is_empty-length p.replica_rules,
        is_empty-length p.resource_limit_rules,
        is_empty-length p.sc_parts,
        f,
      )
      refl

types_used-some_of :
    (p : Parsed) (hosts : ℕ)
    → is_found p.host_access ≡ ltb 0 hosts
    → types_used p
      ≡ some_of (length p.label_rules)
        + some_of (length p.annotation_rules)
        + some_of (length p.image_rules)
        + some_of (length p.replica_rules)
        + some_of (length p.resource_limit_rules)
        + some_of (length p.sc_parts)
        + some_of hosts
unfolding types_used
types_used-some_of p hosts f =
    rw
      (
        one_if-not p.label_rules,
        one_if-not p.annotation_rules,
        one_if-not p.image_rules,
        one_if-not p.replica_rules,
        one_if-not p.resource_limit_rules,
        one_if-not p.sc_parts,
        f,
      )
      (ap
        (λ k.
          some_of (length p.label_rules)
          + some_of (length p.annotation_rules)
          + some_of (length p.image_rules)
          + some_of (length p.replica_rules)
          + some_of (length p.resource_limit_rules)
          + some_of (length p.sc_parts)
          + k)
        (one_if-ltb hosts))
  where
    one_if-ltb : (k : ℕ) → one_if (ltb 0 k) ≡ some_of k
    one_if-ltb k = ground arith

lt_two : (k : ℕ) → ltb 1 k ≡ false → k < 2
lt_two k h = ground arith

form_of-ListsAll :
    (name : Text) (to : ApplyTo) (p : Parsed) (n : ℕ)
    → Collects n p
    → 0 < n
    → ltb 1 (types_used p) ≡ false
    → ListsAll n (form_of name to p)
unfolding form_of
form_of-ListsAll name to p n (hosts, e, f) pos one =
    rw
      (
        rule_type_of-type_by p hosts f,
        length-if (is_empty p.annotation_rules) p.label_rules p.annotation_rules,
        is_empty-length p.annotation_rules,
      )
      (type_by-Counted (length p.label_rules) (length p.annotation_rules) (length p.image_rules)
        (length p.replica_rules) (length p.resource_limit_rules) (length p.sc_parts) hosts n
        (omega (arith, e)) pos
        (subst (λ k. k < 2) (types_used-some_of p hosts f) (lt_two (types_used p) one)))

sized_form-ListsAll :
    (name : Text) (kind : SizeKind) (rule : SizeLimitRule) → ListsAll 1 (sized_form name kind rule)
unfolding sized_form
sized_form-ListsAll name config_map rule = omega arith
sized_form-ListsAll name secret rule = omega arith

read_rules-ListsAll :
    (doc : Json) (vs : List Json)
    → 0 < length vs
    → Ensures (ListsAll (length vs)) (read_rules doc vs)
unfolding read_rules
read_rules-ListsAll doc vs pos =
    Ensures->>= (parse_validations-Collects vs nothing_parsed 0 (0, refl, refl)) (λ p h.
      Ensures-if (ltb 1 (types_used p)) (λ t. nothing)
        (λ one. Ensures->>= (found _) (λ to _. Ensures->>= (found _) (λ name _.
          just (form_of-ListsAll name to p (length vs) (h.0, omega arith, h.2) pos one)))))

validations_of-filled : (spec : Json) → Ensures (λ vs. 0 < length vs) (validations_of spec)
unfolding validations_of
validations_of-filled spec = Ensures->>= (found _) (λ j _.
    Ensures->>= (found _)
      (λ vs _. Ensures-if (is_empty vs) (λ e. nothing) (λ filled. just (not_empty vs filled))))
  where
    not_empty : (vs : List Json) → is_empty vs ≡ false → 0 < length vs
    not_empty [] h = absurd (ground arith)
    not_empty (v ∷ vs) h = omega arith

-- The document's spec has that many validations.
abbrev pub HasValidations : Json → ℕ → Type 0
HasValidations doc n =
    (spec : Json) × (vs : List Json) × (prop (lit "spec") doc ≡ some spec)
    × (validations_of spec ≡ some vs)
    × (length vs ≡ n)

sized-single :
    (spec : Json) (vs : List Json)
    → Ensures (λ o. (o ≡ none) ⊎ (length vs ≡ 1)) (parse_size_limit_spec spec vs)
unfolding parse_size_limit_spec
sized-single spec [] = just (inl refl)
sized-single spec (v ∷ []) = Ensures-weaken (λ o e. inr refl) (found (sized_validation spec v))
sized-single spec (v ∷ w ∷ vs) = just (inl refl)

form_after_size :
    (doc spec : Json) (vs : List Json) (o : Option (SizeKind × SizeLimitRule))
    → 0 < length vs
    → (o ≡ none) ⊎ (length vs ≡ 1)
    → Ensures (ListsAll (length vs)) (after_size doc vs o)
form_after_size doc spec vs none pos h = read_rules-ListsAll doc vs pos
form_after_size doc spec vs (some (kind, rule)) pos (inl e) = cc
form_after_size doc spec vs (some (kind, rule)) pos (inr e) =
    Ensures->>= (found _) (λ name _. just (rw e (sized_form-ListsAll name kind rule)))

pub read_policy-ListsAll :
    (doc : Json) → Ensures (λ b. (n : ℕ) × HasValidations doc n × ListsAll n b) (read_policy doc)
unfolding read_policy
read_policy-ListsAll doc =
    Ensures-if (is_builder_policy doc)
      (λ t. Ensures->>= (found _) (λ spec s. Ensures->>= (both spec) (λ vs (v, pos).
        Ensures->>= (sized-single spec vs) (λ o h.
          Ensures-weaken (λ b l. (length vs, (spec, vs, s, v, refl), l))
            (form_after_size doc spec vs o pos h)))))
      (λ f. nothing)
  where
    both :
        (spec : Json)
        → Ensures (λ vs. (validations_of spec ≡ some vs) × (0 < length vs)) (validations_of spec)
    both spec = Ensures-both (found (validations_of spec)) (validations_of-filled spec)
