-- ===== src/Vap/Open.antt =====
-- pages/VAPPage.tsx: `parseSizeLimitSpec` and `tryParseBuilderPolicy`. `none` stands for `null` and for
-- an exception alike, which the source catches. A message, a name or an `apply-to` that is no text
-- is refused where it is read; the source refuses it at the latest when it regenerates and compares.
pub mod Counts
pub mod Faithful
use k8s_sentinel.Base.{
  Text, lit, ◌===◌, is_empty, is_digit, all, any, includes, trim, join, decimal, number_from, ltb,
  ◌==◌, ◌%◌, ◌/◌, ℕ, if◌then◌else◌, ◌&&◌, ◌||◌, not, Bool, true, false, List, [], ◌∷◌, ◌++◌, Option,
  none, some, ◌>>=◌, or_go_on, Json, null, bool, num, str, arr, obj, cons, nil, prop, prop_of,
  of_items, as_array, as_text, truthy, Yaml, length, ◌+◌,
}
use k8s_sentinel.Cnp.Parse.{reads_true}
use k8s_sentinel.Vap.{
  RuleType, label, annotation, image, replica, resource_limits, security_context, host_access,
  configmap_size, secret_size, ApplyTo, LabelRule, ImageRule, ReplicaRule, ResourceLimitRule,
  SecurityCheck, SecurityContextRule, HostCheck, HostAccessRule, SizeLimitRule,
  empty_security_context_rule, empty_host_access_rule, empty_size_limit_rule,
}
use k8s_sentinel.Vap.Sizes.{SizeKind, config_map, secret, size_total_expr, auto_size_limit_message}
use k8s_sentinel.Vap.Policy.{Builder, apply_name, generate_policy_yaml}
use k8s_sentinel.Vap.Expressions.{
  normalised, parse_expression_to_replica_rule, parse_expression_to_resource_limit_rule,
  SecurityContextPart, no_privileged, run_as_non_root, parse_expression_to_security_context_part,
  parse_expression_to_host_access_part,
}
use k8s_sentinel.Vap.Expressions.Quoted.{
  parse_expression_to_rule, parse_expression_to_annotation_rule, parse_expression_to_image_rule,
}
use k8s_sentinel.Vap.Reopen.{
  metadata_beyond_builder, matches_regenerated, is_text, text_or_blank, array_or_empty,
}

-- `resourceRules?.[0]` of what is read on: a text's first character has no `resources`.
abbrev first_of : Option Json → Option Json
first_of (some (arr (cons j js))) = some j
first_of (some (obj o)) = prop (lit "0") (obj o)
first_of _ = none

-- `(x ?? []).includes(t)`, of a list or a text; `none` where there is no `includes`.
abbrev holds_text : Text → Option Json → Option Bool
holds_text t none = some false
holds_text t (some null) = some false
holds_text t (some (arr xs)) = some (any (λ j. is_text t (some j)) (of_items xs))
holds_text t (some (str s)) = some (includes s t)
holds_text t (some _) = none

abbrev digits_of : Text → Option ℕ
digits_of s = if is_empty s || not (all is_digit s) then none else some (number_from 0 s)

-- `Number(v)` of a text or a number in decimal digits, below 2 ^ 53. Of anything else that it reads
-- as a number, the regenerated manifest has another text.
unfoldable pub bytes_of : Option Json → Option ℕ
unfolding number_from trim
bytes_of (some (str s)) = digits_of (trim s)
bytes_of (some (num n)) = digits_of n
bytes_of _ = none

-- `variables.find(v => v?.name === 'totalLimit')`
unfoldable pub find_limit : List Json → Option Json
find_limit [] = none
find_limit (v ∷ vs) =
    let rest = find_limit vs in
    if is_text (lit "totalLimit") (prop (lit "name") v) then some v else rest

abbrev size_kind_of : Bool → Bool → Option SizeKind
size_kind_of true secrets = some config_map
size_kind_of false true = some secret
size_kind_of false false = none

-- The rule, where the cap is a number of bytes that is whole in KB.
unfoldable pub size_rule_of : SizeKind → Option ℕ → Text → Option (SizeKind × SizeLimitRule)
unfolding decimal auto_size_limit_message
size_rule_of kind none msg = none
size_rule_of kind (some bytes) msg =
    if not (ltb 0 bytes) || not (bytes % 1024 == 0)
    then none
    else let total_kb = decimal (bytes / 1024) in
      let is_default =
        msg === auto_size_limit_message kind (record { total_kb = total_kb; message = [] }) in
      some (kind, record { total_kb = total_kb; message = if is_default then [] else msg })

-- `bool` of what has no `messageExpression`, or one that is empty.
abbrev is_set : Option Json → Bool
is_set none = false
is_set (some j) = truthy j

abbrev pub sized_validation : Json → Json → Option (Option (SizeKind × SizeLimitRule))
sized_validation spec v = do
  expr ← text_or_blank (prop (lit "expression") v)
  (if not (normalised expr === normalised (join (lit " ") size_total_expr))
        || is_set (prop (lit "messageExpression") v)
      then some none
      else do
        let resources =
            prop_of (lit "resources")
              (first_of (prop_of (lit "resourceRules") (prop (lit "matchConstraints") spec)))
        maps ← holds_text (lit "configmaps") resources
        secrets ← holds_text (lit "secrets") resources
        elim (size_kind_of maps secrets) [
          | none ↦ some none
          | some kind ↦ (do
            variables ← array_or_empty (prop (lit "variables") spec)
            msg ← text_or_blank (prop (lit "message") v)
            some (
                size_rule_of kind (bytes_of (prop_of (lit "expression") (find_limit variables)))
                  msg))
        ])

-- `none` where it throws, `some none` where it returns `null`.
unfoldable pub parse_size_limit_spec : Json → List Json → Option (Option (SizeKind × SizeLimitRule))
unfolding normalised join find_limit size_rule_of bytes_of
parse_size_limit_spec spec (v ∷ []) = sized_validation spec v
parse_size_limit_spec spec _ = some none

-- What the loop over the validations has collected.
pub record Parsed : Type 0 where
  pub label_rules : List LabelRule
  pub image_rules : List ImageRule
  pub replica_rules : List ReplicaRule
  pub annotation_rules : List LabelRule
  pub resource_limit_rules : List ResourceLimitRule
  pub sc_parts : List (SecurityContextPart × Text)
  pub host_access : Option HostAccessRule

abbrev pub nothing_parsed : Parsed
nothing_parsed = record {
  label_rules = [];
  image_rules = [];
  replica_rules = [];
  annotation_rules = [];
  resource_limit_rules = [];
  sc_parts = [];
  host_access = none;
}

-- One validation of the loop: the first reader that knows its expression.
unfoldable pub parse_validation : Parsed → Text → Text → Option Parsed
parse_validation p expr msg =
    or_go_on (parse_expression_to_rule expr msg)
      (λ r. some (record p { label_rules = p.label_rules ++ r ∷ [] }))
      (or_go_on (parse_expression_to_annotation_rule expr msg)
        (λ r. some (record p { annotation_rules = p.annotation_rules ++ r ∷ [] }))
        (or_go_on (parse_expression_to_image_rule expr msg)
          (λ r. some (record p { image_rules = p.image_rules ++ r ∷ [] }))
          (or_go_on (parse_expression_to_replica_rule expr msg)
            (λ r. some (record p { replica_rules = p.replica_rules ++ r ∷ [] }))
            (or_go_on (parse_expression_to_resource_limit_rule expr msg)
              (λ r. some (record p { resource_limit_rules = p.resource_limit_rules ++ r ∷ [] }))
              (or_go_on (parse_expression_to_security_context_part expr)
                (λ part. some (record p { sc_parts = p.sc_parts ++ (part, msg) ∷ [] }))
                (or_go_on (parse_expression_to_host_access_part expr)
                  (λ check. some (record p {
                    host_access = some (record { check_type = check; message = msg });
                  }))
                  none))))))

unfoldable pub parse_validations : List Json → Parsed → Option Parsed
unfolding parse_validation
parse_validations [] p = some p
parse_validations (v ∷ vs) p = do
  expr ← text_or_blank (prop (lit "expression") v)
  msg ← text_or_blank (prop (lit "message") v)
  p' ← parse_validation p expr msg
  parse_validations vs p'

abbrev is_part : SecurityContextPart → SecurityContextPart → Bool
is_part no_privileged no_privileged = true
is_part run_as_non_root run_as_non_root = true
is_part _ _ = false

abbrev pub has_part : SecurityContextPart → List (SecurityContextPart × Text) → Bool
has_part part = any (λ p. is_part part p.0)

-- The check that the parts make up, with the message of the first.
unfoldable pub security_context_rule_of : List (SecurityContextPart × Text) → SecurityContextRule
security_context_rule_of parts = record {
  check_type =
      if has_part no_privileged parts && has_part run_as_non_root parts
      then SecurityCheck.both
      else if has_part run_as_non_root parts
      then SecurityCheck.run_as_non_root
      else SecurityCheck.no_privileged;
  message = first_message parts;
}
  where
    first_message : List (SecurityContextPart × Text) → Text
    first_message [] = []
    first_message (p ∷ ps) = p.1

abbrev pub is_found {ℓ} : {A : Type ℓ} → Option A → Bool
is_found none = false
is_found (some a) = true

abbrev pub one_if : Bool → ℕ
one_if b = if b then 1 else 0

-- `typesUsed`
unfoldable pub types_used : Parsed → ℕ
types_used p =
    one_if (not (is_empty p.label_rules))
    + one_if (not (is_empty p.annotation_rules))
    + one_if (not (is_empty p.image_rules))
    + one_if (not (is_empty p.replica_rules))
    + one_if (not (is_empty p.resource_limit_rules))
    + one_if (not (is_empty p.sc_parts))
    + one_if (is_found p.host_access)

unfoldable pub rule_type_of : Parsed → RuleType
rule_type_of p =
    if not (is_empty p.replica_rules)
    then replica
    else if not (is_empty p.image_rules)
    then image
    else if not (is_empty p.annotation_rules)
    then annotation
    else if not (is_empty p.resource_limit_rules)
    then resource_limits
    else if not (is_empty p.sc_parts)
    then security_context
    else if is_found p.host_access
    then host_access
    else label

abbrev named_targets : List ApplyTo
named_targets =
    ApplyTo.all ∷ ApplyTo.workloads ∷ ApplyTo.pods ∷ ApplyTo.deployments ∷ ApplyTo.statefulsets
    ∷ ApplyTo.daemonsets ∷ ApplyTo.jobs ∷ ApplyTo.cronjobs ∷ ApplyTo.configmaps ∷ ApplyTo.secrets
    ∷ ApplyTo.persistentvolumeclaims ∷ ApplyTo.services ∷ ApplyTo.ingresses
    ∷ ApplyTo.networkpolicies ∷ ApplyTo.serviceaccounts ∷ ApplyTo.namespaces ∷ []

abbrev target_among : List ApplyTo → Text → ApplyTo
target_among [] t = ApplyTo.other t
target_among (a ∷ as') t = if apply_name a === t then a else target_among as' t

-- `annotations?.['sentinel.io/apply-to'] || 'workloads'`
unfoldable pub apply_to_of : Option Json → Option ApplyTo
apply_to_of none = some ApplyTo.workloads
apply_to_of (some j) =
    if truthy j
    then (do t ← as_text j; some (target_among named_targets t))
    else some ApplyTo.workloads

abbrev or_empty_host : Option HostAccessRule → HostAccessRule
or_empty_host none = empty_host_access_rule
or_empty_host (some r) = r

-- The form of what the loop collected.
unfoldable pub form_of : Text → ApplyTo → Parsed → Builder
unfolding rule_type_of security_context_rule_of
form_of name apply_to p = record {
  name = name;
  rule_type = rule_type_of p;
  label_rules = if is_empty p.annotation_rules then p.label_rules else p.annotation_rules;
  image_rules = p.image_rules;
  replica_rules = p.replica_rules;
  apply_to = apply_to;
  resource_limit_rules = p.resource_limit_rules;
  security_context_rule = security_context_rule_of p.sc_parts;
  host_access_rule = or_empty_host p.host_access;
  config_map_size_rule = empty_size_limit_rule;
  secret_size_rule = empty_size_limit_rule;
}

abbrev size_rule_type : SizeKind → RuleType
size_rule_type config_map = configmap_size
size_rule_type secret = secret_size

abbrev rule_if : Bool → SizeLimitRule → SizeLimitRule
rule_if b r = if b then r else empty_size_limit_rule

abbrev is_config_map : SizeKind → Bool
is_config_map config_map = true
is_config_map secret = false

-- The form of a size limit.
unfoldable pub sized_form : Text → SizeKind → SizeLimitRule → Builder
sized_form name kind rule = record {
  name = name;
  rule_type = size_rule_type kind;
  label_rules = [];
  image_rules = [];
  replica_rules = [];
  apply_to = ApplyTo.workloads;
  resource_limit_rules = [];
  security_context_rule = empty_security_context_rule;
  host_access_rule = empty_host_access_rule;
  config_map_size_rule = rule_if (is_config_map kind) rule;
  secret_size_rule = rule_if (not (is_config_map kind)) rule;
}

abbrev annotations_of : Json → Option Json
annotations_of doc = prop_of (lit "annotations") (prop (lit "metadata") doc)

unfoldable pub is_builder_policy : Json → Bool
is_builder_policy doc =
    is_text (lit "ValidatingAdmissionPolicy") (prop (lit "kind") doc)
    && reads_true (prop_of (lit "sentinel.io/builder") (annotations_of doc))

-- The validations, of which there is one at least.
unfoldable pub validations_of : Json → Option (List Json)
validations_of spec = do
  j ← prop (lit "validations") spec
  vs ← as_array j
  (if is_empty vs then none else some vs)

unfoldable pub read_rules : Json → List Json → Option Builder
unfolding parse_validations types_used form_of apply_to_of
read_rules doc vs = do
  p ← parse_validations vs nothing_parsed
  (if ltb 1 (types_used p) then none else do
    apply_to ← apply_to_of (prop_of (lit "sentinel.io/apply-to") (annotations_of doc))
    name ← text_or_blank (prop_of (lit "name") (prop (lit "metadata") doc))
    some (form_of name apply_to p))

-- The size limits branch before the loop.
abbrev pub after_size : Json → List Json → Option (SizeKind × SizeLimitRule) → Option Builder
after_size doc vs none = read_rules doc vs
after_size doc vs (some (kind, rule)) = do
  name ← text_or_blank (prop_of (lit "name") (prop (lit "metadata") doc))
  some (sized_form name kind rule)

-- What the form would show, before it is compared.
unfoldable pub read_policy : Json → Option Builder
unfolding is_builder_policy validations_of parse_size_limit_spec sized_form read_rules
read_policy doc =
    if is_builder_policy doc
    then (do
      spec ← prop (lit "spec") doc
      vs ← validations_of spec
      sized ← parse_size_limit_spec spec vs
      after_size doc vs sized)
    else none

module _ (yaml : Yaml) (text : Text → yaml.Doc) where
  -- The guard that both branches end with.
  unfoldable pub reproduces_policy : Builder → Json → Bool
  unfolding generate_policy_yaml
  reproduces_policy b doc =
      matches_regenerated yaml text (yaml.load (text (generate_policy_yaml b))) doc

  unfoldable pub try_parse_builder_policy : yaml.Doc → Option Builder
  unfolding read_policy metadata_beyond_builder reproduces_policy
  try_parse_builder_policy raw = do
    doc ← yaml.load raw
    b ← read_policy doc
    (if metadata_beyond_builder doc then none else if reproduces_policy b doc then some b else none)
