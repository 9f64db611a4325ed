-- ===== src/Vap/Reopen.antt =====
-- pages/VAPPage.tsx: `metadataBeyondBuilder`, `specForCompare` and `tryParseBuilderBinding`. `none`
-- stands for `null` and for an exception alike, which the source catches. An action that is
-- no text is refused where it is read.
pub mod Kept
pub mod Defaults
pub mod Metadata
pub mod Faithful
use k8s_sentinel.Base.{
  Text, lit, ◌===◌, member, is_empty, any, filter, map, if◌then◌else◌, ◌&&◌, ◌||◌, not, Bool, true,
  false, Bool-cases, List, [], ◌∷◌, Option, none, some, ◌>>=◌, or_else, Object, get, assign,
  without, Json, null, bool, num, str, arr, obj, Items, nil, cons, Fields, end, field, items,
  of_items, of_fields, object, prop, prop_of, as_array, as_text, truthy, Yaml, ◌≡◌, refl, Ensures,
  nothing, just, ensured, Ensures->>=, Ensures-if, found, arith, ap, ◌∙◌, sym,
}
use k8s_sentinel.Cnp.Parse.{reads_true}
use k8s_sentinel.Vap.{ValidationAction, deny}
use k8s_sentinel.Vap.Binding.{BindingNsMode, include, exclude, generate_binding_yaml}

abbrev pub own_annotations : List Text
own_annotations =
    lit "sentinel.io/builder"
    ∷ lit "sentinel.io/apply-to"
    ∷ lit "sentinel.io/created-by"
    ∷ lit "kubectl.kubernetes.io/last-applied-configuration"
    ∷ []

-- `Object.keys(v ?? {})` has a key that the test holds of; the keys of a list or a text are indices.
abbrev pub any_key : (Text → Bool) → Option Json → Bool
any_key p (some (obj o)) = any (λ e. p e.0) (of_fields o)
any_key p (some (arr xs)) = not (is_empty (of_items xs))
any_key p (some (str s)) = not (is_empty s)
any_key p _ = false

unfoldable pub metadata_beyond_builder : Json → Bool
unfolding member
metadata_beyond_builder doc =
    any_key (λ k. true) (prop_of (lit "labels") (prop (lit "metadata") doc))
    || any_key (λ k. not (member k own_annotations))
        (prop_of (lit "annotations") (prop (lit "metadata") doc))

abbrev pub is_text : Text → Option Json → Bool
is_text t (some (str s)) = s === t
is_text t _ = false

-- `emptyObj`
abbrev pub is_empty_object : Option Json → Bool
is_empty_object (some (obj end)) = true
is_empty_object (some (arr nil)) = true
is_empty_object _ = false

abbrev pub without_if : Bool → Text → Object Json → Object Json
without_if b k o = if b then without k o else o

-- One rule without its default scope.
unfoldable pub strip_scope : Json → Option Json
strip_scope null = none
strip_scope (obj o) = some (
    object (
      without_if (is_text (lit "*") (get (lit "scope") (of_fields o))) (lit "scope") (of_fields o)))
strip_scope j = some j

unfoldable pub strip_scopes : List Json → Option (List Json)
unfolding strip_scope
strip_scopes [] = some []
strip_scopes (r ∷ rs) = do r' ← strip_scope r; rs' ← strip_scopes rs; some (r' ∷ rs')

-- The rules under a key: nothing there, a list, or a text, whose characters have no scope.
abbrev pub strip_rules_at : Text → Object Json → Option Json → Option (Object Json)
strip_rules_at k mc none = some mc
strip_rules_at k mc (some null) = some mc
strip_rules_at k mc (some (str s)) = some mc
strip_rules_at k mc (some (arr xs)) = do
  rs ← strip_scopes (of_items xs)
  some (assign k (arr (items rs)) mc)
strip_rules_at k mc (some _) = none

unfoldable pub strip_rules : Text → Object Json → Option (Object Json)
unfolding strip_scopes
strip_rules k mc = strip_rules_at k mc (get k mc)

-- One of the two match objects without the defaults of the API server.
unfoldable pub strip_match : Object Json → Option (Object Json)
unfolding strip_rules
strip_match mc = do
  let policy =
      without_if (is_text (lit "Equivalent") (get (lit "matchPolicy") mc)) (lit "matchPolicy") mc
  let ns =
      without_if (is_empty_object (get (lit "namespaceSelector") policy)) (lit "namespaceSelector")
        policy
  let selectors =
      without_if (is_empty_object (get (lit "objectSelector") ns)) (lit "objectSelector") ns
  rules ← strip_rules (lit "resourceRules") selectors
  strip_rules (lit "excludeResourceRules") rules

-- A part that is no object is left as it is.
abbrev pub strip_part : Text → Object Json → Option Json → Option (Object Json)
strip_part k spec (some (obj mc)) = do
  mc' ← strip_match (of_fields mc)
  some (assign k (object mc') spec)
strip_part k spec _ = some spec

unfoldable pub strip_at : Text → Object Json → Option (Object Json)
unfolding strip_match
strip_at k spec = strip_part k spec (get k spec)

-- What `specForCompare` dumps.
unfoldable pub spec_for_compare : Option Json → Option Json
unfolding strip_at
spec_for_compare none = some (object [])
spec_for_compare (some null) = some (object [])
spec_for_compare (some (obj o)) = do
  constraints ← strip_at (lit "matchConstraints") (of_fields o)
  resources ← strip_at (lit "matchResources") constraints
  some (object resources)
spec_for_compare (some j) = some j

pub record BindingForm : Type 0 where
  pub name : Text
  pub policy_name : Text
  pub ns_mode : BindingNsMode
  pub namespaces : List Text
  pub actions : List ValidationAction

abbrev pub text_or_blank : Option Json → Option Text
text_or_blank none = some []
text_or_blank (some null) = some []
text_or_blank (some j) = as_text j

unfoldable pub texts_of : List Json → Option (List Text)
texts_of [] = some []
texts_of (j ∷ js) = do t ← as_text j; ts ← texts_of js; some (t ∷ ts)

-- `validationActions ?? ['Deny']`
unfoldable pub actions_of : Option Json → Option (List ValidationAction)
unfolding texts_of
actions_of none = some (deny ∷ [])
actions_of (some null) = some (deny ∷ [])
actions_of (some j) = as_array j >>= texts_of

-- `x ?? []`
abbrev pub array_or_empty : Option Json → Option (List Json)
array_or_empty none = some []
array_or_empty (some null) = some []
array_or_empty (some j) = as_array j

abbrev pub name_key : Text
name_key = lit "kubernetes.io/metadata.name"

unfoldable pub operator_mode : Option Json → Option BindingNsMode
operator_mode o =
    if is_text (lit "In") o
    then some include
    else if is_text (lit "NotIn") o
    then some exclude
    else none

-- One expression: the namespaces that it includes or excludes.
unfoldable pub scope_of_expression : Json → Option (BindingNsMode × List Text)
unfolding texts_of operator_mode
scope_of_expression e =
    if is_text name_key (prop (lit "key") e)
    then (do
      mode ← operator_mode (prop (lit "operator") e)
      values ← array_or_empty (prop (lit "values") e)
      names ← texts_of (filter truthy values)
      (if is_empty names then none else some (mode, names)))
    else none

-- `matchExpressions ?? []` where only a list or a text has a length.
abbrev expressions_of : Option Json → List Json
expressions_of (some (arr xs)) = of_items xs
expressions_of (some (str s)) = map (λ c. str (c ∷ [])) s
expressions_of _ = []

unfoldable pub scope_of_expressions : List Json → Option (BindingNsMode × List Text)
unfolding scope_of_expression
scope_of_expressions [] = some (BindingNsMode.all, [])
scope_of_expressions (e ∷ []) = scope_of_expression e
scope_of_expressions (e ∷ f ∷ rest) = none

-- The single label, if there is one, and nothing beside it.
unfoldable pub scope_of : Option Json → List Json → Option (BindingNsMode × List Text)
unfolding scope_of_expressions
scope_of none exprs = scope_of_expressions exprs
scope_of (some j) exprs =
    if truthy j
    then (do ns ← as_text j; (if is_empty exprs then some (include, ns ∷ []) else none))
    else scope_of_expressions exprs

-- `String(annotations['sentinel.io/builder']) === 'true'` of a binding.
unfoldable pub is_builder_binding : Json → Bool
is_builder_binding doc =
    is_text (lit "ValidatingAdmissionPolicyBinding") (prop (lit "kind") doc)
    && reads_true (
        prop_of (lit "sentinel.io/builder")
          (prop_of (lit "annotations") (prop (lit "metadata") doc)))

-- `spec?.matchResources?.namespaceSelector`
abbrev selector_of : Option Json → Option Json
selector_of spec = prop_of (lit "namespaceSelector") (prop_of (lit "matchResources") spec)

unfoldable pub read_binding : Json → Option BindingForm
unfolding scope_of actions_of
read_binding doc = do
  let spec = prop (lit "spec") doc
  (mode, namespaces) ←
      scope_of (prop_of name_key (prop_of (lit "matchLabels") (selector_of spec)))
        (expressions_of (prop_of (lit "matchExpressions") (selector_of spec)))
  name ← text_or_blank (prop_of (lit "name") (prop (lit "metadata") doc))
  policy_name ← text_or_blank (prop_of (lit "policyName") spec)
  actions ← actions_of (prop_of (lit "validationActions") spec)
  some (record {
    name = name;
    policy_name = policy_name;
    ns_mode = mode;
    namespaces = namespaces;
    actions = actions;
  })

-- The text that saving the form writes.
abbrev pub rewritten : BindingForm → Text
rewritten b = generate_binding_yaml b.name b.policy_name b.ns_mode b.namespaces b.actions

module _ (yaml : Yaml) (text : Text → yaml.Doc) where
  -- Two specs have one dump, if neither throws.
  abbrev pub same_compared : Option Json → Option Json → Bool
  same_compared (some a) (some b) = yaml.same (yaml.canon a) (yaml.canon b)
  same_compared _ _ = false

  abbrev pub matches_regenerated : Option Json → Json → Bool
  matches_regenerated none doc = false
  matches_regenerated (some regen) doc =
      truthy regen
      && same_compared (spec_for_compare (prop (lit "spec") regen))
          (spec_for_compare (prop (lit "spec") doc))

  unfoldable pub reproduces_binding : BindingForm → Json → Bool
  unfolding spec_for_compare generate_binding_yaml
  reproduces_binding b doc = matches_regenerated (yaml.load (text (rewritten b))) doc

  unfoldable pub try_parse_builder_binding : yaml.Doc → Option BindingForm
  unfolding is_builder_binding read_binding metadata_beyond_builder reproduces_binding
  try_parse_builder_binding raw = do
    doc ← yaml.load raw
    b ← (if is_builder_binding doc then read_binding doc else none)
    (if metadata_beyond_builder doc
        then none
        else if reproduces_binding b doc
        then some b
        else none)
