-- ===== src/Cnp/Parse.antt =====
-- utils/cnpForm.ts: `tryParseCNPForm` and `parseRules`. `none` stands for `null` and for an
-- exception alike; Cnp/Page, where the two differ, tells them apart. Where a value has another shape than the source's types
-- declare, the source's comparison with the regenerated manifest, or a `trim` of what is no text,
-- ends in one of the two; the model refuses the value where it is read.
pub mod Head
pub mod Faithful
pub mod Settled
pub mod Stable
pub mod SettledForm
pub mod Sections
pub mod Reopen
use k8s_sentinel.Base.{
  cons, nil, Text, lit, ◌===◌, is_empty, length, ◌+◌, ◌==◌, if◌then◌else◌, ◌&&◌, ◌||◌, not, Bool,
  true, false, List, [], ◌∷◌, map, Option, none, some, ◌>>=◌, or_else, Object, get, without, Json,
  null, bool, num, str, arr, obj, prop, prop_of, as_array, as_object, as_text, truthy, of_fields,
  of_items, Yaml,
}
use k8s_sentinel.Cnp.{
  Mode, blacklist, whitelist, Direction, ingress, egress, Scope, namespaced, cluster, labels,
  entity, cidr, fqdn, PortEntry, HttpRule, Rule, Section, FormInput, empty_section, empty_rule,
}
use k8s_sentinel.Cnp.Labels.{namespace_key, to_label_pairs}
use k8s_sentinel.Cnp.Render.{
  builder_annotation, dns_visibility_rule, direction_key, deny_key, cnp_form_to_yaml,
}

-- `x ?? ''` of a field that is a text if it is there.
abbrev pub text_or_blank : Option Json → Option Text
text_or_blank none = some []
text_or_blank (some null) = some []
text_or_blank (some j) = as_text j

-- `xs.map(f)` where `f` may fail.
unfoldable pub traverse {ℓ κ} :
    {A : Type ℓ} {B : Type κ} → (A → Option B) → List A → Option (List B)
traverse f [] = some []
traverse f (x ∷ xs) = do y ← f x; ys ← traverse f xs; some (y ∷ ys)

unfoldable pub text_entry : Text × Json → Option (Text × Text)
text_entry (k, j) = do v ← as_text j; some (k, v)

-- A `matchLabels` object.
unfoldable pub label_object : Json → Option (Object Text)
unfolding traverse text_entry
label_object j = do o ← as_object j; traverse text_entry o

-- `xs?.length === 1`, and that one element.
abbrev pub only : Option Json → Option Json
only none = none
only (some j) = elim (as_array j) [
  | none ↦ none
  | some xs ↦ elim xs [ [] ↦ none | x ∷ rest ↦ if is_empty rest then some x else none ]
]

unfoldable pub parse_port : Json → Option PortEntry
parse_port j = do
  port ← prop (lit "port") j >>= as_text
  protocol ← prop (lit "protocol") j >>= as_text
  some (record { port = port; protocol = protocol })

unfoldable pub parse_http : Json → Option HttpRule
parse_http j = do
  method ← text_or_blank (prop (lit "method") j)
  path ← text_or_blank (prop (lit "path") j)
  some (record { method = method; path = path })

-- `xs ?? []`
abbrev array_or_empty : Option Json → Option (List Json)
array_or_empty none = some []
array_or_empty (some null) = some []
array_or_empty (some j) = as_array j

-- The `toPorts` part of a rule, put into the form's rule.
unfoldable pub parse_ports : Option Json → Rule → Option Rule
unfolding traverse parse_port parse_http
parse_ports none rule = some rule
parse_ports (some j) rule = if not (truthy j) then some rule else do
  pr ← only (some j)
  ports ← array_or_empty (prop (lit "ports") pr) >>= traverse parse_port
  http ← array_or_empty (prop_of (lit "http") (prop (lit "rules") pr)) >>= traverse parse_http
  some (record rule { ports = ports; http = http })

unfoldable pub parse_endpoint : Json → Option Rule
unfolding label_object
parse_endpoint e = do
  o ← prop (lit "matchLabels") e >>= label_object
  (if is_empty o
      then none
      else some (record empty_rule {
        peer_kind = labels;
        peer_namespace = or_else (get namespace_key o) [];
        peer_labels = to_label_pairs (without namespace_key o);
      }))

unfoldable pub parse_entity : Json → Option Rule
parse_entity e = do t ← as_text e; some (record empty_rule { peer_kind = entity; peer_entity = t })

unfoldable pub parse_cidr : Json → Option Rule
parse_cidr e = do t ← as_text e; some (record empty_rule { peer_kind = cidr; peer_cidr = t })

-- `matchName ?? matchPattern ?? ''`
abbrev nullish_or : Option Json → Option Json → Option Json
nullish_or none d = d
nullish_or (some null) d = d
nullish_or (some j) d = some j

unfoldable pub parse_fqdn : Json → Option Rule
parse_fqdn e = do
  t ← text_or_blank (nullish_or (prop (lit "matchName") e) (prop (lit "matchPattern") e))
  (if is_empty t then none else some (record empty_rule { peer_kind = fqdn; peer_fqdn = t }))

-- The peer of a rule: the first of the four kinds that has exactly one entry.
unfoldable pub first_peer : Option Json → Option Json → Option Json → Option Json → Option Rule
unfolding parse_endpoint parse_entity parse_cidr parse_fqdn
first_peer (some e) _ _ _ = parse_endpoint e
first_peer none (some e) _ _ = parse_entity e
first_peer none none (some e) _ = parse_cidr e
first_peer none none none (some e) = parse_fqdn e
first_peer none none none none = none

unfoldable pub parse_peer : Direction → Json → Option Rule
unfolding first_peer
parse_peer ingress cr =
    first_peer (only (prop (lit "fromEndpoints") cr)) (only (prop (lit "fromEntities") cr))
      (only (prop (lit "fromCIDR") cr)) none
parse_peer egress cr =
    first_peer (only (prop (lit "toEndpoints") cr)) (only (prop (lit "toEntities") cr))
      (only (prop (lit "toCIDR") cr)) (only (prop (lit "toFQDNs") cr))

unfoldable pub parse_rule : Direction → Json → Option Rule
unfolding parse_peer parse_ports
parse_rule d cr = do rule ← parse_peer d cr; parse_ports (prop (lit "toPorts") cr) rule

abbrev pub is_egress : Direction → Bool
is_egress egress = true
is_egress ingress = false

-- `Array.isArray(spec[k])`
abbrev pub array_at : Text → Object Json → Option (List Json)
array_at k spec = get k spec >>= as_array

-- `typeof spec.description === 'string'`
abbrev pub description_of : Object Json → Text
description_of spec = or_else (get (lit "description") spec >>= as_text) []

-- The cluster-wide kind, the namespaced one, or neither.
unfoldable pub policy_scope : Json → Option Scope
policy_scope doc = do
  kind ← prop (lit "kind") doc >>= as_text
  (if kind === lit "CiliumClusterwideNetworkPolicy"
      then some cluster
      else if kind === lit "CiliumNetworkPolicy"
      then some namespaced
      else none)

abbrev is_cluster : Scope → Bool
is_cluster cluster = true
is_cluster namespaced = false

-- `String(v) === 'true'`, where a list of one value reads as that value.
abbrev pub value_reads_true : Json → Bool
value_reads_true (str s) = s === lit "true"
value_reads_true (bool b) = b
value_reads_true (arr (cons j nil)) = value_reads_true j
value_reads_true _ = false

abbrev pub reads_true : Option Json → Bool
reads_true none = false
reads_true (some j) = value_reads_true j

-- `Object.keys(labels ?? {}).length > 0`
abbrev pub has_keys : Option Json → Bool
has_keys none = false
has_keys (some (obj o)) = not (is_empty (of_fields o))
has_keys (some (arr xs)) = not (is_empty (of_items xs))
has_keys (some (str s)) = not (is_empty s)
has_keys (some _) = false

abbrev pub is_there : Option Json → Bool
is_there none = false
is_there (some j) = true

-- What is looked at before the spec: the annotation, and what a save would drop.
unfoldable pub is_form_policy : Json → Bool
is_form_policy doc =
    reads_true
      (prop_of builder_annotation (prop_of (lit "annotations") (prop (lit "metadata") doc)))
    && not (is_there (prop (lit "specs") doc))
    && not (has_keys (prop_of (lit "labels") (prop (lit "metadata") doc)))

-- The `matchLabels` of the subject, which must not be empty.
unfoldable pub subject_labels : Object Json → Option (Object Text)
unfolding label_object
subject_labels spec = do
  o ← get (lit "endpointSelector") spec >>= prop (lit "matchLabels") >>= label_object
  (if is_empty o then none else some o)

-- A namespaced policy has no field for the subject's namespace.
unfoldable pub hides_namespace : Scope → Text → Bool
hides_namespace cluster ns = false
hides_namespace namespaced ns = not (is_empty ns)

-- The namespace of a namespaced policy.
abbrev pub namespace_of : Scope → Json → Option Text
namespace_of cluster doc = some []
namespace_of namespaced doc = text_or_blank (prop_of (lit "namespace") (prop (lit "metadata") doc))

module _ (yaml : Yaml) where
  -- The loop of `parseRules`: the DNS rule is not shown.
  unfoldable pub parse_rule_list : Direction → List Json → Option (List Rule)
  unfolding parse_rule
  parse_rule_list d [] = some []
  parse_rule_list d (cr ∷ crs) =
      let rest = parse_rule_list d crs in
      if is_egress d && yaml.same (yaml.canon cr) (yaml.canon dns_visibility_rule)
      then rest
      else do rule ← parse_rule d cr; rules ← rest; some (rule ∷ rules)

  unfoldable pub parse_rules : Direction → List Json → Option (List Rule)
  unfolding parse_rule_list
  parse_rules d crs = if is_empty crs then none else parse_rule_list d crs

  -- One direction: an allow section, a deny section or none, never both.
  unfoldable pub pick_section : Direction → Option (List Json) → Option (List Json) → Option Section
  unfolding parse_rules
  pick_section d (some _) (some _) = none
  pick_section d none none = some empty_section
  pick_section d none (some deny) = do
    rules ← parse_rules d deny
    some (record { mode = blacklist; rules = rules })
  pick_section d (some allow) none = do
    rules ← parse_rules d allow
    some (record { mode = whitelist; rules = rules })

  unfoldable pub parse_section : Direction → Object Json → Option Section
  unfolding pick_section
  parse_section d spec =
      pick_section d (array_at (direction_key d) spec) (array_at (deny_key d) spec)

  -- The form state that a document reads as, before the comparison.
  unfoldable pub read_form : Json → Option FormInput
  unfolding policy_scope is_form_policy subject_labels hides_namespace parse_section
  read_form doc = do
    scope ← policy_scope doc
    spec ← (if is_form_policy doc then prop (lit "spec") doc >>= as_object else none)
    o ← subject_labels spec
    let ns = or_else (get namespace_key o) []
    i ← (if hides_namespace scope ns then none else parse_section ingress spec)
    e ← parse_section egress spec
    name ← text_or_blank (prop_of (lit "name") (prop (lit "metadata") doc))
    namespace ← namespace_of scope doc
    (if length i.rules + length e.rules == 0
        then none
        else some (record {
          name = name;
          scope = scope;
          namespace = namespace;
          comment = some (description_of spec);
          subject = to_label_pairs (without namespace_key o);
          subject_namespace = ns;
          ingress = i;
          egress = e;
        }))

  -- Whether two specs have one dump with sorted keys.
  abbrev pub same_spec : Option Json → Option Json → Bool
  same_spec none _ = false
  same_spec (some a) none = false
  same_spec (some a) (some b) = yaml.same (yaml.canon a) (yaml.canon b)

  -- Whether saving the form would write the document's spec again.
  unfoldable pub reproduces : FormInput → Json → Bool
  unfolding cnp_form_to_yaml
  reproduces form doc =
      same_spec (prop_of (lit "spec") (yaml.load (cnp_form_to_yaml yaml form)))
        (prop (lit "spec") doc)

  unfoldable pub try_parse_cnp_form : yaml.Doc → Option FormInput
  unfolding read_form reproduces
  try_parse_cnp_form raw = do
    doc ← yaml.load raw
    form ← read_form doc
    (if reproduces form doc then some form else none)
