-- ===== src/Vap/Tests.antt =====
-- Concrete policies and bindings.
mod Policies
mod Pages
use k8s_sentinel.Base.{
  All, true, map, List, Text, lit, [], ◌∷◌, none, some, ◌≡◌, refl, length, ◌===◌, false, member,
  get, assign, without, trim, ◌>>=◌, join, items, object, Option, Json, str, arr, if◌then◌else◌,
}
use k8s_sentinel.PlainYaml.{Json_discrete, plain_yaml}
use k8s_sentinel.Vap.Reopen.{BindingForm, rewritten, try_parse_builder_binding}
use k8s_sentinel.Vap.Reopen.Metadata.{HasPlainMetadata}
use k8s_sentinel.Vap.Reopen.Faithful.{
  IsScope, RewritesBinding, try_parse_builder_binding-RewritesBinding,
}
use k8s_sentinel.Vap.{deny, ReplicaResource, HostCheck, SecurityCheck, ResourceLimit}
use k8s_sentinel.Vap.Rules.{replica_expr}
use k8s_sentinel.Vap.Pods.{
  host_access_rule_to_yaml_lines, security_context_rule_to_yaml_lines,
  resource_limit_rule_to_yaml_lines,
}
use k8s_sentinel.Vap.Expressions.{
  parse_expression_to_replica_rule, parse_expression_to_host_access_part,
  parse_expression_to_security_context_part, parse_expression_to_resource_limit_rule,
}
use k8s_sentinel.Vap.Expressions.Folded.{folded_expressions}
use k8s_sentinel.Vap.Expressions.Replicas.{parse_expression_to_replica_rule-replica_expr}
use k8s_sentinel.Vap.Expressions.Recognised.{parts_of}
use k8s_sentinel.Vap.Escape.{
  is_printable, escape_yaml, escape_cel, unescape_yaml, unescape_cel, unescape_yaml-escape_yaml,
}
use k8s_sentinel.Vap.Sizes.{kb_to_bytes}
use k8s_sentinel.Vap.Binding.{include, exclude, binding_lines, generate_binding_yaml}

escapes :
    (escape_yaml (lit "a\"b\\c") ≡ lit "a\\\"b\\\\c") × (escape_cel (lit "it's") ≡ lit "it\\'s")
unfolding escape_yaml escape_cel lit
escapes = (refl, refl)

sizes :
    (kb_to_bytes (lit " 1.5 ") ≡ 1536) × (kb_to_bytes (lit "") ≡ 0) × (kb_to_bytes (lit "x") ≡ 0)
unfolding kb_to_bytes lit
sizes = (refl, refl, refl)

selectors :
    (length (binding_lines (lit "b") (lit "p") include (lit "x" ∷ lit " " ∷ []) (deny ∷ [])) ≡ 13)
    × (length (binding_lines (lit "b") (lit "p") exclude (lit "x" ∷ []) (deny ∷ [])) ≡ 16)
unfolding binding_lines lit
selectors = (refl, refl)

quoted-printable : All (λ c. is_printable c ≡ true) (lit "a\"b\\c")
unfolding is_printable lit
quoted-printable = (refl, (refl, (refl, (refl, (refl, tt)))))

unescape_yaml-escape_yaml_example :
    unescape_yaml (escape_yaml (lit "a\"b\\c")) ≡ some (lit "a\"b\\c")
unescape_yaml-escape_yaml_example = unescape_yaml-escape_yaml (lit "a\"b\\c") quoted-printable

abbrev shop_binding : BindingForm
shop_binding = record {
  name = lit "no-root";
  policy_name = lit "no-root-policy";
  ns_mode = include;
  namespaces = lit "shop" ∷ [];
  actions = lit "Deny" ∷ lit "Audit" ∷ [];
}

abbrev shop_text : Text
shop_text =
    lit
      "apiVersion: admissionregistration.k8s.io/v1\nkind: ValidatingAdmissionPolicyBinding\nmetadata:\n  name: \"no-root\"\n  annotations:\n    sentinel.io/builder: \"true\"\nspec:\n  policyName: \"no-root-policy\"\n  validationActions: [Deny, Audit]\n  matchResources:\n    namespaceSelector:\n      matchLabels:\n        kubernetes.io/metadata.name: shop"

rewritten-shop_binding : rewritten shop_binding ≡ shop_text
unfolding generate_binding_yaml binding_lines lit trim join escape_yaml
rewritten-shop_binding = refl

-- A binding that selects the namespace shop and has the given further fields of `matchResources`.
abbrev binding_document : List (Text × Json) → Json
binding_document defaults = object (
    (lit "kind", str (lit "ValidatingAdmissionPolicyBinding"))
    ∷ (
      lit "metadata",
      object (
          (lit "name", str (lit "no-root"))
          ∷ (lit "annotations", object ((lit "sentinel.io/builder", str (lit "true")) ∷ []))
          ∷ []),
    )
    ∷ (
      lit "spec",
      object (
          (lit "policyName", str (lit "no-root-policy"))
          ∷ (lit "validationActions", arr (items (str (lit "Deny") ∷ str (lit "Audit") ∷ [])))
          ∷ (
            lit "matchResources",
            object (
                (
                  lit "namespaceSelector",
                  object (
                      (
                        lit "matchLabels",
                        object ((lit "kubernetes.io/metadata.name", str (lit "shop")) ∷ []),
                      )
                      ∷ []),
                )
                ∷ defaults),
          )
          ∷ []),
    )
    ∷ [])

-- The library reads the one text that the example writes.
abbrev read_text : Text → Option Json
read_text t = if t === shop_text then some (binding_document []) else none

-- The document as the API server returns it.
abbrev saved_binding : Option Json
saved_binding = some (
    binding_document
      ((lit "matchPolicy", str (lit "Equivalent")) ∷ (lit "objectSelector", object []) ∷ []))

opened_binding : try_parse_builder_binding plain_yaml read_text saved_binding ≡ some shop_binding
unfolding try_parse_builder_binding generate_binding_yaml lit trim get ◌===◌ ◌>>=◌ assign member
    without Json_discrete binding_lines escape_yaml join
opened_binding = refl

try_parse_builder_binding-RewritesBinding_example :
    (doc : Json) × (saved_binding ≡ some doc)
    × HasPlainMetadata doc
    × IsScope (include, lit "shop" ∷ [])
    × RewritesBinding plain_yaml read_text doc shop_binding
try_parse_builder_binding-RewritesBinding_example =
    try_parse_builder_binding-RewritesBinding plain_yaml read_text saved_binding shop_binding
      opened_binding

parse_expression_to_replica_rule-replica_expr_example :
    parse_expression_to_replica_rule (replica_expr ReplicaResource.both 12) (lit "at most 12")
    ≡ some (record {
      max_replicas = 12;
      resource_type = ReplicaResource.both;
      message = lit "at most 12";
    })
parse_expression_to_replica_rule-replica_expr_example =
    parse_expression_to_replica_rule-replica_expr ReplicaResource.both 12 (lit "at most 12")
