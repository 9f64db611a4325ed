-- ===== src/Vap/Tests/Policies.antt =====
-- A concrete admission policy, saved and opened again.
use k8s_sentinel.Base.{
  List, Text, lit, [], ◌∷◌, some, none, ◌≡◌, refl, ◌===◌, member, get, assign, without, trim, ◌>>=◌,
  items, object, Option, Json, str, arr, if◌then◌else◌,
}
use k8s_sentinel.PlainYaml.{Json_discrete, plain_yaml}
use k8s_sentinel.Vap.{
  LabelRule, unequal, label, ApplyTo, empty_security_context_rule, empty_host_access_rule,
  empty_size_limit_rule,
}
use k8s_sentinel.Vap.Policy.{Builder, generate_policy_yaml}
use k8s_sentinel.Vap.Rules.{rule_to_yaml_lines}
use k8s_sentinel.Vap.Reopen.{spec_for_compare}
use k8s_sentinel.Vap.Escape.{escape_yaml, escape_cel}
use k8s_sentinel.Vap.Expressions.Quoted.{parse_expression_to_rule}
use k8s_sentinel.Vap.Open.{try_parse_builder_policy}
use k8s_sentinel.Vap.Open.Faithful.{Shows, try_parse_builder_policy-Shows}

abbrev pub team_rule : LabelRule
team_rule = record {
  key = lit "team";
  condition = unequal;
  value = lit "a b";
  message = lit "say whose it is";
}

abbrev pub team_policy : Builder
team_policy = record {
  name = lit "teams";
  rule_type = label;
  label_rules = team_rule ∷ [];
  image_rules = [];
  replica_rules = [];
  apply_to = ApplyTo.pods;
  resource_limit_rules = [];
  security_context_rule = empty_security_context_rule;
  host_access_rule = empty_host_access_rule;
  config_map_size_rule = empty_size_limit_rule;
  secret_size_rule = empty_size_limit_rule;
}

abbrev pub team_expression : Text
team_expression =
    lit
      "has(object.metadata.labels) && 'team' in object.metadata.labels && object.metadata.labels['team'] == 'a b'"

read_team : parse_expression_to_rule team_expression team_rule.message ≡ some team_rule
unfolding parse_expression_to_rule lit ◌>>=◌
read_team = refl

abbrev pub texts : List Text → Json
texts ts = arr (items (strs ts))
  where
    strs : List Text → List Json
    strs [] = []
    strs (t ∷ ts) = str t ∷ strs ts

-- The policy as js-yaml reads it, with the given further fields of `matchConstraints`.
abbrev pub team_document : List (Text × Json) → Json
team_document defaults = object (
    (lit "kind", str (lit "ValidatingAdmissionPolicy"))
    ∷ (
      lit "metadata",
      object (
          (lit "name", str (lit "teams"))
          ∷ (
            lit "annotations",
            object (
                (lit "sentinel.io/builder", str (lit "true"))
                ∷ (lit "sentinel.io/apply-to", str (lit "pods"))
                ∷ []),
          )
          ∷ []),
    )
    ∷ (
      lit "spec",
      object (
          (lit "failurePolicy", str (lit "Fail"))
          ∷ (
            lit "matchConstraints",
            object (
                (
                  lit "resourceRules",
                  arr (
                      items (
                        object (
                          (lit "apiGroups", texts ([] ∷ []))
                          ∷ (lit "apiVersions", texts (lit "v1" ∷ []))
                          ∷ (lit "operations", texts (lit "CREATE" ∷ lit "UPDATE" ∷ []))
                          ∷ (lit "resources", texts (lit "pods" ∷ []))
                          ∷ [])
                        ∷ [])),
                )
                ∷ defaults),
          )
          ∷ (
            lit "validations",
            arr (
                items (
                  object (
                    (lit "expression", str team_expression)
                    ∷ (lit "message", str (lit "say whose it is"))
                    ∷ (lit "reason", str (lit "Forbidden"))
                    ∷ [])
                  ∷ [])),
          )
          ∷ []),
    )
    ∷ [])

abbrev pub team_text : Text
team_text =
    lit
      "apiVersion: admissionregistration.k8s.io/v1\nkind: ValidatingAdmissionPolicy\nmetadata:\n  name: \"teams\"\n  annotations:\n    sentinel.io/builder: \"true\"\n    sentinel.io/apply-to: \"pods\"\nspec:\n  failurePolicy: Fail\n  matchConstraints:\n    resourceRules:\n      - apiGroups: [\"\"]\n        apiVersions: [\"v1\"]\n        operations: [CREATE, UPDATE]\n        resources: [\"pods\"]\n  validations:\n    - expression: >-\n        has(object.metadata.labels) &&\n        'team' in object.metadata.labels &&\n        object.metadata.labels['team'] == 'a b'\n      message: \"say whose it is\"\n      reason: Forbidden"

generate_policy_yaml-team_policy : generate_policy_yaml team_policy ≡ team_text
unfolding generate_policy_yaml lit trim escape_yaml escape_cel rule_to_yaml_lines
generate_policy_yaml-team_policy = refl

-- The library reads the one text that the example writes.
abbrev pub read_text : Text → Option Json
read_text t = if t === team_text then some (team_document []) else none

-- The document as the API server returns it.
abbrev pub saved_policy : Option Json
saved_policy = some (
    team_document
      ((lit "matchPolicy", str (lit "Equivalent")) ∷ (lit "objectSelector", object []) ∷ []))

pub opened_policy : try_parse_builder_policy plain_yaml read_text saved_policy ≡ some team_policy
unfolding try_parse_builder_policy generate_policy_yaml lit trim get ◌===◌ ◌>>=◌ assign member
    without Json_discrete escape_yaml escape_cel parse_expression_to_rule rule_to_yaml_lines
    spec_for_compare
opened_policy = refl

try_parse_builder_policy-Shows_example :
    (doc : Json) × (saved_policy ≡ some doc) × Shows plain_yaml read_text doc team_policy
try_parse_builder_policy-Shows_example =
    try_parse_builder_policy-Shows plain_yaml read_text saved_policy team_policy opened_policy
