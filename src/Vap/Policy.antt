-- ===== src/Vap/Policy.antt =====
-- pages/VAPPage.tsx: the resource rules of a policy, and `generatePolicyYaml`.
use k8s_sentinel.Base.{
  Text, lit, trim, join, is_empty, filter, flat_map, ltb, ◌&&◌, not, Bool, true, List, [], ◌∷◌,
  ◌++◌,
}
use k8s_sentinel.Vap.{
  RuleType, label, annotation, image, replica, resource_limits, security_context, host_access,
  configmap_size, secret_size, ApplyTo, LabelRule, ImagePolicyType, no_latest, required_registry,
  ImageRule, ReplicaRule, ResourceLimitRule, SecurityContextRule, HostAccessRule, SizeLimitRule,
  empty_rule, empty_image_rule, empty_replica_rule, empty_resource_limit_rule,
}
use k8s_sentinel.Vap.Escape.{escape_yaml}
use k8s_sentinel.Vap.Rules.{
  or_text, rule_to_yaml_lines, annotation_rule_to_yaml_lines, image_rule_to_yaml_lines,
  replica_rule_to_yaml_lines,
}
use k8s_sentinel.Vap.Pods.{
  host_access_rule_to_yaml_lines, security_context_rule_to_yaml_lines,
  resource_limit_rule_to_yaml_lines,
}
use k8s_sentinel.Vap.Sizes.{
  config_map, secret, config_map_size_spec_lines, secret_size_spec_lines, size_rule_to_yaml_lines,
}

abbrev core : Text → List Text
core resources =
    lit "      - apiGroups: [\"\"]"
    ∷ lit "        apiVersions: [\"v1\"]"
    ∷ lit "        operations: [CREATE, UPDATE]"
    ∷ (lit "        resources: [\"" ++ resources ++ lit "\"]")
    ∷ []

abbrev apps : Text → List Text
apps resources =
    lit "      - apiGroups: [\"apps\"]"
    ∷ lit "        apiVersions: [\"v1\"]"
    ∷ lit "        operations: [CREATE, UPDATE]"
    ∷ (lit "        resources: [" ++ resources ++ lit "]")
    ∷ []

abbrev batch : Text → List Text
batch resources =
    lit "      - apiGroups: [\"batch\"]"
    ∷ lit "        apiVersions: [\"v1\"]"
    ∷ lit "        operations: [CREATE, UPDATE]"
    ∷ (lit "        resources: [" ++ resources ++ lit "]")
    ∷ []

abbrev networking : Text → List Text
networking resources =
    lit "      - apiGroups: [\"networking.k8s.io\"]"
    ∷ lit "        apiVersions: [\"v1\"]"
    ∷ lit "        operations: [CREATE, UPDATE]"
    ∷ (lit "        resources: [\"" ++ resources ++ lit "\"]")
    ∷ []

abbrev prefix : Text
prefix = lit "    resourceRules:"

-- The default case.
abbrev any_resource_lines : List Text
any_resource_lines =
    prefix
    ∷ lit "      - apiGroups: [\"*\"]"
    ∷ lit "        apiVersions: [\"*\"]"
    ∷ lit "        operations: [CREATE, UPDATE]"
    ∷ lit "        resources: [\"*\"]"
    ∷ []

unfoldable pub apply_to_resource_rule_lines : ApplyTo → List Text
apply_to_resource_rule_lines ApplyTo.workloads =
    prefix
    ∷ (core (lit "pods")
        ++ apps (lit "\"deployments\", \"statefulsets\", \"daemonsets\", \"replicasets\"")
        ++ batch (lit "\"jobs\", \"cronjobs\""))
apply_to_resource_rule_lines ApplyTo.pods = prefix ∷ core (lit "pods")
apply_to_resource_rule_lines ApplyTo.deployments = prefix ∷ apps (lit "\"deployments\"")
apply_to_resource_rule_lines ApplyTo.statefulsets = prefix ∷ apps (lit "\"statefulsets\"")
apply_to_resource_rule_lines ApplyTo.daemonsets = prefix ∷ apps (lit "\"daemonsets\"")
apply_to_resource_rule_lines ApplyTo.jobs = prefix ∷ batch (lit "\"jobs\"")
apply_to_resource_rule_lines ApplyTo.cronjobs = prefix ∷ batch (lit "\"cronjobs\"")
apply_to_resource_rule_lines ApplyTo.configmaps = prefix ∷ core (lit "configmaps")
apply_to_resource_rule_lines ApplyTo.secrets = prefix ∷ core (lit "secrets")
apply_to_resource_rule_lines ApplyTo.persistentvolumeclaims =
    prefix ∷ core (lit "persistentvolumeclaims")
apply_to_resource_rule_lines ApplyTo.services = prefix ∷ core (lit "services")
apply_to_resource_rule_lines ApplyTo.serviceaccounts = prefix ∷ core (lit "serviceaccounts")
apply_to_resource_rule_lines ApplyTo.ingresses = prefix ∷ networking (lit "ingresses")
apply_to_resource_rule_lines ApplyTo.networkpolicies = prefix ∷ networking (lit "networkpolicies")
apply_to_resource_rule_lines ApplyTo.namespaces = prefix ∷ core (lit "namespaces")
apply_to_resource_rule_lines ApplyTo.all = any_resource_lines
apply_to_resource_rule_lines (ApplyTo.other t) = any_resource_lines

abbrev pub apply_name : ApplyTo → Text
apply_name ApplyTo.all = lit "all"
apply_name ApplyTo.workloads = lit "workloads"
apply_name ApplyTo.pods = lit "pods"
apply_name ApplyTo.deployments = lit "deployments"
apply_name ApplyTo.statefulsets = lit "statefulsets"
apply_name ApplyTo.daemonsets = lit "daemonsets"
apply_name ApplyTo.jobs = lit "jobs"
apply_name ApplyTo.cronjobs = lit "cronjobs"
apply_name ApplyTo.configmaps = lit "configmaps"
apply_name ApplyTo.secrets = lit "secrets"
apply_name ApplyTo.persistentvolumeclaims = lit "persistentvolumeclaims"
apply_name ApplyTo.services = lit "services"
apply_name ApplyTo.ingresses = lit "ingresses"
apply_name ApplyTo.networkpolicies = lit "networkpolicies"
apply_name ApplyTo.serviceaccounts = lit "serviceaccounts"
apply_name ApplyTo.namespaces = lit "namespaces"
apply_name (ApplyTo.other t) = t

-- The arguments of `generatePolicyYaml`: the state of the builder.
pub record Builder : Type 0 where
  pub name : Text
  pub rule_type : RuleType
  pub label_rules : List LabelRule
  pub image_rules : List ImageRule
  pub replica_rules : List ReplicaRule
  pub apply_to : ApplyTo
  pub resource_limit_rules : List ResourceLimitRule
  pub security_context_rule : SecurityContextRule
  pub host_access_rule : HostAccessRule
  pub config_map_size_rule : SizeLimitRule
  pub secret_size_rule : SizeLimitRule

-- `active.length ? active.flatMap(lines) : lines(empty)`
unfoldable pub lines_or_empty {ℓ} : {A : Type ℓ} → (A → List Text) → A → List A → List Text
lines_or_empty lines empty [] = lines empty
lines_or_empty lines empty (r ∷ rs) = flat_map lines (r ∷ rs)

abbrev pub is_active_label : LabelRule → Bool
is_active_label r = not (is_empty (trim r.key)) && not (is_empty (trim r.value))

abbrev pub is_active_image : ImagePolicyType → Text → Bool
is_active_image no_latest registry = true
is_active_image required_registry registry = not (is_empty (trim registry))

unfoldable pub validation_lines : RuleType → Builder → List Text
unfolding lines_or_empty trim
validation_lines label b =
    lines_or_empty rule_to_yaml_lines empty_rule (filter is_active_label b.label_rules)
validation_lines annotation b =
    lines_or_empty annotation_rule_to_yaml_lines empty_rule (filter is_active_label b.label_rules)
validation_lines image b =
    lines_or_empty image_rule_to_yaml_lines empty_image_rule
      (filter (λ r. is_active_image r.policy r.registry) b.image_rules)
validation_lines resource_limits b =
    lines_or_empty resource_limit_rule_to_yaml_lines empty_resource_limit_rule
      b.resource_limit_rules
validation_lines security_context b = security_context_rule_to_yaml_lines b.security_context_rule
validation_lines host_access b = host_access_rule_to_yaml_lines b.host_access_rule
validation_lines configmap_size b = size_rule_to_yaml_lines config_map b.config_map_size_rule
validation_lines secret_size b = size_rule_to_yaml_lines secret b.secret_size_rule
validation_lines replica b =
    lines_or_empty replica_rule_to_yaml_lines empty_replica_rule
      (filter (λ r. ltb 0 r.max_replicas) b.replica_rules)

abbrev replica_resource_lines : List Text
replica_resource_lines =
    lit "    resourceRules:"
    ∷ lit "    - apiGroups: [\"apps\"]"
    ∷ lit "      apiVersions: [\"v1\"]"
    ∷ lit "      operations: [CREATE, UPDATE]"
    ∷ lit "      resources: [\"deployments\", \"statefulsets\"]"
    ∷ lit "    - apiGroups: [\"apps\"]"
    ∷ lit "      apiVersions: [\"v1\"]"
    ∷ lit "      operations: [UPDATE]"
    ∷ lit "      resources: [\"deployments/scale\", \"statefulsets/scale\"]"
    ∷ []

abbrev size_resource_lines : Text → List Text
size_resource_lines resources =
    lit "    resourceRules:"
    ∷ lit "      - apiGroups: [\"\"]"
    ∷ lit "        apiVersions: [\"v1\"]"
    ∷ lit "        operations: [CREATE, UPDATE]"
    ∷ (lit "        resources: [\"" ++ resources ++ lit "\"]")
    ∷ []

abbrev workload_resource_lines : List Text
workload_resource_lines =
    lit "    resourceRules:"
    ∷ lit "      - apiGroups: [\"\"]"
    ∷ lit "        apiVersions: [\"v1\"]"
    ∷ lit "        operations: [CREATE, UPDATE]"
    ∷ lit "        resources: [\"pods\", \"replicationcontrollers\"]"
    ∷ lit "      - apiGroups: [\"apps\"]"
    ∷ lit "        apiVersions: [\"v1\"]"
    ∷ lit "        operations: [CREATE, UPDATE]"
    ∷ lit "        resources: [\"deployments\", \"statefulsets\", \"daemonsets\", \"replicasets\"]"
    ∷ lit "      - apiGroups: [\"batch\"]"
    ∷ lit "        apiVersions: [\"v1\"]"
    ∷ lit "        operations: [CREATE, UPDATE]"
    ∷ lit "        resources: [\"jobs\", \"cronjobs\"]"
    ∷ []

abbrev ephemeral_lines : List Text
ephemeral_lines =
    lit "      - apiGroups: [\"\"]"
    ∷ lit "        apiVersions: [\"v1\"]"
    ∷ lit "        operations: [UPDATE]"
    ∷ lit "        resources: [\"pods/ephemeralcontainers\"]"
    ∷ []

unfoldable pub resource_rule_lines : RuleType → ApplyTo → List Text
unfolding apply_to_resource_rule_lines
resource_rule_lines replica apply_to = replica_resource_lines
resource_rule_lines configmap_size apply_to = size_resource_lines (lit "configmaps")
resource_rule_lines secret_size apply_to = size_resource_lines (lit "secrets")
resource_rule_lines image apply_to = workload_resource_lines ++ ephemeral_lines
resource_rule_lines security_context apply_to = workload_resource_lines ++ ephemeral_lines
resource_rule_lines resource_limits apply_to = workload_resource_lines ++ []
resource_rule_lines host_access apply_to = workload_resource_lines ++ []
resource_rule_lines label apply_to = apply_to_resource_rule_lines apply_to
resource_rule_lines annotation apply_to = apply_to_resource_rule_lines apply_to

abbrev apply_line : ApplyTo → List Text
apply_line apply_to = (lit "    sentinel.io/apply-to: \"" ++ apply_name apply_to ++ lit "\"") ∷ []

-- The annotation that names what the policy applies to: of label and annotation rules only.
unfoldable pub apply_to_annotation : RuleType → ApplyTo → List Text
apply_to_annotation label apply_to = apply_line apply_to
apply_to_annotation annotation apply_to = apply_line apply_to
apply_to_annotation _ apply_to = []

unfoldable pub size_spec_lines : RuleType → Builder → List Text
size_spec_lines configmap_size b = config_map_size_spec_lines b.config_map_size_rule
size_spec_lines secret_size b = secret_size_spec_lines b.secret_size_rule
size_spec_lines _ b = []

-- The manifest around the fields of a size limit and the validations.
abbrev pub policy_frame : Text → RuleType → ApplyTo → List Text → List Text → List Text
policy_frame name rule_type apply_to size_lines validations =
    lit "apiVersion: admissionregistration.k8s.io/v1"
    ∷ lit "kind: ValidatingAdmissionPolicy"
    ∷ lit "metadata:"
    ∷ (lit "  name: \"" ++ escape_yaml (or_text (trim name) (lit "my-policy")) ++ lit "\"")
    ∷ lit "  annotations:"
    ∷ lit "    sentinel.io/builder: \"true\""
    ∷ (apply_to_annotation rule_type apply_to
        ++ (lit "spec:" ∷ lit "  failurePolicy: Fail" ∷ lit "  matchConstraints:" ∷ [])
        ++ resource_rule_lines rule_type apply_to
        ++ size_lines
        ++ lit "  validations:" ∷ validations)

unfoldable pub policy_lines : Builder → List Text
unfolding validation_lines resource_rule_lines apply_to_annotation size_spec_lines
policy_lines b =
    policy_frame b.name b.rule_type b.apply_to (size_spec_lines b.rule_type b)
      (validation_lines b.rule_type b)

unfoldable pub generate_policy_yaml : Builder → Text
unfolding policy_lines join
generate_policy_yaml b = join (10 ∷ []) (policy_lines b)
