-- ===== src/Vap/Rules.antt =====
-- pages/VAPPage.tsx: the validations of the label, annotation, image and replica rules.
use k8s_sentinel.Base.{
  Text, lit, trim, is_empty, lower, decimal, ltb, if◌then◌else◌, ◌||◌, Bool, false, ◌==◌, List, [],
  ◌∷◌, ◌++◌, ℕ,
}
use k8s_sentinel.Vap.{
  LabelCondition, equal, unequal, LabelRule, ImagePolicyType, no_latest, required_registry,
  ImageRule, ReplicaResource, deployments, statefulsets, both, ReplicaRule,
}
use k8s_sentinel.Vap.Escape.{escape_yaml, escape_cel}

-- `a || b` on texts.
abbrev pub or_text : Text → Text → Text
or_text a b = if is_empty a then b else a

pub data Kind : Type 0 where
  label annotation : Kind

abbrev kind_name : Kind → Text
kind_name label = lit "label"
kind_name annotation = lit "annotation"

unfoldable pub build_auto_message : Kind → Text → LabelCondition → Text → Text
unfolding trim
build_auto_message kind key cond value =
    if is_empty (trim key) || is_empty (trim value) then failed kind else stated cond
  where
    failed : Kind → Text
    failed label = lit "Label policy validation failed"
    failed annotation = lit "Annotation policy validation failed"

    stated : LabelCondition → Text
    stated equal =
        lit "Resources with "
        ++ kind_name kind
        ++ lit " "
        ++ key
        ++ lit "="
        ++ value
        ++ lit " are not allowed"
    stated unequal =
        lit "Resources must have " ++ kind_name kind ++ lit " " ++ key ++ lit "=" ++ value

-- The three lines of the expression, over the object's field and the escaped key and value.
unfoldable pub label_expr_lines : LabelCondition → Text → Text → List Text
label_expr_lines equal k v =
    lit "        !has(object.metadata.labels) ||"
    ∷ (lit "        !('" ++ k ++ lit "' in object.metadata.labels) ||")
    ∷ (lit "        object.metadata.labels['" ++ k ++ lit "'] != '" ++ v ++ lit "'")
    ∷ []
label_expr_lines unequal k v =
    lit "        has(object.metadata.labels) &&"
    ∷ (lit "        '" ++ k ++ lit "' in object.metadata.labels &&")
    ∷ (lit "        object.metadata.labels['" ++ k ++ lit "'] == '" ++ v ++ lit "'")
    ∷ []

unfoldable pub rule_to_yaml_lines : LabelRule → List Text
unfolding label_expr_lines build_auto_message trim
rule_to_yaml_lines rule =
    lit "    - expression: >-"
    ∷ (label_expr_lines rule.condition (escape_cel (or_text (trim rule.key) (lit "app")))
          (escape_cel (or_text (trim rule.value) (lit "value")))
        ++ (lit "      message: \""
            ++ escape_yaml (
                or_text (trim rule.message)
                  (build_auto_message label rule.key rule.condition rule.value))
            ++ lit "\"")
          ∷ lit "      reason: Forbidden"
          ∷ [])

unfoldable pub annotation_expr_lines : LabelCondition → Text → Text → List Text
annotation_expr_lines equal k v =
    lit "        !has(object.metadata.annotations) ||"
    ∷ (lit "        !('" ++ k ++ lit "' in object.metadata.annotations) ||")
    ∷ (lit "        object.metadata.annotations['" ++ k ++ lit "'] != '" ++ v ++ lit "'")
    ∷ []
annotation_expr_lines unequal k v =
    lit "        has(object.metadata.annotations) &&"
    ∷ (lit "        '" ++ k ++ lit "' in object.metadata.annotations &&")
    ∷ (lit "        object.metadata.annotations['" ++ k ++ lit "'] == '" ++ v ++ lit "'")
    ∷ []

unfoldable pub annotation_rule_to_yaml_lines : LabelRule → List Text
unfolding annotation_expr_lines build_auto_message trim
annotation_rule_to_yaml_lines rule =
    lit "    - expression: >-"
    ∷ (annotation_expr_lines rule.condition (escape_cel (or_text (trim rule.key) (lit "app")))
          (escape_cel (or_text (trim rule.value) (lit "value")))
        ++ (lit "      message: \""
            ++ escape_yaml (
                or_text (trim rule.message)
                  (build_auto_message annotation rule.key rule.condition rule.value))
            ++ lit "\"")
          ∷ lit "      reason: Forbidden"
          ∷ [])

unfoldable pub auto_image_message : ImagePolicyType → Text → Text
unfolding trim
auto_image_message no_latest registry = lit "Container images must not use the :latest tag"
auto_image_message required_registry registry =
    if is_empty (trim registry)
    then lit "Container images must be from an allowed registry"
    else lit "Container images must be from " ++ trim registry

-- `s.endsWith('/')`
unfoldable pub ends_with_slash : Text → Bool
ends_with_slash [] = false
ends_with_slash (c ∷ []) = c == b'/'
ends_with_slash (c ∷ d ∷ s) = ends_with_slash (d ∷ s)

-- The registry as the prefix check compares it: with a slash behind it, in lower case, escaped.
unfoldable pub registry_prefix : Text → Text
unfolding lower ends_with_slash
registry_prefix raw = escape_cel (lower (if ends_with_slash raw then raw else raw ++ lit "/"))

unfoldable pub image_check : ImagePolicyType → Text → Text
image_check no_latest reg =
    lit
      "all(c, c.image.substring(c.image.lastIndexOf('/') + 1).contains(':') && !c.image.endsWith(':latest'))"
image_check required_registry reg =
    (lit "all(c, c.image.lowerAscii().startsWith('" ++ reg ++ lit "'))")

-- The check over every list of containers that a workload can carry.
unfoldable pub image_lines : Text → Text → List Text
image_lines check m =
    lit "    - expression: >-"
    ∷ (lit "        object.spec.?containers.orValue([])." ++ check ++ lit " &&")
    ∷ (lit "        object.spec.?initContainers.orValue([])." ++ check ++ lit " &&")
    ∷ (lit "        object.spec.?ephemeralContainers.orValue([])." ++ check ++ lit " &&")
    ∷ (lit "        object.spec.?template.?spec.?containers.orValue([])." ++ check ++ lit " &&")
    ∷ (lit "        object.spec.?template.?spec.?initContainers.orValue([])." ++ check ++ lit " &&")
    ∷ (lit "        object.spec.?jobTemplate.?spec.?template.?spec.?containers.orValue([])."
        ++ check
        ++ lit " &&")
    ∷ (lit "        object.spec.?jobTemplate.?spec.?template.?spec.?initContainers.orValue([])."
        ++ check)
    ∷ (lit "      message: \"" ++ m ++ lit "\"")
    ∷ lit "      reason: Forbidden"
    ∷ []

unfoldable pub image_rule_to_yaml_lines : ImageRule → List Text
unfolding image_lines image_check registry_prefix auto_image_message trim
image_rule_to_yaml_lines rule =
    image_lines
      (image_check rule.policy
        (registry_prefix (or_text (trim rule.registry) (lit "registry.example.com"))))
      (escape_yaml (or_text (trim rule.message) (auto_image_message rule.policy rule.registry)))

-- `rule.maxReplicas > 0 ? rule.maxReplicas : 5`
unfoldable pub max_of : ReplicaRule → ℕ
max_of rule = if ltb 0 rule.max_replicas then rule.max_replicas else 5

abbrev workload_name : ReplicaResource → Text
workload_name statefulsets = lit "StatefulSet"
workload_name both = lit "Workload"
workload_name deployments = lit "Deployment"

unfoldable pub auto_replica_message : ReplicaRule → Text
unfolding max_of decimal
auto_replica_message rule =
    workload_name rule.resource_type ++ lit " replicas must not exceed " ++ decimal (max_of rule)

unfoldable pub replica_expr : ReplicaResource → ℕ → Text
unfolding decimal
replica_expr deployments max =
    (lit "request.resource.resource != 'deployments' || object.spec.replicas <= " ++ decimal max)
replica_expr statefulsets max =
    (lit "request.resource.resource != 'statefulsets' || object.spec.replicas <= " ++ decimal max)
replica_expr both max = (lit "object.spec.replicas <= " ++ decimal max)

unfoldable pub replica_rule_to_yaml_lines : ReplicaRule → List Text
unfolding replica_expr max_of auto_replica_message trim
replica_rule_to_yaml_lines rule =
    (lit "    - expression: \"" ++ replica_expr rule.resource_type (max_of rule) ++ lit "\"")
    ∷ (lit "      message: \""
        ++ escape_yaml (or_text (trim rule.message) (auto_replica_message rule))
        ++ lit "\"")
    ∷ lit "      reason: Forbidden"
    ∷ []
