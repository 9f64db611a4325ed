-- ===== src/Vap/Editing/Filled.antt =====
-- pages/VAPPage.tsx: the builder writes for a form that it shows what it writes for the form as read.
use k8s_sentinel.Base.{
  ltb, filter, Bool, Bool-cases, inl, inr, List, [], ◌∷◌, ◌≡◌, refl, append-nil, trim, ap, ap₂,
  Text, join,
}
use k8s_sentinel.Vap.{
  RuleType, label, annotation, image, replica, resource_limits, security_context, host_access,
  configmap_size, secret_size,
}
use k8s_sentinel.Vap.{empty_rule, empty_image_rule, empty_replica_rule, empty_resource_limit_rule}
use k8s_sentinel.Vap.Rules.{
  rule_to_yaml_lines, annotation_rule_to_yaml_lines, image_rule_to_yaml_lines,
  replica_rule_to_yaml_lines,
}
use k8s_sentinel.Vap.Pods.{resource_limit_rule_to_yaml_lines}
use k8s_sentinel.Vap.Policy.{
  policy_frame, size_spec_lines, Builder, generate_policy_yaml, policy_lines, validation_lines,
  lines_or_empty, is_active_label, is_active_image,
}
use k8s_sentinel.Vap.Editing.{filled_builder, or_one}

lines_or_empty-or_one {ℓ} :
    {A : Type ℓ} (lines : A → List Text) (keep : A → Bool) (e : A) (xs : List A)
    → lines_or_empty lines e (filter keep (or_one e xs)) ≡ lines_or_empty lines e (filter keep xs)
unfolding lines_or_empty
lines_or_empty-or_one lines keep e [] = elim (Bool-cases (keep e)) [
  | inl kept ↦ rw kept (append-nil (lines e))
  | inr left ↦ rw left refl
]
lines_or_empty-or_one lines keep e (x ∷ xs) = refl

all_or_one {ℓ} :
    {A : Type ℓ} (lines : A → List Text) (e : A) (xs : List A)
    → lines_or_empty lines e (or_one e xs) ≡ lines_or_empty lines e xs
unfolding lines_or_empty
all_or_one lines e [] = append-nil (lines e)
all_or_one lines e (x ∷ xs) = refl

validation_lines-filled_builder :
    (t : RuleType) (b : Builder) → validation_lines t (filled_builder b) ≡ validation_lines t b
unfolding validation_lines filled_builder trim
validation_lines-filled_builder label b =
    lines_or_empty-or_one rule_to_yaml_lines is_active_label empty_rule b.label_rules
validation_lines-filled_builder annotation b =
    lines_or_empty-or_one annotation_rule_to_yaml_lines is_active_label empty_rule b.label_rules
validation_lines-filled_builder image b =
    lines_or_empty-or_one image_rule_to_yaml_lines (λ r. is_active_image r.policy r.registry)
      empty_image_rule b.image_rules
validation_lines-filled_builder replica b =
    lines_or_empty-or_one replica_rule_to_yaml_lines (λ r. ltb 0 r.max_replicas) empty_replica_rule
      b.replica_rules
validation_lines-filled_builder resource_limits b =
    all_or_one resource_limit_rule_to_yaml_lines empty_resource_limit_rule b.resource_limit_rules
validation_lines-filled_builder security_context b = refl
validation_lines-filled_builder host_access b = refl
validation_lines-filled_builder configmap_size b = refl
validation_lines-filled_builder secret_size b = refl

size_spec_lines-filled_builder :
    (t : RuleType) (b : Builder) → size_spec_lines t (filled_builder b) ≡ size_spec_lines t b
unfolding size_spec_lines filled_builder
size_spec_lines-filled_builder configmap_size b = refl
size_spec_lines-filled_builder secret_size b = refl
size_spec_lines-filled_builder _ b = refl

policy_lines-filled_builder : (b : Builder) → policy_lines (filled_builder b) ≡ policy_lines b
unfolding policy_lines filled_builder
policy_lines-filled_builder b =
    ap₂ (policy_frame b.name b.rule_type b.apply_to) (size_spec_lines-filled_builder b.rule_type b)
      (validation_lines-filled_builder b.rule_type b)

pub generate_policy_yaml-filled_builder :
    (b : Builder) → generate_policy_yaml (filled_builder b) ≡ generate_policy_yaml b
unfolding generate_policy_yaml
generate_policy_yaml-filled_builder b = ap (join (10 ∷ [])) (policy_lines-filled_builder b)
