-- ===== src/Vap/Editing.antt =====
-- pages/VAPPage.tsx: what the policy builder and the binding builder do to the form that they show.
pub mod Positive
pub mod Filled
use k8s_sentinel.Base.{
  Text, ℕ, ltb, update_at, remove_at, lit, ◌===◌, trim, is_empty, any, filter, member, not, ◌&&◌,
  ◌||◌, Bool, true, false, List, [], ◌∷◌, ◌++◌, if◌then◌else◌,
}
use k8s_sentinel.Vap.{
  RuleType, label, annotation, image, replica, resource_limits, security_context, host_access,
  configmap_size, secret_size, ApplyTo, LabelRule, ImageRule, ReplicaRule, ResourceLimitRule,
  SecurityContextRule, HostAccessRule, SizeLimitRule, ValidationAction, deny, empty_rule,
  empty_image_rule, empty_replica_rule, empty_resource_limit_rule, empty_security_context_rule,
  empty_host_access_rule, empty_size_limit_rule,
}
use k8s_sentinel.Vap.Sizes.{kb_to_bytes}
use k8s_sentinel.Vap.Policy.{Builder, is_active_label, is_active_image}
use k8s_sentinel.Vap.Binding.{BindingNsMode, include, exclude}
use k8s_sentinel.Vap.Reopen.{BindingForm}

-- `resetBuilderForm`, the edited name aside.
unfoldable pub blank_builder : Builder
blank_builder = record {
  name = [];
  rule_type = label;
  label_rules = empty_rule ∷ [];
  image_rules = empty_image_rule ∷ [];
  replica_rules = empty_replica_rule ∷ [];
  apply_to = ApplyTo.workloads;
  resource_limit_rules = empty_resource_limit_rule ∷ [];
  security_context_rule = empty_security_context_rule;
  host_access_rule = empty_host_access_rule;
  config_map_size_rule = empty_size_limit_rule;
  secret_size_rule = empty_size_limit_rule;
}

-- `xs.length ? xs : [empty]`
abbrev pub or_one {ℓ} : {A : Type ℓ} → A → List A → List A
or_one e [] = e ∷ []
or_one e (x ∷ xs) = x ∷ xs

-- The builder's state for a form that was read: a list without rules shows an empty one.
unfoldable pub filled_builder : Builder → Builder
filled_builder b = record b {
  label_rules = or_one empty_rule b.label_rules;
  image_rules = or_one empty_image_rule b.image_rules;
  replica_rules = or_one empty_replica_rule b.replica_rules;
  resource_limit_rules = or_one empty_resource_limit_rule b.resource_limit_rules;
}

-- What the controls of the policy builder change. A card resets the rules of every type.
pub data BuilderEdit : Type 0 where
  set_name : Text → BuilderEdit
  select_rule_type : RuleType → BuilderEdit
  set_apply_to : ApplyTo → BuilderEdit
  update_rule : ℕ → (LabelRule → LabelRule) → BuilderEdit
  add_rule : BuilderEdit
  remove_rule : ℕ → BuilderEdit
  update_image_rule : ℕ → (ImageRule → ImageRule) → BuilderEdit
  add_image_rule : BuilderEdit
  remove_image_rule : ℕ → BuilderEdit
  set_max_replicas : ℕ → BuilderEdit
  set_replica_rest : (ReplicaRule → ReplicaRule) → BuilderEdit
  update_limit_rule : (ResourceLimitRule → ResourceLimitRule) → BuilderEdit
  set_security_context_rule : SecurityContextRule → BuilderEdit
  set_host_access_rule : HostAccessRule → BuilderEdit
  set_config_map_size_rule : SizeLimitRule → BuilderEdit
  set_secret_size_rule : SizeLimitRule → BuilderEdit

-- `Math.max(1, n)`
abbrev pub at_least_one : ℕ → ℕ
at_least_one n = if ltb 1 n then n else 1

-- A change of the resource type or of the message of a replica rule leaves its bound.
abbrev pub keep_bound : (ReplicaRule → ReplicaRule) → ReplicaRule → ReplicaRule
keep_bound f r = record (f r) { max_replicas = r.max_replicas }

unfoldable pub edit_builder : BuilderEdit → Builder → Builder
unfolding blank_builder
edit_builder (set_name t) b = record b { name = t }
edit_builder (select_rule_type t) b = record blank_builder {
  name = b.name;
  rule_type = t;
  apply_to = b.apply_to;
}
edit_builder (set_apply_to a) b = record b { apply_to = a }
edit_builder (update_rule i f) b = record b { label_rules = update_at i f b.label_rules }
edit_builder add_rule b = record b { label_rules = b.label_rules ++ empty_rule ∷ [] }
edit_builder (remove_rule i) b = record b { label_rules = remove_at i b.label_rules }
edit_builder (update_image_rule i f) b = record b { image_rules = update_at i f b.image_rules }
edit_builder add_image_rule b = record b { image_rules = b.image_rules ++ empty_image_rule ∷ [] }
edit_builder (remove_image_rule i) b = record b { image_rules = remove_at i b.image_rules }
edit_builder (set_max_replicas n) b = record b {
  replica_rules = update_at 0 (λ r. record r { max_replicas = at_least_one n }) b.replica_rules;
}
edit_builder (set_replica_rest f) b = record b {
  replica_rules = update_at 0 (keep_bound f) b.replica_rules;
}
edit_builder (update_limit_rule f) b = record b {
  resource_limit_rules = update_at 0 f b.resource_limit_rules;
}
edit_builder (set_security_context_rule r) b = record b { security_context_rule = r }
edit_builder (set_host_access_rule r) b = record b { host_access_rule = r }
edit_builder (set_config_map_size_rule r) b = record b { config_map_size_rule = r }
edit_builder (set_secret_size_rule r) b = record b { secret_size_rule = r }

abbrev pub some_positive : List ReplicaRule → Bool
some_positive = any (λ r. ltb 0 r.max_replicas)

-- `rulesOk` of `handleBuilderApply`, which has no case for the size limits.
unfoldable pub handler_rules_ok : RuleType → Builder → Bool
unfolding trim
handler_rules_ok label b = any is_active_label b.label_rules
handler_rules_ok annotation b = any is_active_label b.label_rules
handler_rules_ok image b = any (λ r. is_active_image r.policy r.registry) b.image_rules
handler_rules_ok resource_limits b = true
handler_rules_ok security_context b = true
handler_rules_ok host_access b = true
handler_rules_ok _ b = some_positive b.replica_rules

-- `rulesOk` of the builder's view, which enables the button.
unfoldable pub view_rules_ok : RuleType → Builder → Bool
unfolding trim kb_to_bytes
view_rules_ok label b = any is_active_label b.label_rules
view_rules_ok annotation b = any is_active_label b.label_rules
view_rules_ok image b = any (λ r. is_active_image r.policy r.registry) b.image_rules
view_rules_ok resource_limits b = true
view_rules_ok security_context b = true
view_rules_ok host_access b = true
view_rules_ok configmap_size b = ltb 0 (kb_to_bytes b.config_map_size_rule.total_kb)
view_rules_ok secret_size b = ltb 0 (kb_to_bytes b.secret_size_rule.total_kb)
view_rules_ok replica b = some_positive b.replica_rules

-- `canApply`
unfoldable pub can_apply : Builder → Bool
unfolding view_rules_ok trim
can_apply b = not (is_empty (trim b.name)) && view_rules_ok b.rule_type b

-- The guard of `handleBuilderApply`.
unfoldable pub handler_accepts : Builder → Bool
unfolding handler_rules_ok trim
handler_accepts b = not (is_empty (trim b.name)) && handler_rules_ok b.rule_type b

unfoldable pub blank_binding : BindingForm
blank_binding = record {
  name = [];
  policy_name = [];
  ns_mode = BindingNsMode.all;
  namespaces = [];
  actions = deny ∷ [];
}

-- `new Set(xs)`, in the order of insertion.
unfoldable pub set_of : List Text → List Text
unfolding member
set_of [] = []
set_of (x ∷ xs) = x ∷ filter (λ y. not (y === x)) (set_of xs)

-- `toggleAction`
unfoldable pub toggle_action : ValidationAction → BindingForm → BindingForm
unfolding member
toggle_action a b =
    if member a b.actions
    then record b { actions = filter (λ x. not (x === a)) b.actions }
    else record b { actions = b.actions ++ a ∷ [] }

abbrev is_all : BindingNsMode → Bool
is_all BindingNsMode.all = true
is_all _ = false

-- The guard of `handleBindingBuilderApply`, and `canApply` of the binding builder's view.
unfoldable pub can_apply_binding : BindingForm → Bool
unfolding trim
can_apply_binding b =
    not (is_empty (trim b.name))
    && not (is_empty (trim b.policy_name))
    && not (is_empty b.actions)
    && (is_all b.ns_mode || not (is_empty b.namespaces))
