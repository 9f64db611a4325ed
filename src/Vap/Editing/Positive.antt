-- ===== src/Vap/Editing/Positive.antt =====
-- pages/VAPPage.tsx: the test that enables the button of the policy builder, and the guard of its handler.
use k8s_sentinel.Base.{
  update_at, ℕ, not, is_empty, true, List, [], ◌∷◌, ◌≡◌, ◌⊎◌, inl, inr, refl, arith, trim,
  and-eq_true,
}
use k8s_sentinel.Vap.{
  RuleType, label, annotation, image, replica, resource_limits, security_context, host_access,
  configmap_size, secret_size, ReplicaRule,
}
use k8s_sentinel.Vap.Policy.{Builder}
use k8s_sentinel.Vap.Editing.{
  BuilderEdit, set_name, select_rule_type, set_apply_to, update_rule, add_rule, remove_rule,
  update_image_rule, add_image_rule, remove_image_rule, set_max_replicas, set_replica_rest,
  update_limit_rule, set_security_context_rule, set_host_access_rule, set_config_map_size_rule,
  set_secret_size_rule, edit_builder, some_positive, view_rules_ok, handler_rules_ok, can_apply,
  handler_accepts, keep_bound, at_least_one,
}

-- A replica rule bounds by a positive number, or the form is about replicas.
abbrev pub IsReady : Builder → Type 0
IsReady b = (b.rule_type ≡ replica) ⊎ (some_positive b.replica_rules ≡ true)

-- What an edit of the first replica rule leaves.
bounded_rules :
    (n : ℕ) (rs : List ReplicaRule)
    → some_positive rs ≡ true
    → some_positive (update_at 0 (λ r. record r { max_replicas = at_least_one n }) rs) ≡ true
bounded_rules n [] h = h
bounded_rules n (r ∷ rs) h = ground arith

kept_rules :
    (f : ReplicaRule → ReplicaRule) (rs : List ReplicaRule)
    → some_positive rs ≡ true
    → some_positive (update_at 0 (keep_bound f) rs) ≡ true
kept_rules f [] h = h
kept_rules f (r ∷ rs) h = h

pub edit_builder-IsReady : (e : BuilderEdit) (b : Builder) → IsReady b → IsReady (edit_builder e b)
unfolding edit_builder
edit_builder-IsReady (select_rule_type t) b h = inr refl
edit_builder-IsReady (set_max_replicas n) b (inl e) = inl e
edit_builder-IsReady (set_max_replicas n) b (inr e) = inr (bounded_rules n b.replica_rules e)
edit_builder-IsReady (set_replica_rest f) b (inl e) = inl e
edit_builder-IsReady (set_replica_rest f) b (inr e) = inr (kept_rules f b.replica_rules e)
edit_builder-IsReady (set_name t) b h = h
edit_builder-IsReady (set_apply_to a) b h = h
edit_builder-IsReady (update_rule i f) b h = h
edit_builder-IsReady add_rule b h = h
edit_builder-IsReady (remove_rule i) b h = h
edit_builder-IsReady (update_image_rule i f) b h = h
edit_builder-IsReady add_image_rule b h = h
edit_builder-IsReady (remove_image_rule i) b h = h
edit_builder-IsReady (update_limit_rule f) b h = h
edit_builder-IsReady (set_security_context_rule r) b h = h
edit_builder-IsReady (set_host_access_rule r) b h = h
edit_builder-IsReady (set_config_map_size_rule r) b h = h
edit_builder-IsReady (set_secret_size_rule r) b h = h

rules_ok :
    (t : RuleType) (b : Builder)
    → (t ≡ replica) ⊎ (some_positive b.replica_rules ≡ true)
    → view_rules_ok t b ≡ true
    → handler_rules_ok t b ≡ true
unfolding view_rules_ok handler_rules_ok
rules_ok label b h k = k
rules_ok annotation b h k = k
rules_ok image b h k = k
rules_ok resource_limits b h k = k
rules_ok security_context b h k = k
rules_ok host_access b h k = k
rules_ok replica b h k = k
rules_ok configmap_size b (inl e) k = cc
rules_ok configmap_size b (inr e) k = e
rules_ok secret_size b (inl e) k = cc
rules_ok secret_size b (inr e) k = e

-- Where the button is enabled, the handler goes on.
pub handler_accepts-can_apply :
    (b : Builder) → IsReady b → can_apply b ≡ true → handler_accepts b ≡ true
unfolding can_apply handler_accepts
handler_accepts-can_apply b h k =
    rw ((and-eq_true (not (is_empty (trim b.name))) _ k).0)
      (rules_ok b.rule_type b h (and-eq_true (not (is_empty (trim b.name))) _ k).1)
