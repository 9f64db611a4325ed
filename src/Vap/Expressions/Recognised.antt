-- ===== src/Vap/Expressions/Recognised.antt =====
-- pages/VAPPage.tsx: the readers of expressions give back what the builder's validations say.
use k8s_sentinel.Base.{Text, lit, ◌===◌, map, List, [], ◌∷◌, Option, some, ◌≡◌, refl}
use k8s_sentinel.Vap.{
  SecurityCheck, HostCheck, no_host_network, no_host_pid, no_host_ipc, cpu, memory, ResourceLimit,
  ResourceLimitRule,
}
use k8s_sentinel.Vap.Pods.{
  host_access_rule_to_yaml_lines, security_context_rule_to_yaml_lines,
  resource_limit_rule_to_yaml_lines,
}
use k8s_sentinel.Vap.Expressions.{
  parse_expression_to_host_access_part, parse_expression_to_security_context_part,
  parse_expression_to_resource_limit_rule, SecurityContextPart,
}
use k8s_sentinel.Vap.Expressions.Folded.{folded_expressions}

-- The checks, parts and limits that the validations of some lines are read as.
abbrev pub read_host_checks : List Text → List (Option HostCheck)
read_host_checks lines = map parse_expression_to_host_access_part (folded_expressions lines)

abbrev pub read_parts : List Text → List (Option SecurityContextPart)
read_parts lines = map parse_expression_to_security_context_part (folded_expressions lines)

abbrev pub read_limits : Text → List Text → List (Option ResourceLimitRule)
read_limits msg lines =
    map (λ e. parse_expression_to_resource_limit_rule e msg) (folded_expressions lines)

-- The one validation of a host access rule is read back as the rule's check, whatever the message.
read_host_checks-host_access_rule_to_yaml_lines :
    (check : HostCheck) (message : Text)
    → read_host_checks
        (host_access_rule_to_yaml_lines (record { check_type = check; message = message }))
      ≡ some check ∷ []
unfolding parse_expression_to_host_access_part folded_expressions host_access_rule_to_yaml_lines lit
    ◌===◌
read_host_checks-host_access_rule_to_yaml_lines no_host_network message = refl
read_host_checks-host_access_rule_to_yaml_lines no_host_pid message = refl
read_host_checks-host_access_rule_to_yaml_lines no_host_ipc message = refl
read_host_checks-host_access_rule_to_yaml_lines HostCheck.all message = refl

-- The parts that a check of the security context consists of.
abbrev pub parts_of : SecurityCheck → List SecurityContextPart
parts_of SecurityCheck.no_privileged = SecurityContextPart.no_privileged ∷ []
parts_of SecurityCheck.run_as_non_root = SecurityContextPart.run_as_non_root ∷ []
parts_of SecurityCheck.both =
    SecurityContextPart.no_privileged ∷ SecurityContextPart.run_as_non_root ∷ []

-- The validations of a security context rule are read back, in their order, as the parts of its
-- check, whatever the message.
read_parts-security_context_rule_to_yaml_lines :
    (check : SecurityCheck) (message : Text)
    → read_parts
        (security_context_rule_to_yaml_lines (record { check_type = check; message = message }))
      ≡ map some (parts_of check)
unfolding parse_expression_to_security_context_part folded_expressions
    security_context_rule_to_yaml_lines lit ◌===◌
read_parts-security_context_rule_to_yaml_lines SecurityCheck.no_privileged message = refl
read_parts-security_context_rule_to_yaml_lines SecurityCheck.run_as_non_root message = refl
read_parts-security_context_rule_to_yaml_lines SecurityCheck.both message = refl

-- The one validation of a resource limit rule is read back as a rule with the same limits and the
-- message that stands beside the expression, whatever the two messages.
read_limits-resource_limit_rule_to_yaml_lines :
    (limits : ResourceLimit) (message written : Text)
    → read_limits written
        (resource_limit_rule_to_yaml_lines (record { limit_type = limits; message = message }))
      ≡ some (record { limit_type = limits; message = written }) ∷ []
unfolding parse_expression_to_resource_limit_rule folded_expressions
    resource_limit_rule_to_yaml_lines lit ◌===◌
read_limits-resource_limit_rule_to_yaml_lines cpu message written = refl
read_limits-resource_limit_rule_to_yaml_lines memory message written = refl
read_limits-resource_limit_rule_to_yaml_lines ResourceLimit.both message written = refl
