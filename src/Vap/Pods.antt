-- ===== src/Vap/Pods.antt =====
-- pages/VAPPage.tsx: the validations of the resource limits, security context and host access rules.
use k8s_sentinel.Base.{Text, lit, trim, join, if◌then◌else◌, Bool, true, false, List, [], ◌∷◌, ◌++◌}
use k8s_sentinel.Vap.{
  ResourceLimit, cpu, memory, ResourceLimitRule, SecurityCheck, no_privileged, run_as_non_root,
  SecurityContextRule, HostCheck, no_host_network, no_host_pid, no_host_ipc, HostAccessRule,
}
use k8s_sentinel.Vap.Escape.{escape_yaml}
use k8s_sentinel.Vap.Rules.{or_text}

unfoldable pub auto_host_access_message : HostCheck → Text
auto_host_access_message no_host_network = lit "hostNetwork is not allowed"
auto_host_access_message no_host_pid = lit "hostPID is not allowed"
auto_host_access_message no_host_ipc = lit "hostIPC is not allowed"
auto_host_access_message HostCheck.all = lit "hostNetwork, hostPID, and hostIPC are not allowed"

-- The fields that a check forbids.
abbrev pub host_fields : HostCheck → List Text
host_fields no_host_network = lit "hostNetwork" ∷ []
host_fields no_host_pid = lit "hostPID" ∷ []
host_fields no_host_ipc = lit "hostIPC" ∷ []
host_fields HostCheck.all = lit "hostNetwork" ∷ lit "hostPID" ∷ lit "hostIPC" ∷ []

-- A field is looked for at the three depths of a pod's spec.
unfoldable pub path_check : Text → Text
unfolding join
path_check field = join (lit " && ") (
    (lit "!object.spec.?" ++ field ++ lit ".orValue(false)")
    ∷ (lit "!object.spec.?template.?spec.?" ++ field ++ lit ".orValue(false)")
    ∷ (lit "!object.spec.?jobTemplate.?spec.?template.?spec.?" ++ field ++ lit ".orValue(false)")
    ∷ [])

abbrev pub path_checks : List Text → List Text
path_checks [] = []
path_checks (f ∷ fs) = path_check f ∷ path_checks fs

unfoldable pub host_access_rule_to_yaml_lines : HostAccessRule → List Text
unfolding path_check auto_host_access_message join trim
host_access_rule_to_yaml_lines rule =
    lit "    - expression: >-"
    ∷ (lit "        " ++ join (lit " && ") (path_checks (host_fields rule.check_type)))
    ∷ (lit "      message: \""
        ++ escape_yaml (or_text (trim rule.message) (auto_host_access_message rule.check_type))
        ++ lit "\"")
    ∷ lit "      reason: Forbidden"
    ∷ []

unfoldable pub auto_security_context_message : SecurityCheck → Text
auto_security_context_message no_privileged = lit "Privileged containers are not allowed"
auto_security_context_message run_as_non_root =
    lit "Workloads must set runAsNonRoot: true in pod securityContext"
auto_security_context_message SecurityCheck.both =
    lit "Containers must not be privileged and must run as non-root"

abbrev privileged_check : Text
privileged_check =
    lit
      "all(c, !has(c.securityContext) || !has(c.securityContext.privileged) || c.securityContext.privileged == false)"

unfoldable pub privileged_lines : Text → Text → List Text
privileged_lines check m =
    lit "    - expression: >-"
    ∷ (lit "        object.spec.?containers.orValue([])." ++ check ++ lit " &&")
    ∷ (lit "        object.spec.?initContainers.orValue([])." ++ check ++ lit " &&")
    ∷ (lit "        object.spec.?ephemeralContainers.orValue([])." ++ check ++ lit " &&")
    ∷ (lit "        object.spec.?template.?spec.?containers.orValue([])." ++ check ++ lit " &&")
    ∷ (lit "        object.spec.?template.?spec.?initContainers.orValue([])." ++ check ++ lit " &&")
    ∷ (lit "        object.spec.?jobTemplate.?spec.?template.?spec.?containers.orValue([])."
        ++ check
        ++ lit " &&")
    ∷ (lit "        object.spec.?jobTemplate.?spec.?template.?spec.?initContainers.orValue([])."
        ++ check)
    ∷ (lit "      message: \"" ++ m ++ lit "\"")
    ∷ lit "      reason: Forbidden"
    ∷ []

abbrev pod_check : Text
pod_check =
    lit
      "all(c, c.?securityContext.?runAsNonRoot.orValue(object.spec.?securityContext.?runAsNonRoot.orValue(false)) == true)"

abbrev template_check : Text
template_check =
    lit
      "all(c, c.?securityContext.?runAsNonRoot.orValue(object.spec.?template.?spec.?securityContext.?runAsNonRoot.orValue(false)) == true)"

abbrev job_check : Text
job_check =
    lit
      "all(c, c.?securityContext.?runAsNonRoot.orValue(object.spec.?jobTemplate.?spec.?template.?spec.?securityContext.?runAsNonRoot.orValue(false)) == true)"

unfoldable pub non_root_lines : Text → List Text
non_root_lines m =
    lit "    - expression: >-"
    ∷ (lit "        object.spec.?containers.orValue([])." ++ pod_check ++ lit " &&")
    ∷ (lit "        object.spec.?initContainers.orValue([])." ++ pod_check ++ lit " &&")
    ∷ (lit "        object.spec.?ephemeralContainers.orValue([])." ++ pod_check ++ lit " &&")
    ∷ (lit "        object.spec.?template.?spec.?containers.orValue([])."
        ++ template_check
        ++ lit " &&")
    ∷ (lit "        object.spec.?template.?spec.?initContainers.orValue([])."
        ++ template_check
        ++ lit " &&")
    ∷ (lit "        object.spec.?jobTemplate.?spec.?template.?spec.?containers.orValue([])."
        ++ job_check
        ++ lit " &&")
    ∷ (lit "        object.spec.?jobTemplate.?spec.?template.?spec.?initContainers.orValue([])."
        ++ job_check)
    ∷ (lit "      message: \"" ++ m ++ lit "\"")
    ∷ lit "      reason: Forbidden"
    ∷ []

abbrev pub checks_privileged : SecurityCheck → Bool
checks_privileged no_privileged = true
checks_privileged run_as_non_root = false
checks_privileged SecurityCheck.both = true

abbrev pub checks_root : SecurityCheck → Bool
checks_root no_privileged = false
checks_root run_as_non_root = true
checks_root SecurityCheck.both = true

unfoldable pub security_context_rule_to_yaml_lines : SecurityContextRule → List Text
unfolding privileged_lines non_root_lines auto_security_context_message trim
security_context_rule_to_yaml_lines rule =
    let m =
      escape_yaml (or_text (trim rule.message) (auto_security_context_message rule.check_type)) in
    (if checks_privileged rule.check_type then privileged_lines privileged_check m else [])
    ++ (if checks_root rule.check_type then non_root_lines m else [])

unfoldable pub auto_resource_limit_message : ResourceLimit → Text
auto_resource_limit_message cpu = lit "All containers must set CPU limits"
auto_resource_limit_message memory = lit "All containers must set memory limits"
auto_resource_limit_message ResourceLimit.both = lit "All containers must set CPU and memory limits"

unfoldable pub limit_check : ResourceLimit → Text
limit_check cpu =
    lit "all(c, has(c.resources) && has(c.resources.limits) && has(c.resources.limits.cpu))"
limit_check memory =
    lit "all(c, has(c.resources) && has(c.resources.limits) && has(c.resources.limits.memory))"
limit_check ResourceLimit.both =
    lit
      "all(c, has(c.resources) && has(c.resources.limits) && has(c.resources.limits.cpu) && has(c.resources.limits.memory))"

unfoldable pub limit_lines : Text → Text → List Text
limit_lines check m =
    lit "    - expression: >-"
    ∷ (lit "        object.spec.?containers.orValue([])." ++ check ++ lit " &&")
    ∷ (lit "        object.spec.?initContainers.orValue([])." ++ check ++ lit " &&")
    ∷ (lit "        object.spec.?template.?spec.?containers.orValue([])." ++ check ++ lit " &&")
    ∷ (lit "        object.spec.?template.?spec.?initContainers.orValue([])." ++ check ++ lit " &&")
    ∷ (lit "        object.spec.?jobTemplate.?spec.?template.?spec.?containers.orValue([])."
        ++ check
        ++ lit " &&")
    ∷ (lit "        object.spec.?jobTemplate.?spec.?template.?spec.?initContainers.orValue([])."
        ++ check)
    ∷ (lit "      message: \"" ++ m ++ lit "\"")
    ∷ lit "      reason: Forbidden"
    ∷ []

unfoldable pub resource_limit_rule_to_yaml_lines : ResourceLimitRule → List Text
unfolding limit_lines limit_check auto_resource_limit_message trim
resource_limit_rule_to_yaml_lines rule =
    limit_lines (limit_check rule.limit_type)
      (escape_yaml (or_text (trim rule.message) (auto_resource_limit_message rule.limit_type)))
