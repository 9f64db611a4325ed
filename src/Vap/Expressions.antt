-- ===== src/Vap/Expressions.antt =====
-- pages/VAPPage.tsx: the readers of the expressions of replica, resource limit, security context and
-- host access validations. `none` stands for `null`.
pub mod Folded
pub mod Digits
pub mod Recognised
pub mod Replicas
pub mod Quoted
use k8s_sentinel.Base.{
  Text, lit, trim, trim_start, is_space, is_empty, is_digit, all, number_from, includes, ◌===◌,
  ◌==◌, if◌then◌else◌, ◌&&◌, not, Bool, true, false, List, [], ◌∷◌, Option, none, some, ◌>>=◌, ℕ,
}
use k8s_sentinel.Vap.{
  ReplicaResource, deployments, statefulsets, ReplicaRule, ResourceLimit, cpu, memory,
  ResourceLimitRule, HostCheck, no_host_network, no_host_pid, no_host_ipc,
}

abbrev pub starts_space : Text → Bool
starts_space [] = false
starts_space (c ∷ s) = is_space c

-- `expr.replace(/\s+/g, ' ')`: the last character of a run gives the space.
unfoldable pub squeeze : Text → Text
unfolding is_space
squeeze [] = []
squeeze (c ∷ s) =
    let rest = squeeze s in
    if is_space c then if starts_space s then rest else b' ' ∷ rest else c ∷ rest

unfoldable pub normalised : Text → Text
unfolding squeeze trim
normalised expr = trim (squeeze expr)

-- What follows a text at the start of another.
unfoldable pub after : Text → Text → Option Text
after [] s = some s
after (p ∷ ps) [] = none
after (p ∷ ps) (c ∷ s) = let rest = after ps s in if c == p then rest else none

-- `(\d+)$`
unfoldable pub digits_to_end : Text → Option ℕ
unfolding number_from
digits_to_end s = if not (is_empty s) && all is_digit s then some (number_from 0 s) else none

-- `\s*<=\s*(\d+)$`
unfoldable pub bound_to_end : Text → Option ℕ
unfolding after digits_to_end trim_start
bound_to_end s = after (lit "<=") (trim_start s) >>= λ t. digits_to_end (trim_start t)

abbrev pub replica_of : ReplicaResource → Text → Option ℕ → Option ReplicaRule
replica_of resource msg none = none
replica_of resource msg (some n) =
    some (record { max_replicas = n; resource_type = resource; message = msg })

-- The first match of two.
abbrev pub or_match : Option ReplicaRule → Option ReplicaRule → Option ReplicaRule
or_match none o = o
or_match (some r) o = some r

unfoldable pub parse_expression_to_replica_rule : Text → Text → Option ReplicaRule
unfolding normalised bound_to_end
parse_expression_to_replica_rule expr msg =
    let e = normalised expr in
    or_match
      (replica_of deployments msg (
        after (lit "request.resource.resource != 'deployments' || object.spec.replicas <= ") e
        >>= digits_to_end))
      (or_match
        (replica_of statefulsets msg (
          after (lit "request.resource.resource != 'statefulsets' || object.spec.replicas <= ") e
          >>= digits_to_end))
        (replica_of ReplicaResource.both msg
          (after (lit "object.spec.replicas") e >>= bound_to_end)))

unfoldable pub parse_expression_to_resource_limit_rule : Text → Text → Option ResourceLimitRule
unfolding normalised includes
parse_expression_to_resource_limit_rule expr msg =
    let e = normalised expr in
    let has_cpu = includes e (lit "has(c.resources.limits.cpu)") in
    let has_mem = includes e (lit "has(c.resources.limits.memory)") in
    if not (includes e (lit "has(c.resources.limits"))
    then none
    else if has_cpu && has_mem
    then some (record { limit_type = ResourceLimit.both; message = msg })
    else if has_cpu
    then some (record { limit_type = cpu; message = msg })
    else if has_mem
    then some (record { limit_type = memory; message = msg })
    else none

pub data SecurityContextPart : Type 0 where
  no_privileged run_as_non_root : SecurityContextPart

unfoldable pub parse_expression_to_security_context_part : Text → Option SecurityContextPart
unfolding normalised includes
parse_expression_to_security_context_part expr =
    let e = normalised expr in
    if includes e (lit "c.securityContext.privileged == false")
    then some no_privileged
    else if includes e (lit "c.?securityContext.?runAsNonRoot.orValue(")
    then some run_as_non_root
    else none

-- Exactly the four generated combinations of the fields.
unfoldable pub host_check : Bool → Bool → Bool → Option HostCheck
host_check true true true = some HostCheck.all
host_check true false false = some no_host_network
host_check false true false = some no_host_pid
host_check false false true = some no_host_ipc
host_check _ _ _ = none

unfoldable pub parse_expression_to_host_access_part : Text → Option HostCheck
unfolding normalised includes host_check
parse_expression_to_host_access_part expr =
    let e = normalised expr in
    host_check (includes e (lit "hostNetwork")) (includes e (lit "hostPID"))
      (includes e (lit "hostIPC"))
