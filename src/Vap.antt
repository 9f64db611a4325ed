-- ===== src/Vap.antt =====
-- pages/VAPPage.tsx: the builder of validating admission policies and their bindings. This file has
-- the types of the builder's rules and their empty values.
pub mod Escape
pub mod Rules
pub mod Pods
pub mod Sizes
pub mod Policy
pub mod Binding
pub mod Reopen
pub mod Expressions
pub mod Open
pub mod Editing
pub mod Page
mod Tests
use k8s_sentinel.Base.{Text, lit, ℕ, [], Bool, true, false}

pub data LabelCondition : Type 0 where
  equal unequal : LabelCondition

-- `'Deny' | 'Audit' | 'Warn'`, texts that nothing checks where they are read from a document.
abbrev pub ValidationAction : Type 0
ValidationAction = Text

abbrev pub deny : ValidationAction
deny = lit "Deny"

pub data RuleType : Type 0 where
  label annotation image replica resource_limits security_context host_access : RuleType
  configmap_size secret_size : RuleType

-- The source's type is a union of texts that nothing checks where they are read: `other` is a text
-- that is none of them.
pub data ApplyTo : Type 0 where
  all workloads pods deployments statefulsets daemonsets jobs cronjobs : ApplyTo
  configmaps secrets persistentvolumeclaims services ingresses networkpolicies : ApplyTo
  serviceaccounts namespaces : ApplyTo
  other : Text → ApplyTo

pub record LabelRule : Type 0 where
  pub key : Text
  pub condition : LabelCondition
  pub value : Text
  pub message : Text

pub data ImagePolicyType : Type 0 where
  no_latest required_registry : ImagePolicyType

pub record ImageRule : Type 0 where
  pub policy : ImagePolicyType
  pub registry : Text
  pub message : Text

pub data ReplicaResource : Type 0 where
  deployments statefulsets both : ReplicaResource

pub record ReplicaRule : Type 0 where
  pub max_replicas : ℕ
  pub resource_type : ReplicaResource
  pub message : Text

pub data ResourceLimit : Type 0 where
  cpu memory both : ResourceLimit

pub record ResourceLimitRule : Type 0 where
  pub limit_type : ResourceLimit
  pub message : Text

pub data SecurityCheck : Type 0 where
  no_privileged run_as_non_root both : SecurityCheck

pub record SecurityContextRule : Type 0 where
  pub check_type : SecurityCheck
  pub message : Text

pub data HostCheck : Type 0 where
  no_host_network no_host_pid no_host_ipc all : HostCheck

pub record HostAccessRule : Type 0 where
  pub check_type : HostCheck
  pub message : Text

pub record SizeLimitRule : Type 0 where
  pub total_kb : Text
  pub message : Text

abbrev pub empty_rule : LabelRule
empty_rule = record { key = []; condition = equal; value = []; message = [] }

abbrev pub empty_image_rule : ImageRule
empty_image_rule = record { policy = no_latest; registry = []; message = [] }

abbrev pub empty_replica_rule : ReplicaRule
empty_replica_rule = record {
  max_replicas = 5;
  resource_type = ReplicaResource.deployments;
  message = [];
}

abbrev pub empty_resource_limit_rule : ResourceLimitRule
empty_resource_limit_rule = record { limit_type = ResourceLimit.both; message = [] }

abbrev pub empty_security_context_rule : SecurityContextRule
empty_security_context_rule = record { check_type = no_privileged; message = [] }

abbrev pub empty_host_access_rule : HostAccessRule
empty_host_access_rule = record { check_type = HostCheck.all; message = [] }

abbrev pub empty_size_limit_rule : SizeLimitRule
empty_size_limit_rule = record { total_kb = []; message = [] }
