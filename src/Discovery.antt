-- ===== src/Discovery.antt =====
-- layout/DiscoveryProvider.tsx and pages/DiscoveryPage.tsx: the polling of the profiles, and their
-- grouping by workload.
pub mod Groups
pub mod Polling
mod Tests
use k8s_sentinel.Base.{Text, lit, List, Option}

pub record PodProfile : Type 0 where
  pub namespace : Text
  pub pod : Text
  pub workload_kind : Option Text
  pub workload_name : Option Text
  pub binaries : List Text
  pub first_seen : Text
  pub last_seen : Text

pub record WorkloadProfile : Type 0 where
  pub key : Text
  pub namespace : Text
  pub workload_kind : Text
  pub workload_name : Text
  pub pods : List Text
  pub binaries : List Text
  pub first_seen : Text
  pub last_seen : Text
