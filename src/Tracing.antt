-- ===== src/Tracing.antt =====
-- utils/yamlToForm.ts: the reading of a tracing policy into the policy form. `none` stands for
-- `null` and for an exception alike; Tracing/Page, where the two differ, tells them apart. A kprobe's `call` has the type that
-- the source declares, a text. Everything else is a value of any shape, as js-yaml returns it.
pub mod Representable
pub mod Selectors
pub mod Reader
pub mod Absolute
pub mod Counts
pub mod Modes
pub mod Page
mod Tests
use k8s_sentinel.Base.{Text, List, Option, Json}

pub data Mode : Type 0 where
  whitelist blacklist : Mode

pub data Permission : Type 0 where
  all read write : Permission

pub record ProcessRule : Type 0 where
  pub binaries : List Text

pub record FileRule : Type 0 where
  pub paths : List Json
  pub except_binaries : Option (List Json)
  pub permission : Option Permission

pub record FormInput : Type 0 where
  pub name : Json
  pub namespace : Option Json
  pub pod_selector : Option Json
  pub process_mode : Mode
  pub process : List ProcessRule
  pub file_mode : Option Mode
  pub file : List FileRule

-- The variables of the loop over the kprobes: the form so far, and the process mode seen first.
pub record Progress : Type 0 where
  pub form : FormInput
  pub process_mode_seen : Option Mode
