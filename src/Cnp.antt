-- ===== src/Cnp.antt =====
-- utils/cnpForm.ts: the form of a Cilium network policy, its validation, the manifest that it
-- generates and the reading of a manifest back into the form. This file has the form's types and
-- its empty values.
pub mod Labels
pub mod Address
pub mod Validate
pub mod Render
pub mod Parse
pub mod Editing
pub mod Preview
pub mod Page
mod Tests
use k8s_sentinel.Base.{Text, lit, List, [], ◌∷◌, Option, some, none}

pub data Mode : Type 0 where
  blacklist whitelist : Mode

pub data Direction : Type 0 where
  ingress egress : Direction

pub data Scope : Type 0 where
  namespaced cluster : Scope

pub data PeerKind : Type 0 where
  labels entity cidr fqdn : PeerKind

pub record LabelPair : Type 0 where
  pub key : Text
  pub value : Text

pub record PortEntry : Type 0 where
  pub port : Text
  pub protocol : Text

pub record HttpRule : Type 0 where
  pub method : Text
  pub path : Text

pub record Rule : Type 0 where
  pub peer_kind : PeerKind
  pub peer_labels : List LabelPair
  pub peer_namespace : Text
  pub peer_entity : Text
  pub peer_cidr : Text
  pub peer_fqdn : Text
  pub ports : List PortEntry
  pub http : List HttpRule

pub record Section : Type 0 where
  pub mode : Mode
  pub rules : List Rule

pub record FormInput : Type 0 where
  pub name : Text
  pub scope : Scope
  pub namespace : Text
  pub comment : Option Text
  pub subject : List LabelPair
  pub subject_namespace : Text
  pub ingress : Section
  pub egress : Section

abbrev pub empty_section : Section
empty_section = record { mode = whitelist; rules = [] }

-- The two sections, each with the direction that it writes.
abbrev pub sections_of : FormInput → List (Direction × Section)
sections_of input = (ingress, input.ingress) ∷ (egress, input.egress) ∷ []

abbrev pub empty_label : LabelPair
empty_label = record { key = []; value = [] }

abbrev pub empty_port : PortEntry
empty_port = record { port = []; protocol = lit "TCP" }

abbrev pub empty_http : HttpRule
empty_http = record { method = []; path = [] }

abbrev pub empty_rule : Rule
empty_rule = record {
  peer_kind = labels;
  peer_labels = empty_label ∷ [];
  peer_namespace = [];
  peer_entity = lit "world";
  peer_cidr = [];
  peer_fqdn = [];
  ports = [];
  http = [];
}

abbrev pub empty_form : FormInput
empty_form = record {
  name = [];
  scope = namespaced;
  namespace = [];
  comment = some [];
  subject = empty_label ∷ [];
  subject_namespace = [];
  ingress = empty_section;
  egress = empty_section;
}
