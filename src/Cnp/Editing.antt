-- ===== src/Cnp/Editing.antt =====
-- pages/CNPPage.tsx: what the controls of the form, LabelRows and RuleSection change. A control that is
-- disabled, or not shown, changes nothing.
use k8s_sentinel.Base.{
  Text, ℕ, ltb, lit, ◌===◌, length, is_empty, update_at, remove_at, Bool, true, false, List, [],
  ◌∷◌, ◌++◌, some, if◌then◌else◌,
}
use k8s_sentinel.Cnp.{
  Mode, Direction, ingress, egress, Scope, namespaced, cluster, PeerKind, labels, entity, cidr,
  fqdn, LabelPair, Rule, Section, FormInput, empty_label, empty_port, empty_http, empty_rule,
}
use k8s_sentinel.Cnp.Validate.{is_blacklist, is_egress_whitelist}

pub data LabelEdit : Type 0 where
  add_label : LabelEdit
  set_key set_value : ℕ → Text → LabelEdit
  remove_label : ℕ → LabelEdit

-- The last row has no button that removes it.
unfoldable pub edit_labels : LabelEdit → List LabelPair → List LabelPair
edit_labels add_label pairs = pairs ++ empty_label ∷ []
edit_labels (set_key i t) pairs = update_at i (λ p. record p { key = t }) pairs
edit_labels (set_value i t) pairs = update_at i (λ p. record p { value = t }) pairs
edit_labels (remove_label i) pairs = if ltb 1 (length pairs) then remove_at i pairs else pairs

pub data RuleEdit : Type 0 where
  set_peer_kind : PeerKind → RuleEdit
  set_peer_entity set_peer_cidr set_peer_fqdn set_peer_namespace : Text → RuleEdit
  edit_peer_labels : LabelEdit → RuleEdit
  add_port add_http : RuleEdit
  set_port set_protocol set_method set_path : ℕ → Text → RuleEdit
  remove_port remove_http : ℕ → RuleEdit

abbrev pub same_peer_kind : PeerKind → PeerKind → Bool
same_peer_kind labels labels = true
same_peer_kind entity entity = true
same_peer_kind cidr cidr = true
same_peer_kind fqdn fqdn = true
same_peer_kind _ _ = false

-- The field of one kind of peer.
abbrev pub peer_field : PeerKind → Rule → Rule → Rule
peer_field kind r changed = if same_peer_kind r.peer_kind kind then changed else r

-- The HTTP fields of a blacklist are disabled.
abbrev pub http_field : Mode → Rule → Rule → Rule
http_field mode r changed = if is_blacklist mode then r else changed

-- The item of the method's menu that stands for no method.
abbrev pub method_of : Text → Text
method_of v = if v === lit "any" then [] else v

unfoldable pub edit_rule : Direction → Mode → RuleEdit → Rule → Rule
unfolding edit_labels
edit_rule d m (set_peer_kind fqdn) r =
    if is_egress_whitelist d m then record r { peer_kind = fqdn } else r
edit_rule d m (set_peer_kind kind) r = record r { peer_kind = kind }
edit_rule d m (set_peer_entity t) r = peer_field entity r (record r { peer_entity = t })
edit_rule d m (set_peer_cidr t) r = peer_field cidr r (record r { peer_cidr = t })
edit_rule d m (set_peer_fqdn t) r = peer_field fqdn r (record r { peer_fqdn = t })
edit_rule d m (set_peer_namespace t) r = peer_field labels r (record r { peer_namespace = t })
edit_rule d m (edit_peer_labels e) r =
    peer_field labels r (record r { peer_labels = edit_labels e r.peer_labels })
edit_rule d m add_port r = record r { ports = r.ports ++ empty_port ∷ [] }
edit_rule d m (set_port i t) r = record r {
  ports = update_at i (λ q. record q { port = t }) r.ports;
}
edit_rule d m (set_protocol i t) r = record r {
  ports = update_at i (λ q. record q { protocol = t }) r.ports;
}
edit_rule d m (remove_port i) r = record r { ports = remove_at i r.ports }
edit_rule d m add_http r = http_field m r (record r { http = r.http ++ empty_http ∷ [] })
edit_rule d m (set_method i v) r =
    http_field m r (record r { http = update_at i (λ q. record q { method = method_of v }) r.http })
edit_rule d m (set_path i t) r =
    http_field m r (record r { http = update_at i (λ q. record q { path = t }) r.http })
edit_rule d m (remove_http i) r = record r { http = remove_at i r.http }

pub data SectionEdit : Type 0 where
  set_mode : Mode → SectionEdit
  add_rule : SectionEdit
  remove_rule : ℕ → SectionEdit
  update_rule : ℕ → RuleEdit → SectionEdit

-- The mode is shown beside rules only.
unfoldable pub edit_section : Direction → SectionEdit → Section → Section
unfolding edit_rule
edit_section d (set_mode m) s = if is_empty s.rules then s else record s { mode = m }
edit_section d add_rule s = record s { rules = s.rules ++ empty_rule ∷ [] }
edit_section d (remove_rule i) s = record s { rules = remove_at i s.rules }
edit_section d (update_rule i e) s = record s { rules = update_at i (edit_rule d s.mode e) s.rules }

pub data FormEdit : Type 0 where
  set_name set_namespace set_comment set_subject_namespace : Text → FormEdit
  set_scope : Scope → FormEdit
  edit_subject : LabelEdit → FormEdit
  edit_direction : Direction → SectionEdit → FormEdit

abbrev pub kept_namespace : Scope → Text → Text
kept_namespace cluster ns = ns
kept_namespace namespaced ns = []

abbrev pub namespace_field : Scope → Text → FormInput → FormInput
namespace_field cluster t f = f
namespace_field namespaced t f = record f { namespace = t }

abbrev pub subject_namespace_field : Scope → Text → FormInput → FormInput
subject_namespace_field cluster t f = record f { subject_namespace = t }
subject_namespace_field namespaced t f = f

abbrev pub section_field : Direction → SectionEdit → FormInput → FormInput
section_field ingress e f = record f { ingress = edit_section ingress e f.ingress }
section_field egress e f = record f { egress = edit_section egress e f.egress }

-- One change of the form; `fixed` says that a saved policy is edited, whose name, scope and namespace
-- stay.
unfoldable pub edit_form : Bool → FormEdit → FormInput → FormInput
unfolding edit_section
edit_form fixed (set_name t) f = if fixed then f else record f { name = t }
edit_form fixed (set_scope s) f =
    if fixed
    then f
    else record f { scope = s; subject_namespace = kept_namespace s f.subject_namespace }
edit_form fixed (set_namespace t) f = if fixed then f else namespace_field f.scope t f
edit_form fixed (set_comment t) f = record f { comment = some t }
edit_form fixed (edit_subject e) f = record f { subject = edit_labels e f.subject }
edit_form fixed (set_subject_namespace t) f = subject_namespace_field f.scope t f
edit_form fixed (edit_direction d e) f = section_field d e f
