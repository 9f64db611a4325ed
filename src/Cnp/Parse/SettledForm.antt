-- ===== src/Cnp/Parse/SettledForm.antt =====
-- utils/cnpForm.ts: what a form is read back as, once it was written: still valid, with the same spec.
use k8s_sentinel.Base.{
  Text, lit, trim, trim_idem, is_empty, length, if◌then◌else◌, true, false, any, List, [], ◌∷◌, map,
  All, Option, none, some, Object, Json, bool, array, assign, ◌≡◌, refl, ap, ap₂, ◌∙◌, suc,
}
use k8s_sentinel.Cnp.{
  Mode, Direction, ingress, egress, Scope, namespaced, cluster, PeerKind, labels, entity, cidr,
  fqdn, Rule, Section, FormInput, empty_section,
}
use k8s_sentinel.Cnp.Labels.{subject_match_labels, to_match_labels, to_label_pairs}
use k8s_sentinel.Cnp.Labels.Rows.{
  IsPlainRow, to_match_labels-IsPlain, with_namespace-to_label_pairs,
}
use k8s_sentinel.Cnp.Validate.{is_blacklist, is_dns1123}
use k8s_sentinel.Cnp.Validate.Sound.{IsForm, IsRule, IsSection, IsPlaced}
use k8s_sentinel.Cnp.Render.{
  to_cilium_rule, is_fqdn_kind, section_rules, add_section, add_sections, comment_part, spec_of,
  match_labels, section_key, direction_key,
}
use k8s_sentinel.Cnp.Parse.Settled.{settle_peer, settle_rule, HasPlainRows}
use k8s_sentinel.Cnp.Parse.Stable.{
  to_cilium_rule-settle_rule, settle_rule-IsRule, to_label_pairs-IsWholeRow,
}

-- The mode of a section without rules is not written.
abbrev pub settle_rules : Mode → List Rule → Section
settle_rules m [] = empty_section
settle_rules m (r ∷ rs) = record { mode = m; rules = map settle_rule (r ∷ rs) }

abbrev pub settle_section : Section → Section
settle_section s = settle_rules s.mode s.rules

abbrev pub settle_comment : Option Text → Text
settle_comment none = []
settle_comment (some c) = trim c

abbrev pub settle_namespace : Scope → Text → Text
settle_namespace cluster ns = []
settle_namespace namespaced ns = trim ns

abbrev pub settle_form : FormInput → FormInput
settle_form f = record {
  name = trim f.name;
  scope = f.scope;
  namespace = settle_namespace f.scope f.namespace;
  comment = some (settle_comment f.comment);
  subject = to_label_pairs (to_match_labels f.subject);
  subject_namespace = trim f.subject_namespace;
  ingress = settle_section f.ingress;
  egress = settle_section f.egress;
}

abbrev pub HasPlainPeers : Section → Type 0
HasPlainPeers s = All (λ r. HasPlainRows r.peer_kind r) s.rules

-- The namespace of the subject and of each peer is named in the field for it, and the subject's in a
-- cluster-wide policy only, as the page asks for it.
abbrev pub NamesNamespace : Scope → Text → Type 0
NamesNamespace cluster ns = Unit
NamesNamespace namespaced ns = is_empty (trim ns) ≡ true

abbrev pub IsPlainForm : FormInput → Type 0
IsPlainForm f =
    All IsPlainRow f.subject
    × NamesNamespace f.scope f.subject_namespace
    × HasPlainPeers f.ingress
    × HasPlainPeers f.egress

subject_match_labels-settled :
    (f : FormInput)
    → All IsPlainRow f.subject
    → subject_match_labels (settle_form f) ≡ subject_match_labels f
unfolding subject_match_labels
subject_match_labels-settled f plain =
    with_namespace-to_label_pairs f.subject_namespace (to_match_labels f.subject)
      (to_match_labels-IsPlain f.subject plain)

comment_part-settled : (c : Option Text) → comment_part (some (settle_comment c)) ≡ comment_part c
unfolding trim
comment_part-settled none = refl
comment_part-settled (some c) = rw (trim_idem c) refl

settle_peer-kind : (k : PeerKind) (r : Rule) → (settle_peer k r).peer_kind ≡ k
settle_peer-kind labels r = refl
settle_peer-kind entity r = refl
settle_peer-kind cidr r = refl
settle_peer-kind fqdn r = refl

any-settled :
    (rs : List Rule)
    → any (λ r. is_fqdn_kind r.peer_kind) (map settle_rule rs)
      ≡ any (λ r. is_fqdn_kind r.peer_kind) rs
any-settled [] = refl
any-settled (r ∷ rs) = rw (settle_peer-kind r.peer_kind r, any-settled rs) refl

map-to_cilium_rule :
    (d : Direction) (m : Mode) (rs : List Rule)
    → All (IsRule d m) rs
    → All (λ r. HasPlainRows r.peer_kind r) rs
    → map (to_cilium_rule d) (map settle_rule rs) ≡ map (to_cilium_rule d) rs
map-to_cilium_rule d m [] hs ps = refl
map-to_cilium_rule d m (r ∷ rs) (h, hs) (p, ps) =
    ap₂ ◌∷◌ (to_cilium_rule-settle_rule d m r (h.0) p) (map-to_cilium_rule d m rs hs ps)

section_rules-settled :
    (d : Direction) (m : Mode) (rs : List Rule)
    → All (IsRule d m) rs
    → All (λ r. HasPlainRows r.peer_kind r) rs
    → section_rules d (record { mode = m; rules = map settle_rule rs })
      ≡ section_rules d (record { mode = m; rules = rs })
unfolding section_rules
section_rules-settled d m rs hs ps = rw (any-settled rs, map-to_cilium_rule d m rs hs ps) refl

add_section-settled :
    (d : Direction) (m : Mode) (rs : List Rule) (acc : Object Json × Object Json)
    → All (IsRule d m) rs
    → All (λ r. HasPlainRows r.peer_kind r) rs
    → add_section d (settle_rules m rs) acc ≡ add_section d (record { mode = m; rules = rs }) acc
unfolding add_section
add_section-settled d m [] acc hs ps = refl
add_section-settled d m (r ∷ rs) acc hs ps =
    ap
      (λ js. (
        assign (section_key d m) (array js) (acc.0),
        if is_blacklist m then assign (direction_key d) (bool false) (acc.1) else acc.1,
      ))
      (section_rules-settled d m (r ∷ rs) hs ps)

-- Writing the settled form gives the spec that the form gave.
pub spec_of-settle_form :
    (f : FormInput) → IsForm f → IsPlainForm f → spec_of (settle_form f) ≡ spec_of f
unfolding spec_of add_sections
spec_of-settle_form f (name, placed, subject, rows, count, i, e) (plain, ns, pi, pe) =
    rw
      (
        subject_match_labels-settled f plain,
        comment_part-settled f.comment,
        add_section-settled ingress f.ingress.mode f.ingress.rules
            (
              (lit "endpointSelector", match_labels (subject_match_labels f))
                  ∷ comment_part f.comment,
              [],
            )
            i pi,
        add_section-settled egress f.egress.mode f.egress.rules
            (add_section ingress f.ingress (
              (lit "endpointSelector", match_labels (subject_match_labels f))
                  ∷ comment_part f.comment,
              [],
            ))
            e pe,
      )
      refl

map-settle_rule-IsRule :
    (d : Direction) (m : Mode) (rs : List Rule)
    → All (IsRule d m) rs
    → All (λ r. HasPlainRows r.peer_kind r) rs
    → All (IsRule d m) (map settle_rule rs)
map-settle_rule-IsRule d m [] hs ps = tt
map-settle_rule-IsRule d m (r ∷ rs) (h, hs) (p, ps) =
    (settle_rule-IsRule d m r h p, map-settle_rule-IsRule d m rs hs ps)

settle_rules-IsSection :
    (d : Direction) (m : Mode) (rs : List Rule)
    → All (IsRule d m) rs
    → All (λ r. HasPlainRows r.peer_kind r) rs
    → IsSection d (settle_rules m rs)
settle_rules-IsSection d m [] hs ps = tt
settle_rules-IsSection d m (r ∷ rs) hs ps = map-settle_rule-IsRule d m (r ∷ rs) hs ps

length-map : (rs : List Rule) → length (map settle_rule rs) ≡ length rs
length-map [] = refl
length-map (r ∷ rs) = ap suc (length-map rs)

length-settled : (m : Mode) (rs : List Rule) → length (settle_rules m rs).rules ≡ length rs
length-settled m [] = refl
length-settled m (r ∷ rs) = length-map (r ∷ rs)

settle_namespace-IsPlaced :
    (sc : Scope) (ns : Text) → IsPlaced sc ns → IsPlaced sc (settle_namespace sc ns)
settle_namespace-IsPlaced cluster ns h = tt
settle_namespace-IsPlaced namespaced ns h = rw (trim_idem ns) h

pub settle_form-IsForm : (f : FormInput) → IsForm f → IsPlainForm f → IsForm (settle_form f)
settle_form-IsForm f (name, placed, subject, rows, count, i, e) (plain, ns, pi, pe) = (
  ap is_dns1123 (trim_idem f.name) ∙ name,
  settle_namespace-IsPlaced f.scope f.namespace placed,
  ap is_empty (subject_match_labels-settled f plain) ∙ subject,
  to_label_pairs-IsWholeRow (to_match_labels f.subject) (to_match_labels-IsPlain f.subject plain),
  rw (length-settled f.ingress.mode f.ingress.rules, length-settled f.egress.mode f.egress.rules)
      count,
  settle_rules-IsSection ingress f.ingress.mode f.ingress.rules i pi,
  settle_rules-IsSection egress f.egress.mode f.egress.rules e pe,
)
