-- ===== src/Cnp/Validate/Sound.antt =====
-- utils/cnpForm.ts: what a form is that `validateCNPForm` has nothing to say about.
use k8s_sentinel.Base.{
  Text, trim, member, is_empty, length, all, is_digit, number_from, map, true, false, List, [], ◌∷◌,
  ◌++◌, ℕ, Option, ◌+◌, ◌≤◌, ◌==◌, ◌≡◌, ◌↔◌, ◌⊎◌, refl, All, arith, if◌then◌else◌, not, ◌&&◌,
}
use k8s_sentinel.Cnp.{
  Mode, blacklist, whitelist, Direction, ingress, egress, Scope, namespaced, cluster, PeerKind,
  labels, entity, cidr, fqdn, LabelPair, PortEntry, HttpRule, Rule, Section, FormInput, sections_of,
}
use k8s_sentinel.Cnp.Labels.{subject_match_labels, peer_match_labels}
use k8s_sentinel.Cnp.Address.{
  is_v4_cidr, is_v6_cidr, is_v4_cidr_parts, is_v6_cidr_parts, is_v4_address, is_v6_address,
}
use k8s_sentinel.Cnp.Validate.{
  Complaint, protocols, entities, place_of, each, label_row_error, label_row_errors, is_dns1123,
  is_fqdn, filled_ports, peer_errors, is_port, port_errors, http_errors, http_section_errors,
  rule_errors, section_errors, sections_errors, name_errors, validate_cnp_form, is_namespaced,
}

-- A label row with both halves filled in, or neither.
abbrev pub IsWholeRow : LabelPair → Type 0
IsWholeRow p = is_empty (trim p.key) ≡ is_empty (trim p.value)

-- The peer of a rule, by its kind: names are matched only in the egress whitelist.
abbrev pub IsPeer : PeerKind → Direction → Mode → Rule → Type 0
IsPeer labels d m r = (is_empty (peer_match_labels r) ≡ false) × All IsWholeRow r.peer_labels
IsPeer entity d m r = member r.peer_entity entities ≡ true
IsPeer cidr d m r = (is_v4_cidr (trim r.peer_cidr) ≡ true) ⊎ (is_v6_cidr (trim r.peer_cidr) ≡ true)
IsPeer fqdn d m r = ((d ≡ egress) × (m ≡ whitelist)) × (is_fqdn (trim r.peer_fqdn) ≡ true)

-- A port is a decimal number of 1 to 65535 with one of the three protocols.
abbrev pub IsPort : PortEntry → Type 0
IsPort p =
    ((all is_digit (trim p.port) ≡ true)
      × (1 ≤ number_from 0 (trim p.port))
      × (number_from 0 (trim p.port) ≤ 65535))
    × (member p.protocol protocols ≡ true)

abbrev pub IsHttp : HttpRule → Type 0
IsHttp h = (is_empty h.method ≡ false) ⊎ (is_empty (trim h.path) ≡ false)

-- HTTP entries stand in whitelists only, beside at least one port.
abbrev pub IsRule : Direction → Mode → Rule → Type 0
IsRule d m r =
    IsPeer r.peer_kind d m r
    × All IsPort r.ports
    × All IsHttp r.http
    × ((is_empty r.http ≡ true) ⊎ ((m ≡ whitelist) × (is_empty (filled_ports r) ≡ false)))

abbrev pub IsSection : Direction → Section → Type 0
IsSection d s = All (IsRule d s.mode) s.rules

-- The namespace is asked of a namespaced policy only.
abbrev pub IsPlaced : Scope → Text → Type 0
IsPlaced cluster ns = Unit
IsPlaced namespaced ns = is_empty (trim ns) ≡ false

abbrev pub IsForm : FormInput → Type 0
IsForm f =
    (is_dns1123 (trim f.name) ≡ true)
    × IsPlaced f.scope f.namespace
    × (is_empty (subject_match_labels f) ≡ false)
    × All IsWholeRow f.subject
    × (1 ≤ length f.ingress.rules + length f.egress.rules)
    × IsSection ingress f.ingress
    × IsSection egress f.egress

-- Two lists of messages are both empty.
append-nil_iff {ℓ} :
    {A : Type ℓ} {P Q : Type 0} (xs ys : List A)
    → (xs ≡ []) ↔ P
    → (ys ≡ []) ↔ Q
    → (xs ++ ys ≡ []) ↔ (P × Q)
append-nil_iff [] ys f g = (λ e. (f.0 refl, g.0 e), λ h. g.1 h.1)
append-nil_iff (x ∷ xs) ys f g =
    (λ e. absurd (ground arith), λ h. absurd (let e = f.1 h.0 in ground arith))

map-nil_iff {ℓ κ} :
    {A : Type ℓ} {B : Type κ} {P : Type 0} (f : A → B) (xs : List A)
    → (xs ≡ []) ↔ P
    → (map f xs ≡ []) ↔ P
map-nil_iff f [] h = (λ e. h.0 refl, λ p. refl)
map-nil_iff f (x ∷ xs) h = (λ e. absurd (ground arith), λ p. absurd (let e = h.1 p in ground arith))

nil_iff {ℓ} : {A : Type ℓ} (xs : List A) → xs ≡ [] → (xs ≡ []) ↔ Unit {0}
nil_iff xs h = (λ e. tt, λ u. h)

each-nil_iff {ℓ} :
    {A : Type ℓ} {P : A → Type 0} (f : A → ℕ → List Complaint)
    → ((a : A) (i : ℕ) → (f a i ≡ []) ↔ P a)
    → (i : ℕ) (xs : List A) → (each f i xs ≡ []) ↔ All P xs
unfolding each
each-nil_iff f h i [] = (λ e. tt, λ e. refl)
each-nil_iff f h i (x ∷ xs) =
    append-nil_iff (f x i) (each f (i + 1) xs) (h x i) (each-nil_iff f h (i + 1) xs)

label_row_error-IsWholeRow :
    (p : LabelPair) (at : Option ℕ) → (label_row_error p at ≡ []) ↔ IsWholeRow p
unfolding label_row_error
label_row_error-IsWholeRow p at = ground arith

label_row_errors-IsWholeRow :
    (ps : List LabelPair) (what : Complaint → Complaint)
    → (label_row_errors ps what ≡ []) ↔ All IsWholeRow ps
unfolding label_row_errors
label_row_errors-IsWholeRow ps what =
    each-nil_iff (λ p i. map what (label_row_error p (place_of ps i)))
      (λ p i. map-nil_iff what _ (label_row_error-IsWholeRow p (place_of ps i))) 0 ps

pub is_v4_cidr-nil : is_v4_cidr [] ≡ false
unfolding is_v4_cidr is_v4_cidr_parts is_v4_address
is_v4_cidr-nil = refl

pub is_v6_cidr-nil : is_v6_cidr [] ≡ false
unfolding is_v6_cidr is_v6_cidr_parts is_v6_address
is_v6_cidr-nil = refl

is_fqdn-nil : is_fqdn [] ≡ false
unfolding is_fqdn
is_fqdn-nil = refl

cidr_errors-nil :
    (t : Text)
    → ((if is_empty t
          then Complaint.cidr_missing ∷ []
          else if not (is_v4_cidr t) && not (is_v6_cidr t)
          then Complaint.cidr_malformed t ∷ []
          else [])
        ≡ [])
      ↔ ((is_v4_cidr t ≡ true) ⊎ (is_v6_cidr t ≡ true))
cidr_errors-nil [] = ground (arith, is_v4_cidr-nil, is_v6_cidr-nil)
cidr_errors-nil (c ∷ s) = ground arith

fqdn_errors-nil :
    (t : Text)
    → ((if is_empty t
          then Complaint.fqdn_missing ∷ []
          else if not (is_fqdn t)
          then Complaint.fqdn_malformed t ∷ []
          else [])
        ≡ [])
      ↔ (is_fqdn t ≡ true)
fqdn_errors-nil [] = ground (arith, is_fqdn-nil)
fqdn_errors-nil (c ∷ s) = ground arith

peer_errors-IsPeer :
    (k : PeerKind) (d : Direction) (m : Mode) (r : Rule)
    → (peer_errors k d m r ≡ []) ↔ IsPeer k d m r
unfolding peer_errors
peer_errors-IsPeer labels d m r =
    append-nil_iff _ _ (ground arith) (label_row_errors-IsWholeRow r.peer_labels Complaint.peer_row)
peer_errors-IsPeer entity d m r = ground arith
peer_errors-IsPeer cidr d m r = cidr_errors-nil (trim r.peer_cidr)
peer_errors-IsPeer fqdn ingress m r = ground arith
peer_errors-IsPeer fqdn egress blacklist r = ground arith
peer_errors-IsPeer fqdn egress whitelist r = (
  λ e. ((refl, refl), (fqdn_errors-nil (trim r.peer_fqdn)).0 e),
  λ h. (fqdn_errors-nil (trim r.peer_fqdn)).1 h.1,
)

is_port-IsPort :
    (s : Text)
    → (is_port s ≡ true)
      ↔ ((all is_digit s ≡ true) × (1 ≤ number_from 0 s) × (number_from 0 s ≤ 65535))
unfolding is_port number_from
is_port-IsPort [] = ground arith
is_port-IsPort (c ∷ s) = ground arith

range_errors-nil :
    (s : Text) (at : Option ℕ)
    → ((if is_empty s
          then Complaint.port_empty at ∷ []
          else if not (is_port s)
          then Complaint.port_out_of_range at ∷ []
          else [])
        ≡ [])
      ↔ ((all is_digit s ≡ true) × (1 ≤ number_from 0 s) × (number_from 0 s ≤ 65535))
unfolding number_from
range_errors-nil [] at = ground arith
range_errors-nil (c ∷ s) at = ground (arith, is_port-IsPort (c ∷ s))

port_errors-IsPort : (p : PortEntry) (at : Option ℕ) → (port_errors p at ≡ []) ↔ IsPort p
unfolding port_errors
port_errors-IsPort p at =
    append-nil_iff
      (if is_empty (trim p.port)
        then Complaint.port_empty at ∷ []
        else if not (is_port (trim p.port))
        then Complaint.port_out_of_range at ∷ []
        else [])
      (if not (member p.protocol protocols) then Complaint.protocol_unsupported at ∷ [] else [])
      (range_errors-nil (trim p.port) at) (ground arith)

http_errors-IsHttp : (h : HttpRule) (at : Option ℕ) → (http_errors h at ≡ []) ↔ IsHttp h
unfolding http_errors
http_errors-IsHttp h at = ground arith

http_section_errors-nil :
    (m : Mode) (r : Rule)
    → (http_section_errors m r ≡ [])
      ↔ ((is_empty r.http ≡ true) ⊎ ((m ≡ whitelist) × (is_empty (filled_ports r) ≡ false)))
unfolding http_section_errors
http_section_errors-nil blacklist r = ground arith
http_section_errors-nil whitelist r = ground arith

rule_errors-IsRule : (d : Direction) (m : Mode) (r : Rule) → (rule_errors d m r ≡ []) ↔ IsRule d m r
unfolding rule_errors
rule_errors-IsRule d m r =
    let all_four =
      append-nil_iff _ _
        (append-nil_iff _ _
          (append-nil_iff _ _ (peer_errors-IsPeer r.peer_kind d m r)
            (each-nil_iff _ (λ p i. port_errors-IsPort p (place_of r.ports i)) 0 r.ports))
          (each-nil_iff _ (λ h i. http_errors-IsHttp h (place_of r.http i)) 0 r.http))
        (http_section_errors-nil m r) in
    (
      λ e. let (((a, b), c), h) = all_four.0 e in (a, b, c, h),
      λ (a, b, c, h). all_four.1 (((a, b), c), h),
    )

section_errors-IsSection : (d : Direction) (s : Section) → (section_errors d s ≡ []) ↔ IsSection d s
unfolding section_errors
section_errors-IsSection d s =
    each-nil_iff _ (λ r i. map-nil_iff _ _ (rule_errors-IsRule d s.mode r)) 0 s.rules

named-nil :
    (t : Text)
    → ((if is_empty t
          then Complaint.name_required ∷ []
          else if not (is_dns1123 t)
          then Complaint.name_malformed ∷ []
          else [])
        ≡ [])
      ↔ (is_dns1123 t ≡ true)
unfolding is_dns1123
named-nil [] = ground arith
named-nil (c ∷ s) = ground arith

name_errors-nil : (f : FormInput) → (name_errors f ≡ []) ↔ (is_dns1123 (trim f.name) ≡ true)
unfolding name_errors
name_errors-nil f = named-nil (trim f.name)

IsPlaced-nil :
    (sc : Scope) (ns : Text)
    → ((if is_namespaced sc && is_empty (trim ns) then Complaint.namespace_required ∷ [] else [])
        ≡ [])
      ↔ IsPlaced sc ns
IsPlaced-nil cluster ns = ground arith
IsPlaced-nil namespaced ns = ground arith

subject-nil :
    (f : FormInput)
    → ((if is_empty (subject_match_labels f) then Complaint.subject_missing f.scope ∷ [] else [])
        ≡ [])
      ↔ (is_empty (subject_match_labels f) ≡ false)
subject-nil f = ground arith

rules-nil :
    (f : FormInput)
    → ((if length f.ingress.rules + length f.egress.rules == 0
          then Complaint.rule_required ∷ []
          else [])
        ≡ [])
      ↔ (1 ≤ length f.ingress.rules + length f.egress.rules)
rules-nil f = ground arith

sections-nil :
    (f : FormInput)
    → (sections_errors (sections_of f) ≡ [])
      ↔ (IsSection ingress f.ingress × IsSection egress f.egress)
unfolding sections_errors
sections-nil f =
    let both =
      append-nil_iff _ _ (section_errors-IsSection ingress f.ingress)
        (append-nil_iff _ [] (section_errors-IsSection egress f.egress) (nil_iff [] refl)) in
    (λ e. let (i, (o, u)) = both.0 e in (i, o), λ (i, o). both.1 (i, (o, tt)))

-- A form draws no message exactly if its name is a DNS label, a namespaced policy has a namespace, its
-- subject matches on some label, no label row is half filled in, it has a rule, and each rule of each
-- direction has a peer, ports and HTTP entries that the kind and the mode allow.
pub validate_cnp_form-IsForm : (f : FormInput) → (validate_cnp_form f ≡ []) ↔ IsForm f
unfolding validate_cnp_form sections_errors
validate_cnp_form-IsForm f =
    let all_six =
      append-nil_iff _ _
        (append-nil_iff _ _
          (append-nil_iff _ _
            (append-nil_iff _ _
              (append-nil_iff _ _ (name_errors-nil f) (IsPlaced-nil f.scope f.namespace))
              (subject-nil f))
            (label_row_errors-IsWholeRow f.subject Complaint.subject_row))
          (rules-nil f))
        (sections-nil f) in
    (
      λ e. let (((((a, b), c), h), g), (i, o)) = all_six.0 e in (a, b, c, h, g, i, o),
      λ (a, b, c, h, g, i, o). all_six.1 (((((a, b), c), h), g), (i, o)),
    )
