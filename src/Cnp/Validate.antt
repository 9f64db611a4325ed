-- ===== src/Cnp/Validate.antt =====
-- utils/cnpForm.ts: `validateCNPForm` and what it calls. A message is a value of `Complaint`, one
-- constructor for each message of the source, with the texts and numbers put into it.
pub mod Sound
use k8s_sentinel.Base.{
  Text, lit, trim, member, is_empty, length, all, filter, is_digit, number_from, map, leb, ltb,
  ◌==◌, if◌then◌else◌, ◌&&◌, ◌||◌, not, Bool, true, false, List, [], ◌∷◌, ◌++◌, ℕ, Option, none,
  some, ◌+◌,
}
use k8s_sentinel.Cnp.{
  Mode, blacklist, whitelist, Direction, egress, Scope, namespaced, cluster, PeerKind, labels,
  entity, cidr, fqdn, LabelPair, PortEntry, HttpRule, Rule, Section, FormInput, sections_of,
}
use k8s_sentinel.Cnp.Labels.{subject_match_labels, peer_match_labels}
use k8s_sentinel.Cnp.Address.{is_v4_cidr, is_v6_cidr}

-- `Option ℕ` is the row that a message names: none if the list has one row.
pub data Complaint : Type 0 where
  name_required name_malformed namespace_required : Complaint
  subject_missing : Scope → Complaint
  rule_required : Complaint
  -- The text in front of a label row's message, and the row.
  subject_row peer_row : Complaint → Complaint
  value_without_key key_without_value : Option ℕ → Complaint
  -- A message about one rule of a direction.
  in_rule : Direction → Option ℕ → Complaint → Complaint
  entity_unknown cidr_malformed fqdn_malformed : Text → Complaint
  cidr_missing fqdn_missing peer_missing fqdn_not_here : Complaint
  port_empty port_out_of_range protocol_unsupported http_empty : Option ℕ → Complaint
  http_in_blacklist http_without_port : Complaint

abbrev pub protocols : List Text
protocols = lit "TCP" ∷ lit "UDP" ∷ lit "SCTP" ∷ []

abbrev pub entities : List Text
entities =
    lit "world"
    ∷ lit "cluster"
    ∷ lit "host"
    ∷ lit "remote-node"
    ∷ lit "all"
    ∷ lit "init"
    ∷ lit "health"
    ∷ lit "unmanaged"
    ∷ []

-- ` ${i + 1}` of a list with several rows.
unfoldable pub place_of {ℓ} : {A : Type ℓ} → List A → ℕ → Option ℕ
place_of rows i = if ltb 1 (length rows) then some (i + 1) else none

-- `forEach` with the index, collecting what each row complains of.
unfoldable pub each {ℓ} : {A : Type ℓ} → (A → ℕ → List Complaint) → ℕ → List A → List Complaint
each f i [] = []
each f i (x ∷ xs) = f x i ++ each f (i + 1) xs

unfoldable pub label_row_error : LabelPair → Option ℕ → List Complaint
label_row_error p at =
    if is_empty (trim p.key) && not (is_empty (trim p.value))
    then value_without_key at ∷ []
    else if not (is_empty (trim p.key)) && is_empty (trim p.value)
    then key_without_value at ∷ []
    else []

-- Label rows that are half filled in.
unfoldable pub label_row_errors : List LabelPair → (Complaint → Complaint) → List Complaint
unfolding each place_of label_row_error
label_row_errors pairs what = each (λ p i. map what (label_row_error p (place_of pairs i))) 0 pairs

-- /^[a-z0-9]([-a-z0-9]*[a-z0-9])?$/
abbrev pub is_name_char : ℕ → Bool
is_name_char c = is_digit c || (leb b'a' c && leb c b'z')

unfoldable pub ends_in_name_char : Text → Bool
ends_in_name_char [] = true
ends_in_name_char (c ∷ []) = is_name_char c
ends_in_name_char (c ∷ d ∷ s) = (is_name_char c || (c == b'-')) && ends_in_name_char (d ∷ s)

unfoldable pub is_dns1123 : Text → Bool
unfolding ends_in_name_char
is_dns1123 [] = false
is_dns1123 (c ∷ s) = is_name_char c && ends_in_name_char s

-- /^[*a-zA-Z0-9_][-*.a-zA-Z0-9_]*$/
abbrev pub is_fqdn_start : ℕ → Bool
is_fqdn_start c = is_name_char c || (leb b'A' c && leb c b'Z') || (c == b'_') || (c == b'*')

unfoldable pub is_fqdn : Text → Bool
is_fqdn [] = false
is_fqdn (c ∷ s) = is_fqdn_start c && all (λ d. is_fqdn_start d || (d == b'-') || (d == b'.')) s

unfoldable pub filled_http : Rule → List HttpRule
filled_http r = filter (λ h. not (is_empty h.method) || not (is_empty (trim h.path))) r.http

unfoldable pub filled_ports : Rule → List PortEntry
filled_ports r = filter (λ p. not (is_empty (trim p.port))) r.ports

abbrev pub is_egress_whitelist : Direction → Mode → Bool
is_egress_whitelist egress whitelist = true
is_egress_whitelist _ _ = false

-- What a rule's peer lacks, by the kind of the peer.
unfoldable pub peer_errors : PeerKind → Direction → Mode → Rule → List Complaint
unfolding label_row_errors is_fqdn
peer_errors entity direction mode r =
    if member r.peer_entity entities then [] else entity_unknown r.peer_entity ∷ []
peer_errors cidr direction mode r =
    if is_empty (trim r.peer_cidr)
    then cidr_missing ∷ []
    else if not (is_v4_cidr (trim r.peer_cidr)) && not (is_v6_cidr (trim r.peer_cidr))
    then cidr_malformed (trim r.peer_cidr) ∷ []
    else []
peer_errors fqdn direction mode r =
    if not (is_egress_whitelist direction mode)
    then fqdn_not_here ∷ []
    else if is_empty (trim r.peer_fqdn)
    then fqdn_missing ∷ []
    else if not (is_fqdn (trim r.peer_fqdn))
    then fqdn_malformed (trim r.peer_fqdn) ∷ []
    else []
peer_errors labels direction mode r =
    (if is_empty (peer_match_labels r) then peer_missing ∷ [] else [])
    ++ label_row_errors r.peer_labels peer_row

-- /^\d+$/ and the range of a port.
unfoldable pub is_port : Text → Bool
unfolding number_from
is_port port =
    not (is_empty port)
    && all is_digit port
    && leb 1 (number_from 0 port)
    && leb (number_from 0 port) 65535

unfoldable pub port_errors : PortEntry → Option ℕ → List Complaint
unfolding is_port
port_errors p at =
    (if is_empty (trim p.port)
      then port_empty at ∷ []
      else if not (is_port (trim p.port))
      then port_out_of_range at ∷ []
      else [])
    ++ (if not (member p.protocol protocols) then protocol_unsupported at ∷ [] else [])

unfoldable pub http_errors : HttpRule → Option ℕ → List Complaint
http_errors h at = if is_empty h.method && is_empty (trim h.path) then http_empty at ∷ [] else []

abbrev pub is_blacklist : Mode → Bool
is_blacklist blacklist = true
is_blacklist whitelist = false

-- What an HTTP part may not be combined with.
unfoldable pub http_section_errors : Mode → Rule → List Complaint
unfolding filled_ports
http_section_errors mode r =
    if is_empty r.http
    then []
    else (if is_blacklist mode then http_in_blacklist ∷ [] else [])
      ++ (if is_empty (filled_ports r) then http_without_port ∷ [] else [])

unfoldable pub rule_errors : Direction → Mode → Rule → List Complaint
unfolding peer_errors port_errors http_errors http_section_errors each place_of
rule_errors direction mode r =
    peer_errors r.peer_kind direction mode r
    ++ each (λ p i. port_errors p (place_of r.ports i)) 0 r.ports
    ++ each (λ h i. http_errors h (place_of r.http i)) 0 r.http
    ++ http_section_errors mode r

unfoldable pub section_errors : Direction → Section → List Complaint
unfolding rule_errors each place_of
section_errors direction section =
    each
      (λ r i.
        map (in_rule direction (place_of section.rules i)) (rule_errors direction section.mode r))
      0 section.rules

unfoldable pub sections_errors : List (Direction × Section) → List Complaint
unfolding section_errors
sections_errors [] = []
sections_errors ((d, s) ∷ rest) = section_errors d s ++ sections_errors rest

unfoldable pub name_errors : FormInput → List Complaint
unfolding is_dns1123
name_errors input =
    if is_empty (trim input.name)
    then name_required ∷ []
    else if not (is_dns1123 (trim input.name))
    then name_malformed ∷ []
    else []

abbrev pub is_namespaced : Scope → Bool
is_namespaced namespaced = true
is_namespaced cluster = false

-- The messages in the order of the source.
unfoldable pub validate_cnp_form : FormInput → List Complaint
unfolding name_errors sections_errors label_row_errors
validate_cnp_form input =
    name_errors input
    ++ (if is_namespaced input.scope && is_empty (trim input.namespace)
        then namespace_required ∷ []
        else [])
    ++ (if is_empty (subject_match_labels input) then subject_missing input.scope ∷ [] else [])
    ++ label_row_errors input.subject subject_row
    ++ (if length input.ingress.rules + length input.egress.rules == 0
        then rule_required ∷ []
        else [])
    ++ sections_errors (sections_of input)
