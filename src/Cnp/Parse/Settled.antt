-- ===== src/Cnp/Parse/Settled.antt =====
-- utils/cnpForm.ts: what a rule of the form is read back as, once it was written.
use k8s_sentinel.Base.{
  Text, lit, trim, includes, ◌===◌, is_empty, if◌then◌else◌, true, false, Bool-cases, List, [], ◌∷◌,
  ◌++◌, map, All, Option, some, ◌>>=◌, or_else, Object, get, without, Json, str, object,
  of_items-items, of_fields-fields, prop, ◌≡◌, refl, inl, inr, arith, ap, ap₂,
}
use k8s_sentinel.Cnp.{
  Mode, Direction, ingress, egress, PeerKind, labels, entity, cidr, fqdn, PortEntry, HttpRule, Rule,
  empty_rule,
}
use k8s_sentinel.Cnp.Labels.{namespace_key, to_match_labels, peer_match_labels, to_label_pairs}
use k8s_sentinel.Cnp.Labels.Rows.{IsPlainRow, to_match_labels-IsPlain, with_namespace-IsPlain}
use k8s_sentinel.Cnp.Address.{normalize_cidr}
use k8s_sentinel.Cnp.Validate.{filled_http, filled_ports, is_fqdn}
use k8s_sentinel.Cnp.Validate.Sound.{IsPeer}
use k8s_sentinel.Cnp.Render.{
  text_fields, match_labels, peer_part, port_json, http_json, http_part, ports_part, to_cilium_rule,
}
use k8s_sentinel.Cnp.Parse.{
  traverse, text_entry, label_object, parse_port, parse_http, parse_ports, parse_endpoint,
  parse_entity, parse_cidr, parse_fqdn, first_peer, parse_peer, parse_rule,
}

abbrev pub settle_port : PortEntry → PortEntry
settle_port p = record p { port = trim p.port }

abbrev pub settle_http : HttpRule → HttpRule
settle_http h = record h { path = trim h.path }

-- The HTTP entries are written beside a port only.
abbrev pub beside {ℓ κ} : {A : Type ℓ} {B : Type κ} → List A → List B → List B
beside [] hs = []
beside (p ∷ ps) hs = hs

-- The peer alone: every field that its kind does not use is blank.
abbrev pub settle_peer : PeerKind → Rule → Rule
settle_peer labels r = record empty_rule {
  peer_kind = labels;
  peer_namespace = trim r.peer_namespace;
  peer_labels = to_label_pairs (to_match_labels r.peer_labels);
}
settle_peer entity r = record empty_rule { peer_kind = entity; peer_entity = r.peer_entity }
settle_peer cidr r = record empty_rule { peer_kind = cidr; peer_cidr = normalize_cidr r.peer_cidr }
settle_peer fqdn r = record empty_rule { peer_kind = fqdn; peer_fqdn = trim r.peer_fqdn }

abbrev pub settle_rule : Rule → Rule
settle_rule r = record (settle_peer r.peer_kind r) {
  ports = map settle_port (filled_ports r);
  http = beside (filled_ports r) (map settle_http (filled_http r));
}

-- A peer of labels names its namespace in the field for it, not in a row.
abbrev pub HasPlainRows : PeerKind → Rule → Type 0
HasPlainRows labels r = All IsPlainRow r.peer_labels
HasPlainRows entity r = Unit
HasPlainRows cidr r = Unit
HasPlainRows fqdn r = Unit

traverse-text_entry : (o : Object Text) → traverse text_entry (text_fields o) ≡ some o
unfolding traverse text_entry ◌>>=◌
traverse-text_entry [] = refl
traverse-text_entry ((k, v) ∷ o) = rw (traverse-text_entry o) refl

pub label_object-text_fields : (o : Object Text) → label_object (object (text_fields o)) ≡ some o
unfolding label_object ◌>>=◌
label_object-text_fields o = rw (of_fields-fields (text_fields o)) (traverse-text_entry o)

prop-match_labels :
    (o : Object Text) → prop (lit "matchLabels") (match_labels o) ≡ some (object (text_fields o))
unfolding lit get ◌===◌
prop-match_labels o = refl

-- The namespace and the other labels of a peer, taken apart.
peer_match_labels-IsPlain :
    (r : Rule)
    → All IsPlainRow r.peer_labels
    → (or_else (get namespace_key (peer_match_labels r)) [] ≡ trim r.peer_namespace)
      × (without namespace_key (peer_match_labels r) ≡ to_match_labels r.peer_labels)
unfolding peer_match_labels
peer_match_labels-IsPlain r plain =
    with_namespace-IsPlain r.peer_namespace (to_match_labels r.peer_labels)
      (to_match_labels-IsPlain r.peer_labels plain)

parse_endpoint-match_labels :
    (r : Rule)
    → is_empty (peer_match_labels r) ≡ false
    → All IsPlainRow r.peer_labels
    → parse_endpoint (match_labels (peer_match_labels r)) ≡ some (settle_peer labels r)
unfolding parse_endpoint ◌>>=◌
parse_endpoint-match_labels r e plain =
    let (ns, rows) = peer_match_labels-IsPlain r plain in
    rw (prop-match_labels (peer_match_labels r), label_object-text_fields (peer_match_labels r), e)
      (ap₂
        (λ n ls. some (record empty_rule {
          peer_kind = labels;
          peer_namespace = n;
          peer_labels = to_label_pairs ls;
        }))
        ns rows)

parse_fqdn-settled :
    (t : Text)
    → is_empty t ≡ false
    → parse_fqdn (
        object ((if includes t (lit "*") then lit "matchPattern" else lit "matchName", str t) ∷ []))
      ≡ some (record empty_rule { peer_kind = fqdn; peer_fqdn = t })
unfolding parse_fqdn ◌>>=◌ lit get ◌===◌
parse_fqdn-settled t e = elim (Bool-cases (includes t (lit "*"))) [
  | inl pattern ↦ rw (pattern, e) refl
  | inr name ↦ rw (name, e) refl
]

parse_port-port_json : (p : PortEntry) → parse_port (port_json p) ≡ some (settle_port p)
unfolding parse_port port_json ◌>>=◌ lit get ◌===◌
parse_port-port_json p = refl

traverse-parse_port :
    (ps : List PortEntry) → traverse parse_port (map port_json ps) ≡ some (map settle_port ps)
unfolding traverse ◌>>=◌
traverse-parse_port [] = refl
traverse-parse_port (p ∷ ps) = rw (parse_port-port_json p, traverse-parse_port ps) refl

parse_http-texts :
    (m t : Text)
    → parse_http (
        object (
          (if is_empty m then [] else (lit "method", str m) ∷ [])
          ++ (if is_empty t then [] else (lit "path", str t) ∷ [])))
      ≡ some (record { method = m; path = t })
unfolding parse_http ◌>>=◌ lit get ◌===◌
parse_http-texts [] [] = refl
parse_http-texts [] (c ∷ s) = refl
parse_http-texts (d ∷ m) [] = refl
parse_http-texts (d ∷ m) (c ∷ s) = refl

parse_http-http_json : (h : HttpRule) → parse_http (http_json h) ≡ some (settle_http h)
unfolding http_json
parse_http-http_json h = parse_http-texts h.method (trim h.path)

traverse-parse_http :
    (hs : List HttpRule) → traverse parse_http (map http_json hs) ≡ some (map settle_http hs)
unfolding traverse ◌>>=◌
traverse-parse_http [] = refl
traverse-parse_http (h ∷ hs) = rw (parse_http-http_json h, traverse-parse_http hs) refl

-- The `toPorts` part, behind whatever the peer's part is.
pub ports_value : List PortEntry → List HttpRule → Option Json
ports_value ps hs = get (lit "toPorts") (ports_part (map port_json ps) (map http_json hs))

parse_ports-ports_part :
    (ps : List PortEntry) (hs : List HttpRule) (peer : Rule)
    → peer.ports ≡ []
    → peer.http ≡ []
    → parse_ports (ports_value ps hs) peer
      ≡ some (record peer { ports = map settle_port ps; http = beside ps (map settle_http hs) })
unfolding ports_value ports_part http_part parse_ports ◌>>=◌ lit get ◌===◌
parse_ports-ports_part [] hs peer ep eh =
    ap₂ (λ ps hs. some (record peer { ports = ps; http = hs })) ep eh
parse_ports-ports_part (p ∷ ps) [] peer ep eh =
    rw (parse_port-port_json p, of_items-items (map port_json ps), traverse-parse_port ps) refl
parse_ports-ports_part (p ∷ ps) (h ∷ hs) peer ep eh =
    rw
      (
        parse_port-port_json p,
        of_items-items (map port_json ps),
        traverse-parse_port ps,
        parse_http-http_json h,
        of_items-items (map http_json hs),
        traverse-parse_http hs,
      )
      refl

fqdn-filled : (t : Text) → is_fqdn t ≡ true → is_empty t ≡ false
unfolding is_fqdn
fqdn-filled [] h = ground arith
fqdn-filled (c ∷ s) h = refl

parse_peer-peer_part :
    (k : PeerKind) (d : Direction) (m : Mode) (r : Rule) (ps : List PortEntry) (hs : List HttpRule)
    → IsPeer k d m r
    → HasPlainRows k r
    → parse_peer d (object (peer_part k r d ∷ ports_part (map port_json ps) (map http_json hs)))
      ≡ some (settle_peer k r)
unfolding parse_peer first_peer peer_part ports_part parse_entity parse_cidr ◌>>=◌ lit get ◌===◌
parse_peer-peer_part labels ingress m r [] hs (e, rows) plain =
    parse_endpoint-match_labels r e plain
parse_peer-peer_part labels egress m r [] hs (e, rows) plain = parse_endpoint-match_labels r e plain
parse_peer-peer_part labels ingress m r (p ∷ ps) hs (e, rows) plain =
    parse_endpoint-match_labels r e plain
parse_peer-peer_part labels egress m r (p ∷ ps) hs (e, rows) plain =
    parse_endpoint-match_labels r e plain
parse_peer-peer_part entity ingress m r [] hs h plain = refl
parse_peer-peer_part entity egress m r [] hs h plain = refl
parse_peer-peer_part entity ingress m r (p ∷ ps) hs h plain = refl
parse_peer-peer_part entity egress m r (p ∷ ps) hs h plain = refl
parse_peer-peer_part cidr ingress m r [] hs h plain = refl
parse_peer-peer_part cidr egress m r [] hs h plain = refl
parse_peer-peer_part cidr ingress m r (p ∷ ps) hs h plain = refl
parse_peer-peer_part cidr egress m r (p ∷ ps) hs h plain = refl
parse_peer-peer_part fqdn ingress m r ps hs ((d, mode), name) plain = ground arith
parse_peer-peer_part fqdn egress m r [] hs (at, name) plain =
    parse_fqdn-settled (trim r.peer_fqdn) (fqdn-filled (trim r.peer_fqdn) name)
parse_peer-peer_part fqdn egress m r (p ∷ ps) hs (at, name) plain =
    parse_fqdn-settled (trim r.peer_fqdn) (fqdn-filled (trim r.peer_fqdn) name)

pub prop-peer_part :
    (k : PeerKind) (d : Direction) (r : Rule) (rest : Object Json)
    → prop (lit "toPorts") (object (peer_part k r d ∷ rest)) ≡ get (lit "toPorts") rest
unfolding peer_part lit get ◌===◌
prop-peer_part labels ingress r rest = ap (get (lit "toPorts")) (of_fields-fields rest)
prop-peer_part labels egress r rest = ap (get (lit "toPorts")) (of_fields-fields rest)
prop-peer_part entity ingress r rest = ap (get (lit "toPorts")) (of_fields-fields rest)
prop-peer_part entity egress r rest = ap (get (lit "toPorts")) (of_fields-fields rest)
prop-peer_part cidr ingress r rest = ap (get (lit "toPorts")) (of_fields-fields rest)
prop-peer_part cidr egress r rest = ap (get (lit "toPorts")) (of_fields-fields rest)
prop-peer_part fqdn d r rest = ap (get (lit "toPorts")) (of_fields-fields rest)

settle_peer-blank :
    (k : PeerKind) (r : Rule) → ((settle_peer k r).ports ≡ []) × ((settle_peer k r).http ≡ [])
settle_peer-blank labels r = (refl, refl)
settle_peer-blank entity r = (refl, refl)
settle_peer-blank cidr r = (refl, refl)
settle_peer-blank fqdn r = (refl, refl)

-- A rule that may be written is read back, settled.
pub parse_rule-to_cilium_rule :
    (d : Direction) (m : Mode) (r : Rule)
    → IsPeer r.peer_kind d m r
    → HasPlainRows r.peer_kind r
    → parse_rule d (to_cilium_rule d r) ≡ some (settle_rule r)
unfolding parse_rule to_cilium_rule ◌>>=◌ ports_value
parse_rule-to_cilium_rule d m r h plain =
    let (ep, eh) = settle_peer-blank r.peer_kind r in
    rw
      (
        parse_peer-peer_part r.peer_kind d m r (filled_ports r) (filled_http r) h plain,
        prop-peer_part r.peer_kind d r
            (ports_part (map port_json (filled_ports r)) (map http_json (filled_http r))),
      )
      (parse_ports-ports_part (filled_ports r) (filled_http r) (settle_peer r.peer_kind r) ep eh)
