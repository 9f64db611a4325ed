-- ===== src/Cnp/Parse/Stable.antt =====
-- utils/cnpForm.ts: a settled rule is still valid, and writes what the rule wrote.
use k8s_sentinel.Base.{
  Text, trim, trim_idem, is_empty, Bool, true, false, Bool-cases, List, [], ◌∷◌, map, filter, not,
  ◌||◌, All, Object, ◌≡◌, refl, inl, inr, ◌⊎◌, arith, ap, ap₂, ◌∙◌, sym, subst,
}
use k8s_sentinel.Cnp.{
  Mode, whitelist, Direction, PeerKind, labels, entity, cidr, fqdn, PortEntry, HttpRule, Rule,
}
use k8s_sentinel.Cnp.Labels.{to_match_labels, peer_match_labels, to_label_pairs, label_row}
use k8s_sentinel.Cnp.Labels.Rows.{
  IsPlainRow, IsPlain, to_match_labels-IsPlain, with_namespace-to_label_pairs,
}
use k8s_sentinel.Cnp.Address.Normal.{
  IsCidr, normalize_cidr-IsCidr, trim-normalize_cidr, normalize_cidr_idem,
}
use k8s_sentinel.Cnp.Validate.{filled_http, filled_ports, is_fqdn}
use k8s_sentinel.Cnp.Validate.Sound.{
  IsPeer, IsPort, IsHttp, IsRule, IsWholeRow, is_v4_cidr-nil, is_v6_cidr-nil,
}
use k8s_sentinel.Cnp.Render.{peer_part, port_json, http_json, ports_part, to_cilium_rule}
use k8s_sentinel.Cnp.Parse.Settled.{
  settle_port, settle_http, settle_peer, settle_rule, beside, HasPlainRows,
}

IsCidr-filled : (v : Text) → IsCidr v → is_empty v ≡ false
IsCidr-filled [] h = ground (arith, is_v4_cidr-nil, is_v6_cidr-nil)
IsCidr-filled (c ∷ s) h = refl

-- The settled peer, with any ports and HTTP entries.
abbrev around : PeerKind → Rule → List PortEntry → List HttpRule → Rule
around k r ps hs = record (settle_peer k r) { ports = ps; http = hs }

peer_match_labels-settled :
    (r : Rule) (ps : List PortEntry) (hs : List HttpRule)
    → All IsPlainRow r.peer_labels
    → peer_match_labels (around labels r ps hs) ≡ peer_match_labels r
unfolding peer_match_labels
peer_match_labels-settled r ps hs plain =
    with_namespace-to_label_pairs r.peer_namespace (to_match_labels r.peer_labels)
      (to_match_labels-IsPlain r.peer_labels plain)

peer_part-settled :
    (k : PeerKind) (d : Direction) (m : Mode) (r : Rule) (ps : List PortEntry) (hs : List HttpRule)
    → IsPeer k d m r
    → HasPlainRows k r
    → peer_part ((around k r ps hs).peer_kind) (around k r ps hs) d ≡ peer_part k r d
unfolding peer_part
peer_part-settled labels d m r ps hs h plain = rw (peer_match_labels-settled r ps hs plain) refl
peer_part-settled entity d m r ps hs h plain = refl
peer_part-settled cidr d m r ps hs h plain =
    rw (normalize_cidr_idem r.peer_cidr (IsCidr-filled (trim r.peer_cidr) h)) refl
peer_part-settled fqdn d m r ps hs h plain = rw (trim_idem r.peer_fqdn) refl

abbrev is_filled_port : PortEntry → Bool
is_filled_port p = not (is_empty (trim p.port))

abbrev is_filled_http : HttpRule → Bool
is_filled_http h = not (is_empty h.method) || not (is_empty (trim h.path))

filter-settle_port :
    (ps : List PortEntry)
    → filter is_filled_port (map settle_port (filter is_filled_port ps))
      ≡ map settle_port (filter is_filled_port ps)
filter-settle_port [] = refl
filter-settle_port (p ∷ ps) = elim (Bool-cases (is_empty (trim p.port))) [
  | inl blank ↦ rw blank (filter-settle_port ps)
  | inr filled ↦
      rw (filled, trim_idem p.port, filled) (ap (◌∷◌ (settle_port p)) (filter-settle_port ps))
]

filter-settle_http :
    (hs : List HttpRule)
    → filter is_filled_http (map settle_http (filter is_filled_http hs))
      ≡ map settle_http (filter is_filled_http hs)
filter-settle_http [] = refl
filter-settle_http (h ∷ hs) = elim (Bool-cases (is_filled_http h)) [
  | inl filled ↦
      rw (filled, trim_idem h.path, filled) (ap (◌∷◌ (settle_http h)) (filter-settle_http hs))
  | inr blank ↦ rw blank (filter-settle_http hs)
]

filter-beside :
    (ps : List PortEntry) (hs : List HttpRule)
    → filter is_filled_http (beside ps (map settle_http (filter is_filled_http hs)))
      ≡ beside ps (map settle_http (filter is_filled_http hs))
filter-beside [] hs = refl
filter-beside (p ∷ ps) hs = filter-settle_http hs

filled_ports-settled : (r : Rule) → filled_ports (settle_rule r) ≡ map settle_port (filled_ports r)
unfolding filled_ports
filled_ports-settled r = filter-settle_port r.ports

filled_http-settled :
    (r : Rule)
    → filled_http (settle_rule r) ≡ beside (filled_ports r) (map settle_http (filled_http r))
unfolding filled_http
filled_http-settled r = filter-beside (filled_ports r) r.http

map-port_json : (ps : List PortEntry) → map port_json (map settle_port ps) ≡ map port_json ps
unfolding port_json
map-port_json [] = refl
map-port_json (p ∷ ps) = rw (trim_idem p.port, map-port_json ps) refl

map-http_json : (hs : List HttpRule) → map http_json (map settle_http hs) ≡ map http_json hs
unfolding http_json
map-http_json [] = refl
map-http_json (h ∷ hs) = rw (trim_idem h.path, map-http_json hs) refl

ports_part-settled :
    (ps : List PortEntry) (hs : List HttpRule)
    → ports_part
        (map port_json (map settle_port ps))
        (map http_json (beside ps (map settle_http hs)))
      ≡ ports_part (map port_json ps) (map http_json hs)
unfolding ports_part
ports_part-settled [] hs = refl
ports_part-settled (p ∷ ps) hs = ap₂ ports_part (map-port_json (p ∷ ps)) (map-http_json hs)

pub to_cilium_rule-settle_rule :
    (d : Direction) (m : Mode) (r : Rule)
    → IsPeer r.peer_kind d m r
    → HasPlainRows r.peer_kind r
    → to_cilium_rule d (settle_rule r) ≡ to_cilium_rule d r
unfolding to_cilium_rule
to_cilium_rule-settle_rule d m r h plain =
    rw
      (
        filled_ports-settled r,
        filled_http-settled r,
        ports_part-settled (filled_ports r) (filled_http r),
        peer_part-settled r.peer_kind d m r (map settle_port (filled_ports r))
            (beside (filled_ports r) (map settle_http (filled_http r))) h plain,
      )
      refl

label_row-IsWholeRow : (o : Object Text) → IsPlain o → All IsWholeRow (map label_row o)
unfolding label_row
label_row-IsWholeRow [] h = tt
label_row-IsWholeRow ((k, v) ∷ o) (((tk, ek), (tv, ev), (rk, nk)), new, h) =
    (rw (nk, tk, tv, ek, ev) refl, label_row-IsWholeRow o h)

pub to_label_pairs-IsWholeRow : (o : Object Text) → IsPlain o → All IsWholeRow (to_label_pairs o)
unfolding to_label_pairs
to_label_pairs-IsWholeRow [] h = (refl, tt)
to_label_pairs-IsWholeRow (e ∷ o) h = label_row-IsWholeRow (e ∷ o) h

around-IsPeer :
    (k : PeerKind) (d : Direction) (m : Mode) (r : Rule) (ps : List PortEntry) (hs : List HttpRule)
    → IsPeer k d m r
    → HasPlainRows k r
    → IsPeer ((around k r ps hs).peer_kind) d m (around k r ps hs)
around-IsPeer labels d m r ps hs (e, rows) plain = (
  ap is_empty (peer_match_labels-settled r ps hs plain) ∙ e,
  to_label_pairs-IsWholeRow (to_match_labels r.peer_labels)
      (to_match_labels-IsPlain r.peer_labels plain),
)
around-IsPeer entity d m r ps hs h plain = h
around-IsPeer cidr d m r ps hs h plain =
    subst IsCidr (sym (trim-normalize_cidr r.peer_cidr (IsCidr-filled (trim r.peer_cidr) h)))
      (normalize_cidr-IsCidr r.peer_cidr h).1
around-IsPeer fqdn d m r ps hs (at, name) plain = (at, ap is_fqdn (trim_idem r.peer_fqdn) ∙ name)

settle_port-IsPort :
    (ps : List PortEntry) → All IsPort ps → All IsPort (map settle_port (filter is_filled_port ps))
settle_port-IsPort [] h = tt
settle_port-IsPort (p ∷ ps) (h, hs) = elim (Bool-cases (is_empty (trim p.port))) [
  | inl blank ↦ rw blank (settle_port-IsPort ps hs)
  | inr filled ↦ rw filled (rw (trim_idem p.port) h, settle_port-IsPort ps hs)
]

settle_http-IsHttp : (hs : List HttpRule) → All IsHttp (map settle_http (filter is_filled_http hs))
settle_http-IsHttp [] = tt
settle_http-IsHttp (h ∷ hs) = elim (Bool-cases (is_filled_http h)) [
  | inl filled ↦ rw filled (rw (trim_idem h.path) (ground (arith, filled)), settle_http-IsHttp hs)
  | inr blank ↦ rw blank (settle_http-IsHttp hs)
]

beside-All : (ps : List PortEntry) (hs : List HttpRule) → All IsHttp hs → All IsHttp (beside ps hs)
beside-All [] hs h = tt
beside-All (p ∷ ps) hs h = h

filled_ports-IsPort :
    (r : Rule) → All IsPort r.ports → All IsPort (map settle_port (filled_ports r))
unfolding filled_ports
filled_ports-IsPort r h = settle_port-IsPort r.ports h

filled_http-IsHttp : (r : Rule) → All IsHttp (map settle_http (filled_http r))
unfolding filled_http
filled_http-IsHttp r = settle_http-IsHttp r.http

-- HTTP entries of a settled rule stand in a whitelist and beside a port, as those of the rule did.
beside-allowed :
    (m : Mode) (ps : List PortEntry) (qs : List HttpRule)
    → (is_empty qs ≡ true) ⊎ ((m ≡ whitelist) × (is_empty ps ≡ false))
    → (is_empty (beside ps (map settle_http (filter is_filled_http qs))) ≡ true)
      ⊎ ((m ≡ whitelist) × (is_empty (map settle_port ps) ≡ false))
beside-allowed m [] qs h = inl refl
beside-allowed m (p ∷ ps) [] h = inl refl
beside-allowed m (p ∷ ps) (q ∷ qs) (inl e) = absurd (ground arith)
beside-allowed m (p ∷ ps) (q ∷ qs) (inr (w, e)) = inr (w, refl)

settled-allowed :
    (m : Mode) (r : Rule)
    → (is_empty r.http ≡ true) ⊎ ((m ≡ whitelist) × (is_empty (filled_ports r) ≡ false))
    → (is_empty ((settle_rule r).http) ≡ true)
      ⊎ ((m ≡ whitelist) × (is_empty (filled_ports (settle_rule r)) ≡ false))
unfolding filled_http
settled-allowed m r h =
    subst
      (λ ps. (is_empty ((settle_rule r).http) ≡ true) ⊎ ((m ≡ whitelist) × (is_empty ps ≡ false)))
      (sym (filled_ports-settled r)) (beside-allowed m (filled_ports r) r.http h)

pub settle_rule-IsRule :
    (d : Direction) (m : Mode) (r : Rule)
    → IsRule d m r
    → HasPlainRows r.peer_kind r
    → IsRule d m (settle_rule r)
settle_rule-IsRule d m r (peer, ports, http, allowed) plain =
    let hs = map settle_http (filled_http r) in
    (
      around-IsPeer r.peer_kind d m r (map settle_port (filled_ports r))
          (beside (filled_ports r) hs) peer plain,
      filled_ports-IsPort r ports,
      beside-All (filled_ports r) hs (filled_http-IsHttp r),
      settled-allowed m r allowed,
    )
