-- ===== src/Cnp/Render.antt =====
-- utils/cnpForm.ts: the Cilium rules and the manifest that the form generates.
pub mod Keys
use k8s_sentinel.Base.{
  Text, lit, trim, includes, is_empty, length, any, if◌then◌else◌, ◌&&◌, not, Bool, true, false,
  List, [], ◌∷◌, ◌++◌, map, Option, none, some, Object, assign, Json, bool, str, array, object,
  Yaml,
}
use k8s_sentinel.Cnp.{
  Mode, blacklist, whitelist, Direction, ingress, egress, Scope, namespaced, cluster, PeerKind,
  labels, entity, cidr, fqdn, PortEntry, HttpRule, Rule, Section, FormInput, sections_of,
}
use k8s_sentinel.Cnp.Labels.{namespace_key, subject_match_labels, peer_match_labels}
use k8s_sentinel.Cnp.Address.{normalize_cidr}
use k8s_sentinel.Cnp.Validate.{
  filled_http, filled_ports, is_blacklist, is_egress_whitelist, validate_cnp_form,
}

abbrev pub builder_annotation : Text
builder_annotation = lit "sentinel.io/builder"

abbrev pub text_fields : Object Text → Object Json
text_fields = map (λ e. (e.0, str e.1))

abbrev pub match_labels : Object Text → Json
match_labels o = object ((lit "matchLabels", object (text_fields o)) ∷ [])

-- `DNS_VISIBILITY_RULE`
abbrev pub dns_visibility_rule : Json
dns_visibility_rule = object (
    (
      lit "toEndpoints",
      array (
          match_labels ((namespace_key, lit "kube-system") ∷ (lit "k8s-app", lit "kube-dns") ∷ [])
          ∷ []),
    )
    ∷ (
      lit "toPorts",
      array (
          object (
            (
              lit "ports",
              array (
                  object ((lit "port", str (lit "53")) ∷ (lit "protocol", str (lit "ANY")) ∷ [])
                  ∷ []),
            )
            ∷ (
              lit "rules",
              object (
                  (lit "dns", array (object ((lit "matchPattern", str (lit "*")) ∷ []) ∷ [])) ∷ []),
            )
            ∷ [])
          ∷ []),
    )
    ∷ [])

abbrev is_ingress : Direction → Bool
is_ingress ingress = true
is_ingress egress = false

-- The peer part of a Cilium rule: its one property.
unfoldable pub peer_part : PeerKind → Rule → Direction → Text × Json
unfolding peer_match_labels normalize_cidr trim includes
peer_part entity r d =
    (if is_ingress d then lit "fromEntities" else lit "toEntities", array (str r.peer_entity ∷ []))
peer_part cidr r d = (
  if is_ingress d then lit "fromCIDR" else lit "toCIDR",
  array (str (normalize_cidr r.peer_cidr) ∷ []),
)
peer_part fqdn r d = (
  lit "toFQDNs",
  array (
      object (
        (
          if includes (trim r.peer_fqdn) (lit "*") then lit "matchPattern" else lit "matchName",
          str (trim r.peer_fqdn),
        )
        ∷ [])
      ∷ []),
)
peer_part labels r d = (
  if is_ingress d then lit "fromEndpoints" else lit "toEndpoints",
  array (match_labels (peer_match_labels r) ∷ []),
)

unfoldable pub port_json : PortEntry → Json
unfolding trim
port_json p = object ((lit "port", str (trim p.port)) ∷ (lit "protocol", str p.protocol) ∷ [])

unfoldable pub http_json : HttpRule → Json
unfolding trim
http_json h = object (
    (if is_empty h.method then [] else (lit "method", str h.method) ∷ [])
    ++ (if is_empty (trim h.path) then [] else (lit "path", str (trim h.path)) ∷ []))

-- The `rules` part beside the ports: left out without HTTP entries.
unfoldable pub http_part : List Json → Object Json
http_part [] = []
http_part (h ∷ hs) = (lit "rules", object ((lit "http", array (h ∷ hs)) ∷ [])) ∷ []

-- The `toPorts` part: left out without filled ports.
unfoldable pub ports_part : List Json → List Json → Object Json
unfolding http_part
ports_part [] http = []
ports_part (p ∷ ps) http =
    (lit "toPorts", array (object ((lit "ports", array (p ∷ ps)) ∷ http_part http) ∷ [])) ∷ []

unfoldable pub to_cilium_rule : Direction → Rule → Json
unfolding peer_part ports_part port_json http_json filled_ports filled_http
to_cilium_rule direction r = object (
    peer_part r.peer_kind r direction
    ∷ ports_part (map port_json (filled_ports r)) (map http_json (filled_http r)))

abbrev pub is_fqdn_kind : PeerKind → Bool
is_fqdn_kind fqdn = true
is_fqdn_kind _ = false

-- The rules of a section, with the DNS rule behind them where names are matched.
unfoldable pub section_rules : Direction → Section → List Json
unfolding to_cilium_rule
section_rules direction section =
    map (to_cilium_rule direction) section.rules
    ++ (if is_egress_whitelist direction section.mode
          && any (λ r. is_fqdn_kind r.peer_kind) section.rules
        then dns_visibility_rule ∷ []
        else [])

abbrev pub direction_key : Direction → Text
direction_key ingress = lit "ingress"
direction_key egress = lit "egress"

abbrev pub deny_key : Direction → Text
deny_key ingress = lit "ingressDeny"
deny_key egress = lit "egressDeny"

unfoldable pub section_key : Direction → Mode → Text
section_key d blacklist = deny_key d
section_key d whitelist = direction_key d

-- One round of the loop over the sections: the spec and `defaultDenyOff`.
unfoldable pub add_section :
    Direction → Section → Object Json × Object Json → Object Json × Object Json
unfolding section_rules section_key
add_section d section (spec, off) = if is_empty section.rules then (spec, off) else (
  assign (section_key d section.mode) (array (section_rules d section)) spec,
  if is_blacklist section.mode then assign (direction_key d) (bool false) off else off,
)

unfoldable pub add_sections :
    List (Direction × Section) → Object Json × Object Json → Object Json × Object Json
unfolding add_section
add_sections [] acc = acc
add_sections ((d, s) ∷ rest) acc = add_sections rest (add_section d s acc)

abbrev pub comment_part : Option Text → Object Json
comment_part none = []
comment_part (some c) = if is_empty (trim c) then [] else (lit "description", str (trim c)) ∷ []

-- `enableDefaultDeny` is written only if some direction denies.
unfoldable pub deny_part : Object Json × Object Json → Object Json
deny_part (spec, []) = spec
deny_part (spec, e ∷ off) = assign (lit "enableDefaultDeny") (object (e ∷ off)) spec

unfoldable pub spec_of : FormInput → Object Json
unfolding add_sections deny_part
spec_of input = deny_part (
    add_sections (sections_of input) (
      (lit "endpointSelector", match_labels (subject_match_labels input))
          ∷ comment_part input.comment,
      [],
    ))

abbrev pub kind_of : Scope → Text
kind_of cluster = lit "CiliumClusterwideNetworkPolicy"
kind_of namespaced = lit "CiliumNetworkPolicy"

abbrev pub namespace_part : Scope → Text → Object Json
namespace_part cluster ns = []
namespace_part namespaced ns = (lit "namespace", str (trim ns)) ∷ []

unfoldable pub manifest : FormInput → Json
unfolding spec_of trim
manifest input = object (
    (lit "apiVersion", str (lit "cilium.io/v2"))
    ∷ (lit "kind", str (kind_of input.scope))
    ∷ (
      lit "metadata",
      object (
          (lit "name", str (trim input.name)) ∷ namespace_part input.scope input.namespace
          ++ (lit "annotations", object ((builder_annotation, str (lit "true")) ∷ [])) ∷ []),
    )
    ∷ (lit "spec", object (spec_of input))
    ∷ [])

module _ (yaml : Yaml) where
  -- `blank` is the empty text, for a form that is not valid yet.
  unfoldable pub cnp_form_to_yaml : FormInput → yaml.Doc
  unfolding manifest
  cnp_form_to_yaml input =
      if is_empty (validate_cnp_form input) then yaml.dump (manifest input) else yaml.blank
