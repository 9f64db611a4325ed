-- ===== src/Cnp/Parse/Sections.antt =====
-- utils/cnpForm.ts: `parseRules` on the rules that a section writes.
use k8s_sentinel.Base.{
  Text, lit, ◌===◌, if◌then◌else◌, ◌&&◌, Bool, true, false, Bool-cases, any, List, [], ◌∷◌, ◌++◌,
  map, All, Option, none, some, ◌>>=◌, get, Json, arr, of_items-items, prop_of, as_array, Yaml, ◌≡◌,
  refl, inl, inr, arith, ◌∙◌, sym, cons,
}
use k8s_sentinel.Cnp.{
  Mode, whitelist, blacklist, Direction, ingress, egress, PortEntry, HttpRule, Rule,
}
use k8s_sentinel.Cnp.Validate.{is_egress_whitelist, filled_ports, filled_http}
use k8s_sentinel.Cnp.Validate.Sound.{IsRule}
use k8s_sentinel.Cnp.Render.{
  port_json, http_json, ports_part, http_part, to_cilium_rule, is_fqdn_kind, section_rules,
  dns_visibility_rule,
}
use k8s_sentinel.Cnp.Render.Keys.{written}
use k8s_sentinel.Cnp.Parse.{is_there, parse_rule_list, parse_rules, pick_section}
use k8s_sentinel.Cnp.Parse.Settled.{
  settle_rule, HasPlainRows, parse_rule-to_cilium_rule, prop-peer_part,
}
use k8s_sentinel.Cnp.Parse.SettledForm.{settle_rules}

-- A step into a value: under a key, or to the first entry of an array.
pub data Step : Type 0 where
  under : Text → Step
  at_first : Step

abbrev pub take_step : Step → Option Json → Option Json
take_step (under k) o = prop_of k o
take_step at_first (some (arr (cons x xs))) = some x
take_step at_first _ = none

abbrev pub value_at : List Step → Option Json → Option Json
value_at [] o = o
value_at (s ∷ path) o = value_at path (take_step s o)

abbrev pub has_value : List Step → Option Json → Bool
has_value path o = is_there (value_at path o)

-- Two values with one dump, whatever the order of their keys, have values at the same places.
pub record KeepsShape (yaml : Yaml) : Type 0 where
  pub shape :
      (a b : Json)
      → yaml.canon a ≡ yaml.canon b
      → (path : List Step) → has_value path (some a) ≡ has_value path (some b)

-- Where the DNS rule has its L7 part.
abbrev dns_path : List Step
dns_path = under (lit "toPorts") ∷ at_first ∷ under (lit "rules") ∷ under (lit "dns") ∷ []

dns_path-ports_part :
    (ps : List PortEntry) (hs : List HttpRule)
    → has_value
        (at_first ∷ under (lit "rules") ∷ under (lit "dns") ∷ [])
        (get (lit "toPorts") (ports_part (map port_json ps) (map http_json hs)))
      ≡ false
unfolding ports_part http_part lit get ◌===◌
dns_path-ports_part [] hs = refl
dns_path-ports_part (p ∷ ps) [] = refl
dns_path-ports_part (p ∷ ps) (h ∷ hs) = refl

-- No rule of the form has a DNS part.
to_cilium_rule-dns_path :
    (d : Direction) (r : Rule) → has_value dns_path (some (to_cilium_rule d r)) ≡ false
unfolding to_cilium_rule
to_cilium_rule-dns_path d r =
    rw
      (prop-peer_part r.peer_kind d r
        (ports_part (map port_json (filled_ports r)) (map http_json (filled_http r))))
      (dns_path-ports_part (filled_ports r) (filled_http r))

dns_visibility_rule-dns_path : has_value dns_path (some dns_visibility_rule) ≡ true
unfolding lit get ◌===◌
dns_visibility_rule-dns_path = refl

module _ (yaml : Yaml) (keeps : KeepsShape yaml) where
  rule-is_shown :
      (d : Direction) (r : Rule)
      → yaml.same (yaml.canon (to_cilium_rule d r)) (yaml.canon dns_visibility_rule) ≡ false
  rule-is_shown d r =
      elim (Bool-cases
        (yaml.same (yaml.canon (to_cilium_rule d r)) (yaml.canon dns_visibility_rule))) [
          | inr other ↦ other
          | inl same ↦ absurd (
              let e =
                keeps.shape (to_cilium_rule d r) dns_visibility_rule
                  ((yaml.same_iff (yaml.canon (to_cilium_rule d r))
                      (yaml.canon dns_visibility_rule)).0
                    same)
                  dns_path in
              let e' = sym (to_cilium_rule-dns_path d r) ∙ e ∙ dns_visibility_rule-dns_path in
              ground arith)
        ]

  dns-is_hidden : yaml.same (yaml.canon dns_visibility_rule) (yaml.canon dns_visibility_rule) ≡ true
  dns-is_hidden =
      (yaml.same_iff (yaml.canon dns_visibility_rule) (yaml.canon dns_visibility_rule)).1 refl

  -- The rules and what stands behind them.
  parse_rule_list-append :
      (d : Direction) (m : Mode) (rs : List Rule) (rest : List Json)
      → All (IsRule d m) rs
      → All (λ r. HasPlainRows r.peer_kind r) rs
      → parse_rule_list yaml d rest ≡ some []
      → parse_rule_list yaml d (map (to_cilium_rule d) rs ++ rest) ≡ some (map settle_rule rs)
  unfolding parse_rule_list ◌>>=◌
  parse_rule_list-append d m [] rest hs ps e = e
  parse_rule_list-append d m (r ∷ rs) rest (h, hs) (p, ps) e =
      rw
        (
          rule-is_shown d r,
          parse_rule-to_cilium_rule d m r (h.0) p,
          parse_rule_list-append d m rs rest hs ps e,
        )
        (ground arith)

  parse_rule_list-dns :
      (d : Direction) (m : Mode) (fqdn_there : Bool)
      → parse_rule_list yaml d
          (if is_egress_whitelist d m && fqdn_there then dns_visibility_rule ∷ [] else [])
        ≡ some []
  unfolding parse_rule_list
  parse_rule_list-dns ingress m b = refl
  parse_rule_list-dns egress blacklist b = refl
  parse_rule_list-dns egress whitelist false = refl
  parse_rule_list-dns egress whitelist true = rw dns-is_hidden refl

  parse_rules-section_rules :
      (d : Direction) (m : Mode) (r : Rule) (rs : List Rule)
      → All (IsRule d m) (r ∷ rs)
      → All (λ r. HasPlainRows r.peer_kind r) (r ∷ rs)
      → parse_rules yaml d (section_rules d (record { mode = m; rules = r ∷ rs }))
        ≡ some (map settle_rule (r ∷ rs))
  unfolding parse_rules section_rules
  parse_rules-section_rules d m r rs hs ps =
      parse_rule_list-append d m (r ∷ rs) _ hs ps
        (parse_rule_list-dns d m (any (λ r. is_fqdn_kind r.peer_kind) (r ∷ rs)))

  -- One direction: what was written under its two keys reads as the settled section.
  pub pick_section-written :
      (d : Direction) (m : Mode) (rs : List Rule)
      → All (IsRule d m) rs
      → All (λ r. HasPlainRows r.peer_kind r) rs
      → pick_section yaml d
          (written whitelist d (record { mode = m; rules = rs }) >>= as_array)
          (written blacklist d (record { mode = m; rules = rs }) >>= as_array)
        ≡ some (settle_rules m rs)
  unfolding pick_section ◌>>=◌
  pick_section-written d m [] hs ps = refl
  pick_section-written d whitelist (r ∷ rs) hs ps =
      rw
        (
          of_items-items (section_rules d (record { mode = whitelist; rules = r ∷ rs })),
          parse_rules-section_rules d whitelist r rs hs ps,
        )
        refl
  pick_section-written d blacklist (r ∷ rs) hs ps =
      rw
        (
          of_items-items (section_rules d (record { mode = blacklist; rules = r ∷ rs })),
          parse_rules-section_rules d blacklist r rs hs ps,
        )
        refl
