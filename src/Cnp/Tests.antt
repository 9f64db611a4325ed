-- ===== src/Cnp/Tests.antt =====
-- A concrete policy form, a concrete js-yaml whose documents are values, and what comes of both.
mod Pages
use k8s_sentinel.Base.{
  lit, trim, ◌===◌, [], ◌∷◌, Option, some, ◌>>=◌, get, assign, without, includes, member, Json,
  true, ap, ◌≡◌, ◌↔◌, refl, inl,
}
use native.Mathlib.Decide.{ℕ_discrete}
use k8s_sentinel.PlainYaml.{Json_discrete, plain_yaml}
use k8s_sentinel.Cnp.{blacklist, cidr, Rule, FormInput, empty_form, empty_rule}
use k8s_sentinel.Cnp.Labels.{
  resolve_key, namespace_key, to_label_pairs, subject_match_labels, peer_match_labels,
}
use k8s_sentinel.Cnp.Address.{is_v4_cidr, normalize_cidr}
use k8s_sentinel.Cnp.Address.Normal.{IsCidr, Writes, normalize_cidr-IsCidr}
use k8s_sentinel.Cnp.Validate.{validate_cnp_form}
use k8s_sentinel.Cnp.Validate.Sound.{IsForm, validate_cnp_form-IsForm}
use k8s_sentinel.Cnp.Render.{manifest, spec_of, cnp_form_to_yaml}
use k8s_sentinel.Cnp.Render.Keys.{SpecKeys, spec_of-SpecKeys}
use k8s_sentinel.Cnp.Parse.{try_parse_cnp_form}
use k8s_sentinel.Cnp.Parse.SettledForm.{settle_form, IsPlainForm}
use k8s_sentinel.Cnp.Parse.Sections.{KeepsShape, has_value}
use k8s_sentinel.Cnp.Parse.Reopen.{try_parse_cnp_form-cnp_form_to_yaml}
use k8s_sentinel.Cnp.Parse.Faithful.{IsLossless, Rewrites, try_parse_cnp_form-Rewrites}

pub plain_yaml-IsLossless : IsLossless plain_yaml
plain_yaml-IsLossless = record { load-dump = λ j. refl; load-blank = refl }

abbrev pub web_rule : Rule
web_rule = record empty_rule {
  peer_kind = cidr;
  peer_cidr = lit " 10.0.0.1 ";
  ports = record { port = lit "443"; protocol = lit "TCP" } ∷ [];
}

abbrev pub web_form : FormInput
web_form = record empty_form {
  name = lit "web";
  namespace = lit "shop";
  subject =
      record { key = lit "app"; value = lit "web" }
      ∷ record { key = lit "app"; value = lit " api " }
      ∷ [];
  ingress = record { mode = blacklist; rules = web_rule ∷ [] };
}

unfoldable pub web_document : Option Json
web_document = some (manifest web_form)

last_row_wins : get (lit "app") (subject_match_labels web_form) ≡ some (lit "api")
unfolding subject_match_labels get lit trim assign ◌===◌ member
last_row_wins = refl

bare_address : IsCidr (trim (lit " 10.0.0.1 "))
unfolding trim lit is_v4_cidr
bare_address = inl refl

normalize_cidr-IsCidr_example :
    Writes (trim (lit " 10.0.0.1 ")) (normalize_cidr (lit " 10.0.0.1 "))
    × IsCidr (normalize_cidr (lit " 10.0.0.1 "))
normalize_cidr-IsCidr_example = normalize_cidr-IsCidr (lit " 10.0.0.1 ") bare_address

validate_cnp_form-IsForm_example : (validate_cnp_form web_form ≡ []) ↔ IsForm web_form
validate_cnp_form-IsForm_example = validate_cnp_form-IsForm web_form

web_form-valid : validate_cnp_form web_form ≡ []
unfolding validate_cnp_form lit trim get subject_match_labels assign ◌===◌ member is_v4_cidr
web_form-valid = refl

spec_of-SpecKeys_example : SpecKeys (spec_of web_form) web_form
spec_of-SpecKeys_example = spec_of-SpecKeys web_form

-- The form that the generated document opens: rows that say nothing are gone, and texts are trimmed.
abbrev pub opened_form : FormInput
opened_form = record web_form {
  subject = record { key = lit "app"; value = lit "api" } ∷ [];
  ingress = record {
    mode = blacklist;
    rules = record web_rule { peer_cidr = lit "10.0.0.1/32" } ∷ [];
  };
}

pub opened : try_parse_cnp_form plain_yaml web_document ≡ some opened_form
unfolding try_parse_cnp_form lit trim get ◌===◌ manifest ◌>>=◌ assign subject_match_labels member
    validate_cnp_form to_label_pairs without is_v4_cidr Json_discrete web_document ℕ_discrete
opened = refl

try_parse_cnp_form-Rewrites_example :
    (doc : Json) × (web_document ≡ some doc)
    × Rewrites plain_yaml plain_yaml-IsLossless doc opened_form
try_parse_cnp_form-Rewrites_example =
    try_parse_cnp_form-Rewrites plain_yaml plain_yaml-IsLossless web_document opened_form opened

plain_yaml-KeepsShape : KeepsShape plain_yaml
plain_yaml-KeepsShape = record { shape = λ a b e path. ap (λ j. has_value path (some j)) e }

web_form-IsPlainForm : IsPlainForm web_form
unfolding lit trim ◌===◌ member resolve_key
web_form-IsPlainForm = ((refl, (refl, tt)), refl, (tt, tt), tt)

try_parse_cnp_form-cnp_form_to_yaml_example :
    (try_parse_cnp_form plain_yaml (cnp_form_to_yaml plain_yaml web_form)
      ≡ some (settle_form web_form))
    × (spec_of (settle_form web_form) ≡ spec_of web_form)
try_parse_cnp_form-cnp_form_to_yaml_example =
    try_parse_cnp_form-cnp_form_to_yaml plain_yaml plain_yaml-IsLossless plain_yaml-KeepsShape
      web_form web_form-valid web_form-IsPlainForm
