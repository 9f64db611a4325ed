-- ===== src/Cnp/Parse/Reopen.antt =====
-- utils/cnpForm.ts: `tryParseCNPForm` opens what `cnpFormToYaml` generates.
use k8s_sentinel.Base.{
  Text, lit, trim, ◌===◌, is_empty, is_empty-eq_true, length, ◌==◌, true, false, Bool-cases, [],
  All, Option, none, some, ◌>>=◌, or_else, get, without, object, of_fields-fields, prop, prop_of,
  as_text, Yaml, ◌≡◌, refl, inl, inr, arith, ap, ◌∙◌, sym, ◌+◌, ◌≤◌, ℕ,
}
use k8s_sentinel.Cnp.{ingress, egress, Scope, namespaced, cluster, FormInput}
use k8s_sentinel.Cnp.Labels.{namespace_key, subject_match_labels, to_match_labels}
use k8s_sentinel.Cnp.Labels.Rows.{IsPlainRow, to_match_labels-IsPlain, with_namespace-IsPlain}
use k8s_sentinel.Cnp.Validate.{validate_cnp_form}
use k8s_sentinel.Cnp.Validate.Sound.{IsForm, validate_cnp_form-IsForm}
use k8s_sentinel.Cnp.Render.{spec_of, manifest, direction_key, deny_key, cnp_form_to_yaml}
use k8s_sentinel.Cnp.Render.Keys.{described, spec_of-SpecKeys}
use k8s_sentinel.Cnp.Parse.{
  text_or_blank, array_at, description_of, policy_scope, is_form_policy, subject_labels,
  hides_namespace, namespace_of, pick_section, read_form, reproduces, try_parse_cnp_form,
}
use k8s_sentinel.Cnp.Parse.Faithful.{IsLossless, load-valid}
use k8s_sentinel.Cnp.Parse.Settled.{label_object-text_fields}
use k8s_sentinel.Cnp.Parse.SettledForm.{
  settle_section, settle_comment, settle_namespace, settle_form, IsPlainForm, NamesNamespace,
  spec_of-settle_form, settle_form-IsForm,
}
use k8s_sentinel.Cnp.Parse.Sections.{KeepsShape, pick_section-written}

of_scope : (P : Scope → Type 0) → P cluster → P namespaced → (sc : Scope) → P sc
of_scope P c n cluster = c
of_scope P c n namespaced = n

-- The head of the document is the one that the form writes.
policy_scope-manifest : (f : FormInput) → policy_scope (manifest f) ≡ some f.scope
unfolding policy_scope manifest ◌>>=◌ lit get ◌===◌
policy_scope-manifest f =
    of_scope (λ sc. policy_scope (manifest (record f { scope = sc })) ≡ some sc) refl refl f.scope

is_form_policy-manifest : (f : FormInput) → is_form_policy (manifest f) ≡ true
unfolding is_form_policy manifest lit get ◌===◌
is_form_policy-manifest f =
    of_scope (λ sc. is_form_policy (manifest (record f { scope = sc })) ≡ true) refl refl f.scope

spec-manifest : (f : FormInput) → prop (lit "spec") (manifest f) ≡ some (object (spec_of f))
unfolding manifest lit get ◌===◌
spec-manifest f = refl

name-manifest :
    (f : FormInput)
    → text_or_blank (prop_of (lit "name") (prop (lit "metadata") (manifest f))) ≡ some (trim f.name)
unfolding manifest lit get ◌===◌
name-manifest f = refl

namespace_of-manifest :
    (f : FormInput)
    → namespace_of f.scope (manifest f) ≡ some (settle_namespace f.scope f.namespace)
unfolding manifest lit get ◌===◌
namespace_of-manifest f =
    of_scope
      (λ sc.
        namespace_of sc (manifest (record f { scope = sc }))
        ≡ some (settle_namespace sc f.namespace))
      refl refl f.scope

subject_labels-spec_of :
    (f : FormInput)
    → is_empty (subject_match_labels f) ≡ false
    → subject_labels (spec_of f) ≡ some (subject_match_labels f)
unfolding subject_labels ◌>>=◌ lit get ◌===◌
subject_labels-spec_of f e =
    rw ((spec_of-SpecKeys f).0, label_object-text_fields (subject_match_labels f), e) refl

described-settled : (c : Option Text) → or_else (described c >>= as_text) [] ≡ settle_comment c
unfolding ◌>>=◌
described-settled none = refl
described-settled (some c) = elim (Bool-cases (is_empty (trim c))) [
  | inl blank ↦ rw blank (sym (is_empty-eq_true (trim c) blank))
  | inr text ↦ rw text refl
]

description_of-spec_of : (f : FormInput) → description_of (spec_of f) ≡ settle_comment f.comment
description_of-spec_of f =
    ap (λ o. or_else (o >>= as_text) []) ((spec_of-SpecKeys f).1) ∙ described-settled f.comment

hides_namespace-plain :
    (sc : Scope) (ns : Text) → NamesNamespace sc ns → hides_namespace sc (trim ns) ≡ false
unfolding hides_namespace
hides_namespace-plain cluster ns h = refl
hides_namespace-plain namespaced ns h = rw h refl

-- The namespace and the other labels of the subject, taken apart.
subject_match_labels-IsPlain :
    (f : FormInput)
    → All IsPlainRow f.subject
    → (or_else (get namespace_key (subject_match_labels f)) [] ≡ trim f.subject_namespace)
      × (without namespace_key (subject_match_labels f) ≡ to_match_labels f.subject)
unfolding subject_match_labels
subject_match_labels-IsPlain f plain =
    with_namespace-IsPlain f.subject_namespace (to_match_labels f.subject)
      (to_match_labels-IsPlain f.subject plain)

module _ (yaml : Yaml) (lossless : IsLossless yaml) (keeps : KeepsShape yaml) where
  parse_section-ingress :
      (f : FormInput)
      → IsForm f
      → IsPlainForm f
      → pick_section yaml ingress
          (array_at (direction_key ingress) (spec_of f))
          (array_at (deny_key ingress) (spec_of f))
        ≡ some (settle_section f.ingress)
  parse_section-ingress f (name, placed, subject, rows, count, i, e) (plain, ns, pi, pe) =
      let keys = spec_of-SpecKeys f in
      rw (keys.2, keys.3)
        (pick_section-written yaml keeps ingress f.ingress.mode f.ingress.rules i pi)

  parse_section-egress :
      (f : FormInput)
      → IsForm f
      → IsPlainForm f
      → pick_section yaml egress
          (array_at (direction_key egress) (spec_of f))
          (array_at (deny_key egress) (spec_of f))
        ≡ some (settle_section f.egress)
  parse_section-egress f (name, placed, subject, rows, count, i, e) (plain, ns, pi, pe) =
      let keys = spec_of-SpecKeys f in
      rw (keys.4, keys.5) (pick_section-written yaml keeps egress f.egress.mode f.egress.rules e pe)

  has_rules : (n m : ℕ) → 1 ≤ n + m → (n + m == 0) ≡ false
  has_rules n m h = ground arith

  read_form-manifest :
      (f : FormInput)
      → IsForm f
      → IsPlainForm f
      → read_form yaml (manifest f) ≡ some (settle_form f)
  unfolding read_form ◌>>=◌
  read_form-manifest f valid plain =
      let (ns, rows) = subject_match_labels-IsPlain f (plain.0) in
      rw
        (
          policy_scope-manifest f,
          is_form_policy-manifest f,
          spec-manifest f,
          of_fields-fields (spec_of f),
          subject_labels-spec_of f (valid.2),
          ns,
          rows,
          hides_namespace-plain f.scope f.subject_namespace (plain.1),
          parse_section-ingress f valid plain,
          parse_section-egress f valid plain,
          name-manifest f,
          namespace_of-manifest f,
          description_of-spec_of f,
          has_rules (length ((settle_section f.ingress).rules))
              (length ((settle_section f.egress).rules)) ((settle_form-IsForm f valid plain).4),
        )
        refl

  reproduces-settle_form :
      (f : FormInput)
      → IsForm f
      → IsPlainForm f
      → reproduces yaml (settle_form f) (manifest f) ≡ true
  unfolding reproduces
  reproduces-settle_form f valid plain =
      let still =
        ap is_empty
          ((validate_cnp_form-IsForm (settle_form f)).1 (settle_form-IsForm f valid plain)) in
      rw
        (
          load-valid yaml lossless (settle_form f) still,
          spec-manifest f,
          spec_of-settle_form f valid plain,
        )
        ((yaml.same_iff _ _).1 refl)

  -- A form without complaint, whose namespaces are named in their own fields, generates a document that
  -- opens the form again: each text is then trimmed, each address a CIDR, each label a row, and the rows
  -- that say nothing are gone. Saving that form writes the same spec.
  pub try_parse_cnp_form-cnp_form_to_yaml :
      (f : FormInput)
      → validate_cnp_form f ≡ []
      → IsPlainForm f
      → (try_parse_cnp_form yaml (cnp_form_to_yaml yaml f) ≡ some (settle_form f))
        × (spec_of (settle_form f) ≡ spec_of f)
  unfolding try_parse_cnp_form cnp_form_to_yaml ◌>>=◌
  try_parse_cnp_form-cnp_form_to_yaml f h plain =
      let valid = (validate_cnp_form-IsForm f).0 h in
      (
        rw
            (
              h,
              lossless.load-dump (manifest f),
              read_form-manifest f valid plain,
              reproduces-settle_form f valid plain,
            )
            refl,
        spec_of-settle_form f valid plain,
      )
