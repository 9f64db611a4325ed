-- ===== src/Cnp/Parse/Faithful.antt =====
-- utils/cnpForm.ts: what a form that `tryParseCNPForm` opens says of the document.
use k8s_sentinel.Base.{
  lit, is_empty, is_empty-eq_true, true, false, [], Option, none, some, Json, object, prop, prop_of,
  Yaml, ◌≡◌, refl, ap, ◌∙◌, sym, arith, nothing, just, ensured, Ensures->>=, Ensures-if, found,
  Bool-cases, inl, inr, get, ◌===◌,
}
use k8s_sentinel.Cnp.{FormInput}
use k8s_sentinel.Cnp.Validate.{validate_cnp_form}
use k8s_sentinel.Cnp.Render.{spec_of, manifest, cnp_form_to_yaml}
use k8s_sentinel.Cnp.Parse.Head.{HasHead, read_form-HasHead}
use k8s_sentinel.Cnp.Parse.{reproduces, same_spec, try_parse_cnp_form}

-- js-yaml reads back what it wrote, and finds nothing in an empty text.
pub record IsLossless (yaml : Yaml) : Type 0 where
  pub load-dump : (j : Json) → yaml.load (yaml.dump j) ≡ some j
  pub load-blank : yaml.load yaml.blank ≡ none

module _ (yaml : Yaml) (lossless : IsLossless yaml) where
  -- The form has the head of the document and no complaint; the document has a spec, and saving the form
  -- writes one with the same dump.
  abbrev pub Rewrites : Json → FormInput → Type 0
  Rewrites doc f =
      HasHead doc f
      × (validate_cnp_form f ≡ [])
      × (spec : Json) × (prop (lit "spec") doc ≡ some spec)
      × (yaml.canon (object (spec_of f)) ≡ yaml.canon spec)

  spec_of-manifest : (f : FormInput) → prop (lit "spec") (manifest f) ≡ some (object (spec_of f))
  unfolding manifest lit get ◌===◌
  spec_of-manifest f = refl

  same_spec-some :
      (a : Json) (o : Option Json)
      → same_spec yaml (some a) o ≡ true
      → (b : Json) × (o ≡ some b) × (yaml.canon a ≡ yaml.canon b)
  same_spec-some a none h = absurd (ground arith)
  same_spec-some a (some b) h = (b, refl, (yaml.same_iff (yaml.canon a) (yaml.canon b)).0 h)

  pub load-valid :
      (f : FormInput)
      → is_empty (validate_cnp_form f) ≡ true
      → prop_of (lit "spec") (yaml.load (cnp_form_to_yaml yaml f)) ≡ some (object (spec_of f))
  unfolding cnp_form_to_yaml
  load-valid f valid = rw (valid, lossless.load-dump (manifest f)) (spec_of-manifest f)

  load-wrong :
      (f : FormInput)
      → is_empty (validate_cnp_form f) ≡ false
      → prop_of (lit "spec") (yaml.load (cnp_form_to_yaml yaml f)) ≡ none
  unfolding cnp_form_to_yaml
  load-wrong f wrong = rw (wrong, lossless.load-blank) refl

  reproduces-Rewrites :
      (f : FormInput) (doc : Json) → HasHead doc f → reproduces yaml f doc ≡ true → Rewrites doc f
  unfolding reproduces
  reproduces-Rewrites f doc head h = elim (Bool-cases (is_empty (validate_cnp_form f))) [
    | inl valid ↦
        let (spec, e, c) =
          same_spec-some (object (spec_of f)) (prop (lit "spec") doc)
            (ap (λ o. same_spec yaml o (prop (lit "spec") doc)) (sym (load-valid f valid)) ∙ h) in
        (head, is_empty-eq_true (validate_cnp_form f) valid, spec, e, c)
    | inr wrong ↦ absurd (let e = load-wrong f wrong in ground arith)
  ]

  -- Whatever document the form opens, the form has the document's kind, its name and, where it is
  -- namespaced, its namespace; the document has the form's annotation, no list of specs and no labels;
  -- the form has no complaint; and saving it unchanged writes a spec whose dump with sorted keys is that of the
  -- document's spec. Nothing is said of annotations, of which the form keeps only its own.
  pub try_parse_cnp_form-Rewrites :
      (raw : yaml.Doc) (f : FormInput)
      → try_parse_cnp_form yaml raw ≡ some f
      → (doc : Json) × (yaml.load raw ≡ some doc) × Rewrites doc f
  unfolding try_parse_cnp_form
  try_parse_cnp_form-Rewrites raw f h =
      ensured {P = λ f. (doc : Json) × (yaml.load raw ≡ some doc) × Rewrites doc f}
        (Ensures->>= (found (yaml.load raw)) (λ doc e.
          Ensures->>= (read_form-HasHead yaml doc) (λ form head.
            Ensures-if (reproduces yaml form doc)
              (λ t. just (doc, e, reproduces-Rewrites form doc head t)) (λ t. nothing))))
        h
