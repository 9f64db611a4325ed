-- ===== src/Cnp/Page/Reopening.antt =====
-- pages/CNPPage.tsx: what the Edit button of the list leads to.
use k8s_sentinel.Base.{
  true, false, List, [], ◌∷◌, ◌++◌, All, some, if_cases, Json, Yaml, ===_refl, ◌≡◌, refl, sym,
  subst, ap, ◌∙◌, arith,
}
use k8s_sentinel.Cnp.{FormInput}
use k8s_sentinel.Cnp.Validate.{validate_cnp_form}
use k8s_sentinel.Cnp.Render.{manifest, cnp_form_to_yaml}
use k8s_sentinel.Cnp.Parse.{try_parse_cnp_form}
use k8s_sentinel.Cnp.Parse.Faithful.{IsLossless, Rewrites, try_parse_cnp_form-Rewrites}
use k8s_sentinel.Cnp.Page
use k8s_sentinel.Cnp.Page.Identity.{save_sends}

-- The address of a row's Edit button.
unfoldable pub edit_route : {Doc : Type 0} → Page.Saved Doc → Page.Route
edit_route rec = Page.edit rec.name (some rec.scope) (some rec.namespace)

-- Whether another policy answers to the address of this one.
abbrev pub Other : {Doc : Type 0} → Page.Saved Doc → Page.Saved Doc → Type 0
Other rec x = Page.is_at rec.name rec.scope rec.namespace x ≡ false

module _ {Doc : Type 0} where
  is_at_refl : (rec : Page.Saved Doc) → Page.is_at rec.name rec.scope rec.namespace rec ≡ true
  unfolding Page.is_at
  is_at_refl rec = ground (arith, ===_refl rec.name, ===_refl rec.scope, ===_refl rec.namespace)

  find_saved-Other :
      (rec : Page.Saved Doc) (before after : List (Page.Saved Doc))
      → All (Other rec) before
      → Page.find_saved rec.name rec.scope rec.namespace (before ++ rec ∷ after) ≡ some rec
  unfolding Page.find_saved
  find_saved-Other rec [] after h = rw (is_at_refl rec) refl
  find_saved-Other rec (x ∷ xs) after (n, h) = rw n (find_saved-Other rec xs after h)

-- js-yaml never writes an object as an empty text.
abbrev pub WritesText : (yaml : Yaml) → Page.DocTests yaml.Doc → Type 0
WritesText yaml tests = (j : Json) → tests.has_text (yaml.dump j) ≡ true

module _ (yaml : Yaml) (tests : Page.DocTests yaml.Doc) where
  edit_route-effect :
      (rec : Page.Saved yaml.Doc) (before after : List (Page.Saved yaml.Doc))
      (p : Page.Page yaml.Doc)
      → p.policies_loaded ≡ true
      → p.policies ≡ before ++ rec ∷ after
      → All (Other rec) before
      → Page.route_effect yaml tests (edit_route rec) p ≡ Page.open_edit yaml tests rec p
  unfolding Page.route_effect edit_route
  edit_route-effect rec before after p there holds other =
      if_cases (λ q. q ≡ Page.open_edit yaml tests rec p) p.policies_loaded _ _
        (λ _.
          ap (λ o. Page.edit_saved yaml tests rec.name o p)
            (ap (Page.find_saved rec.name rec.scope rec.namespace) holds
              ∙ find_saved-Other rec before after other))
        (λ missing. cc)

  -- The form that a policy opens in can be applied at once.
  show_saved-can_apply :
      (rec : Page.Saved yaml.Doc) (f : FormInput) (p : Page.Page yaml.Doc)
      → WritesText yaml tests
      → validate_cnp_form f ≡ []
      → Page.can_apply yaml tests (Page.show_saved yaml tests rec (some f) p) ≡ true
  unfolding Page.can_apply cnp_form_to_yaml
  show_saved-can_apply rec f p writes valid = rw (valid, writes (manifest f)) refl

  -- A policy of the list that the form shows is saved with the same spec: the address of its Edit button
  -- opens it in the form, which can be applied at once, and applying it unchanged asks to update that
  -- policy with the manifest of a form that has its kind, name and namespace, and whose spec has the same
  -- dump with sorted keys; the saved manifest has no list of specs and no labels. Nothing is said of
  -- annotations, of which the form keeps only its own. The list is loaded, and no policy before this
  -- one answers to the same address.
  pub edit_route-save :
      (lossless : IsLossless yaml) (rec : Page.Saved yaml.Doc)
      (before after : List (Page.Saved yaml.Doc)) (p : Page.Page yaml.Doc) (f : FormInput)
      → WritesText yaml tests
      → p.policies_loaded ≡ true
      → p.policies ≡ before ++ rec ∷ after
      → All (Other rec) before
      → try_parse_cnp_form yaml rec.raw_yaml ≡ some f
      → let q = Page.route_effect yaml tests (edit_route rec) p in
        (Page.can_apply yaml tests q ≡ true)
        × ((Page.save yaml tests q).sent
            ≡ Page.update rec.name rec.namespace rec.scope (cnp_form_to_yaml yaml f) ∷ p.sent)
        × (doc : Json) × (yaml.load rec.raw_yaml ≡ some doc)
        × Rewrites yaml lossless doc f
  unfolding Page.open_edit
  edit_route-save lossless rec before after p f writes there holds other e =
      let (doc, l, same) = try_parse_cnp_form-Rewrites yaml lossless rec.raw_yaml f e in
      let q = Page.show_saved yaml tests rec (some f) p in
      let can = show_saved-can_apply rec f p writes same.1 in
      subst
        (λ s.
          (Page.can_apply yaml tests s ≡ true)
          × ((Page.save yaml tests s).sent
              ≡ Page.update rec.name rec.namespace rec.scope (cnp_form_to_yaml yaml f) ∷ p.sent)
          × (doc : Json) × (yaml.load rec.raw_yaml ≡ some doc)
          × Rewrites yaml lossless doc f)
        (sym (
          edit_route-effect rec before after p there holds other
          ∙ ap (λ o. Page.show_read yaml tests rec o p) e))
        (can, save_sends yaml tests q can, doc, l, same)
