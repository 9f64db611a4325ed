-- ===== src/Cnp/Page/Identity.antt =====
-- pages/CNPPage.tsx: which policy the form of the page stands for while it is edited.
use k8s_sentinel.Base.{
  is_some, Text, lit, Bool, true, false, not, ◌&&◌, List, [], ◌∷◌, Option, none, some, or_else, get,
  if_cases, if◌then◌else◌, Json, prop, prop_of, Yaml, Ensures, nothing, just, ensured, Ensures->>=,
  Ensures-if, Ensures-weaken, found, ◌≡◌, refl, sym, subst, arith, length, ◌+◌, ◌==◌,
}
use k8s_sentinel.Cnp.{Scope, namespaced, cluster, ingress, egress, FormInput}
use k8s_sentinel.Cnp.Labels.{namespace_key}
use k8s_sentinel.Cnp.Render.{cnp_form_to_yaml}
use k8s_sentinel.Cnp.Parse.{
  text_or_blank, policy_scope, namespace_of, hides_namespace, subject_labels, read_form, reproduces,
  try_parse_cnp_form,
}
use k8s_sentinel.Cnp.Editing.{
  FormEdit, set_name, set_namespace, set_comment, set_subject_namespace, set_scope, edit_subject,
  edit_direction, edit_form, kept_namespace, namespace_field, subject_namespace_field,
}
use k8s_sentinel.Cnp.Page

-- A namespaced policy has no field for the subject's namespace, and none is left in the form.
abbrev pub ShowsNamespace : Scope → Text → Type 0
ShowsNamespace cluster ns = Unit
ShowsNamespace namespaced ns = ns ≡ []

-- The form has the kind, the name and the namespace of the document.
abbrev pub Names : Json → FormInput → Type 0
Names doc f =
    (policy_scope doc ≡ some f.scope)
    × (text_or_blank (prop_of (lit "name") (prop (lit "metadata") doc)) ≡ some f.name)
    × (namespace_of f.scope doc ≡ some f.namespace)

abbrev pub ShowsForm : FormInput → Type 0
ShowsForm f = ShowsNamespace f.scope f.subject_namespace

hides_namespace-ShowsNamespace :
    (s : Scope) (ns : Text) → hides_namespace s ns ≡ false → ShowsNamespace s ns
unfolding hides_namespace
hides_namespace-ShowsNamespace cluster ns h = tt
hides_namespace-ShowsNamespace namespaced [] h = refl
hides_namespace-ShowsNamespace namespaced (c ∷ ns) h = absurd (ground arith)

edit_form-ShowsNamespace :
    (fixed : Bool) (e : FormEdit) (f : FormInput) → ShowsForm f → ShowsForm (edit_form fixed e f)
unfolding edit_form
edit_form-ShowsNamespace fixed (set_name t) f h = if_cases ShowsForm fixed _ _ (λ _. h) (λ _. h)
edit_form-ShowsNamespace fixed (set_scope s) f h = if_cases ShowsForm fixed _ _ (λ _. h) (λ _. by s)
  where
    by : (s : Scope) → ShowsNamespace s (kept_namespace s f.subject_namespace)
    by cluster = tt
    by namespaced = refl
edit_form-ShowsNamespace fixed (set_namespace t) f h =
    if_cases ShowsForm fixed _ _ (λ _. h) (λ _. by f.scope h)
  where
    by :
        (s : Scope) → ShowsNamespace f.scope f.subject_namespace → ShowsForm (namespace_field s t f)
    by cluster h = h
    by namespaced h = h
edit_form-ShowsNamespace fixed (set_comment t) f h = h
edit_form-ShowsNamespace fixed (edit_subject e) f h = h
edit_form-ShowsNamespace fixed (set_subject_namespace t) f h = by f.scope refl
  where
    by : (s : Scope) → f.scope ≡ s → ShowsForm (subject_namespace_field s t f)
    by cluster e = subst (λ s. ShowsNamespace s t) (sym e) tt
    by namespaced e = h
edit_form-ShowsNamespace fixed (edit_direction ingress e) f h = h
edit_form-ShowsNamespace fixed (edit_direction egress e) f h = h

edit_form-Names :
    (doc : Json) (e : FormEdit) (f : FormInput) → Names doc f → Names doc (edit_form true e f)
unfolding edit_form
edit_form-Names doc (set_name t) f h = h
edit_form-Names doc (set_scope s) f h = h
edit_form-Names doc (set_namespace t) f h = h
edit_form-Names doc (set_comment t) f h = h
edit_form-Names doc (edit_subject e) f h = h
edit_form-Names doc (set_subject_namespace t) f h = by f.scope
  where
    by : (s : Scope) → Names doc (subject_namespace_field s t f)
    by cluster = h
    by namespaced = h
edit_form-Names doc (edit_direction ingress e) f h = h
edit_form-Names doc (edit_direction egress e) f h = h

module _ (yaml : Yaml) where
  read_form-Names : (doc : Json) → Ensures (λ f. Names doc f × ShowsForm f) (read_form yaml doc)
  unfolding read_form
  read_form-Names doc = Ensures->>= (found (policy_scope doc)) (λ scope es.
      Ensures->>= (found _) (λ spec _. Ensures->>= (found (subject_labels spec)) (λ o _.
        Ensures->>= {P = λ i. hides_namespace scope (or_else (get namespace_key o) []) ≡ false}
          (Ensures-if _ (λ _. nothing) (λ shown. Ensures-weaken (λ _ _. shown) (found _)))
          (λ i shown. Ensures->>= (found _) (λ e _. Ensures->>= (found _) (λ name en.
            Ensures->>= (found _) (λ namespace ens.
              Ensures-if (length i.rules + length e.rules == 0) (λ _. nothing)
                (λ _. just ((es, en, ens), hides_namespace-ShowsNamespace scope _ shown)))))))))

  try_parse_cnp_form-Names :
      (raw : yaml.Doc) (f : FormInput)
      → try_parse_cnp_form yaml raw ≡ some f
      → ((doc : Json) × (yaml.load raw ≡ some doc) × Names doc f) × ShowsForm f
  unfolding try_parse_cnp_form
  try_parse_cnp_form-Names raw f h =
      ensured {P = λ f. ((doc : Json) × (yaml.load raw ≡ some doc) × Names doc f) × ShowsForm f}
        (Ensures->>= (found (yaml.load raw)) (λ doc e. Ensures->>= (read_form-Names doc) (λ form n.
          Ensures-if (reproduces yaml form doc) (λ _. just ((doc, e, n.0), n.1)) (λ _. nothing))))
        h

-- Where a saved policy is edited in the form, the form has the kind, the name and the namespace of its
-- manifest.
abbrev pub StandsFor :
    (yaml : Yaml) → Option (Page.Saved yaml.Doc) → Page.EditorMode → FormInput → Type 0
StandsFor yaml none m f = Unit
StandsFor yaml (some rec) Page.as_yaml f = Unit
StandsFor yaml (some rec) Page.as_form f =
    (doc : Json) × (yaml.load rec.raw_yaml ≡ some doc) × Names doc f

module _ (yaml : Yaml) (tests : Page.DocTests yaml.Doc) where
  abbrev pub Steady : Page.Page yaml.Doc → Type 0
  Steady p = StandsFor yaml p.editing p.mode p.form × ShowsForm p.form

  show_read-Steady :
      (rec : Page.Saved yaml.Doc) (o : Option FormInput) (p : Page.Page yaml.Doc)
      → try_parse_cnp_form yaml rec.raw_yaml ≡ o
      → Steady p
      → Steady (Page.show_read yaml tests rec o p)
  show_read-Steady rec none p e h =
      if_cases Steady (tests.throws rec.raw_yaml) _ _ (λ _. h) (λ _. (tt, refl))
  show_read-Steady rec (some f) p e h = try_parse_cnp_form-Names yaml rec.raw_yaml f e

  edit_saved-Steady :
      (name : Text) (o : Option (Page.Saved yaml.Doc)) (p : Page.Page yaml.Doc)
      → Steady p
      → Steady (Page.edit_saved yaml tests name o p)
  unfolding Page.open_edit Page.close_editor
  edit_saved-Steady name none p h = (tt, h.1)
  edit_saved-Steady name (some rec) p h = show_read-Steady rec _ p refl h

  route_effect-Steady :
      (r : Page.Route) (p : Page.Page yaml.Doc)
      → Steady p
      → Steady (Page.route_effect yaml tests r p)
  unfolding Page.route_effect Page.open_create Page.close_editor
  route_effect-Steady Page.list p h = (tt, h.1)
  route_effect-Steady (Page.new as_what) p h = (tt, refl)
  route_effect-Steady (Page.edit name scope ns) p h =
      if_cases Steady p.policies_loaded _ _ (λ _. edit_saved-Steady name _ p h) (λ _. h)

  navigate-Steady :
      (r : Page.Route) (p : Page.Page yaml.Doc) → Steady p → Steady (Page.navigate yaml tests r p)
  unfolding Page.navigate
  navigate-Steady r p h =
      if_cases Steady (Page.same_route r p.route) _ _ (λ _. h)
        (λ _. route_effect-Steady r (record p { route = r }) h)

  load_succeeded-Steady :
      (res : Page.Answer yaml.Doc) (p : Page.Page yaml.Doc)
      → Steady p
      → Steady (Page.load_succeeded yaml tests res p)
  unfolding Page.load_succeeded
  load_succeeded-Steady res p h =
      if_cases Steady p.policies_loaded _ _ (λ _. h) (λ _. route_effect-Steady p.route _ h)

  edit_form-StandsFor :
      (o : Option (Page.Saved yaml.Doc)) (m : Page.EditorMode) (e : FormEdit) (f : FormInput)
      → StandsFor yaml o m f
      → StandsFor yaml o m (edit_form (is_some o) e f)
  edit_form-StandsFor none m e f h = tt
  edit_form-StandsFor (some rec) Page.as_yaml e f h = tt
  edit_form-StandsFor (some rec) Page.as_form e f (doc, l, n) = (doc, l, edit_form-Names doc e f n)

  send_delete-Steady :
      (o : Option (Page.Saved yaml.Doc)) (p : Page.Page yaml.Doc)
      → Steady p
      → Steady (Page.send_delete yaml tests o p)
  send_delete-Steady none p h = h
  send_delete-Steady (some t) p h = h

  save-Steady : (p : Page.Page yaml.Doc) → Steady p → Steady (Page.save yaml tests p)
  unfolding Page.save
  save-Steady p h = if_cases Steady (Page.can_apply yaml tests p) _ _ (λ _. h) (λ _. h)

  step-Steady :
      (a : Page.Action yaml.Doc) (p : Page.Page yaml.Doc)
      → Steady p
      → Steady (Page.step yaml tests a p)
  unfolding Page.step Page.save_succeeded Page.save_failed Page.confirm_delete Page.delete_succeeded
      Page.delete_failed
  step-Steady (Page.go r) p h = navigate-Steady r p h
  step-Steady (Page.change e) p h =
      if_cases Steady (p.editor_open && Page.is_form p.mode) _ _
        (λ _. (
          edit_form-StandsFor p.editing p.mode e p.form h.0,
          edit_form-ShowsNamespace (is_some p.editing) e p.form h.1,
        ))
        (λ _. h)
  step-Steady (Page.write_yaml doc valid) p h =
      if_cases Steady (p.editor_open && not (Page.is_form p.mode)) _ _ (λ _. h) (λ _. h)
  step-Steady Page.press_apply p h =
      if_cases Steady (p.editor_open && not p.saving) _ _ (λ _. save-Steady p h) (λ _. h)
  step-Steady (Page.saved updated) p h = navigate-Steady Page.list _ h
  step-Steady (Page.save_refused said) p h = h
  step-Steady (Page.ask_delete t) p h = h
  step-Steady Page.press_delete p h = send_delete-Steady p.delete_target p h
  step-Steady (Page.deleted name) p h = h
  step-Steady Page.delete_refused p h = h
  step-Steady Page.refresh p h = h
  step-Steady (Page.loaded res) p h = load_succeeded-Steady res p h
  step-Steady Page.load_refused p h = h
  step-Steady (Page.namespaces_loaded ns) p h = h
  step-Steady (Page.type_search s) p h = h
  step-Steady (Page.select_namespaces ns) p h = h

  pub run-Steady :
      (actions : List (Page.Action yaml.Doc)) (p : Page.Page yaml.Doc)
      → Steady p
      → Steady (Page.run yaml tests actions p)
  unfolding Page.run
  run-Steady [] p h = h
  run-Steady (a ∷ as') p h =
      run-Steady as' (if p.crashed then p else Page.step yaml tests a p)
        (if_cases Steady p.crashed p (Page.step yaml tests a p) (λ _. h) (λ _. step-Steady a p h))

  opened-Steady : (r : Page.Route) → Steady (Page.opened yaml tests r)
  unfolding Page.opened Page.mounted
  opened-Steady r = route_effect-Steady r _ (tt, refl)

  pub save_sends :
      (p : Page.Page yaml.Doc)
      → Page.can_apply yaml tests p ≡ true
      → (Page.save yaml tests p).sent
        ≡ Page.save_request yaml tests p.editing (Page.outgoing yaml tests p.mode p) ∷ p.sent
  unfolding Page.save
  save_sends p can =
      if_cases
        (λ (q : Page.Page yaml.Doc).
          q.sent
          ≡ Page.save_request yaml tests p.editing (Page.outgoing yaml tests p.mode p) ∷ p.sent)
        (Page.can_apply yaml tests p) _ _ (λ _. refl) (λ blocked. cc)

  -- Whatever happened since the page was opened at some address: where the form is shown for a saved
  -- policy and can be applied, saving it asks the server to update that policy with the manifest of
  -- the form, and the form still has the kind, the name and the namespace of the saved manifest; a
  -- namespaced one has no namespace left in its subject, where no field would show it.
  pub run-save :
      (r : Page.Route) (actions : List (Page.Action yaml.Doc)) (rec : Page.Saved yaml.Doc)
      → (Page.run yaml tests actions (Page.opened yaml tests r)).editing ≡ some rec
      → (Page.run yaml tests actions (Page.opened yaml tests r)).mode ≡ Page.as_form
      → Page.can_apply yaml tests (Page.run yaml tests actions (Page.opened yaml tests r)) ≡ true
      → let p = Page.run yaml tests actions (Page.opened yaml tests r) in
        ((Page.save yaml tests p).sent
          ≡ Page.update rec.name rec.namespace rec.scope (cnp_form_to_yaml yaml p.form) ∷ p.sent)
        × ((doc : Json) × (yaml.load rec.raw_yaml ≡ some doc) × Names doc p.form)
        × ShowsForm p.form
  run-save r actions rec eo em can =
      let p = Page.run yaml tests actions (Page.opened yaml tests r) in
      let (stands, shows) = run-Steady actions _ (opened-Steady r) in
      (
        subst
            (λ m.
              (Page.save yaml tests p).sent
              ≡ Page.save_request yaml tests (some rec) (Page.outgoing yaml tests m p) ∷ p.sent)
            em
            (subst
              (λ o.
                (Page.save yaml tests p).sent
                ≡ Page.save_request yaml tests o (Page.outgoing yaml tests p.mode p) ∷ p.sent)
              eo (save_sends p can)),
        subst (λ m. StandsFor yaml (some rec) m p.form) em
            (subst (λ o. StandsFor yaml o p.mode p.form) eo stands),
        shows,
      )
