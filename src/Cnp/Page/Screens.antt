-- ===== src/Cnp/Page/Screens.antt =====
-- pages/CNPPage.tsx: the address decides whether the editor is up, and what it edits.
use k8s_sentinel.Base.{
  Text, lit, ◌&&◌, ◌||◌, not, Bool, true, false, List, [], ◌∷◌, Option, none, some, or_else,
  if_cases, Yaml, ◌≡◌, ◌⊎◌, inl, inr, refl, sym, subst, arith, ===_iff, ◌===◌,
}
use k8s_sentinel.Cnp.{FormInput}
use k8s_sentinel.Cnp.Page

module _ {Doc : Type 0} where
  -- The policy that an address edits, in a list: no policy before it has the address.
  abbrev pub At : Text → Text → Text → Page.Saved Doc → Type 0
  At name scope ns rec =
      (rec.name ≡ name) × (rec.scope ≡ scope) × ((scope ≡ lit "cluster") ⊎ (rec.namespace ≡ ns))

  -- The editor of an address that edits: nothing is said before the list is there.
  abbrev pub Edits : Text → Text → Text → Bool → Bool → Option (Page.Saved Doc) → Type 0
  Edits name scope ns false shown editing = Unit
  Edits name scope ns true shown editing =
      (shown ≡ true) × (rec : Page.Saved Doc) × (editing ≡ some rec) × At name scope ns rec

  -- What is up at an address: the list, an empty editor of the asked kind, or the policy of the address.
  abbrev pub Up : Page.Route → Bool → Option (Page.Saved Doc) → Page.EditorMode → Bool → Type 0
  Up Page.list shown editing mode loaded = (shown ≡ false) × (editing ≡ none)
  Up (Page.new as_what) shown editing mode loaded =
      (shown ≡ true) × (editing ≡ none) × (mode ≡ as_what)
  Up (Page.edit name scope ns) shown editing mode loaded =
      Edits name (or_else scope (lit "namespace")) (or_else ns []) loaded shown editing

  -- The address that made the page crash.
  abbrev pub Fatal : (Doc → Bool) → Page.Route → Type 0
  Fatal throws Page.list = ⊥
  Fatal throws (Page.new as_what) = ⊥
  Fatal throws (Page.edit name scope ns) =
      (rec : Page.Saved Doc) × At name (or_else scope (lit "namespace")) (or_else ns []) rec
      × (throws rec.raw_yaml ≡ true)

  -- The page as it is rendered.
  abbrev pub Alive : Page.Page Doc → Type 0
  Alive p = (p.crashed ≡ false) × Up p.route p.editor_open p.editing p.mode p.policies_loaded

  abbrev pub Shows : (Doc → Bool) → Page.Page Doc → Type 0
  Shows throws p = Alive p ⊎ ((p.crashed ≡ true) × Fatal throws p.route)

  is_at-At :
      (name scope ns : Text) (x : Page.Saved Doc)
      → Page.is_at name scope ns x ≡ true
      → At name scope ns x
  unfolding Page.is_at
  is_at-At name scope ns x h = (
    (===_iff x.name name).0 (ground arith),
    (===_iff x.scope scope).0 (ground arith),
    if_cases
        (λ b. (b || (x.namespace === ns)) ≡ true → (scope ≡ lit "cluster") ⊎ (x.namespace ≡ ns))
        (scope === lit "cluster") true false (λ e _. inl ((===_iff scope (lit "cluster")).0 e))
        (λ _ e. inr ((===_iff x.namespace ns).0 e)) (ground arith),
  )

  abbrev FoundAt : Text → Text → Text → Option (Page.Saved Doc) → Type 0
  FoundAt name scope ns none = Unit
  FoundAt name scope ns (some rec) = At name scope ns rec

  find_saved-FoundAt :
      (name scope ns : Text) (xs : List (Page.Saved Doc))
      → FoundAt name scope ns (Page.find_saved name scope ns xs)
  unfolding Page.find_saved
  find_saved-FoundAt name scope ns [] = tt
  find_saved-FoundAt name scope ns (x ∷ xs) =
      if_cases (FoundAt name scope ns) (Page.is_at name scope ns x) _ _ (is_at-At name scope ns x)
        (λ _. find_saved-FoundAt name scope ns xs)

module _ (yaml : Yaml) (tests : Page.DocTests yaml.Doc) where
  abbrev Fine : Page.Page yaml.Doc → Type 0
  Fine = Shows tests.throws

  -- The editor of a saved policy, whatever its mode.
  edits-Fine :
      (name : Text) (scope ns : Option Text) (rec : Page.Saved yaml.Doc) (q : Page.Page yaml.Doc)
      → q.route ≡ Page.edit name scope ns
      → q.policies_loaded ≡ true
      → q.crashed ≡ false
      → q.editor_open ≡ true
      → q.editing ≡ some rec
      → At name (or_else scope (lit "namespace")) (or_else ns []) rec
      → Fine q
  edits-Fine name scope ns rec q e there alive shown editing h = inl (
    alive,
    subst (λ r. Up r q.editor_open q.editing q.mode q.policies_loaded) (sym e)
        (subst
          (λ b.
            Edits name (or_else scope (lit "namespace")) (or_else ns []) b q.editor_open q.editing)
          (sym there) (shown, rec, editing, h)),
  )

  show_read-Fine :
      (name : Text) (scope ns : Option Text) (rec : Page.Saved yaml.Doc) (o : Option FormInput)
      (p : Page.Page yaml.Doc)
      → p.route ≡ Page.edit name scope ns
      → p.policies_loaded ≡ true
      → p.crashed ≡ false
      → At name (or_else scope (lit "namespace")) (or_else ns []) rec
      → Fine (Page.show_read yaml tests rec o p)
  show_read-Fine name scope ns rec (some f) p e there alive h =
      edits-Fine name scope ns rec (Page.show_saved yaml tests rec (some f) p) e there alive refl
        refl h
  show_read-Fine name scope ns rec none p e there alive h =
      if_cases Fine (tests.throws rec.raw_yaml) _ _
        (λ t. inr (refl, subst (Fatal tests.throws) (sym e) (rec, h, t)))
        (λ _.
          edits-Fine name scope ns rec (Page.show_saved yaml tests rec none p) e there alive refl
            refl h)

  edit_saved-Fine :
      (name : Text) (scope ns : Option Text) (o : Option (Page.Saved yaml.Doc))
      (p : Page.Page yaml.Doc)
      → p.route ≡ Page.edit name scope ns
      → p.policies_loaded ≡ true
      → p.crashed ≡ false
      → FoundAt name (or_else scope (lit "namespace")) (or_else ns []) o
      → Fine (Page.edit_saved yaml tests name o p)
  unfolding Page.open_edit Page.close_editor
  edit_saved-Fine name scope ns none p e there alive h = inl (alive, (refl, refl))
  edit_saved-Fine name scope ns (some rec) p e there alive h =
      show_read-Fine name scope ns rec _ p e there alive h

  route_effect-Fine :
      (r : Page.Route) (p : Page.Page yaml.Doc)
      → p.route ≡ r
      → p.crashed ≡ false
      → Fine (Page.route_effect yaml tests r p)
  unfolding Page.route_effect Page.open_create Page.close_editor
  route_effect-Fine Page.list p e alive = inl (
    alive,
    subst (λ r. Up {Doc = yaml.Doc} r false none p.mode p.policies_loaded) (sym e) (refl, refl),
  )
  route_effect-Fine (Page.new as_what) p e alive = inl (
    alive,
    subst (λ r. Up {Doc = yaml.Doc} r true none as_what p.policies_loaded) (sym e)
        (refl, refl, refl),
  )
  route_effect-Fine (Page.edit name scope ns) p e alive =
      if_cases Fine p.policies_loaded _ _
        (λ there.
          edit_saved-Fine name scope ns _ p e there alive (find_saved-FoundAt name _ _ p.policies))
        (λ missing. inl (
          alive,
          subst (λ r. Up r p.editor_open p.editing p.mode p.policies_loaded) (sym e)
              (subst
                (λ b.
                  Edits name (or_else scope (lit "namespace")) (or_else ns []) b p.editor_open
                    p.editing)
                (sym missing) tt),
        ))

  navigate-Fine :
      (r : Page.Route) (p : Page.Page yaml.Doc) → Alive p → Fine (Page.navigate yaml tests r p)
  unfolding Page.navigate
  navigate-Fine r p h =
      if_cases Fine (Page.same_route r p.route) _ _ (λ _. inl h)
        (λ _. route_effect-Fine r (record p { route = r }) refl (h.0))

  load_succeeded-Fine :
      (res : Page.Answer yaml.Doc) (p : Page.Page yaml.Doc)
      → Alive p
      → Fine (Page.load_succeeded yaml tests res p)
  unfolding Page.load_succeeded
  load_succeeded-Fine res p h =
      if_cases Fine p.policies_loaded _ _
        (λ there. inl (h.0, subst (λ b. Up p.route p.editor_open p.editing p.mode b) there (h.1)))
        (λ _. route_effect-Fine p.route _ refl (h.0))

  send_delete-Fine :
      (o : Option (Page.Saved yaml.Doc)) (p : Page.Page yaml.Doc)
      → Alive p
      → Fine (Page.send_delete yaml tests o p)
  send_delete-Fine none p h = inl h
  send_delete-Fine (some t) p h = inl h

  save-Fine : (p : Page.Page yaml.Doc) → Alive p → Fine (Page.save yaml tests p)
  unfolding Page.save
  save-Fine p h = if_cases Fine (Page.can_apply yaml tests p) _ _ (λ _. inl h) (λ _. inl h)

  step-Fine :
      (a : Page.Action yaml.Doc) (p : Page.Page yaml.Doc)
      → Alive p
      → Fine (Page.step yaml tests a p)
  unfolding Page.step Page.save_succeeded Page.save_failed Page.confirm_delete Page.delete_succeeded
      Page.delete_failed
  step-Fine (Page.go r) p h = navigate-Fine r p h
  step-Fine (Page.change e) p h =
      if_cases Fine (p.editor_open && Page.is_form p.mode) _ _ (λ _. inl h) (λ _. inl h)
  step-Fine (Page.write_yaml doc valid) p h =
      if_cases Fine (p.editor_open && not (Page.is_form p.mode)) _ _ (λ _. inl h) (λ _. inl h)
  step-Fine Page.press_apply p h =
      if_cases Fine (p.editor_open && not p.saving) _ _ (λ _. save-Fine p h) (λ _. inl h)
  step-Fine (Page.saved updated) p h = navigate-Fine Page.list _ h
  step-Fine (Page.save_refused said) p h = inl h
  step-Fine (Page.ask_delete t) p h = inl h
  step-Fine Page.press_delete p h = send_delete-Fine p.delete_target p h
  step-Fine (Page.deleted name) p h = inl h
  step-Fine Page.delete_refused p h = inl h
  step-Fine Page.refresh p h = inl h
  step-Fine (Page.loaded res) p h = load_succeeded-Fine res p h
  step-Fine Page.load_refused p h = inl h
  step-Fine (Page.namespaces_loaded ns) p h = inl h
  step-Fine (Page.type_search s) p h = inl h
  step-Fine (Page.select_namespaces ns) p h = inl h

  run_from-Fine :
      (actions : List (Page.Action yaml.Doc)) (p : Page.Page yaml.Doc)
      → Fine p
      → Fine (Page.run yaml tests actions p)
  unfolding Page.run
  run_from-Fine [] p h = h
  run_from-Fine (a ∷ as') p (inl h) =
      run_from-Fine as' _
        (if_cases Fine p.crashed p (Page.step yaml tests a p) (λ _. inl h) (λ _. step-Fine a p h))
  run_from-Fine (a ∷ as') p (inr h) = run_from-Fine as' _ (
      if_cases Fine p.crashed p (Page.step yaml tests a p) (λ _. inr h)
        (λ alive. absurd (let e = h.0 in ground arith)))

  -- The address decides whether the editor is up and what it edits, whatever happened since the page
  -- was opened: at the list's address no editor is up; at that of a new policy an editor of the asked
  -- kind edits no saved policy; otherwise, once the list is loaded, the editor is up for a policy whose
  -- name, scope and, unless it is cluster-wide, namespace are those of the address. Only at such an
  -- address may the page have crashed instead, at a policy there whose manifest makes the reader throw.
  pub run-Shows :
      (r : Page.Route) (actions : List (Page.Action yaml.Doc))
      → Shows tests.throws (Page.run yaml tests actions (Page.opened yaml tests r))
  unfolding Page.opened Page.mounted
  run-Shows r actions = run_from-Fine actions _ (route_effect-Fine r _ refl refl)
