-- ===== src/Vap/Page/Screens.antt =====
-- pages/VAPPage.tsx: which screen an address shows, and what a refused save and the first lists do to it.
use k8s_sentinel.Base.{
  Text, Bool, true, false, List, [], ◌∷◌, ◌++◌, All, if_cases, ◌===◌, ===_iff, ap, ◌≢◌, Option,
  none, some, if◌then◌else◌, Yaml, ◌≡◌, refl, arith,
}
use k8s_sentinel.Vap.Policy.{Builder}
use k8s_sentinel.Vap.Reopen.{BindingForm, try_parse_builder_binding}
use k8s_sentinel.Vap.Open.{try_parse_builder_policy}
use k8s_sentinel.Vap.Editing.{blank_builder, filled_builder, blank_binding, set_of}
use k8s_sentinel.Vap.Page

-- What the page renders: the first of the screens that is up, in the order of its returns.
pub data Screen (Doc : Type 0) : Type 0 where
  policy_builder : Option Text → Builder → Screen Doc
  binding_builder : Option Text → BindingForm → Screen Doc
  yaml_editor : Page.Kind → Option Text → Doc → Screen Doc
  lists : Screen Doc

abbrev editor_screen : {Doc : Type 0} → Option (Page.Editor Doc) → Doc → Screen Doc
editor_screen none doc = lists
editor_screen (some e) doc = yaml_editor e.kind e.name doc

abbrev pub screen : {Doc : Type 0} → Page.Page Doc → Screen Doc
screen p =
    if p.show_builder
    then policy_builder p.builder_edit_name p.builder
    else if p.show_binding_builder
    then binding_builder p.binding_edit_name p.binding_form
    else editor_screen p.editor p.editor_yaml

-- No screen is up, as on the list.
abbrev pub IsClosed : {Doc : Type 0} → Page.Page Doc → Type 0
IsClosed p = (p.show_builder ≡ false) × (p.show_binding_builder ≡ false) × (p.editor ≡ none)

module _ (yaml : Yaml) (text : Text → yaml.Doc) where
  abbrev policy_screen : Text → yaml.Doc → Option Builder → Screen yaml.Doc
  policy_screen name raw none = yaml_editor Page.policy (some name) raw
  policy_screen name raw (some b) = policy_builder (some name) (filled_builder b)

  abbrev binding_screen : Text → yaml.Doc → Option BindingForm → Screen yaml.Doc
  binding_screen name raw none = yaml_editor Page.binding (some name) raw
  binding_screen name raw (some b) =
      binding_builder (some name) (record b { actions = set_of b.actions })

  abbrev saved_screen : Page.Kind → Option (Page.Saved yaml.Doc) → Screen yaml.Doc
  saved_screen kind none = lists
  saved_screen Page.policy (some s) =
      policy_screen s.name s.raw_yaml (try_parse_builder_policy yaml text s.raw_yaml)
  saved_screen Page.binding (some s) =
      binding_screen s.name s.raw_yaml (try_parse_builder_binding yaml text s.raw_yaml)

  -- What a search for a name comes to: the first record of that name, or none where none has it.
  abbrev pub FirstNamed : Text → List (Page.Saved yaml.Doc) → Option (Page.Saved yaml.Doc) → Type 0
  FirstNamed name xs none = All (λ x. x.name ≢ name) xs
  FirstNamed name xs (some s) =
      (before after : List (Page.Saved yaml.Doc)) × (xs ≡ before ++ s ∷ after)
      × (s.name ≡ name)
      × All (λ x. x.name ≢ name) before

  -- The screen of a saved object, once the records of its kind are there.
  abbrev pub ShowsSaved :
      Page.Kind → Text → Bool → List (Page.Saved yaml.Doc) → Screen yaml.Doc → Type 0
  ShowsSaved kind name false xs s = s ≡ lists
  ShowsSaved kind name true xs s =
      (o : Option (Page.Saved yaml.Doc)) × FirstNamed name xs o × (s ≡ saved_screen kind o)

  -- The screen of an address.
  abbrev pub ShowsAt : Page.Route → Page.Page yaml.Doc → Screen yaml.Doc → Type 0
  ShowsAt Page.list p s = s ≡ lists
  ShowsAt (Page.new Page.policy false) p s = s ≡ policy_builder none blank_builder
  ShowsAt (Page.new Page.binding false) p s = s ≡ binding_builder none blank_binding
  ShowsAt (Page.new kind true) p s = s ≡ yaml_editor kind none yaml.blank
  ShowsAt (Page.edit Page.policy name) p s = ShowsSaved Page.policy name p.lists_loaded p.policies s
  ShowsAt (Page.edit Page.binding name) p s =
      ShowsSaved Page.binding name p.lists_loaded p.bindings s

  find_saved-FirstNamed :
      (name : Text) (xs : List (Page.Saved yaml.Doc)) → FirstNamed name xs (Page.find_saved name xs)
  unfolding Page.find_saved
  find_saved-FirstNamed name [] = tt
  find_saved-FirstNamed name (x ∷ xs) =
      if_cases (FirstNamed name (x ∷ xs)) (x.name === name) _ _
        (λ e. ([], xs, refl, (===_iff x.name name).0 e, tt))
        (λ n.
          FirstNamed-skip (Page.find_saved name xs) (λ e. ground (arith, ===_iff x.name name))
            (find_saved-FirstNamed name xs))
    where
      FirstNamed-skip :
          (o : Option (Page.Saved yaml.Doc))
          → x.name ≢ name
          → FirstNamed name xs o
          → FirstNamed name (x ∷ xs) o
      FirstNamed-skip none n h = (n, h)
      FirstNamed-skip (some s) n (before, after, e, same, h) =
          (x ∷ before, after, ap (λ l. x ∷ l) e, same, (n, h))

  -- The same, as the page finds it.
  abbrev screen_of : Page.Route → Page.Page yaml.Doc → Screen yaml.Doc
  screen_of Page.list p = lists
  screen_of (Page.new Page.policy false) p = policy_builder none blank_builder
  screen_of (Page.new Page.binding false) p = binding_builder none blank_binding
  screen_of (Page.new kind true) p = yaml_editor kind none yaml.blank
  screen_of (Page.edit kind name) p =
      if p.lists_loaded
      then saved_screen kind (Page.find_saved name (Page.records_of kind p))
      else lists

  closed_lists : (q : Page.Page yaml.Doc) → IsClosed q → screen q ≡ lists
  closed_lists q (a, b, c) = ground arith

  screen_of_editor :
      (kind : Page.Kind) (name : Option Text) (doc : yaml.Doc) (p : Page.Page yaml.Doc)
      → IsClosed p
      → screen (Page.open_editor kind name doc p) ≡ yaml_editor kind name doc
  unfolding Page.open_editor
  screen_of_editor kind name doc p (a, b, c) = ground arith

  screen-show_policy :
      (name : Text) (raw : yaml.Doc) (o : Option Builder) (p : Page.Page yaml.Doc)
      → IsClosed p
      → screen (Page.show_policy yaml text name raw o p) ≡ policy_screen name raw o
  screen-show_policy name raw none p c = screen_of_editor Page.policy (some name) raw p c
  screen-show_policy name raw (some form) p c = refl

  screen-show_binding :
      (name : Text) (raw : yaml.Doc) (o : Option BindingForm) (p : Page.Page yaml.Doc)
      → IsClosed p
      → screen (Page.show_binding yaml text name raw o p) ≡ binding_screen name raw o
  screen-show_binding name raw none p c = screen_of_editor Page.binding (some name) raw p c
  screen-show_binding name raw (some form) p (a, b, c) = ground arith

  screen-edit_saved :
      (kind : Page.Kind) (name : Text) (o : Option (Page.Saved yaml.Doc)) (p : Page.Page yaml.Doc)
      → IsClosed p
      → screen (Page.edit_saved yaml text kind name o p) ≡ saved_screen kind o
  unfolding Page.open_edit Page.close_screens
  screen-edit_saved Page.policy name none p c = refl
  screen-edit_saved Page.binding name none p c = refl
  screen-edit_saved Page.policy name (some s) p c = screen-show_policy s.name s.raw_yaml _ p c
  screen-edit_saved Page.binding name (some s) p c =
      screen-show_binding s.name s.raw_yaml _ (record p { active_tab = Page.binding }) c

  route_effect-screen_of :
      (r : Page.Route) (p : Page.Page yaml.Doc)
      → IsClosed p
      → screen (Page.route_effect yaml text r p) ≡ screen_of r p
  unfolding Page.route_effect Page.close_screens Page.show_new
  route_effect-screen_of Page.list p c = refl
  route_effect-screen_of (Page.new Page.policy true) p c =
      screen_of_editor Page.policy none yaml.blank p c
  route_effect-screen_of (Page.new Page.binding true) p c =
      screen_of_editor Page.binding none yaml.blank p c
  route_effect-screen_of (Page.new Page.policy false) p c = refl
  route_effect-screen_of (Page.new Page.binding false) p (a, b, c) = ground arith
  route_effect-screen_of (Page.edit kind name) p c = by_lists p.lists_loaded refl
    where
      by_lists :
          (b : Bool)
          → p.lists_loaded ≡ b
          → screen (
              if b
              then Page.edit_saved yaml text kind name
                  (Page.find_saved name (Page.records_of kind p))
                  p
              else p)
            ≡ (if b
                then saved_screen kind (Page.find_saved name (Page.records_of kind p))
                else lists)
      by_lists true h = screen-edit_saved kind name _ p c
      by_lists false h = closed_lists p c

  shown :
      (kind : Page.Kind) (name : Text) (b : Bool) (xs : List (Page.Saved yaml.Doc))
      (s : Screen yaml.Doc)
      → s ≡ (if b then saved_screen kind (Page.find_saved name xs) else lists)
      → ShowsSaved kind name b xs s
  shown kind name true xs s e = (_, find_saved-FirstNamed name xs, e)
  shown kind name false xs s e = e

  screen_of-ShowsAt :
      (r : Page.Route) (p : Page.Page yaml.Doc) (s : Screen yaml.Doc)
      → s ≡ screen_of r p
      → ShowsAt r p s
  screen_of-ShowsAt Page.list p s e = e
  screen_of-ShowsAt (Page.new Page.policy false) p s e = e
  screen_of-ShowsAt (Page.new Page.binding false) p s e = e
  screen_of-ShowsAt (Page.new Page.policy true) p s e = e
  screen_of-ShowsAt (Page.new Page.binding true) p s e = e
  screen_of-ShowsAt (Page.edit Page.policy name) p s e =
      shown Page.policy name p.lists_loaded p.policies s e
  screen_of-ShowsAt (Page.edit Page.binding name) p s e =
      shown Page.binding name p.lists_loaded p.bindings s e

  -- From the list, or any page without an open screen, an address shows its screen: an empty builder or
  -- editor for a new object; the lists, where the address edits an object and the records were not
  -- loaded; and, where they were, for the first policy of the list of policies, or the first binding of
  -- that of bindings, that has the name of the address, the builder, filled with what was read, if it
  -- opens the manifest, and the YAML editor with the manifest if not; the lists if none has that name.
  pub screen-route_effect :
      (r : Page.Route) (p : Page.Page yaml.Doc)
      → IsClosed p
      → ShowsAt r p (screen (Page.route_effect yaml text r p))
  screen-route_effect r p c = screen_of-ShowsAt r p _ (route_effect-screen_of r p c)

  -- The first answer of the lists runs the effect of the address again: where a new policy is being
  -- written, it resets the whole form, whatever was typed; every later answer leaves the form.
  load_succeeded-builder :
      (ps bs : List (Page.Saved yaml.Doc)) (p : Page.Page yaml.Doc)
      → p.route ≡ Page.new Page.policy false
      → (Page.load_succeeded yaml text ps bs p).builder
        ≡ (if p.lists_loaded then p.builder else blank_builder)
  unfolding Page.load_succeeded Page.route_effect Page.show_new
  load_succeeded-builder ps bs p e = by_lists p.lists_loaded p.route e
    where
      q : Page.Page yaml.Doc
      q = record p { policies = ps; bindings = bs; lists_loaded = true; loading = false }

      by_lists :
          (b : Bool) (r : Page.Route)
          → r ≡ Page.new Page.policy false
          → (if b then q else Page.route_effect yaml text r q).builder
            ≡ (if b then p.builder else blank_builder)
      by_lists true r e = refl
      by_lists false r e = rw e refl
