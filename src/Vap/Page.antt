-- ===== src/Vap/Page.antt =====
-- pages/VAPPage.tsx: the state of the page, the effect that drives it from the route, and its handlers.
-- A handler that waits for the API is two functions: what it does before the call, and what it does
-- with the answer. The requests that were sent are listed, newest first, and so are the toasts.
mod State
pub mod Screens
pub mod Ready
pub mod Saving
unfoldable pub use State.*
use k8s_sentinel.Base.{
  Text, ℕ, ◌+◌, lit, ◌===◌, is_empty, lower, includes, filter, not, ◌&&◌, ◌||◌, Bool, true, false,
  List, [], ◌∷◌, ◌++◌, Option, none, some, if◌then◌else◌, Yaml,
}
use k8s_sentinel.Vap.{ValidationAction}
use k8s_sentinel.Vap.Rules.{or_text}
use k8s_sentinel.Vap.Policy.{Builder, generate_policy_yaml}
use k8s_sentinel.Vap.Binding.{BindingNsMode}
use k8s_sentinel.Vap.Reopen.{BindingForm, rewritten, try_parse_builder_binding}
use k8s_sentinel.Vap.Open.{try_parse_builder_policy}
use k8s_sentinel.Vap.Editing.{
  BuilderEdit, edit_builder, blank_builder, filled_builder, handler_accepts, blank_binding, set_of,
  toggle_action, can_apply_binding,
}

module _ (yaml : Yaml) (text : Text → yaml.Doc) where
  abbrev P : Type 0
  P = Page yaml.Doc

  abbrev pub show_policy : Text → yaml.Doc → Option Builder → P → P
  show_policy name raw none p = open_editor policy (some name) raw p
  show_policy name raw (some b) p = record p {
    builder_edit_name = some name;
    builder = filled_builder b;
    show_builder = true;
  }

  abbrev pub show_binding : Text → yaml.Doc → Option BindingForm → P → P
  show_binding name raw none p = open_editor binding (some name) raw p
  show_binding name raw (some b) p = record p {
    binding_edit_name = some name;
    binding_form = record b { actions = set_of b.actions };
    show_binding_builder = true;
  }

  unfoldable pub open_edit : Kind → Text → yaml.Doc → P → P
  unfolding open_editor filled_builder set_of
  open_edit policy name raw p = show_policy name raw (try_parse_builder_policy yaml text raw) p
  open_edit binding name raw p = show_binding name raw (try_parse_builder_binding yaml text raw) p

  -- A record that is gone goes back to the list, whose route closes the screens.
  abbrev pub edit_saved : Kind → Text → Option (Saved yaml.Doc) → P → P
  edit_saved kind name none p =
      close_screens
        (record (tell (failure (kind_name kind ++ lit " " ++ name ++ lit " no longer exists.")) p) {
          route = list;
        })
  edit_saved kind name (some s) p = open_edit kind s.name s.raw_yaml (show_tab kind p)

  -- The effect of the route: it runs when the route changes and when the lists are first there.
  unfoldable pub route_effect : Route → P → P
  unfolding open_edit close_screens show_new find_saved
  route_effect list p = close_screens p
  route_effect (new kind true) p = show_tab kind (open_editor kind none yaml.blank p)
  route_effect (new kind false) p = show_new kind p
  route_effect (edit kind name) p =
      if p.lists_loaded then edit_saved kind name (find_saved name (records_of kind p)) p else p

  unfoldable pub navigate : Route → P → P
  unfolding route_effect same_route
  navigate r p = if same_route r p.route then p else route_effect r (record p { route = r })

  -- `load`, answered. The first answer sets `listsLoaded`, on which the effect depends.
  unfoldable pub load_succeeded : List (Saved yaml.Doc) → List (Saved yaml.Doc) → P → P
  unfolding route_effect
  load_succeeded ps bs p =
      let q = record p { policies = ps; bindings = bs; lists_loaded = true; loading = false } in
      if p.lists_loaded then q else route_effect p.route q

  abbrev pub load_failed : P → P
  load_failed p = record p { loading = false }

  unfoldable pub type_yaml : yaml.Doc → Bool → P → P
  type_yaml doc valid p = record p { editor_yaml = doc; editor_valid = valid }

  abbrev pub send_editor : Option (Editor yaml.Doc) → P → P
  send_editor none p = p
  send_editor (some e) p =
      if p.editor_valid
      then send (apply_request e.kind e.name p.editor_yaml) (record p { saving = true })
      else p

  unfoldable pub handle_save : P → P
  handle_save p = send_editor p.editor p

  unfoldable pub save_succeeded : Kind → P → P
  unfolding navigate
  save_succeeded kind p =
      record (navigate list
        (record (tell (success (kind_name kind ++ lit " applied.")) p) { active_tab = kind })) {
          saving = false;
        }

  -- What the server said, or a text of its own.
  abbrev pub reason : Text → Text
  reason said = or_text said (lit "Failed to apply")

  unfoldable pub save_failed : Text → P → P
  save_failed said p = record (tell (failure (reason said)) p) { saving = false }

  -- What applying the forms on the page asks for.
  abbrev pub policy_request : P → Request yaml.Doc
  policy_request p =
      apply_request policy p.builder_edit_name (text (generate_policy_yaml p.builder))

  abbrev pub binding_request : P → Request yaml.Doc
  binding_request p = apply_request binding p.binding_edit_name (text (rewritten p.binding_form))

  unfoldable pub handle_builder_apply : P → P
  unfolding handler_accepts generate_policy_yaml
  handle_builder_apply p =
      if handler_accepts p.builder
      then send (policy_request p) (record p { builder_saving = true })
      else p

  unfoldable pub builder_apply_succeeded : P → P
  unfolding navigate
  builder_apply_succeeded p = record (navigate list (tell (success (lit "Policy applied.")) p)) {
    builder_saving = false;
  }

  unfoldable pub builder_apply_failed : Text → P → P
  builder_apply_failed said p = record (tell (failure (reason said)) p) { builder_saving = false }

  unfoldable pub handle_binding_builder_apply : P → P
  unfolding can_apply_binding
  handle_binding_builder_apply p =
      if can_apply_binding p.binding_form
      then send (binding_request p) (record p { binding_builder_saving = true })
      else p

  unfoldable pub binding_builder_apply_succeeded : P → P
  unfolding navigate
  binding_builder_apply_succeeded p =
      record (navigate list (tell (success (lit "Binding applied.")) p)) {
        binding_builder_saving = false;
      }

  unfoldable pub binding_builder_apply_failed : Text → P → P
  binding_builder_apply_failed said p = record (tell (failure (reason said)) p) {
    binding_builder_saving = false;
  }

  abbrev pub send_delete : Option (Kind × Text) → P → P
  send_delete none p = p
  send_delete (some (kind, name)) p = send (delete kind name) p

  unfoldable pub handle_delete : P → P
  handle_delete p = send_delete p.delete_target p

  unfoldable pub delete_succeeded : Kind → P → P
  delete_succeeded kind p = record (tell (success (kind_name kind ++ lit " deleted.")) p) {
    delete_target = none;
  }

  abbrev pub delete_failed : P → P
  delete_failed p = tell (failure (lit "Failed to delete")) p

-- What can happen to the page, an answer of the API included.
pub data Action (Doc : Type 0) : Type 0 where
  go : Route → Action Doc
  edit_form : BuilderEdit → Action Doc
  set_binding : BindingForm → Action Doc
  toggle : ValidationAction → Action Doc
  write_yaml : Doc → Bool → Action Doc
  save : Action Doc
  saved : Kind → Action Doc
  save_refused : Text → Action Doc
  apply : Action Doc
  applied : Action Doc
  apply_refused : Text → Action Doc
  bind : Action Doc
  bound : Action Doc
  bind_refused : Text → Action Doc
  ask_delete : Option (Kind × Text) → Action Doc
  confirm_delete : Action Doc
  deleted : Kind → Action Doc
  delete_refused : Action Doc
  refresh : Bool → Action Doc
  loaded : List (Saved Doc) → List (Saved Doc) → Action Doc
  load_refused : Action Doc
  select_tab : Kind → Action Doc

module _ (yaml : Yaml) (text : Text → yaml.Doc) where
  unfoldable pub step : Action yaml.Doc → Page yaml.Doc → Page yaml.Doc
  unfolding navigate load_succeeded
  step (go r) p = navigate yaml text r p
  step (edit_form e) p = record p { builder = edit_builder e p.builder }
  step (set_binding b) p = record p { binding_form = b }
  step (toggle a) p = record p { binding_form = toggle_action a p.binding_form }
  step (write_yaml doc valid) p = type_yaml yaml text doc valid p
  step save p = handle_save yaml text p
  step (saved kind) p = save_succeeded yaml text kind p
  step (save_refused said) p = save_failed yaml text said p
  step apply p = handle_builder_apply yaml text p
  step applied p = builder_apply_succeeded yaml text p
  step (apply_refused said) p = builder_apply_failed yaml text said p
  step bind p = handle_binding_builder_apply yaml text p
  step bound p = binding_builder_apply_succeeded yaml text p
  step (bind_refused said) p = binding_builder_apply_failed yaml text said p
  step (ask_delete t) p = record p { delete_target = t }
  step confirm_delete p = handle_delete yaml text p
  step (deleted kind) p = delete_succeeded yaml text kind p
  step delete_refused p = delete_failed yaml text p
  step (refresh spinner) p = if spinner then record p { loading = true } else p
  step (loaded ps bs) p = load_succeeded yaml text ps bs p
  step load_refused p = load_failed yaml text p
  step (select_tab tab) p = record p { active_tab = tab }

  unfoldable pub run : List (Action yaml.Doc) → Page yaml.Doc → Page yaml.Doc
  unfolding step
  run [] p = p
  run (a ∷ as') p = run as' (step a p)

  -- The page as it is mounted, before its effect.
  unfoldable pub mounted : Route → Page yaml.Doc
  unfolding blank_builder blank_binding
  mounted r = record {
    policies = [];
    bindings = [];
    loading = true;
    lists_loaded = false;
    editor = none;
    editor_yaml = yaml.blank;
    editor_valid = true;
    editor_key = 0;
    saving = false;
    delete_target = none;
    active_tab = policy;
    route = r;
    show_builder = false;
    builder_edit_name = none;
    builder = blank_builder;
    builder_saving = false;
    show_binding_builder = false;
    binding_edit_name = none;
    binding_form = blank_binding;
    binding_builder_saving = false;
    toasts = [];
    sent = [];
  }

  -- The first screen.
  unfoldable pub opened : Route → Page yaml.Doc
  unfolding route_effect mounted
  opened r = route_effect yaml text r (mounted r)
