-- ===== src/Cnp/Page.antt =====
-- pages/CNPPage.tsx: the state of the page, the effect that drives it from the route, and its handlers.
-- A handler that waits for the API is two functions: what it does before the call, and what it does
-- with the answer. The requests that were sent are listed, newest first, and so are the toasts.
mod State
pub mod Listing
pub mod Identity
pub mod Reopening
pub mod Screens
unfoldable pub use State.*
use k8s_sentinel.Base.{
  Text, lit, ◌===◌, is_empty, not, ◌&&◌, ◌||◌, Bool, true, false, List, [], ◌∷◌, ◌++◌, Option, none,
  some, or_else, is_some, if◌then◌else◌, Yaml,
}
use k8s_sentinel.Cnp.{FormInput, empty_form}
use k8s_sentinel.Cnp.Validate.{validate_cnp_form}
use k8s_sentinel.Cnp.Render.{cnp_form_to_yaml}
use k8s_sentinel.Cnp.Parse.{try_parse_cnp_form}
use k8s_sentinel.Cnp.Editing.{FormEdit, edit_form}

-- The tests on texts that js-yaml reads or wrote, `!!text` and `!!text.trim()`, and whether
-- `tryParseCNPForm` throws at a text, rather than return null, where the model gives no form: a label
-- whose value is a number has no `trim`, say.
pub record DocTests (Doc : Type 0) : Type 0 where
  pub has_text : Doc → Bool
  pub has_words : Doc → Bool
  pub throws : Doc → Bool

module _ (yaml : Yaml) (tests : DocTests yaml.Doc) where
  abbrev P : Type 0
  P = Page yaml.Doc

  unfoldable pub open_create : EditorMode → P → P
  open_create as_what p = record p {
    editing = none;
    mode = as_what;
    form = empty_form;
    yaml_text = yaml.blank;
    yaml_valid = true;
    editor_open = true;
  }

  -- A policy that the form does not show opens as YAML.
  abbrev pub show_saved : Saved yaml.Doc → Option FormInput → P → P
  show_saved rec parsed p = record p {
    editing = some rec;
    form = or_else parsed empty_form;
    mode = if is_some parsed then as_form else as_yaml;
    yaml_text = rec.raw_yaml;
    yaml_valid = true;
    editor_open = true;
  }

  abbrev pub crash : P → P
  crash p = record p { crashed = true }

  -- The effect does not catch what `tryParseCNPForm` throws.
  abbrev pub show_read : Saved yaml.Doc → Option FormInput → P → P
  show_read rec (some f) p = show_saved rec (some f) p
  show_read rec none p = if tests.throws rec.raw_yaml then crash p else show_saved rec none p

  unfoldable pub open_edit : Saved yaml.Doc → P → P
  open_edit rec p = show_read rec (try_parse_cnp_form yaml rec.raw_yaml) p

  -- A policy that is gone goes back to the list, whose route closes the editor.
  abbrev pub edit_saved : Text → Option (Saved yaml.Doc) → P → P
  edit_saved name none p =
      close_editor (record (tell (failure (lit "Policy " ++ name ++ lit " no longer exists.")) p) {
        route = list;
      })
  edit_saved name (some rec) p = open_edit rec p

  -- The effect of the route: it runs when the route changes and when the list is first there.
  unfoldable pub route_effect : Route → P → P
  unfolding open_edit open_create close_editor find_saved
  route_effect list p = close_editor p
  route_effect (new as_what) p = open_create as_what p
  route_effect (edit name scope ns) p =
      if p.policies_loaded
      then edit_saved name
          (find_saved name (or_else scope (lit "namespace")) (or_else ns []) p.policies) p
      else p

  unfoldable pub navigate : Route → P → P
  unfolding route_effect same_route
  navigate r p = if same_route r p.route then p else route_effect r (record p { route = r })

  -- `load`, answered. The first answer sets `policiesLoaded`, on which the effect depends.
  unfoldable pub load_succeeded : Answer yaml.Doc → P → P
  unfolding route_effect
  load_succeeded res p =
      let q = record p {
        available = some res.available;
        unavailable_msg = or_else res.message [];
        policies = or_else res.policies [];
        policies_loaded = true;
        loading = false;
      } in
      if p.policies_loaded then q else route_effect p.route q

  abbrev pub load_failed : P → P
  load_failed p = record p {
    available = some false;
    unavailable_msg = lit "Failed to reach the Sentinel API.";
    loading = false;
  }

  abbrev pub outgoing : EditorMode → P → yaml.Doc
  outgoing as_form p = cnp_form_to_yaml yaml p.form
  outgoing as_yaml p = p.yaml_text

  abbrev pub can_apply_as : EditorMode → P → Bool
  can_apply_as as_form p =
      is_empty (validate_cnp_form p.form) && tests.has_text (cnp_form_to_yaml yaml p.form)
  can_apply_as as_yaml p = tests.has_words p.yaml_text && p.yaml_valid

  unfoldable pub can_apply : P → Bool
  unfolding validate_cnp_form cnp_form_to_yaml
  can_apply p = can_apply_as p.mode p

  abbrev pub save_request : Option (Saved yaml.Doc) → yaml.Doc → Request yaml.Doc
  save_request none doc = apply doc
  save_request (some rec) doc = update rec.name rec.namespace rec.scope doc

  unfoldable pub save : P → P
  unfolding can_apply cnp_form_to_yaml
  save p =
      if can_apply p
      then send (save_request p.editing (outgoing p.mode p)) (record p { saving = true })
      else p

  -- The handler has kept whether it saved a policy that was there.
  unfoldable pub save_succeeded : Bool → P → P
  unfolding navigate
  save_succeeded updated p =
      record (navigate list (
        load_started (
          tell
            (success
              (if updated then lit "Network policy updated." else lit "Network policy created."))
            p))) { saving = false }

  -- What the server said, or a text of its own.
  abbrev pub reason : Option Text → Text
  reason said =
      if is_empty (or_else said []) then lit "Failed to apply network policy." else or_else said []

  unfoldable pub save_failed : Option Text → P → P
  save_failed said p = record (tell (failure (reason said)) p) { saving = false }

  abbrev pub send_delete : Option (Saved yaml.Doc) → P → P
  send_delete none p = p
  send_delete (some t) p = send (delete t.name t.scope t.namespace) p

  unfoldable pub confirm_delete : P → P
  confirm_delete p = send_delete p.delete_target p

  unfoldable pub delete_succeeded : Text → P → P
  delete_succeeded name p =
      record (load_started (tell (success (lit "Deleted " ++ name ++ lit ".")) p)) {
        delete_target = none;
      }

  unfoldable pub delete_failed : P → P
  delete_failed p = record (tell (failure (lit "Failed to delete network policy.")) p) {
    delete_target = none;
  }

-- What can happen to the page, an answer of the API included.
pub data Action (Doc : Type 0) : Type 0 where
  go : Route → Action Doc
  change : FormEdit → Action Doc
  write_yaml : Doc → Bool → Action Doc
  press_apply : Action Doc
  saved : Bool → Action Doc
  save_refused : Option Text → Action Doc
  ask_delete : Option (Saved Doc) → Action Doc
  press_delete : Action Doc
  deleted : Text → Action Doc
  delete_refused : Action Doc
  refresh : Action Doc
  loaded : Answer Doc → Action Doc
  load_refused : Action Doc
  namespaces_loaded : List Text → Action Doc
  type_search : Text → Action Doc
  select_namespaces : List Text → Action Doc

module _ (yaml : Yaml) (tests : DocTests yaml.Doc) where
  -- The form and the YAML editor are there only where their screen is up; `Apply` is disabled while an
  -- answer is awaited.
  unfoldable pub step : Action yaml.Doc → Page yaml.Doc → Page yaml.Doc
  unfolding navigate load_succeeded edit_form save
  step (go r) p = navigate yaml tests r p
  step (change e) p =
      if p.editor_open && is_form p.mode
      then record p { form = edit_form (is_some p.editing) e p.form }
      else p
  step (write_yaml doc valid) p =
      if p.editor_open && not (is_form p.mode)
      then record p { yaml_text = doc; yaml_valid = valid }
      else p
  step press_apply p = if p.editor_open && not p.saving then save yaml tests p else p
  step (saved updated) p = save_succeeded yaml tests updated p
  step (save_refused said) p = save_failed yaml tests said p
  step (ask_delete t) p = record p { delete_target = t }
  step press_delete p = confirm_delete yaml tests p
  step (deleted name) p = delete_succeeded yaml tests name p
  step delete_refused p = delete_failed yaml tests p
  step refresh p = load_started p
  step (loaded res) p = load_succeeded yaml tests res p
  step load_refused p = load_failed yaml tests p
  step (namespaces_loaded ns) p = record p { cluster_namespaces = ns }
  step (type_search s) p = record p { search = s }
  step (select_namespaces ns) p = record p { ns_filter = ns }

  -- Once the page has crashed, nothing is there to act on.
  unfoldable pub run : List (Action yaml.Doc) → Page yaml.Doc → Page yaml.Doc
  unfolding step
  run [] p = p
  run (a ∷ as') p = run as' (if p.crashed then p else step a p)

  -- The page as it is mounted, before its effect.
  unfoldable pub mounted : Route → Page yaml.Doc
  mounted r = record {
    policies = [];
    available = none;
    unavailable_msg = [];
    loading = true;
    search = [];
    ns_filter = [];
    cluster_namespaces = [];
    editor_open = false;
    editing = none;
    yaml_text = yaml.blank;
    yaml_valid = true;
    mode = as_form;
    form = empty_form;
    saving = false;
    delete_target = none;
    policies_loaded = false;
    route = r;
    toasts = [];
    sent = [];
    crashed = false;
  }

  -- The first screen.
  unfoldable pub opened : Route → Page yaml.Doc
  unfolding route_effect mounted
  opened r = route_effect yaml tests r (mounted r)
