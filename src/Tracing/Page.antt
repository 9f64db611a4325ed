-- ===== src/Tracing/Page.antt =====
-- pages/PolicyEditPage.tsx: the page that edits one tracing policy, as the form or as YAML. The API is
-- asked for the policy and for the namespaces; the page shows nothing until both answered or one failed.
pub mod Guarded
pub use k8s_sentinel.Toasts.{Toast, success, failure}
use k8s_sentinel.Base.{
  Text, lit, ◌===◌, trim, is_empty, not, ◌&&◌, ◌||◌, Bool, true, false, List, [], ◌∷◌, Option, none,
  some, or_else, is_some, if◌then◌else◌, Json, str, as_text,
}
use k8s_sentinel.Tracing.{FormInput, whitelist}
use k8s_sentinel.Tracing.Reader.{yaml_to_form}

pub data EditorMode : Type 0 where
  as_form as_yaml : EditorMode

pub data PolicyMode : Type 0 where
  monitoring protect : PolicyMode

-- `CreatePolicyPayload`: the form goes with what the policy does on a match.
pub data Payload : Type 0 where
  from_form : FormInput → Text → Payload
  from_yaml : Text → Payload

pub data Request : Type 0 where
  create : Payload → Request
  update : Text → Payload → Option Text → Request

-- `PolicyRecord`, as far as the page reads it.
pub record Stored : Type 0 where
  pub mode : Text
  pub created_by : Text
  pub raw_yaml : Text

pub record Page : Type 0 where
  pub name : Option Text
  pub namespace : Option Text
  pub is_admin : Bool
  pub namespaces : List Text
  pub policy_mode : PolicyMode
  pub form : FormInput
  pub yaml_content : Text
  pub yaml_valid : Bool
  pub mode : EditorMode
  pub loading : Bool
  pub page_loading : Bool
  pub form_capable : Bool
  pub toasts : List Toast
  pub sent : List Request

abbrev pub empty_form : FormInput
empty_form = record {
  name = str [];
  namespace = some (str (lit "default"));
  pod_selector = none;
  process_mode = whitelist;
  process = [];
  file_mode = none;
  file = [];
}

abbrev pub is_form : EditorMode → Bool
is_form as_form = true
is_form as_yaml = false

abbrev pub action_of : PolicyMode → Text
action_of protect = lit "Sigkill"
action_of monitoring = lit "Post"

-- The page at an address: no name for a new policy, `?mode=yaml` for the YAML editor. The prefill
-- comes with all fields that it sets.
unfoldable pub opened : Option Text → Option Text → Bool → EditorMode → Option FormInput → Page
opened name namespace is_admin mode prefill = record {
  name = name;
  namespace = namespace;
  is_admin = is_admin;
  namespaces = [];
  policy_mode = monitoring;
  form = if is_some name then empty_form else or_else prefill empty_form;
  yaml_content = [];
  yaml_valid = true;
  mode = mode;
  loading = false;
  page_loading = is_some name;
  form_capable = false;
  toasts = [];
  sent = [];
}

abbrev pub tell : Toast → Page → Page
tell t p = record p { toasts = t ∷ p.toasts }

-- A create, or an update of the policy of the address.
abbrev pub request_of : Option Text → Option Text → Payload → Request
request_of none ns payload = create payload
request_of (some n) ns payload = update n payload ns

abbrev pub send : Payload → Page → Page
send payload p = record p { loading = true; sent = request_of p.name p.namespace payload ∷ p.sent }

-- Whether the reader threw, where the flag says what it does at a text that it reads no form from.
abbrev pub threw : Bool → Option FormInput → Bool
threw flag none = flag
threw flag (some f) = false

-- A policy applied with kubectl opens as YAML, and so does one that the form does not show. What the
-- reader throws is not caught: the rest of the handler is not run then.
abbrev pub show_stored : Text → Bool → Option FormInput → Page → Page
show_stored created_by flag parsed p =
    if created_by === lit "k8s-apply"
    then record p {
      mode = as_yaml;
      form_capable = if threw flag parsed then p.form_capable else is_some parsed;
    }
    else record p {
      form = or_else parsed p.form;
      mode = if is_some parsed || threw flag parsed then p.mode else as_yaml;
    }

abbrev pub mode_of : Text → PolicyMode
mode_of t = if t === lit "Protect" then protect else monitoring

-- The name is checked first; one that is no text makes the handler throw.
abbrev pub save_form : Option Text → Page → Page
save_form none p = p
save_form (some name) p =
    if is_empty (trim name)
    then tell (failure (lit "Policy name is required")) p
    else send (from_form p.form (action_of p.policy_mode)) p

unfoldable pub save_yaml : Page → Page
unfolding trim
save_yaml p =
    if is_empty (trim p.yaml_content)
    then tell (failure (lit "Write or paste a manifest before saving")) p
    else if not p.yaml_valid
    then tell (failure (lit "Fix YAML errors before saving")) p
    else send (from_yaml p.yaml_content) p

unfoldable pub handle_save : Page → Page
unfolding trim save_yaml
handle_save p = if is_form p.mode then save_form (as_text p.form.name) p else save_yaml p

unfoldable pub save_succeeded : Page → Page
save_succeeded p = record (tell (success (lit "Policy applied")) p) { loading = false }

-- The interceptor's message, or a text of the editor that saved.
unfoldable pub save_failed : EditorMode → Text → Page → Page
save_failed mode said p =
    record (tell
      (failure (
        if not (is_empty said)
        then said
        else if is_form mode
        then lit "Failed to apply policy"
        else lit "Failed to apply YAML"))
      p) { loading = false }

abbrev pub open_parsed : Bool → Option FormInput → Page → Page
open_parsed flag none p =
    if flag
    then p
    else tell
        (failure (lit "The current YAML holds rules the form cannot show. Fix it or save as YAML."))
        p
open_parsed flag (some f) p = record p { form = f; mode = as_form }

-- `throws` says at which texts `yamlToForm` throws rather than returns null, where the model gives no
-- form: a binary that is a number has no `startsWith`, say.
module _ (load : Text → Option Json) (throws : Text → Bool) where
  -- `policyApi.get`, answered.
  unfoldable pub policy_arrived : Stored → Page → Page
  policy_arrived rec p =
      show_stored rec.created_by (throws rec.raw_yaml) (yaml_to_form load rec.raw_yaml)
        (record p { yaml_content = rec.raw_yaml; policy_mode = mode_of rec.mode })

  -- The button is there only beside YAML that could open in the form.
  unfoldable pub open_in_form : Page → Page
  open_in_form p =
      if not (is_form p.mode) && p.form_capable
      then open_parsed (throws p.yaml_content) (yaml_to_form load p.yaml_content) p
      else p

-- What the operator does, and what the API answers.
pub data Action : Type 0 where
  select_mode : PolicyMode → Action
  fill : FormInput → Action
  write_yaml : Text → Bool → Action
  press_open : Action
  press_apply : Action

pub data Event : Type 0 where
  act : Action → Event
  namespaces_arrived : List Text → Event
  arrived : Stored → Event
  settled : Event
  saved : Event
  save_refused : EditorMode → Text → Event

module _ (load : Text → Option Json) (throws : Text → Bool) where
  unfoldable pub act_on : Action → Page → Page
  unfolding open_in_form handle_save
  act_on (select_mode m) p = record p { policy_mode = m }
  act_on (fill f) p = if is_form p.mode then record p { form = f } else p
  act_on (write_yaml t valid) p =
      if is_form p.mode then p else record p { yaml_content = t; yaml_valid = valid }
  act_on press_open p = open_in_form load throws p
  act_on press_apply p = if p.loading then p else handle_save p

  -- Nothing can be done while the page loads, nor by a viewer.
  unfoldable pub step : Event → Page → Page
  unfolding act_on policy_arrived
  step (act a) p = if p.is_admin && not p.page_loading then act_on a p else p
  step (namespaces_arrived ns) p = record p { namespaces = ns }
  step (arrived rec) p = policy_arrived load throws rec p
  step settled p = record p { page_loading = false }
  step saved p = save_succeeded p
  step (save_refused mode said) p = save_failed mode said p

  unfoldable pub run : List Event → Page → Page
  unfolding step
  run [] p = p
  run (e ∷ es) p = run es (step e p)
