-- ===== src/Vap/Page/State.antt =====
-- pages/VAPPage.tsx: the state of the page, its addresses and the requests, and what needs no js-yaml.
pub use k8s_sentinel.Toasts.{Toast, success, failure}
use k8s_sentinel.Base.{
  Text, ℕ, ◌+◌, lit, ◌===◌, is_empty, lower, includes, filter, not, ◌&&◌, ◌||◌, Bool, true, false,
  List, [], ◌∷◌, Option, none, some, if◌then◌else◌,
}
use k8s_sentinel.Vap.Policy.{Builder}
use k8s_sentinel.Vap.Reopen.{BindingForm}
use k8s_sentinel.Vap.Editing.{blank_builder, blank_binding}

pub data Kind : Type 0 where
  policy binding : Kind

-- The addresses under /policies/admission, the list included. A new one may be written as YAML.
pub data Route : Type 0 where
  list : Route
  new : Kind → Bool → Route
  edit : Kind → Text → Route

pub data Request (Doc : Type 0) : Type 0 where
  create : Kind → Doc → Request Doc
  update : Kind → Text → Doc → Request Doc
  delete : Kind → Text → Request Doc

-- What the page reads of a policy or a binding of the list.
pub record Saved (Doc : Type 0) : Type 0 where
  pub name : Text
  pub raw_yaml : Doc

-- `EditTarget`
pub record Editor (Doc : Type 0) : Type 0 where
  pub kind : Kind
  pub name : Option Text
  pub yaml : Doc

pub record Page (Doc : Type 0) : Type 0 where
  pub policies : List (Saved Doc)
  pub bindings : List (Saved Doc)
  pub loading : Bool
  pub lists_loaded : Bool
  pub editor : Option (Editor Doc)
  pub editor_yaml : Doc
  pub editor_valid : Bool
  pub editor_key : ℕ
  pub saving : Bool
  pub delete_target : Option (Kind × Text)
  pub active_tab : Kind
  pub route : Route
  pub show_builder : Bool
  pub builder_edit_name : Option Text
  pub builder : Builder
  pub builder_saving : Bool
  pub show_binding_builder : Bool
  pub binding_edit_name : Option Text
  pub binding_form : BindingForm
  pub binding_builder_saving : Bool
  pub toasts : List Toast
  pub sent : List (Request Doc)

abbrev pub kind_name : Kind → Text
kind_name policy = lit "Policy"
kind_name binding = lit "Binding"

-- `if (name)`
abbrev pub named : Option Text → Option Text
named none = none
named (some []) = none
named (some (c ∷ s)) = some (c ∷ s)

abbrev pub same_kind : Kind → Kind → Bool
same_kind policy policy = true
same_kind binding binding = true
same_kind _ _ = false

abbrev pub same_flag : Bool → Bool → Bool
same_flag true b = b
same_flag false b = not b

unfoldable pub same_route : Route → Route → Bool
same_route list list = true
same_route (new k m) (new l n) = same_kind k l && same_flag m n
same_route (edit k m) (edit l n) = same_kind k l && (m === n)
same_route _ _ = false

module _ {Doc : Type 0} where
  abbrev pub send : Request Doc → Page Doc → Page Doc
  send r p = record p { sent = r ∷ p.sent }

  abbrev pub tell : Toast → Page Doc → Page Doc
  tell t p = record p { toasts = t ∷ p.toasts }

  -- A create, or an update of what was opened.
  abbrev pub apply_request : Kind → Option Text → Doc → Request Doc
  apply_request kind name doc = elim (named name) [
    | none ↦ create kind doc
    | some n ↦ update kind n doc
  ]

  -- `find(x => x.name === name)`
  unfoldable pub find_saved : Text → List (Saved Doc) → Option (Saved Doc)
  find_saved name [] = none
  find_saved name (x ∷ xs) =
      let rest = find_saved name xs in if x.name === name then some x else rest

  -- The records that the search box leaves.
  unfoldable pub search_saved : Text → List (Saved Doc) → List (Saved Doc)
  unfolding lower includes
  search_saved search = filter (λ p. is_empty search || includes (lower p.name) (lower search))

  unfoldable pub open_editor : Kind → Option Text → Doc → Page Doc → Page Doc
  open_editor kind name doc p = record p {
    editor_yaml = doc;
    editor_valid = true;
    editor_key = p.editor_key + 1;
    editor = some (record { kind = kind; name = name; yaml = doc });
  }

  -- The list route closes every screen and clears what they held.
  unfoldable pub close_screens : Page Doc → Page Doc
  unfolding blank_builder
  close_screens p = record p {
    show_builder = false;
    show_binding_builder = false;
    editor = none;
    builder_edit_name = none;
    binding_edit_name = none;
    builder = blank_builder;
  }

  unfoldable pub show_new : Kind → Page Doc → Page Doc
  unfolding blank_builder blank_binding
  show_new policy p = record p {
    builder = blank_builder;
    builder_edit_name = none;
    show_builder = true;
  }
  show_new binding p = record p {
    binding_edit_name = none;
    binding_form = blank_binding;
    show_binding_builder = true;
    active_tab = binding;
  }

  abbrev pub show_tab : Kind → Page Doc → Page Doc
  show_tab policy p = p
  show_tab binding p = record p { active_tab = binding }

  abbrev pub records_of : Kind → Page Doc → List (Saved Doc)
  records_of policy p = p.policies
  records_of binding p = p.bindings
