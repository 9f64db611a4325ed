-- ===== src/Cnp/Page/State.antt =====
-- pages/CNPPage.tsx: the state of the page, its addresses and the requests, and what needs no js-yaml.
pub use k8s_sentinel.Toasts.{Toast, success, failure}
use k8s_sentinel.Base.{
  Text, lit, ◌===◌, ◌&&◌, ◌||◌, Bool, true, false, List, [], ◌∷◌, Option, none, some, if◌then◌else◌,
}
use k8s_sentinel.Cnp.{FormInput}

-- `CNPRecord`, as far as the page decides by it.
pub record Saved (Doc : Type 0) : Type 0 where
  pub name : Text
  pub namespace : Text
  pub scope : Text
  pub selector : Text
  pub raw_yaml : Doc

-- `CNPListResponse`
pub record Answer (Doc : Type 0) : Type 0 where
  pub available : Bool
  pub policies : Option (List (Saved Doc))
  pub message : Option Text

pub data EditorMode : Type 0 where
  as_form as_yaml : EditorMode

-- The addresses under /policies/network, the list included. One that edits has the name of the policy,
-- and its scope and its namespace if the query gives them.
pub data Route : Type 0 where
  list : Route
  new : EditorMode → Route
  edit : Text → Option Text → Option Text → Route

-- What `cnpApi` is asked.
pub data Request (Doc : Type 0) : Type 0 where
  apply : Doc → Request Doc
  update : Text → Text → Text → Doc → Request Doc
  delete : Text → Text → Text → Request Doc

pub record Page (Doc : Type 0) : Type 0 where
  pub policies : List (Saved Doc)
  pub available : Option Bool
  pub unavailable_msg : Text
  pub loading : Bool
  pub search : Text
  pub ns_filter : List Text
  pub cluster_namespaces : List Text
  pub editor_open : Bool
  pub editing : Option (Saved Doc)
  pub yaml_text : Doc
  pub yaml_valid : Bool
  pub mode : EditorMode
  pub form : FormInput
  pub saving : Bool
  pub delete_target : Option (Saved Doc)
  pub policies_loaded : Bool
  pub route : Route
  pub toasts : List Toast
  pub sent : List (Request Doc)
  -- Whether an effect threw: no error boundary is around the page, so React takes it down.
  pub crashed : Bool

abbrev pub is_form : EditorMode → Bool
is_form as_form = true
is_form as_yaml = false

abbrev pub same_query : Option Text → Option Text → Bool
same_query none none = true
same_query (some s) (some t) = s === t
same_query _ _ = false

unfoldable pub same_route : Route → Route → Bool
same_route list list = true
same_route (new as_form) (new as_form) = true
same_route (new as_yaml) (new as_yaml) = true
same_route (edit m s n) (edit k t o) = (m === k) && same_query s t && same_query n o
same_route _ _ = false

module _ {Doc : Type 0} where
  abbrev pub send : Request Doc → Page Doc → Page Doc
  send r p = record p { sent = r ∷ p.sent }

  abbrev pub tell : Toast → Page Doc → Page Doc
  tell t p = record p { toasts = t ∷ p.toasts }

  -- Whether a policy is the one of an address.
  unfoldable pub is_at : Text → Text → Text → Saved Doc → Bool
  is_at name scope ns x =
      (x.name === name)
      && (x.scope === scope)
      && ((scope === lit "cluster") || (x.namespace === ns))

  unfoldable pub find_saved : Text → Text → Text → List (Saved Doc) → Option (Saved Doc)
  unfolding is_at
  find_saved name scope ns [] = none
  find_saved name scope ns (x ∷ xs) =
      let rest = find_saved name scope ns xs in if is_at name scope ns x then some x else rest

  unfoldable pub close_editor : Page Doc → Page Doc
  close_editor p = record p { editor_open = false; editing = none }

  abbrev pub load_started : Page Doc → Page Doc
  load_started p = record p { loading = true }
