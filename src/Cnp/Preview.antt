-- ===== src/Cnp/Preview.antt =====
-- pages/CNPPage.tsx: which line the form shows below the subject, and what it asks SelectorPreview to
-- look for.
pub mod Covers
pub mod Shown
use k8s_sentinel.Base.{
  Text, lit, ◌===◌, starts_with, includes, is_empty, Object, get, assign, without, or_else,
  if◌then◌else◌, List, [], ◌∷◌, Option, none, some, ◌>>=◌,
}
use k8s_sentinel.Cnp.{Scope, namespaced, cluster, FormInput}
use k8s_sentinel.Cnp.Labels.{namespace_key, subject_match_labels}

pub data Preview : Type 0 where
  choose_namespace hidden : Preview
  selects_none : Text → Preview
  query : Text → Object Text → Preview

-- `k.slice(4)`
abbrev pub after_source : Text → Text
after_source (a ∷ b ∷ c ∷ d ∷ k) = k
after_source k = []

-- The loop over the labels: those of pods by their names, and nothing where another source is asked.
unfoldable pub pod_labels : Object Text → Object Text → Option (Object Text)
unfolding assign starts_with includes
pod_labels [] out = some out
pod_labels ((k, v) ∷ rest) out =
    let prefixed = pod_labels rest (assign (after_source k) v out) in
    let plain = pod_labels rest (assign k v out) in
    if starts_with k (lit "k8s:") then prefixed else if includes k (lit ":") then none else plain

abbrev pub query_or_hidden : Text → Option (Object Text) → Preview
query_or_hidden ns none = hidden
query_or_hidden ns (some labels) = query ns labels

-- A namespace label that names another namespace than the policy's.
abbrev pub names_other : Text → Option Text → Option Text
names_other ns none = none
names_other ns (some l) = if is_empty l then none else if l === ns then none else some l

abbrev pub preview_namespaced : Text → Option Text → Option (Object Text) → Preview
preview_namespaced ns label labels =
    if is_empty ns
    then choose_namespace
    else elim (names_other ns label) [ some l ↦ selects_none l | none ↦ query_or_hidden ns labels ]

unfoldable pub preview_of : Scope → Text → Object Text → Preview
unfolding pod_labels without get
preview_of namespaced ns labels =
    preview_namespaced ns (get namespace_key labels) (pod_labels (without namespace_key labels) [])
preview_of cluster ns labels =
    query_or_hidden (or_else (get namespace_key labels) [])
      (pod_labels (without namespace_key labels) [])

unfoldable pub selector_preview : FormInput → Preview
unfolding preview_of subject_match_labels
selector_preview f = preview_of f.scope f.namespace (subject_match_labels f)
