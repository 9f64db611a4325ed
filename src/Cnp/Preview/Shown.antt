-- ===== src/Cnp/Preview/Shown.antt =====
-- pages/CNPPage.tsx and components/SelectorPreview.tsx together: what the line below the form says of
-- the policy.
use k8s_sentinel.Base.{Text, trim, get, All, All-map, List, [], none, ◌≡◌, ◌⊎◌, subst}
use k8s_sentinel.Selector.{Wanted, Found, Event, mounted, run, line, selects_none}
use k8s_sentinel.Selector.Current.{AllFair, Backed, run-line}
use k8s_sentinel.Cnp.{FormInput}
use k8s_sentinel.Cnp.Labels.{subject_match_labels}
use k8s_sentinel.Cnp.Preview.{query, selector_preview}
use k8s_sentinel.Cnp.Preview.Covers.{
  Pod, AsksUnderived, All-both, HasLabel, Governs, Covers, finds, prefixed_namespace,
  selector_preview-Covers,
}

-- What the server looks for: pods of that namespace, or of any, with all of the labels.
abbrev pub Matches : Wanted → Pod → Type 0
Matches w pod = ((w.namespace ≡ []) ⊎ (pod.namespace ≡ w.namespace)) × All (HasLabel pod) w.labels

-- An answer that counts no pods is right about these pods: none of them matches.
abbrev pub RightAbout : List Pod → Wanted → Found → Type 0
RightAbout pods w d = d.total ≡ 0 → All (λ pod. ¬ Matches w pod) pods

Covers-Matches : (pod : Pod) (w : Wanted) → Covers pod (query w.namespace w.labels) → Matches w pod
Covers-Matches pod w (finds h k) = (h, k)

-- Where the line below the form says that no pods are selected, the policy governs none of the pods,
-- whatever was typed and answered before: each answer of the server is right about the pods, the line
-- was given what the form asks for now, the namespace of the form is without blanks around it, no row
-- names the namespace's label with its source in front, and none asks for another label that Cilium
-- derives for one of the pods.
pub line-selects_none :
    (f : FormInput) (pods : List Pod) (w : Wanted) (es : List Event) (ns : Text)
    → trim f.namespace ≡ f.namespace
    → get prefixed_namespace (subject_match_labels f) ≡ none
    → All (λ pod. All (AsksUnderived pod) (subject_match_labels f)) pods
    → AllFair (RightAbout pods) es (mounted w)
    → selector_preview f
      ≡ query (run es (mounted w)).wanted.namespace (run es (mounted w)).wanted.labels
    → line (run es (mounted w)) ≡ selects_none ns
    → All (λ pod. ¬ Governs pod f) pods
line-selects_none f pods w es ns trimmed far underived fair asked says =
    let now = (run es (mounted w)).wanted in
    let (same, d, zero, right) =
      subst (Backed (RightAbout pods) now) says (run-line (RightAbout pods) w es fair) in
    All-map
      (λ pod (unmatched, plain) governed. unmatched (
        Covers-Matches pod now
          (subst (Covers pod) asked (selector_preview-Covers f pod trimmed far plain governed))))
      pods (All-both _ _ pods (right zero) underived)
