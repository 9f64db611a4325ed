-- ===== src/Cnp/Tests/Pages.antt =====
-- The page with the policy of the other examples.
use k8s_sentinel.Base.{
  is_some, lit, ◌===◌, [], ◌∷◌, List, Option, some, none, Json, true, false, ◌≡◌, refl, ap, sym,
  subst, some-eq, All, get, trim, assign, without, starts_with, includes, member, inr, inl, ◌>>=◌,
  arith,
}
use native.Mathlib.Decide.{ℕ_discrete}
use k8s_sentinel.PlainYaml.{Json_discrete, plain_yaml}
use k8s_sentinel.Cnp.{FormInput, cluster, empty_form}
use k8s_sentinel.Cnp.Labels.{resolve_key, to_label_pairs, namespace_key, subject_match_labels}
use k8s_sentinel.Cnp.Address.{is_v4_cidr}
use k8s_sentinel.Cnp.Validate.{validate_cnp_form}
use k8s_sentinel.Cnp.Render.{cnp_form_to_yaml, manifest}
use k8s_sentinel.Cnp.Parse.{try_parse_cnp_form}
use k8s_sentinel.Cnp.Parse.Faithful.{Rewrites}
use k8s_sentinel.Cnp.Editing.{set_name, set_comment, edit_form}
use k8s_sentinel.Cnp.Preview.{query, selector_preview}
use k8s_sentinel.Cnp.Preview.Covers.{
  Pod, AsksUnderived, endpoint_label, Selects, Covers, selector_preview-Covers,
}
use k8s_sentinel.Cnp.Preview.Covers.{Governs}
use k8s_sentinel.Cnp.Preview.Shown.{Matches, RightAbout, line-selects_none}
use k8s_sentinel.Selector.{
  Wanted, Event, delay_over, answer, mounted, run, step, request_of, line, selects_none,
}
use k8s_sentinel.Selector.Current.{AllFair}
use k8s_sentinel.Cnp.Page
use k8s_sentinel.Cnp.Page.Identity.{Names, ShowsForm, run-save}
use k8s_sentinel.Cnp.Page.Reopening.{edit_route, edit_route-save}
use k8s_sentinel.Cnp.Page.Screens.{Shows, run-Shows}
use k8s_sentinel.Cnp.Tests.{web_form, web_document, opened_form, opened, plain_yaml-IsLossless}

abbrev web_pod : Pod
web_pod = record {
  namespace = lit "shop";
  labels = (lit "app", lit "api") ∷ (lit "tier", lit "web") ∷ [];
  derived = (lit "io.cilium.k8s.policy.serviceaccount", lit "api") ∷ [];
}

web_preview : selector_preview web_form ≡ query (lit "shop") ((lit "app", lit "api") ∷ [])
unfolding selector_preview subject_match_labels lit trim ◌===◌ member resolve_key assign get without
    starts_with includes
web_preview = refl

web_pod-Selects : Selects web_pod (lit "app", lit "api")
unfolding lit get ◌===◌ starts_with
web_pod-Selects k (inl (e, plain)) = subst (λ k. endpoint_label web_pod k ≡ some (lit "api")) e refl
web_pod-Selects k (inr e) = absurd (let q = ap (λ s. starts_with s (lit "k8s:")) e in ground arith)

web_pod-AsksUnderived : AsksUnderived web_pod (lit "app", lit "api")
unfolding lit get ◌===◌ starts_with
web_pod-AsksUnderived k (inl (e, plain)) = subst (λ k. get k web_pod.derived ≡ none) e refl
web_pod-AsksUnderived k (inr e) =
    absurd (let q = ap (λ s. starts_with s (lit "k8s:")) e in ground arith)

selector_preview-Covers_example : Covers web_pod (selector_preview web_form)
unfolding subject_match_labels lit trim ◌===◌ member resolve_key assign get
selector_preview-Covers_example =
    selector_preview-Covers web_form web_pod refl refl (web_pod-AsksUnderived, tt)
      (refl, (web_pod-Selects, tt))

-- The namespace's label with its source in front is looked for among the labels of pods.
abbrev sourced_form : FormInput
sourced_form = record empty_form {
  scope = cluster;
  subject = record { key = lit "k8s:io.kubernetes.pod.namespace"; value = lit "shop" } ∷ [];
}

sourced_preview : selector_preview sourced_form ≡ query [] ((namespace_key, lit "shop") ∷ [])
unfolding selector_preview subject_match_labels lit trim ◌===◌ member resolve_key assign get without
    starts_with includes
sourced_preview = refl

abbrev plain_tests : Page.DocTests (Option Json)
plain_tests = record { has_text = is_some; has_words = is_some; throws = λ _. false }

abbrev web_policy : Page.Saved (Option Json)
web_policy = record {
  name = lit "web";
  namespace = lit "shop";
  scope = lit "namespace";
  selector = lit "app=api";
  raw_yaml = web_document;
}

abbrev web_answer : Page.Answer (Option Json)
web_answer = record { available = true; policies = some (web_policy ∷ []); message = none }

-- The address of the policy is opened before the list is there; a name is typed, which is read-only.
abbrev edits : List (Page.Action (Option Json))
edits =
    Page.loaded web_answer
    ∷ Page.change (set_name (lit "other"))
    ∷ Page.change (set_comment (lit "web"))
    ∷ []

abbrev edited : Page.Page (Option Json)
edited =
    Page.run plain_yaml plain_tests edits
      (Page.opened plain_yaml plain_tests (edit_route web_policy))

edited-editing :
    (edited.editing ≡ some web_policy)
    × (edited.mode ≡ Page.as_form)
    × (edited.form ≡ record opened_form { comment = some (lit "web") })
unfolding Page.run Page.opened edit_route try_parse_cnp_form lit trim get ◌===◌ manifest ◌>>=◌
    assign subject_match_labels member validate_cnp_form to_label_pairs without is_v4_cidr
    Json_discrete web_document ℕ_discrete Page.mounted edit_form
edited-editing = (refl, refl, refl)

edited-can_apply : Page.can_apply plain_yaml plain_tests edited ≡ true
unfolding Page.run Page.opened edit_route try_parse_cnp_form lit trim get ◌===◌ manifest ◌>>=◌
    assign subject_match_labels member validate_cnp_form to_label_pairs without is_v4_cidr
    Json_discrete Page.can_apply cnp_form_to_yaml web_document ℕ_discrete Page.mounted edit_form
edited-can_apply = refl

run-save_example :
    ((Page.save plain_yaml plain_tests edited).sent
      ≡ Page.update
          (lit "web")
          (lit "shop")
          (lit "namespace")
          (cnp_form_to_yaml plain_yaml edited.form)
        ∷ edited.sent)
    × ((doc : Json) × (web_document ≡ some doc) × Names doc edited.form)
    × ShowsForm edited.form
run-save_example =
    run-save plain_yaml plain_tests (edit_route web_policy) edits web_policy (edited-editing.0)
      (edited-editing.1) edited-can_apply

run-Shows_example : Shows (λ _. false) edited
run-Shows_example = run-Shows plain_yaml plain_tests (edit_route web_policy) edits

abbrev listed : Page.Page (Option Json)
listed = record (Page.mounted plain_yaml plain_tests Page.list) {
  policies = web_policy ∷ [];
  policies_loaded = true;
}

edit_route-save_example :
    let q = Page.route_effect plain_yaml plain_tests (edit_route web_policy) listed in
    (Page.can_apply plain_yaml plain_tests q ≡ true)
    × ((Page.save plain_yaml plain_tests q).sent
        ≡ Page.update
            (lit "web")
            (lit "shop")
            (lit "namespace")
            (cnp_form_to_yaml plain_yaml opened_form)
          ∷ listed.sent)
    × (doc : Json) × (web_document ≡ some doc)
    × Rewrites plain_yaml plain_yaml-IsLossless doc opened_form
edit_route-save_example =
    edit_route-save plain_yaml plain_tests plain_yaml-IsLossless web_policy [] [] listed opened_form
      (λ j. refl) refl refl tt opened

-- The first answer of the list empties a form that is being filled in.
abbrev filled : Page.Page (Option Json)
filled =
    Page.run plain_yaml plain_tests
      (Page.change (set_name (lit "early")) ∷ Page.loaded web_answer ∷ [])
      (Page.opened plain_yaml plain_tests (Page.new Page.as_form))

filled-form : filled.form ≡ empty_form
unfolding Page.run Page.opened lit Page.mounted
filled-form = refl

-- Nothing runs in the namespace of the policy.
abbrev bank_pod : Pod
bank_pod = record { namespace = lit "bank"; labels = (lit "app", lit "api") ∷ []; derived = [] }

abbrev web_wanted : Wanted
web_wanted = record { namespace = lit "shop"; labels = (lit "app", lit "api") ∷ [] }

abbrev nothing_found : List Event
nothing_found = delay_over ∷ answer 0 (record { total = 0; pods = [] }) ∷ []

bank_pod-unmatched : ¬ Matches web_wanted bank_pod
unfolding lit
bank_pod-unmatched (inl e, h) = absurd (ground arith)
bank_pod-unmatched (inr e, h) = absurd (ground arith)

sent_wanted :
    (w : Wanted)
    → request_of 0 (step delay_over (mounted web_wanted)).flying ≡ some w
    → w ≡ web_wanted
unfolding step mounted lit
sent_wanted w e = sym (some-eq _ _ e)

nothing_found-AllFair : AllFair (RightAbout (bank_pod ∷ [])) nothing_found (mounted web_wanted)
nothing_found-AllFair = (
  tt,
  (
    (λ w e zero.
        subst (λ w. All (λ pod. ¬ Matches w pod) (bank_pod ∷ [])) (sym (sent_wanted w e))
          (bank_pod-unmatched, tt)),
    tt,
  ),
)

web_form-asked :
    selector_preview web_form
    ≡ query
        (run nothing_found (mounted web_wanted)).wanted.namespace
        (run nothing_found (mounted web_wanted)).wanted.labels
unfolding selector_preview subject_match_labels lit trim ◌===◌ member resolve_key assign get without
    starts_with includes run mounted
web_form-asked = refl

nothing_found-line : line (run nothing_found (mounted web_wanted)) ≡ selects_none (lit "shop")
unfolding line run mounted lit ◌===◌
nothing_found-line = refl

line-selects_none_example : All (λ pod. ¬ Governs pod web_form) (bank_pod ∷ [])
unfolding subject_match_labels lit trim ◌===◌ member resolve_key assign get
line-selects_none_example =
    line-selects_none web_form (bank_pod ∷ []) web_wanted nothing_found (lit "shop") refl refl
      ((λ k asked. refl, tt), tt) nothing_found-AllFair web_form-asked nothing_found-line
