-- ===== src/Vap/Page/Saving.antt =====
-- pages/VAPPage.tsx: what the page sends to the API.
use k8s_sentinel.Base.{
  Text, ℕ, true, [], ◌∷◌, Option, none, some, if_cases, Yaml, Json, ◌≡◌, refl, sym, subst,
}
use k8s_sentinel.Vap.Policy.{Builder, generate_policy_yaml}
use k8s_sentinel.Vap.Reopen.Metadata.{HasPlainMetadata}
use k8s_sentinel.Vap.Reopen.Faithful.{WritesSameSpec}
use k8s_sentinel.Vap.Open.{try_parse_builder_policy}
use k8s_sentinel.Vap.Open.Faithful.{try_parse_builder_policy-Shows}
use k8s_sentinel.Vap.Editing.{filled_builder, handler_accepts}
use k8s_sentinel.Vap.Editing.Filled.{generate_policy_yaml-filled_builder}
use k8s_sentinel.Vap.Page

-- A request that saves a policy: it creates one where none was opened, and else updates the one of that
-- name.
abbrev pub SavesPolicy : {Doc : Type 0} → Option Text → Doc → Page.Request Doc → Type 0
SavesPolicy none doc r = r ≡ Page.create Page.policy doc
SavesPolicy (some []) doc r = r ≡ Page.create Page.policy doc
SavesPolicy (some (c ∷ name)) doc r = r ≡ Page.update Page.policy (c ∷ name) doc

module _ (yaml : Yaml) (text : Text → yaml.Doc) where
  handle_builder_apply_sends :
      (p : Page.Page yaml.Doc)
      → handler_accepts p.builder ≡ true
      → (Page.handle_builder_apply yaml text p).sent ≡ Page.policy_request yaml text p ∷ p.sent
  unfolding Page.handle_builder_apply
  handle_builder_apply_sends p h =
      if_cases (λ (q : Page.Page yaml.Doc). q.sent ≡ Page.policy_request yaml text p ∷ p.sent)
        (handler_accepts p.builder) _ _ (λ _. refl) (λ no. cc)

  -- A saved policy that the builder opens is saved with the same spec: where the handler goes on, applying
  -- the form unchanged sends an update of the policy of that name, with a manifest whose spec has the same
  -- dump, once an equivalent match policy, empty selectors and rule scopes of all, which are defaults of
  -- the API server, are left out of both; and the saved metadata has no labels, and no annotations but
  -- the three that Sentinel writes and the one of kubectl.
  pub open_edit-handle_builder_apply :
      (c : ℕ) (name : Text) (raw : yaml.Doc) (p : Page.Page yaml.Doc) (b : Builder)
      → try_parse_builder_policy yaml text raw ≡ some b
      → handler_accepts (filled_builder b) ≡ true
      → (doc : Json) × (yaml.load raw ≡ some doc)
        × HasPlainMetadata doc
        × ((written : Text) × ((Page.handle_builder_apply yaml text
                (Page.open_edit yaml text Page.policy (c ∷ name) raw p)).sent
              ≡ Page.update Page.policy (c ∷ name) (text written) ∷ p.sent)
            × WritesSameSpec yaml text written doc)
  unfolding Page.open_edit
  open_edit-handle_builder_apply c name raw p b e accepts =
      let (doc, l, (plain, lists, same)) = try_parse_builder_policy-Shows yaml text raw b e in
      (
        doc,
        l,
        plain,
        (
          generate_policy_yaml (filled_builder b),
          subst
              (λ o.
                (Page.handle_builder_apply yaml text
                  (Page.show_policy yaml text (c ∷ name) raw o p)).sent
                ≡ Page.update Page.policy (c ∷ name)
                    (text (generate_policy_yaml (filled_builder b)))
                  ∷ p.sent)
              (sym e)
              (handle_builder_apply_sends (Page.show_policy yaml text (c ∷ name) raw (some b) p)
                accepts),
          subst (λ t. WritesSameSpec yaml text t doc) (sym (generate_policy_yaml-filled_builder b))
              same,
        ),
      )
