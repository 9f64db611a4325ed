-- ===== src/Vap/Page/Ready.antt =====
-- pages/VAPPage.tsx: what stays true of the policy builder, so that its handler accepts what its Apply
-- button lets through.
use k8s_sentinel.Base.{
  Text, ℕ, true, false, List, [], ◌∷◌, Option, none, some, if_cases, Yaml, ◌≡◌, ◌⊎◌, inl, inr, refl,
  arith, length,
}
use k8s_sentinel.Vap.Reopen.{BindingForm}
use k8s_sentinel.Vap.{
  ReplicaRule, empty_replica_rule, RuleType, label, annotation, image, replica, resource_limits,
  security_context, host_access, configmap_size, secret_size,
}
use k8s_sentinel.Vap.Policy.{Builder}
use k8s_sentinel.Vap.Open.{try_parse_builder_policy}
use k8s_sentinel.Vap.Open.Counts.{ListsAll, Counted}
use k8s_sentinel.Vap.Open.Faithful.{try_parse_builder_policy-Shows}
use k8s_sentinel.Vap.Editing.{
  some_positive, or_one, blank_builder, filled_builder, handler_accepts, can_apply_binding,
}
use k8s_sentinel.Vap.Editing.Positive.{IsReady, edit_builder-IsReady}
use k8s_sentinel.Vap.Page

no_replica_rules : (t : RuleType) (n l i r m : ℕ) → Counted t n l i r m → (t ≡ replica) ⊎ (r ≡ 0)
no_replica_rules replica n l i r m c = inl refl
no_replica_rules label n l i r m c = inr (omega arith)
no_replica_rules annotation n l i r m c = inr (omega arith)
no_replica_rules image n l i r m c = inr (omega arith)
no_replica_rules resource_limits n l i r m c = inr (omega arith)
no_replica_rules security_context n l i r m c = inr (omega arith)
no_replica_rules host_access n l i r m c = inr (omega arith)
no_replica_rules configmap_size n l i r m c = inr (omega arith)
no_replica_rules secret_size n l i r m c = inr (omega arith)

filled_builder-IsReady : (b : Builder) (n : ℕ) → ListsAll n b → IsReady (filled_builder b)
unfolding filled_builder
filled_builder-IsReady b n lists =
    elim (no_replica_rules b.rule_type n (length b.label_rules) (length b.image_rules)
      (length b.replica_rules) (length b.resource_limit_rules) lists) [
        | inl e ↦ inl e
        | inr e ↦ inr (shown b.replica_rules e)
      ]
  where
    shown :
        (rs : List ReplicaRule)
        → length rs ≡ 0
        → some_positive (or_one empty_replica_rule rs) ≡ true
    shown [] h = refl
    shown (r ∷ rs) h = absurd (omega arith)

pub blank_builder-IsReady : IsReady blank_builder
unfolding blank_builder
blank_builder-IsReady = inr refl

module _ (yaml : Yaml) (text : Text → yaml.Doc) where
  show_policy-IsReady :
      (name : Text) (raw : yaml.Doc) (o : Option Builder) (p : Page.Page yaml.Doc)
      → try_parse_builder_policy yaml text raw ≡ o
      → IsReady p.builder
      → IsReady (Page.show_policy yaml text name raw o p).builder
  unfolding Page.open_editor
  show_policy-IsReady name raw none p e h = h
  show_policy-IsReady name raw (some b) p e h =
      let (doc, l, (plain, (n, has, lists), same)) =
        try_parse_builder_policy-Shows yaml text raw b e in
      filled_builder-IsReady b n lists

  show_binding-IsReady :
      (name : Text) (raw : yaml.Doc) (o : Option BindingForm) (p : Page.Page yaml.Doc)
      → IsReady p.builder
      → IsReady (Page.show_binding yaml text name raw o p).builder
  unfolding Page.open_editor
  show_binding-IsReady name raw none p h = h
  show_binding-IsReady name raw (some b) p h = h

  edit_saved-IsReady :
      (kind : Page.Kind) (name : Text) (o : Option (Page.Saved yaml.Doc)) (p : Page.Page yaml.Doc)
      → IsReady p.builder
      → IsReady (Page.edit_saved yaml text kind name o p).builder
  unfolding Page.open_edit Page.close_screens
  edit_saved-IsReady kind name none p h = blank_builder-IsReady
  edit_saved-IsReady Page.policy name (some s) p h =
      show_policy-IsReady s.name s.raw_yaml _ p refl h
  edit_saved-IsReady Page.binding name (some s) p h =
      show_binding-IsReady s.name s.raw_yaml _ (record p { active_tab = Page.binding }) h

  pub route_effect-IsReady :
      (r : Page.Route) (p : Page.Page yaml.Doc)
      → IsReady p.builder
      → IsReady (Page.route_effect yaml text r p).builder
  unfolding Page.route_effect Page.open_editor
  route_effect-IsReady Page.list p h = blank_builder-IsReady
  route_effect-IsReady (Page.new Page.policy true) p h = h
  route_effect-IsReady (Page.new Page.binding true) p h = h
  route_effect-IsReady (Page.new Page.policy false) p h = blank_builder-IsReady
  route_effect-IsReady (Page.new Page.binding false) p h = h
  route_effect-IsReady (Page.edit kind name) p h =
      if_cases (λ (q : Page.Page yaml.Doc). IsReady q.builder) p.lists_loaded _ _
        (λ _. edit_saved-IsReady kind name _ p h) (λ _. h)

  navigate-IsReady :
      (r : Page.Route) (p : Page.Page yaml.Doc)
      → IsReady p.builder
      → IsReady (Page.navigate yaml text r p).builder
  unfolding Page.navigate
  navigate-IsReady r p h =
      if_cases (λ (q : Page.Page yaml.Doc). IsReady q.builder) (Page.same_route r p.route) _ _
        (λ _. h) (λ _. route_effect-IsReady r (record p { route = r }) h)

  load_succeeded-IsReady :
      (ps bs : List (Page.Saved yaml.Doc)) (p : Page.Page yaml.Doc)
      → IsReady p.builder
      → IsReady (Page.load_succeeded yaml text ps bs p).builder
  unfolding Page.load_succeeded
  load_succeeded-IsReady ps bs p h =
      if_cases (λ (q : Page.Page yaml.Doc). IsReady q.builder) p.lists_loaded _ _ (λ _. h)
        (λ _. route_effect-IsReady p.route _ h)

  send_editor-IsReady :
      (o : Option (Page.Editor yaml.Doc)) (p : Page.Page yaml.Doc)
      → IsReady p.builder
      → IsReady (Page.send_editor yaml text o p).builder
  send_editor-IsReady none p h = h
  send_editor-IsReady (some e) p h =
      if_cases (λ (q : Page.Page yaml.Doc). IsReady q.builder) p.editor_valid _ _ (λ _. h) (λ _. h)

  send_delete-IsReady :
      (o : Option (Page.Kind × Text)) (p : Page.Page yaml.Doc)
      → IsReady p.builder
      → IsReady (Page.send_delete yaml text o p).builder
  send_delete-IsReady none p h = h
  send_delete-IsReady (some (kind, name)) p h = h

  step-IsReady :
      (a : Page.Action yaml.Doc) (p : Page.Page yaml.Doc)
      → IsReady p.builder
      → IsReady (Page.step yaml text a p).builder
  unfolding Page.step Page.type_yaml Page.handle_save Page.save_succeeded Page.save_failed
      Page.handle_builder_apply Page.builder_apply_succeeded Page.builder_apply_failed
      Page.handle_binding_builder_apply Page.binding_builder_apply_succeeded
      Page.binding_builder_apply_failed Page.handle_delete Page.delete_succeeded
  step-IsReady (Page.go r) p h = navigate-IsReady r p h
  step-IsReady (Page.edit_form e) p h = edit_builder-IsReady e p.builder h
  step-IsReady (Page.set_binding b) p h = h
  step-IsReady (Page.toggle a) p h = h
  step-IsReady (Page.write_yaml doc valid) p h = h
  step-IsReady Page.save p h = send_editor-IsReady p.editor p h
  step-IsReady (Page.saved kind) p h = navigate-IsReady Page.list _ h
  step-IsReady (Page.save_refused said) p h = h
  step-IsReady Page.apply p h =
      if_cases (λ (q : Page.Page yaml.Doc). IsReady q.builder) (handler_accepts p.builder) _ _
        (λ _. h) (λ _. h)
  step-IsReady Page.applied p h = navigate-IsReady Page.list _ h
  step-IsReady (Page.apply_refused said) p h = h
  step-IsReady Page.bind p h =
      if_cases (λ (q : Page.Page yaml.Doc). IsReady q.builder) (can_apply_binding p.binding_form) _
        _ (λ _. h) (λ _. h)
  step-IsReady Page.bound p h = navigate-IsReady Page.list _ h
  step-IsReady (Page.bind_refused said) p h = h
  step-IsReady (Page.ask_delete t) p h = h
  step-IsReady Page.confirm_delete p h = send_delete-IsReady p.delete_target p h
  step-IsReady (Page.deleted kind) p h = h
  step-IsReady Page.delete_refused p h = h
  step-IsReady (Page.refresh spinner) p h =
      if_cases (λ (q : Page.Page yaml.Doc). IsReady q.builder) spinner _ _ (λ _. h) (λ _. h)
  step-IsReady (Page.loaded ps bs) p h = load_succeeded-IsReady ps bs p h
  step-IsReady Page.load_refused p h = h
  step-IsReady (Page.select_tab tab) p h = h

  pub run-IsReady :
      (actions : List (Page.Action yaml.Doc)) (p : Page.Page yaml.Doc)
      → IsReady p.builder
      → IsReady (Page.run yaml text actions p).builder
  unfolding Page.run
  run-IsReady [] p h = h
  run-IsReady (a ∷ as') p h = run-IsReady as' (Page.step yaml text a p) (step-IsReady a p h)
