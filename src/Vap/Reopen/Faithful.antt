-- ===== src/Vap/Reopen/Faithful.antt =====
-- pages/VAPPage.tsx: what a form that `tryParseBuilderBinding` opens says of the document.
use k8s_sentinel.Base.{
  Text, lit, is_empty, true, false, List, [], ◌∷◌, Option, none, some, Json, prop, truthy, Yaml,
  ◌≡◌, refl, Ensures, nothing, just, ensured, Ensures->>=, Ensures-if, found, arith, and-eq_true,
}
use k8s_sentinel.Vap.Binding.{BindingNsMode, include, exclude}
use k8s_sentinel.Vap.Reopen.Kept.{SpecKept}
use k8s_sentinel.Vap.Reopen.Defaults.{spec_for_compare-SpecKept}
use k8s_sentinel.Vap.Reopen.Metadata.{HasPlainMetadata, metadata_beyond_builder-HasPlainMetadata}
use k8s_sentinel.Vap.Reopen.{
  is_text, name_key, BindingForm, is_builder_binding, metadata_beyond_builder, read_binding,
  scope_of, scope_of_expressions, scope_of_expression, operator_mode, rewritten, same_compared,
  matches_regenerated, reproduces_binding, try_parse_builder_binding,
}

-- Namespaces are listed exactly where the scope is not all of them.
abbrev pub IsScope : BindingNsMode × List Text → Type 0
IsScope (BindingNsMode.all, ns) = ns ≡ []
IsScope (include, ns) = is_empty ns ≡ false
IsScope (exclude, ns) = is_empty ns ≡ false

abbrev IsListed : BindingNsMode → Type 0
IsListed BindingNsMode.all = ⊥
IsListed include = Unit
IsListed exclude = Unit

IsListed-IsScope :
    (m : BindingNsMode) (ns : List Text) → IsListed m → is_empty ns ≡ false → IsScope (m, ns)
IsListed-IsScope BindingNsMode.all ns l h = absurd l
IsListed-IsScope include ns l h = h
IsListed-IsScope exclude ns l h = h

operator_mode-IsListed : (o : Option Json) → Ensures IsListed (operator_mode o)
unfolding operator_mode
operator_mode-IsListed o =
    Ensures-if (is_text (lit "In") o) (λ t. just (tt {0}))
      (λ f. Ensures-if (is_text (lit "NotIn") o) (λ t. just (tt {0})) (λ f. nothing))

scope_of_expression-IsScope : (e : Json) → Ensures IsScope (scope_of_expression e)
unfolding scope_of_expression
scope_of_expression-IsScope e =
    Ensures-if (is_text name_key (prop (lit "key") e))
      (λ key. Ensures->>= (operator_mode-IsListed (prop (lit "operator") e)) (λ mode m.
        Ensures->>= (found _) (λ values _. Ensures->>= (found _) (λ names _.
          Ensures-if (is_empty names) (λ e. nothing)
            (λ filled. just (IsListed-IsScope mode names m filled))))))
      (λ other. nothing)

scope_of_expressions-IsScope : (es : List Json) → Ensures IsScope (scope_of_expressions es)
unfolding scope_of_expressions
scope_of_expressions-IsScope [] = just refl
scope_of_expressions-IsScope (e ∷ []) = scope_of_expression-IsScope e
scope_of_expressions-IsScope (e ∷ f ∷ rest) = nothing

scope_of-IsScope : (o : Option Json) (es : List Json) → Ensures IsScope (scope_of o es)
unfolding scope_of
scope_of-IsScope none es = scope_of_expressions-IsScope es
scope_of-IsScope (some j) es =
    Ensures-if (truthy j)
      (λ t.
        Ensures->>= (found _) (λ ns _. Ensures-if (is_empty es) (λ e. just refl) (λ f. nothing)))
      (λ f. scope_of_expressions-IsScope es)

read_binding-IsScope :
    (doc : Json) → Ensures (λ b. IsScope (b.ns_mode, b.namespaces)) (read_binding doc)
unfolding read_binding
read_binding-IsScope doc = Ensures->>= (scope_of-IsScope _ _) (λ s h.
    Ensures->>= (found _) (λ name _.
      Ensures->>= (found _) (λ policy_name _. Ensures->>= (found _) (λ actions _. just h))))

module _ (yaml : Yaml) (text : Text → yaml.Doc) where
  -- The text reads as a document whose spec, but for defaults of the API server, has the same dump as
  -- the spec of the given one but for such defaults.
  abbrev pub WritesSameSpec : Text → Json → Type 0
  WritesSameSpec written doc =
      (regen : Json) × (yaml.load (text written) ≡ some regen)
      × ((a c : Json) × SpecKept (prop (lit "spec") regen) a
          × SpecKept (prop (lit "spec") doc) c
          × (yaml.canon a ≡ yaml.canon c))

  -- Saving the form writes the same spec.
  abbrev pub RewritesBinding : Json → BindingForm → Type 0
  RewritesBinding doc b = WritesSameSpec (rewritten b) doc

  same_compared-some :
      (o p : Option Json)
      → same_compared yaml text o p ≡ true
      → (a c : Json) × (o ≡ some a) × (p ≡ some c) × (yaml.canon a ≡ yaml.canon c)
  same_compared-some none p h = absurd (ground arith)
  same_compared-some (some a) none h = absurd (ground arith)
  same_compared-some (some a) (some c) h =
      (a, c, refl, refl, (yaml.same_iff (yaml.canon a) (yaml.canon c)).0 h)

  pub matches_regenerated-WritesSameSpec :
      (written : Text) (doc : Json)
      → matches_regenerated yaml text (yaml.load (text written)) doc ≡ true
      → WritesSameSpec written doc
  matches_regenerated-WritesSameSpec written doc h = go (yaml.load (text written)) h
    where
      go :
          (o : Option Json)
          → matches_regenerated yaml text o doc ≡ true
          → (regen : Json) × (o ≡ some regen)
            × ((a c : Json) × SpecKept (prop (lit "spec") regen) a
                × SpecKept (prop (lit "spec") doc) c
                × (yaml.canon a ≡ yaml.canon c))
      go none h = absurd (ground arith)
      go (some regen) h =
          let (a, c, ea, ec, same) = same_compared-some _ _ (and-eq_true (truthy regen) _ h).1 in
          (
            regen,
            refl,
            (
              a,
              c,
              ensured (spec_for_compare-SpecKept _) ea,
              ensured (spec_for_compare-SpecKept _) ec,
              same,
            ),
          )

  reproduces_binding-RewritesBinding :
      (b : BindingForm) (doc : Json)
      → reproduces_binding yaml text b doc ≡ true
      → RewritesBinding doc b
  unfolding reproduces_binding
  reproduces_binding-RewritesBinding b doc h =
      matches_regenerated-WritesSameSpec (rewritten b) doc h

  -- Whatever binding the form opens, its metadata has no labels, and no annotations but the three that
  -- Sentinel writes and the one of kubectl; the form lists namespaces exactly if its scope is not all of
  -- them; and saving it unchanged writes a spec that has the same dump, once an equivalent match policy,
  -- empty selectors and rule scopes of all, which are defaults of the API server, are left out of both.
  pub try_parse_builder_binding-RewritesBinding :
      (raw : yaml.Doc) (b : BindingForm)
      → try_parse_builder_binding yaml text raw ≡ some b
      → (doc : Json) × (yaml.load raw ≡ some doc)
        × HasPlainMetadata doc
        × IsScope (b.ns_mode, b.namespaces)
        × RewritesBinding doc b
  unfolding try_parse_builder_binding
  try_parse_builder_binding-RewritesBinding raw b h =
      ensured
        {P = λ b.
          (doc : Json) × (yaml.load raw ≡ some doc)
          × HasPlainMetadata doc
          × IsScope (b.ns_mode, b.namespaces)
          × RewritesBinding doc b}
        (Ensures->>= (found (yaml.load raw)) (λ doc e.
          Ensures->>=
            (Ensures-if (is_builder_binding doc) (λ t. read_binding-IsScope doc) (λ f. nothing))
            (λ form scope.
              Ensures-if (metadata_beyond_builder doc) (λ t. nothing)
                (λ plain.
                  Ensures-if (reproduces_binding yaml text form doc)
                    (λ t. just (
                      doc,
                      e,
                      metadata_beyond_builder-HasPlainMetadata doc plain,
                      scope,
                      reproduces_binding-RewritesBinding form doc t,
                    ))
                    (λ f. nothing)))))
        h
