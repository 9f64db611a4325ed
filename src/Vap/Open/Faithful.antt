-- ===== src/Vap/Open/Faithful.antt =====
-- pages/VAPPage.tsx: what a form that `tryParseBuilderPolicy` opens says of the document.
use k8s_sentinel.Base.{
  Text, ℕ, Json, Yaml, some, true, ◌≡◌, nothing, just, ensured, found, Ensures->>=, Ensures-if,
}
use k8s_sentinel.Vap.Policy.{Builder, generate_policy_yaml}
use k8s_sentinel.Vap.Reopen.{metadata_beyond_builder}
use k8s_sentinel.Vap.Reopen.Metadata.{HasPlainMetadata, metadata_beyond_builder-HasPlainMetadata}
use k8s_sentinel.Vap.Reopen.Faithful.{WritesSameSpec, matches_regenerated-WritesSameSpec}
use k8s_sentinel.Vap.Open.{reproduces_policy, try_parse_builder_policy}
use k8s_sentinel.Vap.Open.Counts.{HasValidations, ListsAll, read_policy-ListsAll}

module _ (yaml : Yaml) (text : Text → yaml.Doc) where
  -- What the form says of the document that it was read from.
  abbrev pub Shows : Json → Builder → Type 0
  Shows doc b =
      HasPlainMetadata doc
      × ((n : ℕ) × HasValidations doc n × ListsAll n b)
      × WritesSameSpec yaml text (generate_policy_yaml b) doc

  reproduces_policy-WritesSameSpec :
      (b : Builder) (doc : Json)
      → reproduces_policy yaml text b doc ≡ true
      → WritesSameSpec yaml text (generate_policy_yaml b) doc
  unfolding reproduces_policy
  reproduces_policy-WritesSameSpec b doc h =
      matches_regenerated-WritesSameSpec yaml text (generate_policy_yaml b) doc h

  -- Whatever policy the form opens, its metadata has no labels, and no annotations but the three that
  -- Sentinel writes and the one of kubectl; a form of label, annotation, image, replica or resource limit
  -- rules lists as many rules as there are validations and no rule of another kind, a form of another
  -- type lists none; and saving the form unchanged writes a spec that has the same dump, once an
  -- equivalent match policy, empty selectors and rule scopes of all, which are defaults of the API
  -- server, are left out of both.
  pub try_parse_builder_policy-Shows :
      (raw : yaml.Doc) (b : Builder)
      → try_parse_builder_policy yaml text raw ≡ some b
      → (doc : Json) × (yaml.load raw ≡ some doc) × Shows doc b
  unfolding try_parse_builder_policy
  try_parse_builder_policy-Shows raw b h =
      ensured {P = λ b. (doc : Json) × (yaml.load raw ≡ some doc) × Shows doc b}
        (Ensures->>= (found (yaml.load raw)) (λ doc e.
          Ensures->>= (read_policy-ListsAll doc) (λ form lists.
            Ensures-if (metadata_beyond_builder doc) (λ t. nothing)
              (λ plain.
                Ensures-if (reproduces_policy yaml text form doc)
                  (λ t. just (
                    doc,
                    e,
                    (
                      metadata_beyond_builder-HasPlainMetadata doc plain,
                      lists,
                      reproduces_policy-WritesSameSpec form doc t,
                    ),
                  ))
                  (λ f. nothing)))))
        h
