-- ===== src/Health/Tests.antt =====
-- Concrete rows and sources.
use k8s_sentinel.Base.{
  lit, trim, ◌===◌, lower, includes, get, true, false, List, [], ◌∷◌, none, some, ◌≡◌, refl,
}
use k8s_sentinel.Health.{
  LabelEntry, complete_pairs, get-complete_pairs, IngestSource, is_ingest_problem,
}
use k8s_sentinel.Health.Sources.{hubble_state, hubble_state-is_ingest_problem}

abbrev rows : List LabelEntry
rows =
    record { key = lit " app "; value = lit "web" }
    ∷ record { key = lit "app"; value = lit " " }
    ∷ record { key = []; value = lit "x" }
    ∷ []

abbrev starting : IngestSource
starting = record { connected = false; consecutive_failures = 0; last_error = none }

problems :
    (is_ingest_problem starting ≡ false)
    × (is_ingest_problem (record starting { consecutive_failures = 1 }) ≡ true)
    × (is_ingest_problem (record starting { last_error = some (lit "Cilium Not Detected") })
        ≡ false)
unfolding is_ingest_problem lit lower includes
problems = (refl, refl, refl)

get-complete_pairs_example : get (lit "app") (complete_pairs rows) ≡ some (lit "web")
unfolding lit trim ◌===◌
get-complete_pairs_example = get-complete_pairs (lit "app") rows

abbrev failing : IngestSource
failing = record { connected = false; consecutive_failures = 3; last_error = none }

hubble_state-is_ingest_problem_example :
    (hubble_state (some failing)).down ≡ is_ingest_problem failing
hubble_state-is_ingest_problem_example = hubble_state-is_ingest_problem failing
