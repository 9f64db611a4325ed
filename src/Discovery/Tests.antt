-- ===== src/Discovery/Tests.antt =====
-- Concrete profiles and schedules, and the theorems at them.
use k8s_sentinel.Base.{
  Text, lit, ◌===◌, member, List, [], ◌∷◌, map, some, false, ◌≡◌, refl, All, arith,
}
use k8s_sentinel.Discovery.{PodProfile}
use k8s_sentinel.Discovery.Groups.{
  build_workload_groups, text_lt, IsIn, HasDistinctKeys, build_workload_groups-IsIn,
}
use k8s_sentinel.Discovery.Polling.{Poller, Action, loading, response, run, run_stale}

abbrev profile : Text → Text → List Text → PodProfile
profile pod name binaries = record {
  namespace = lit "a";
  pod = pod;
  workload_kind = some (lit "Deployment");
  workload_name = some name;
  binaries = binaries;
  first_seen = lit "2";
  last_seen = lit "3";
}

abbrev profiles : List PodProfile
profiles =
    profile (lit "web-1") (lit "web") (lit "/bin/sh" ∷ [])
    ∷ profile (lit "web-2") (lit "web") (lit "/bin/sh" ∷ lit "/bin/ls" ∷ [])
    ∷ []

groups_test :
    map (λ g. g.binaries) (build_workload_groups (λ a b. text_lt b a) profiles)
    ≡ (lit "/bin/sh" ∷ lit "/bin/ls" ∷ []) ∷ []
unfolding build_workload_groups lit ◌===◌ member text_lt
groups_test = refl

build_workload_groups-IsIn_example :
    All (λ p. IsIn p (build_workload_groups (λ a b. text_lt b a) profiles)) profiles
    × HasDistinctKeys (build_workload_groups (λ a b. text_lt b a) profiles)
build_workload_groups-IsIn_example = build_workload_groups-IsIn (λ a b. text_lt b a) profiles

abbrev polled : Poller
polled = record { seq = 2; cancelled = false; profiles = [] }

run_stale_example : (run (response 1 (some profiles) ∷ loading ∷ []) polled).profiles ≡ []
run_stale_example =
    run_stale 1 (response 1 (some profiles) ∷ loading ∷ []) polled (omega arith)
      (omega arith, (tt, tt))

-- Two answers, each of which takes as long as two rounds.
abbrev slow : List Action
slow = loading ∷ loading ∷ response 3 (some profiles) ∷ loading ∷ response 4 (some profiles) ∷ []
