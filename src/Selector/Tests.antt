-- ===== src/Selector/Tests.antt =====
-- Concrete runs of the line.
use k8s_sentinel.Base.{
  lit, ◌===◌, [], ◌∷◌, some, ◌≡◌, refl, ◌≤◌, ◌+◌, arith, length, List, true, false,
}
use k8s_sentinel.Selector.{
  Wanted, Found, Event, render, delay_over, answer, failure, same_key, mounted, run, line, selects,
  unavailable,
}
use k8s_sentinel.Selector.{is_failed, whole_cluster, count_line}
use k8s_sentinel.Selector.Settled.{answered-line}
use k8s_sentinel.Selector.Current.{Backed, run-line}

abbrev web_pods : Wanted
web_pods = record { namespace = lit "shop"; labels = (lit "app", lit "web") ∷ [] }

abbrev api_pods : Wanted
api_pods = record { namespace = []; labels = (lit "app", lit "api") ∷ [] }

abbrev one_pod : Found
one_pod = record { total = 1; pods = (lit "shop", lit "web-0") ∷ [] }

-- A request for other pods is in flight when the properties change: its answer is stale.
abbrev typing : List Event
typing =
    delay_over
    ∷ render web_pods
    ∷ delay_over
    ∷ answer 1 one_pod
    ∷ answer 0 (record { total = 7; pods = [] })
    ∷ []

typing-line :
    line (run typing (mounted api_pods)) ≡ selects true (lit "shop") 1 (lit "web-0" ∷ []) 0
unfolding line run mounted lit ◌===◌
typing-line = refl

-- The total counts at least the pods that are listed.
abbrev Counts : Wanted → Found → Type 0
Counts w d = length d.pods ≤ d.total

run-line_example :
    Backed Counts (run typing (mounted api_pods)).wanted (line (run typing (mounted api_pods)))
run-line_example =
    run-line Counts api_pods typing
      (tt, (tt, (tt, ((λ w e. omega arith), ((λ w e. omega arith), tt)))))

-- A selector whose query failed once stays marked, also when a later query for it is answered.
abbrev coming_back : List Event
coming_back =
    delay_over ∷ failure 0 ∷ render web_pods ∷ render api_pods ∷ delay_over ∷ answer 2 one_pod ∷ []

coming_back-line :
    ((run coming_back (mounted api_pods)).result ≡ some (api_pods, one_pod))
    × (line (run coming_back (mounted api_pods)) ≡ unavailable)
unfolding line run mounted lit ◌===◌
coming_back-line = (refl, refl)

other_pods : same_key web_pods (mounted api_pods).wanted ≡ false
unfolding same_key mounted lit ◌===◌
other_pods = refl

fresh_pods : is_failed (mounted api_pods).failed web_pods ≡ false
unfolding mounted
fresh_pods = refl

answered-line_example :
    line (
      run
        (render web_pods ∷ delay_over ∷ answer ((mounted api_pods).effect + 1) one_pod ∷ [])
        (mounted api_pods))
    ≡ count_line web_pods one_pod
unfolding whole_cluster
answered-line_example = answered-line (mounted api_pods) web_pods one_pod other_pods refl fresh_pods
