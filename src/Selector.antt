-- ===== src/Selector.antt =====
-- components/SelectorPreview.tsx: the line below a selector that says which pods it selects now. The
-- component is a state, and what can happen to it an event: new properties, the end of the delay, an
-- answer of the API. Each run of the effect has a number; those before the last are stale.
pub mod Current
pub mod Settled
mod Tests
use k8s_sentinel.Base.{
  Text, ℕ, ◌+◌, ◌-◌, ltb, ◌==◌, lit, ◌===◌, is_empty, length, take, not, ◌&&◌, Bool, true, false,
  List, [], ◌∷◌, ◌++◌, map, Object, Option, none, some, if◌then◌else◌,
}

-- What is asked for. The namespace is empty for all of them.
pub record Wanted : Type 0 where
  pub namespace : Text
  pub labels : Object Text

-- `SelectorPreviewResult`, each pod with its namespace and its name.
pub record Found : Type 0 where
  pub total : ℕ
  pub pods : List (Text × Text)

abbrev pub same_labels : Object Text → Object Text → Bool
same_labels [] [] = true
same_labels ((j, v) ∷ o) ((k, w) ∷ u) = (j === k) && (v === w) && same_labels o u
same_labels _ _ = false

-- Whether two requests have one `key`: a namespace has no NUL, behind which the key has the labels.
unfoldable pub same_key : Wanted → Wanted → Bool
same_key a b = (a.namespace === b.namespace) && same_labels a.labels b.labels

-- `wholeCluster`
unfoldable pub whole_cluster : Wanted → Bool
whole_cluster w = is_empty w.labels && is_empty w.namespace

pub record State : Type 0 where
  pub wanted : Wanted
  pub result : Option (Wanted × Found)
  pub failed : Option Wanted
  pub rendered : Bool
  pub effect : ℕ
  pub waiting : Option ℕ
  pub flying : List (ℕ × Wanted)

-- The effect: a request after a delay, which is for typing only.
unfoldable pub run_effect : State → State
unfolding whole_cluster
run_effect s =
    if whole_cluster s.wanted
    then s
    else record s { waiting = some (if s.rendered then 400 else 0); rendered = true }

-- The state before the effect.
abbrev pub initial : Wanted → State
initial w = record {
  wanted = w;
  result = none;
  failed = none;
  rendered = false;
  effect = 0;
  waiting = none;
  flying = [];
}

unfoldable pub mounted : Wanted → State
unfolding run_effect
mounted w = run_effect (initial w)

pub data Event : Type 0 where
  render : Wanted → Event
  delay_over : Event
  answer : ℕ → Found → Event
  failure : ℕ → Event

-- The request of a run of the effect, if it is in flight.
abbrev pub request_of : ℕ → List (ℕ × Wanted) → Option Wanted
request_of n [] = none
request_of n ((m, w) ∷ rest) = if m == n then some w else request_of n rest

abbrev pub landed : ℕ → List (ℕ × Wanted) → List (ℕ × Wanted)
landed n [] = []
landed n ((m, w) ∷ rest) = if m == n then rest else (m, w) ∷ landed n rest

abbrev pub send_wanted : Option ℕ → State → State
send_wanted none s = s
send_wanted (some ms) s = record s { waiting = none; flying = (s.effect, s.wanted) ∷ s.flying }

-- `if (!stale) setResult({ key, data: r })`
abbrev pub take_answer : ℕ → Found → Option Wanted → State → State
take_answer n d none s = s
take_answer n d (some w) s =
    let landed = record s { flying = landed n s.flying } in
    if n == s.effect then record landed { result = some (w, d) } else landed

abbrev pub take_failure : ℕ → Option Wanted → State → State
take_failure n none s = s
take_failure n (some w) s =
    let landed = record s { flying = landed n s.flying } in
    if n == s.effect then record landed { failed = some w } else landed

-- Other properties with another key clean up the effect and run it again.
unfoldable pub step : Event → State → State
unfolding same_key run_effect
step (render w) s =
    if same_key w s.wanted
    then record s { wanted = w }
    else run_effect (record s { wanted = w; effect = s.effect + 1; waiting = none })
step delay_over s = send_wanted s.waiting s
step (answer n d) s = take_answer n d (request_of n s.flying) s
step (failure n) s = take_failure n (request_of n s.flying) s

unfoldable pub run : List Event → State → State
unfolding step
run [] s = s
run (e ∷ es) s = run es (step e s)

-- What is shown: nothing before an answer for what is wanted now, then how many pods, the first names
-- and how many are not named.
pub data Line : Type 0 where
  every_pod unavailable blank : Line
  selects_none : Text → Line
  selects : Bool → Text → ℕ → List Text → ℕ → Line

abbrev pub name_of : Text → Text × Text → Text
name_of ns (pod_ns, name) = if is_empty ns then pod_ns ++ lit "/" ++ name else name

abbrev pub at_most_five : ℕ → ℕ
at_most_five n = if ltb n 5 then n else 5

abbrev pub count_line : Wanted → Found → Line
count_line w d =
    if d.total == 0
    then selects_none w.namespace
    else selects (not (is_empty w.labels)) w.namespace d.total
        (take 5 (map (name_of w.namespace) d.pods)) (d.total - at_most_five (length d.pods))

abbrev pub result_line : Wanted → Option (Wanted × Found) → Line
result_line w none = blank
result_line w (some (k, d)) = if same_key k w then count_line w d else blank

abbrev pub is_failed : Option Wanted → Wanted → Bool
is_failed none w = false
is_failed (some k) w = same_key k w

unfoldable pub line : State → Line
unfolding whole_cluster same_key
line s =
    if whole_cluster s.wanted
    then every_pod
    else if is_failed s.failed s.wanted
    then unavailable
    else result_line s.wanted s.result
