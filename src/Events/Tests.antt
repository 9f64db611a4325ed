-- ===== src/Events/Tests.antt =====
-- Concrete events, and the theorems at them.
use k8s_sentinel.Base.{Text, lit, ◌===◌, [], ◌∷◌, true, none, some, ◌≡◌, refl, filter, take}
use k8s_sentinel.Events.{
  DisplayEvent, Caps, is_critical, is_warning, retain, has_id, receive, initial, opened, message,
  reconnected, run,
}
use k8s_sentinel.Events.Pause.{Page, arrive, shown, toggle_pause, arrive-shown}
use k8s_sentinel.Events.Retention.{retain-take}
use k8s_sentinel.Events.Invariant.{IsValid, run-IsValid}

provider : Unit {0}
unfolding lit ◌===◌ retain receive run is_critical is_warning has_id
provider = tt

abbrev event : Text → Text → DisplayEvent
event id severity = record {
  id = id;
  time = [];
  count = 1;
  severity = severity;
  namespace = [];
  pod = [];
  container = none;
  node_name = none;
  binary = none;
  arguments = none;
  parent_bin = none;
  function = none;
  hook = none;
  policy_name = none;
  action = none;
  process_uid = none;
  file_path = none;
  file_op = none;
  net_dest = none;
  net_src = none;
  drop_reason = none;
}

abbrev first : DisplayEvent
first = event (lit "1") (lit "critical")

abbrev second : DisplayEvent
second = event (lit "2") (lit "warning")

abbrev third : DisplayEvent
third = event (lit "3") (lit "critical")

abbrev small : Caps
small = record { max_warnings = 2; max_criticals = 1 }

retain_test : retain small (third ∷ second ∷ first ∷ []) ≡ third ∷ second ∷ []
unfolding provider
retain_test = refl

run_test :
    (run
      (reconnected (some small)
        ∷ opened
        ∷ message (some first)
        ∷ message none
        ∷ message (some second)
        ∷ message (some third)
        ∷ [])
      initial).events
    ≡ third ∷ second ∷ []
unfolding provider
run_test = refl

retain-take_example :
    (filter is_critical (retain small (third ∷ first ∷ []))
      ≡ take 1 (filter is_critical (third ∷ first ∷ [])))
    × (filter is_warning (retain small (third ∷ first ∷ []))
        ≡ take 2 (filter is_warning (third ∷ first ∷ [])))
retain-take_example = retain-take small (third ∷ first ∷ [])

run-IsValid_example : IsValid (run (reconnected (some small) ∷ message (some first) ∷ []) initial)
run-IsValid_example = run-IsValid (reconnected (some small) ∷ message (some first) ∷ [])

-- Paused with one event shown; then two arrive.
abbrev paused_page : Page
paused_page = record {
  paused = true;
  pending_count = 0;
  pending = [];
  prev_length = 1;
  display = first ∷ [];
}

arrive-shown_example :
    (shown (third ∷ second ∷ first ∷ []) (arrive (first ∷ []) (third ∷ second ∷ []) paused_page)
      ≡ first ∷ [])
    × (shown (third ∷ second ∷ first ∷ []) (
          toggle_pause
            (third ∷ second ∷ first ∷ [])
            (arrive (first ∷ []) (third ∷ second ∷ []) paused_page))
        ≡ third ∷ second ∷ first ∷ [])
    × ((toggle_pause
          (third ∷ second ∷ first ∷ [])
          (arrive (first ∷ []) (third ∷ second ∷ []) paused_page)).pending_count
        ≡ 0)
unfolding has_id lit ◌===◌
arrive-shown_example =
    arrive-shown (first ∷ []) (third ∷ second ∷ []) paused_page refl refl refl refl (refl, tt)
      (refl, (refl, tt))
