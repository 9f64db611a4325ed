-- ===== src/Admission/Tests.antt =====
-- A concrete run, and the theorem at it.
use k8s_sentinel.Base.{Text, lit, ◌===◌, List, [], ◌∷◌, none, some, ◌≡◌, refl}
use k8s_sentinel.Admission.{
  AdmissionEvent, initial, Action, opened, message, reconnected, retention, run, IsBounded,
  run-IsBounded,
}

abbrev event : Text → AdmissionEvent
event id = record {
  id = id;
  time = [];
  count = 1;
  namespace = [];
  involved_kind = [];
  involved_name = [];
  resource = [];
  name = [];
  operation = [];
  username = [];
  policy_name = [];
  binding_name = [];
  message = [];
  severity = lit "warning";
  source = lit "audit";
  raw_message = none;
}

abbrev actions : List Action
actions =
    reconnected (some 2)
    ∷ opened
    ∷ message (some (event (lit "a")))
    ∷ message (some (event (lit "b")))
    ∷ message (some (event (lit "a")))
    ∷ message (some (event (lit "c")))
    ∷ retention 1
    ∷ []

run_test : (run actions initial).events ≡ event (lit "c") ∷ []
unfolding run lit ◌===◌
run_test = refl

run-IsBounded_example : IsBounded (run actions initial)
run-IsBounded_example = run-IsBounded actions
