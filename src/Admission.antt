-- ===== src/Admission.antt =====
-- layout/AdmissionEventsProvider.tsx: the list of admission events that the event stream feeds, its
-- cap and the connection.
mod Tests
use k8s_sentinel.Base.{
  Text, ◌===◌, ===_iff, ltb, if◌then◌else◌, Bool, true, false, Bool-cases, List, [], ◌∷◌, any, take,
  length, length-take-le, Option, none, some, ℕ, zero, suc, ◌+◌, ◌≤◌, ◌≡◌, refl, inl, inr, arith,
}

-- A severity and a source are the texts that the source's type lists; the provider reads the id only.
pub record AdmissionEvent : Type 0 where
  pub id : Text
  pub time : Text
  pub count : ℕ
  pub namespace : Text
  pub involved_kind : Text
  pub involved_name : Text
  pub resource : Text
  pub name : Text
  pub operation : Text
  pub username : Text
  pub policy_name : Text
  pub binding_name : Text
  pub message : Text
  pub severity : Text
  pub source : Text
  pub raw_message : Option Text

-- `events`, `connected`, `maxEvents`, `capRef` and whether `esRef` holds an open stream.
pub record Provider : Type 0 where
  pub events : List AdmissionEvent
  pub connected : Bool
  pub max_events : ℕ
  pub cap : ℕ
  pub streaming : Bool

abbrev pub has_id : Text → List AdmissionEvent → Bool
has_id id = any (λ x. x.id === id)

unfoldable pub receive : ℕ → AdmissionEvent → List AdmissionEvent → List AdmissionEvent
receive cap evt prev = if has_id evt.id prev then prev else take cap (evt ∷ prev)

unfoldable pub start_sse : Provider → Provider
start_sse p = record p { events = []; connected = false; streaming = true }

unfoldable pub on_open : Provider → Provider
on_open p = record p { connected = true }

unfoldable pub on_message : Option AdmissionEvent → Provider → Provider
unfolding receive
on_message none p = p
on_message (some evt) p = record p { events = receive p.cap evt p.events }

unfoldable pub on_error : Provider → Provider
on_error p = record p { connected = false }

-- `reconnect`, and the effect at mount.
unfoldable pub reconnect : Option ℕ → Provider → Provider
unfolding start_sse
reconnect none p = start_sse p
reconnect (some n) p = start_sse (record p { cap = n; max_events = n })

unfoldable pub apply_retention : ℕ → Provider → Provider
apply_retention n p = record p {
  cap = n;
  max_events = n;
  events = if ltb n (length p.events) then take n p.events else p.events;
}

abbrev pub initial : Provider
initial = record { events = []; connected = false; max_events = 500; cap = 500; streaming = false }

pub data Action : Type 0 where
  opened failed unmounted : Action
  message : Option AdmissionEvent → Action
  reconnected : Option ℕ → Action
  retention : ℕ → Action

unfoldable pub step : Action → Provider → Provider
unfolding on_open on_message on_error reconnect apply_retention
step opened p = if p.streaming then on_open p else p
step failed p = if p.streaming then on_error p else p
step unmounted p = record p { streaming = false }
step (message m) p = if p.streaming then on_message m p else p
step (reconnected n) p = reconnect n p
step (retention n) p = apply_retention n p

unfoldable pub run : List Action → Provider → Provider
unfolding step
run [] p = p
run (a ∷ as') p = run as' (step a p)

abbrev pub HasDistinctIds : List AdmissionEvent → Type 0
HasDistinctIds [] = Unit
HasDistinctIds (e ∷ es) = (has_id e.id es ≡ false) × HasDistinctIds es

has_id-take :
    (id : Text) (n : ℕ) (es : List AdmissionEvent)
    → has_id id es ≡ false
    → has_id id (take n es) ≡ false
has_id-take id zero es h = refl
has_id-take id (suc n) [] h = refl
has_id-take id (suc n) (e ∷ es) h = ground (arith, has_id-take id n es)

take-HasDistinctIds :
    (n : ℕ) (es : List AdmissionEvent) → HasDistinctIds es → HasDistinctIds (take n es)
take-HasDistinctIds zero es h = tt
take-HasDistinctIds (suc n) [] h = tt
take-HasDistinctIds (suc n) (e ∷ es) (new, h) =
    (has_id-take e.id n es new, take-HasDistinctIds n es h)

-- The cap that a message sees is the one that the page shows.
pub record IsBounded (p : Provider) : Type 0 where
  pub distinct : HasDistinctIds p.events
  pub bounded : length p.events ≤ p.cap
  pub shown : p.max_events ≡ p.cap

if-IsBounded :
    (t : Bool) (p q : Provider) → IsBounded p → IsBounded q → IsBounded (if t then p else q)
if-IsBounded true p q vp vq = vp
if-IsBounded false p q vp vq = vq

on_message-IsBounded :
    (m : Option AdmissionEvent) (p : Provider) → IsBounded p → IsBounded (on_message m p)
unfolding on_message receive
on_message-IsBounded none p v = v
on_message-IsBounded (some evt) p v = elim (Bool-cases (has_id evt.id p.events)) [
  | inl old ↦ rw old (record { distinct = v.distinct; bounded = v.bounded; shown = v.shown })
  | inr new ↦ rw new (record {
    distinct = take-HasDistinctIds p.cap (evt ∷ p.events) (new, v.distinct);
    bounded = length-take-le p.cap (evt ∷ p.events);
    shown = v.shown;
  })
]

apply_retention-IsBounded : (n : ℕ) (p : Provider) → IsBounded p → IsBounded (apply_retention n p)
unfolding apply_retention
apply_retention-IsBounded n p v = elim (Bool-cases (ltb n (length p.events))) [
  | inl over ↦ rw over (record {
    distinct = take-HasDistinctIds n p.events v.distinct;
    bounded = length-take-le n p.events;
    shown = refl;
  })
  | inr fits ↦ rw fits (record { distinct = v.distinct; bounded = ground arith; shown = refl })
]

step-IsBounded : (a : Action) (p : Provider) → IsBounded p → IsBounded (step a p)
unfolding step
step-IsBounded opened p v =
    if-IsBounded p.streaming _ p
      (record { distinct = v.distinct; bounded = v.bounded; shown = v.shown }) v
step-IsBounded failed p v =
    if-IsBounded p.streaming _ p
      (record { distinct = v.distinct; bounded = v.bounded; shown = v.shown }) v
step-IsBounded unmounted p v = record {
  distinct = v.distinct;
  bounded = v.bounded;
  shown = v.shown;
}
step-IsBounded (message m) p v =
    if-IsBounded p.streaming (on_message m p) p (on_message-IsBounded m p v) v
step-IsBounded (reconnected none) p v = record {
  distinct = tt;
  bounded = omega arith;
  shown = v.shown;
}
step-IsBounded (reconnected (some n)) p v = record {
  distinct = tt;
  bounded = omega arith;
  shown = refl;
}
step-IsBounded (retention n) p v = apply_retention-IsBounded n p v

run-IsBounded_from : (as' : List Action) (p : Provider) → IsBounded p → IsBounded (run as' p)
unfolding run
run-IsBounded_from [] p v = v
run-IsBounded_from (a ∷ as') p v = run-IsBounded_from as' (step a p) (step-IsBounded a p v)

-- After any sequence of messages, reconnections, failures and changes of the cap, no two admission
-- events have one id, there are no more than the cap, and the cap in use is the one that is shown.
pub run-IsBounded : (as' : List Action) → IsBounded (run as' initial)
run-IsBounded as' =
    run-IsBounded_from as' initial (record { distinct = tt; bounded = omega arith; shown = refl })
