-- ===== src/Health/Sources.antt =====
-- pages/TetragonStatusPage.tsx: the state of each agent and of the Hubble stream, and what the page
-- keeps of the answers; of pages/DashboardPage.tsx, the count of agents whose stream is down.
use k8s_sentinel.Base.{
  Text, ℕ, ltb, lit, ◌===◌, is_empty, length, filter, if◌then◌else◌, ◌&&◌, ◌||◌, not, Bool, true,
  false, List, [], ◌∷◌, Option, none, some, or_else, ◌≡◌, refl, ap, ap₂,
}
use k8s_sentinel.Health.{IngestSource, is_not_detected, is_ingest_problem}

-- `TetragonAgent`, as far as its state goes.
pub record Agent : Type 0 where
  pub phase : Text
  pub ready : Bool
  pub ingest_observed : Bool
  pub ingest_connected : Bool

unfoldable pub stream_down : Agent → Bool
stream_down a =
    (a.phase === lit "Running") && a.ready && a.ingest_observed && not a.ingest_connected

unfoldable pub is_healthy : Agent → Bool
unfolding stream_down
is_healthy a = a.ready && (a.phase === lit "Running") && not (stream_down a)

-- `StatusBadge`
pub data Badge : Type 0 where
  phase_of : Text → Badge
  not_ready stream_is_down healthy : Badge

unfoldable pub status_badge : Agent → Badge
unfolding stream_down
status_badge a =
    if not (a.phase === lit "Running")
    then phase_of (if is_empty a.phase then lit "Unknown" else a.phase)
    else if not a.ready
    then not_ready
    else if stream_down a
    then stream_is_down
    else healthy

pub record HubbleState : Type 0 where
  pub label : Text
  pub down : Bool
  pub muted : Bool

abbrev not_measured : HubbleState
not_measured = record { label = lit "Not measured"; down = false; muted = true }

-- The state of the source, if there is one.
unfoldable pub hubble_state : Option IngestSource → HubbleState
unfolding is_not_detected
hubble_state none = not_measured
hubble_state (some h) =
    if h.connected
    then record { label = lit "Connected"; down = false; muted = false }
    else if is_not_detected h.last_error
    then record { label = lit "Not detected"; down = false; muted = true }
    else if ltb 0 h.consecutive_failures || not (is_empty (or_else h.last_error []))
    then record { label = lit "Stream down"; down = true; muted = false }
    else not_measured

-- The page's counts, and the dashboard's.
unfoldable pub healthy_count : List Agent → ℕ
unfolding is_healthy
healthy_count agents = length (filter is_healthy agents)

unfoldable pub stream_down_count : List Agent → ℕ
stream_down_count agents = length (
    filter
      (λ a. a.ready && (a.phase === lit "Running") && a.ingest_observed && not a.ingest_connected)
      agents)

pub record Page : Type 0 where
  pub agents : List Agent
  pub hubble : Option IngestSource
  pub loading : Bool
  pub error : Text

-- `load`, answered: the sources come with their kinds, or not at all, which leaves Hubble as it was.
abbrev pub find_hubble : List (Text × IngestSource) → Option IngestSource
find_hubble [] = none
find_hubble ((kind, s) ∷ rest) = if kind === lit "hubble" then some s else find_hubble rest

abbrev pub hubble_after :
    Option (List (Text × IngestSource)) → Option IngestSource → Option IngestSource
hubble_after none old = old
hubble_after (some sources) old = find_hubble sources

unfoldable pub load_succeeded :
    Option (List Agent) → Option (List (Text × IngestSource)) → Page → Page
load_succeeded agents sources p = record {
  agents = or_else agents [];
  hubble = hubble_after sources p.hubble;
  loading = false;
  error = [];
}

unfoldable pub load_failed : Option Text → Page → Page
load_failed message p = record p {
  error = or_else message (lit "Failed to load agent status");
  loading = false;
}

hubble_down :
    (connected undetected failed : Bool)
    → (if connected
        then record { label = lit "Connected"; down = false; muted = false }
        else if undetected
        then record { label = lit "Not detected"; down = false; muted = true }
        else if failed
        then record { label = lit "Stream down"; down = true; muted = false }
        else not_measured).down
      ≡ (not connected && failed && not undetected)
hubble_down true u f = refl
hubble_down false true true = refl
hubble_down false true false = refl
hubble_down false false true = refl
hubble_down false false false = refl

-- The page shows the Hubble stream as down exactly if the dashboard counts the source as a problem.
pub hubble_state-is_ingest_problem :
    (s : IngestSource) → (hubble_state (some s)).down ≡ is_ingest_problem s
unfolding hubble_state is_ingest_problem
hubble_state-is_ingest_problem s = hubble_down s.connected (is_not_detected s.last_error) _

abbrev says_healthy : Badge → Bool
says_healthy healthy = true
says_healthy _ = false

-- The agents that the page counts as healthy are those whose badge says so.
status_badge-is_healthy : (a : Agent) → says_healthy (status_badge a) ≡ is_healthy a
unfolding status_badge is_healthy
status_badge-is_healthy a = by (a.phase === lit "Running") a.ready (stream_down a)
  where
    by :
        (running ready down : Bool)
        → says_healthy (
            if not running
            then phase_of (if is_empty a.phase then lit "Unknown" else a.phase)
            else if not ready
            then not_ready
            else if down
            then stream_is_down
            else healthy)
          ≡ (ready && running && not down)
    by true true true = refl
    by true true false = refl
    by true false down = refl
    by false true down = refl
    by false false down = refl

filter_cong :
    (p q : Agent → Bool) → ((a : Agent) → p a ≡ q a) → (xs : List Agent) → filter p xs ≡ filter q xs
filter_cong p q e [] = refl
filter_cong p q e (x ∷ xs) = ap₂ (λ b l. if b then x ∷ l else l) (e x) (filter_cong p q e xs)

swapped : (a b c d : Bool) → (a && b && c && d) ≡ (b && a && c && d)
swapped true true c d = refl
swapped true false c d = refl
swapped false true c d = refl
swapped false false c d = refl

-- The dashboard counts as down the streams that the page shows as down.
stream_down_count-stream_down :
    (agents : List Agent) → stream_down_count agents ≡ length (filter stream_down agents)
unfolding stream_down_count stream_down
stream_down_count-stream_down agents = ap length (
    filter_cong _ stream_down
      (λ a. swapped a.ready (a.phase === lit "Running") a.ingest_observed (not a.ingest_connected))
      agents)
