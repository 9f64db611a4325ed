-- ===== src/Events.antt =====
-- layout/SecurityEventsProvider.tsx: the list of security events that the event stream feeds, its
-- two caps and the connection, with the operations of the provider as functions on its state.
pub mod Retention
pub mod Invariant
pub mod Pause
mod Tests
use k8s_sentinel.Base.{
  Text, lit, ◌===◌, ltb, if◌then◌else◌, ◌&&◌, Bool, true, false, List, [], ◌∷◌, map, any, Option,
  none, some, ℕ, ◌+◌,
}

pub record DisplayEvent : Type 0 where
  pub id : Text
  pub time : Text
  pub count : ℕ
  pub severity : Text
  pub namespace : Text
  pub pod : Text
  pub container : Option Text
  pub node_name : Option Text
  pub binary : Option Text
  pub arguments : Option Text
  pub parent_bin : Option Text
  pub function : Option Text
  pub hook : Option Text
  pub policy_name : Option Text
  pub action : Option Text
  pub process_uid : Option ℕ
  pub file_path : Option Text
  pub file_op : Option Text
  pub net_dest : Option Text
  pub net_src : Option Text
  pub drop_reason : Option Text

pub record Caps : Type 0 where
  pub max_warnings : ℕ
  pub max_criticals : ℕ

-- `events`, `connected`, `capRef` and whether `esRef` holds an open stream.
pub record Provider : Type 0 where
  pub events : List DisplayEvent
  pub connected : Bool
  pub caps : Caps
  pub streaming : Bool

unfoldable pub is_critical : DisplayEvent → Bool
is_critical e = e.severity === lit "critical"

unfoldable pub is_warning : DisplayEvent → Bool
is_warning e = e.severity === lit "warning"

-- The filter with its counters `warn` and `crit`.
unfoldable pub retain_from : Caps → ℕ → ℕ → List DisplayEvent → List DisplayEvent
retain_from caps warn crit [] = []
retain_from caps warn crit (e ∷ es) =
    let keep_critical = e ∷ retain_from caps warn (crit + 1) es in
    let keep_warning = e ∷ retain_from caps (warn + 1) crit es in
    let drop = retain_from caps warn crit es in
    if is_critical e && ltb crit caps.max_criticals
    then keep_critical
    else if is_warning e && ltb warn caps.max_warnings
    then keep_warning
    else drop

unfoldable pub retain : Caps → List DisplayEvent → List DisplayEvent
unfolding retain_from
retain caps es = retain_from caps 0 0 es

unfoldable pub has_id : Text → List DisplayEvent → Bool
has_id id = any (λ x. x.id === id)

unfoldable pub refresh : DisplayEvent → DisplayEvent → DisplayEvent
refresh evt x = if x.id === evt.id then record x { count = evt.count; time = evt.time } else x

-- What a message does to the events: a known event is refreshed, a new one is put in front.
unfoldable pub receive : Caps → DisplayEvent → List DisplayEvent → List DisplayEvent
unfolding retain has_id refresh
receive caps evt prev =
    if has_id evt.id prev then map (refresh evt) prev else retain caps (evt ∷ prev)

unfoldable pub start_sse : Provider → Provider
start_sse p = record p { events = []; connected = false; streaming = true }

unfoldable pub on_open : Provider → Provider
on_open p = record p { connected = true }

-- A message that JSON.parse refuses is `none`, and is ignored.
unfoldable pub on_message : Option DisplayEvent → Provider → Provider
unfolding receive
on_message none p = p
on_message (some evt) p = record p { events = receive p.caps evt p.events }

unfoldable pub on_error : Provider → Provider
on_error p = record p { connected = false }

-- `reconnect`, and the effect at mount: the caps that the API returned, if it did, then the stream.
unfoldable pub reconnect : Option Caps → Provider → Provider
unfolding start_sse
reconnect none p = start_sse p
reconnect (some caps) p = start_sse (record p { caps = caps })

unfoldable pub apply_retention : Caps → Provider → Provider
unfolding retain
apply_retention caps p = record p { caps = caps; events = retain caps p.events }

unfoldable pub unmount : Provider → Provider
unmount p = record p { streaming = false }

abbrev pub initial : Provider
initial = record {
  events = [];
  connected = false;
  caps = record { max_warnings = 500; max_criticals = 300 };
  streaming = false;
}

-- What can happen to the provider. Handlers of a stream run only while it is open.
pub data Action : Type 0 where
  opened failed unmounted : Action
  message : Option DisplayEvent → Action
  reconnected : Option Caps → Action
  retention : Caps → Action

unfoldable pub step : Action → Provider → Provider
unfolding on_open on_message on_error reconnect apply_retention unmount
step opened p = if p.streaming then on_open p else p
step failed p = if p.streaming then on_error p else p
step unmounted p = unmount p
step (message m) p = if p.streaming then on_message m p else p
step (reconnected caps) p = reconnect caps p
step (retention caps) p = apply_retention caps p

unfoldable pub run : List Action → Provider → Provider
unfolding step
run [] p = p
run (a ∷ as') p = run as' (step a p)
