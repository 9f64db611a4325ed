-- ===== src/Alerts.antt =====
-- pages/AlertsPage.tsx: the form of an alert rule, and the page with its handlers. A handler that waits
-- for the API is two functions: what it does before the call, and what it does with the answer.
pub mod Names
mod Tests
pub use k8s_sentinel.Toasts.{Toast, success, failure}
use k8s_sentinel.Base.{
  Text, ℕ, lit, ◌===◌, trim, split, join, member, is_empty, filter, not, ◌&&◌, ◌||◌, Bool, true,
  false, List, [], ◌∷◌, ◌++◌, map, Option, none, some, if◌then◌else◌,
}

-- An `AlertRule` without its id.
pub record Rule : Type 0 where
  pub name : Text
  pub webhook_url : Text
  pub event_types : List Text
  pub severities : List Text
  pub namespaces : List Text
  pub policies : List Text
  pub cooldown_min : ℕ
  pub enabled : Bool

abbrev pub empty_rule : Rule
empty_rule = record {
  name = [];
  webhook_url = [];
  event_types = lit "security" ∷ lit "admission" ∷ [];
  severities = lit "warning" ∷ lit "critical" ∷ [];
  namespaces = [];
  policies = [];
  cooldown_min = 5;
  enabled = true;
}

-- `text.split(',').map(s => s.trim()).filter(Boolean)`
unfoldable pub names_of : Text → List Text
unfolding split trim
names_of text = filter (λ s. not (is_empty s)) (map trim (split b',' text))

-- What the field shows of the names: `names.join(',')`.
unfoldable pub shown : List Text → Text
unfolding join
shown names = join (lit ",") names

-- A key that is pressed at the end of a field of names.
unfoldable pub press : ℕ → List Text → List Text
unfolding names_of shown
press key names = names_of (shown names ++ key ∷ [])

unfoldable pub toggled : Text → List Text → List Text
unfolding member
toggled s xs = if member s xs then filter (λ x. not (x === s)) xs else xs ++ s ∷ []

-- What the fields of the form change. The number of the cooldown is given as it is read, 0 for none.
pub data Edit : Type 0 where
  set_name set_webhook_url toggle_severity toggle_event_type : Text → Edit
  write_namespaces write_policies : Text → Edit
  set_cooldown_min : ℕ → Edit

unfoldable pub edit_rule : Edit → Rule → Rule
unfolding toggled names_of
edit_rule (set_name t) r = record r { name = t }
edit_rule (set_webhook_url t) r = record r { webhook_url = t }
edit_rule (toggle_severity s) r = record r { severities = toggled s r.severities }
edit_rule (toggle_event_type t) r = record r { event_types = toggled t r.event_types }
edit_rule (write_namespaces t) r = record r { namespaces = names_of t }
edit_rule (write_policies t) r = record r { policies = names_of t }
edit_rule (set_cooldown_min n) r = record r { cooldown_min = n }

unfoldable pub can_save : Bool → Rule → Bool
unfolding trim
can_save saving r = not (saving || is_empty (trim r.name) || is_empty (trim r.webhook_url))

pub data Request : Type 0 where
  create : Rule → Request
  update : Text → Rule → Request
  delete : Text → Request
  test : Text → Request

pub data Route : Type 0 where
  list new : Route
  edit : Text → Route

-- The rules are kept with their ids.
pub record Page : Type 0 where
  pub rules : List (Text × Rule)
  pub loaded : Bool
  pub delete_target : Option (Text × Rule)
  pub saving : Bool
  pub testing : Option Text
  pub route : Route
  pub toasts : List Toast
  pub sent : List Request

abbrev pub tell : Toast → Page → Page
tell t p = record p { toasts = t ∷ p.toasts }

abbrev pub send : Request → Page → Page
send r p = record p { sent = r ∷ p.sent }

abbrev pub find_rule : Text → List (Text × Rule) → Option (Text × Rule)
find_rule id [] = none
find_rule id ((i, r) ∷ rest) = if i === id then some (i, r) else find_rule id rest

abbrev pub target_of : Route → List (Text × Rule) → Option (Text × Rule)
target_of list rules = none
target_of new rules = none
target_of (edit id) rules = find_rule id rules

abbrev pub is_edit : Route → Bool
is_edit (edit id) = true
is_edit _ = false

abbrev pub is_missing : Option (Text × Rule) → Bool
is_missing none = true
is_missing (some r) = false

-- The effect after each change of the address or of the rules: a rule that is gone goes back.
unfoldable pub leave_missing : Page → Page
leave_missing p =
    if is_edit p.route && p.loaded && is_missing (target_of p.route p.rules)
    then record (tell (failure (lit "That alert rule no longer exists.")) p) { route = list }
    else p

unfoldable pub load_succeeded : List (Text × Rule) → Page → Page
unfolding leave_missing
load_succeeded rules p = leave_missing (record p { rules = rules; loaded = true })

-- `onSave`: an update where the address names a rule, a create at the address of a new one.
abbrev pub save_target : Option (Text × Rule) → Rule → Page → Page
save_target none r p = send (create r) (record p { saving = true })
save_target (some (id, old)) r p = send (update id r) (record p { saving = true })

unfoldable pub save_rule : Rule → Page → Page
save_rule r p =
    if is_edit p.route && is_missing (target_of p.route p.rules)
    then p
    else save_target (target_of p.route p.rules) r p

unfoldable pub save_succeeded : Bool → Page → Page
save_succeeded updated p =
    record (tell
      (success (if updated then lit "Alert rule updated." else lit "Alert rule created.")) p) {
        route = list;
        saving = false;
      }

unfoldable pub save_failed : Bool → Page → Page
save_failed updated p =
    record (tell
      (failure
        (if updated then lit "Failed to update alert rule" else lit "Failed to create alert rule"))
      p) { saving = false }

unfoldable pub handle_toggle : Text × Rule → Page → Page
handle_toggle (id, r) p = send (update id (record r { enabled = not r.enabled })) p

abbrev pub toggle_failed : Page → Page
toggle_failed p = tell (failure (lit "Failed to toggle rule")) p

abbrev pub send_delete : Option (Text × Rule) → Page → Page
send_delete none p = p
send_delete (some (id, r)) p = send (delete id) p

unfoldable pub handle_delete : Page → Page
handle_delete p = send_delete p.delete_target p

unfoldable pub delete_succeeded : Page → Page
delete_succeeded p = record (tell (success (lit "Alert rule deleted.")) p) { delete_target = none }

abbrev pub delete_failed : Page → Page
delete_failed p = tell (failure (lit "Failed to delete alert rule")) p

unfoldable pub handle_test : Text × Rule → Page → Page
handle_test (id, r) p = send (test r.webhook_url) (record p { testing = some id })

unfoldable pub test_answered : Toast → Page → Page
test_answered t p = record (tell t p) { testing = none }
