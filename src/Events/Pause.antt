-- ===== src/Events/Pause.antt =====
-- pages/SecurityEventsPage.tsx: pausing the list, and the filters of the page.
use k8s_sentinel.Base.{
  Text, lit, trim, lower, includes, is_empty, length, filter, if◌then◌else◌, ◌==◌, ◌&&◌, ◌||◌, not,
  Bool, true, false, List, [], ◌∷◌, ◌++◌, length-append, All, Option, none, some, or_else, ℕ, zero,
  suc, ◌+◌, ◌≡◌, refl, arith, ap, subst, ◌∙◌, sym,
}
use k8s_sentinel.Events.{DisplayEvent, has_id}
use k8s_sentinel.Filters.{matches_filter, matches_scope_filter}
use k8s_sentinel.Export.{rule_type, rule_name}

-- `paused`, `pendingCount`, `pendingRef`, `prevLengthRef` and `displayEvents`.
pub record Page : Type 0 where
  pub paused : Bool
  pub pending_count : ℕ
  pub pending : List DisplayEvent
  pub prev_length : ℕ
  pub display : List DisplayEvent

unfoldable pub new_ones : List DisplayEvent → List DisplayEvent → List DisplayEvent
unfolding has_id
new_ones all_events display = filter (λ e. not (has_id e.id display)) all_events

unfoldable pub collect : List DisplayEvent → Page → Page
unfolding new_ones
collect all_events p = if length all_events == p.prev_length then p else record p {
  pending = new_ones all_events p.display ++ p.pending;
  pending_count = length (new_ones all_events p.display ++ p.pending);
  prev_length = length all_events;
}

-- The effect that runs when the events of the provider or `paused` changed.
unfoldable pub observe : List DisplayEvent → Page → Page
unfolding collect
observe all_events p =
    if p.paused
    then collect all_events p
    else record p { display = all_events; prev_length = length all_events }

unfoldable pub toggle_pause : List DisplayEvent → Page → Page
toggle_pause all_events p =
    if p.paused
    then record p { paused = false; pending = []; pending_count = 0; display = all_events }
    else record p { paused = true }

-- `events`
unfoldable pub shown : List DisplayEvent → Page → List DisplayEvent
shown all_events p = if p.paused then p.display else all_events

-- What the page's filters ask for.
pub record Wanted : Type 0 where
  pub severities : List Text
  pub rule_types : List Text
  pub namespaces : List Text
  pub pod_search : Text

-- `ruleType(e.function ?? '')`, as the text that is compared.
abbrev pub type_key : DisplayEvent → Option Text
type_key e = elim (rule_type (or_else e.function [])) [
  | none ↦ none
  | some t ↦ some (rule_name (some t))
]

unfoldable pub passes : Wanted → DisplayEvent → Bool
unfolding matches_filter matches_scope_filter trim lower includes
passes w e =
    matches_filter w.severities (some e.severity)
    && matches_filter w.rule_types (type_key e)
    && matches_scope_filter (lit "namespaced") (some e.namespace) w.namespaces
    && (is_empty (trim w.pod_search) || includes (lower e.pod) (lower (trim w.pod_search)))

unfoldable pub filtered : Wanted → List DisplayEvent → List DisplayEvent
unfolding passes
filtered w events = filter (passes w) events

-- The effect after each of several events arrived, the newest first, in front of those that were there.
unfoldable pub arrive : List DisplayEvent → List DisplayEvent → Page → Page
unfolding observe
arrive before [] p = p
arrive before (e ∷ es) p = observe (e ∷ es ++ before) (arrive before es p)

abbrev pub IsShown : List DisplayEvent → DisplayEvent → Type 0
IsShown display e = has_id e.id display ≡ true

abbrev pub IsNew : List DisplayEvent → DisplayEvent → Type 0
IsNew display e = has_id e.id display ≡ false

-- 1 + 2 + ... + n
abbrev pub triangle : ℕ → ℕ
triangle zero = 0
triangle (suc n) = suc n + triangle n

filter_shown :
    (display es : List DisplayEvent)
    → All (IsShown display) es
    → filter (λ e. not (has_id e.id display)) es ≡ []
filter_shown display [] h = refl
filter_shown display (e ∷ es) (h, hs) = rw h (filter_shown display es hs)

filter_new :
    (display es before : List DisplayEvent)
    → All (IsNew display) es
    → All (IsShown display) before
    → filter (λ e. not (has_id e.id display)) (es ++ before) ≡ es
filter_new display [] before h k = filter_shown display before k
filter_new display (e ∷ es) before (h, hs) k = rw h (ap (◌∷◌ e) (filter_new display es before hs k))

-- The state after the arrivals.
record Counted (before es : List DisplayEvent) (p q : Page) : Type 0 where
  paused : q.paused ≡ true
  display : q.display ≡ p.display
  prev_length : q.prev_length ≡ length es + length before
  pending : length q.pending ≡ triangle (length es)
  count : q.pending_count ≡ length q.pending

new_ones-IsNew :
    (before es : List DisplayEvent) (p q : Page)
    → q.display ≡ p.display
    → All (IsNew p.display) es
    → All (IsShown p.display) before
    → new_ones (es ++ before) q.display ≡ es
unfolding new_ones
new_ones-IsNew before es p q same new old = rw same (filter_new p.display es before new old)

length-differs :
    (e : DisplayEvent) (es before : List DisplayEvent) (n : ℕ)
    → n ≡ length es + length before
    → (length (e ∷ es ++ before) == n) ≡ false
length-differs e es before n h = ground (arith, length-append es before)

observe-paused :
    (all_events : List DisplayEvent) (q : Page)
    → q.paused ≡ true
    → (length all_events == q.prev_length) ≡ false
    → observe all_events q ≡ record q {
      pending = new_ones all_events q.display ++ q.pending;
      pending_count = length (new_ones all_events q.display ++ q.pending);
      prev_length = length all_events;
    }
unfolding observe
observe-paused all_events q paused longer = rw (paused, longer) refl

observe-Counted :
    (e : DisplayEvent) (es before : List DisplayEvent) (p q : Page)
    → All (IsNew p.display) (e ∷ es)
    → All (IsShown p.display) before
    → Counted before es p q
    → Counted before (e ∷ es) p (observe (e ∷ es ++ before) q)
observe-Counted e es before p q new old c =
    let fresh = new_ones-IsNew before (e ∷ es) p q c.display new old in
    subst (Counted before (e ∷ es) p)
      (sym (
        observe-paused (e ∷ es ++ before) q c.paused
          (length-differs e es before q.prev_length c.prev_length)))
      (record {
        paused = c.paused;
        display = c.display;
        prev_length = omega (arith, length-append es before);
        pending =
            ap (λ l. length (l ++ q.pending)) fresh
            ∙ omega (arith, length-append es q.pending, c.pending);
        count = refl;
      })

arrive-Counted :
    (before es : List DisplayEvent) (p : Page)
    → p.paused ≡ true
    → p.prev_length ≡ length before
    → p.pending ≡ []
    → p.pending_count ≡ 0
    → All (IsShown p.display) before
    → All (IsNew p.display) es
    → Counted before es p (arrive before es p)
unfolding arrive
arrive-Counted before [] p paused prev none_yet zero_yet old new = record {
  paused = paused;
  display = refl;
  prev_length = omega (arith, prev);
  pending = ap length none_yet;
  count = zero_yet ∙ sym (ap length none_yet);
}
arrive-Counted before (e ∷ es) p paused prev none_yet zero_yet old (n, new) =
    observe-Counted e es before p (arrive before es p) (n, new) old
      (arrive-Counted before es p paused prev none_yet zero_yet old new)

-- Pausing keeps the list still and resuming loses nothing. While the list is paused and new events
-- arrive one by one, the events that are shown stay those at the pause; when it is resumed, all events
-- of the provider are shown, and the count is zero.
pub arrive-shown :
    (before es : List DisplayEvent) (p : Page)
    → p.paused ≡ true
    → p.prev_length ≡ length before
    → p.pending ≡ []
    → p.pending_count ≡ 0
    → All (IsShown p.display) before
    → All (IsNew p.display) es
    → (shown (es ++ before) (arrive before es p) ≡ p.display)
      × (shown (es ++ before) (toggle_pause (es ++ before) (arrive before es p)) ≡ es ++ before)
      × ((toggle_pause (es ++ before) (arrive before es p)).pending_count ≡ 0)
unfolding shown toggle_pause
arrive-shown before es p paused prev none_yet zero_yet old new =
    let c = arrive-Counted before es p paused prev none_yet zero_yet old new in
    (rw c.paused c.display, rw c.paused refl, rw c.paused refl)
