-- ===== src/Events/Invariant.antt =====
-- What holds of the provider whatever happens to it.
use k8s_sentinel.Base.{
  Text, lit, ◌===◌, ltb, if◌then◌else◌, ◌&&◌, Bool, true, false, Bool-cases, List, [], ◌∷◌, map,
  filter, length, length-take-le, ℕ, ◌+◌, ◌≤◌, ◌≡◌, refl, ap, ap₂, sym, ◌⊎◌, subst, inl, inr, arith,
  none, some,
}
use k8s_sentinel.Events.{
  DisplayEvent, Caps, Provider, is_critical, is_warning, retain_from, retain, has_id, refresh,
  receive, start_sse, on_message, initial, Action, opened, failed, unmounted, message, reconnected,
  retention, step, run,
}
use k8s_sentinel.Events.Retention.{critical_not_warning, retain-take}

-- No two events have one id.
abbrev pub HasDistinctIds : List DisplayEvent → Type 0
HasDistinctIds [] = Unit
HasDistinctIds (e ∷ es) = (has_id e.id es ≡ false) × HasDistinctIds es

pub record IsValid (p : Provider) : Type 0 where
  pub distinct : HasDistinctIds p.events
  pub criticals : length (filter is_critical p.events) ≤ p.caps.max_criticals
  pub warnings : length (filter is_warning p.events) ≤ p.caps.max_warnings

-- Dropping events brings in no id.
has_id-retain_from :
    (id : Text) (caps : Caps) (warn crit : ℕ) (es : List DisplayEvent)
    → has_id id es ≡ false
    → has_id id (retain_from caps warn crit es) ≡ false
unfolding has_id retain_from
has_id-retain_from id caps warn crit [] h = refl
has_id-retain_from id caps warn crit (e ∷ es) h = ground (
  arith,
  has_id-retain_from id caps warn crit es,
  has_id-retain_from id caps (warn + 1) crit es,
  has_id-retain_from id caps warn (crit + 1) es,
)

retain_from-HasDistinctIds :
    (caps : Caps) (warn crit : ℕ) (es : List DisplayEvent)
    → HasDistinctIds es
    → HasDistinctIds (retain_from caps warn crit es)
unfolding retain_from
retain_from-HasDistinctIds caps warn crit [] h = tt
retain_from-HasDistinctIds caps warn crit (e ∷ es) (new, h) =
    elim (Bool-cases (is_critical e && ltb crit caps.max_criticals)) [
      | inl critical ↦ rw critical (
        has_id-retain_from e.id caps warn (crit + 1) es new,
        retain_from-HasDistinctIds caps warn (crit + 1) es h,
      )
      | inr other ↦ elim (Bool-cases (is_warning e && ltb warn caps.max_warnings)) [
        | inl warning ↦
            rw (other, warning)
              (
                has_id-retain_from e.id caps (warn + 1) crit es new,
                retain_from-HasDistinctIds caps (warn + 1) crit es h,
              )
        | inr neither ↦ rw (other, neither) (retain_from-HasDistinctIds caps warn crit es h)
      ]
    ]

-- A refreshed event keeps its id and its severity.
refresh-id : (evt x : DisplayEvent) → (refresh evt x).id ≡ x.id
unfolding refresh
refresh-id evt x = elim (Bool-cases (x.id === evt.id)) [ inl e ↦ rw e | inr e ↦ rw e ]

refresh-severity : (evt x : DisplayEvent) → (refresh evt x).severity ≡ x.severity
unfolding refresh
refresh-severity evt x = elim (Bool-cases (x.id === evt.id)) [ inl e ↦ rw e | inr e ↦ rw e ]

has_id-refresh :
    (id : Text) (evt : DisplayEvent) (es : List DisplayEvent)
    → has_id id (map (refresh evt) es) ≡ has_id id es
unfolding has_id
has_id-refresh id evt [] = refl
has_id-refresh id evt (e ∷ es) = rw (refresh-id evt e, has_id-refresh id evt es)

refresh-HasDistinctIds :
    (evt : DisplayEvent) (es : List DisplayEvent)
    → HasDistinctIds es
    → HasDistinctIds (map (refresh evt) es)
refresh-HasDistinctIds evt [] h = tt
refresh-HasDistinctIds evt (e ∷ es) (new, h) =
    (rw (refresh-id evt e, has_id-refresh e.id evt es) new, refresh-HasDistinctIds evt es h)

-- A test on the severity counts the same events after a refresh.
length-filter-refresh :
    (p : DisplayEvent → Bool) (evt : DisplayEvent) (es : List DisplayEvent)
    → ((x : DisplayEvent) → p (refresh evt x) ≡ p x)
    → length (filter p (map (refresh evt) es)) ≡ length (filter p es)
length-filter-refresh p evt [] same = refl
length-filter-refresh p evt (e ∷ es) same =
    ground (arith, same e, length-filter-refresh p evt es same)

retain-IsValid :
    (caps : Caps) (es : List DisplayEvent) (p : Provider)
    → HasDistinctIds es
    → IsValid (record p { caps = caps; events = retain caps es })
unfolding retain
retain-IsValid caps es p h = record {
  distinct = retain_from-HasDistinctIds caps 0 0 es h;
  criticals =
      subst (λ l. length l ≤ caps.max_criticals) (sym (retain-take caps es).0)
        (length-take-le caps.max_criticals (filter is_critical es));
  warnings =
      subst (λ l. length l ≤ caps.max_warnings) (sym (retain-take caps es).1)
        (length-take-le caps.max_warnings (filter is_warning es));
}

on_message-IsValid :
    (evt : DisplayEvent) (p : Provider) → IsValid p → IsValid (on_message (some evt) p)
unfolding on_message receive
on_message-IsValid evt p v = elim (Bool-cases (has_id evt.id p.events)) [
  | inl old ↦ rw old (record {
    distinct = refresh-HasDistinctIds evt p.events v.distinct;
    criticals =
        subst (λ n. n ≤ p.caps.max_criticals)
          (sym (
            length-filter-refresh is_critical evt p.events
              (λ x. unfold is_critical in ap (λ s. s === lit "critical") (refresh-severity evt x))))
          v.criticals;
    warnings =
        subst (λ n. n ≤ p.caps.max_warnings)
          (sym (
            length-filter-refresh is_warning evt p.events
              (λ x. unfold is_warning in ap (λ s. s === lit "warning") (refresh-severity evt x))))
          v.warnings;
  })
  | inr new ↦ rw new (retain-IsValid p.caps (evt ∷ p.events) p (new, v.distinct))
]

start_sse-IsValid : (p : Provider) → IsValid (start_sse p)
unfolding start_sse
start_sse-IsValid p = record { distinct = tt; criticals = omega arith; warnings = omega arith }

if-IsValid : (t : Bool) (p q : Provider) → IsValid p → IsValid q → IsValid (if t then p else q)
if-IsValid true p q vp vq = vp
if-IsValid false p q vp vq = vq

step-IsValid : (a : Action) (p : Provider) → IsValid p → IsValid (step a p)
unfolding step
step-IsValid opened p v =
    if-IsValid p.streaming _ p
      (record { distinct = v.distinct; criticals = v.criticals; warnings = v.warnings }) v
step-IsValid failed p v =
    if-IsValid p.streaming _ p
      (record { distinct = v.distinct; criticals = v.criticals; warnings = v.warnings }) v
step-IsValid unmounted p v = record {
  distinct = v.distinct;
  criticals = v.criticals;
  warnings = v.warnings;
}
step-IsValid (message none) p v = if-IsValid p.streaming p p v v
step-IsValid (message (some evt)) p v =
    if-IsValid p.streaming (on_message (some evt) p) p (on_message-IsValid evt p v) v
step-IsValid (reconnected none) p v = start_sse-IsValid p
step-IsValid (reconnected (some caps)) p v = start_sse-IsValid (record p { caps = caps })
step-IsValid (retention caps) p v = retain-IsValid caps p.events p v.distinct

run-IsValid_from : (as' : List Action) (p : Provider) → IsValid p → IsValid (run as' p)
unfolding run
run-IsValid_from [] p v = v
run-IsValid_from (a ∷ as') p v = run-IsValid_from as' (step a p) (step-IsValid a p v)

-- After any sequence of messages, reconnections, failures and changes of the caps, no two events
-- have one id, and of each severity there are no more events than its current cap.
pub run-IsValid : (as' : List Action) → IsValid (run as' initial)
run-IsValid as' =
    run-IsValid_from as' initial
      (record { distinct = tt; criticals = omega arith; warnings = omega arith })

-- A message about a known event adds, drops and reorders nothing: the ids and the severities of the
-- list stay as they are.
receive-known :
    (caps : Caps) (evt : DisplayEvent) (prev : List DisplayEvent)
    → has_id evt.id prev ≡ true
    → (map (λ x. x.id) (receive caps evt prev) ≡ map (λ x. x.id) prev)
      × (map (λ x. x.severity) (receive caps evt prev) ≡ map (λ x. x.severity) prev)
unfolding receive
receive-known caps evt prev h = rw h (ids prev, severities prev)
  where
    ids : (l : List DisplayEvent) → map (λ x. x.id) (map (refresh evt) l) ≡ map (λ x. x.id) l
    ids [] = refl
    ids (x ∷ l) = ap₂ (◌∷◌) (refresh-id evt x) (ids l)

    severities :
        (l : List DisplayEvent)
        → map (λ x. x.severity) (map (refresh evt) l) ≡ map (λ x. x.severity) l
    severities [] = refl
    severities (x ∷ l) = ap₂ (◌∷◌) (refresh-severity evt x) (severities l)

-- A new event is shown, at the head of the list, if the cap of its severity is not zero.
receive-new :
    (caps : Caps) (evt : DisplayEvent) (prev : List DisplayEvent)
    → has_id evt.id prev ≡ false
    → (is_critical evt ≡ true) × (1 ≤ caps.max_criticals)
      ⊎ (is_warning evt ≡ true) × (1 ≤ caps.max_warnings)
    → (rest : List DisplayEvent) × (receive caps evt prev ≡ evt ∷ rest)
unfolding receive retain retain_from
receive-new caps evt prev new (inl (critical, room)) =
    (retain_from caps 0 (0 + 1) prev, ground arith)
receive-new caps evt prev new (inr (warning, room)) =
    (retain_from caps (0 + 1) 0 prev, ground (arith, critical_not_warning evt))
