-- ===== src/Events/Retention.antt =====
-- What the caps keep: the newest events of each severity.
use k8s_sentinel.Base.{
  lit, ◌===◌, ===_iff, true, false, List, [], ◌∷◌, filter, take, ℕ, zero, suc, ◌+◌, ◌≡◌, refl,
  arith,
}
use k8s_sentinel.Events.{DisplayEvent, Caps, is_critical, is_warning, retain_from, retain}

-- An event has one severity.
pub critical_not_warning : (e : DisplayEvent) → is_critical e ≡ true → is_warning e ≡ false
unfolding is_critical is_warning ◌===◌ lit
critical_not_warning e h = let is = (===_iff e.severity (lit "critical")).0 h in rw is

-- With room for `k` more critical events, the filter keeps the first `k` of them.
criticals-retain_from :
    (caps : Caps) (k warn crit : ℕ) (es : List DisplayEvent)
    → crit + k ≡ caps.max_criticals
    → filter is_critical (retain_from caps warn crit es) ≡ take k (filter is_critical es)
unfolding retain_from
criticals-retain_from caps zero warn crit [] h = refl
criticals-retain_from caps (suc k) warn crit [] h = refl
criticals-retain_from caps zero warn crit (e ∷ es) h = ground (
  arith,
  critical_not_warning e,
  criticals-retain_from caps zero warn crit es,
  criticals-retain_from caps zero (warn + 1) crit es,
)
criticals-retain_from caps (suc k) warn crit (e ∷ es) h = ground (
  arith,
  critical_not_warning e,
  criticals-retain_from caps k warn (crit + 1) es,
  criticals-retain_from caps (suc k) warn crit es,
  criticals-retain_from caps (suc k) (warn + 1) crit es,
)

warnings-retain_from :
    (caps : Caps) (k warn crit : ℕ) (es : List DisplayEvent)
    → warn + k ≡ caps.max_warnings
    → filter is_warning (retain_from caps warn crit es) ≡ take k (filter is_warning es)
unfolding retain_from
warnings-retain_from caps zero warn crit [] h = refl
warnings-retain_from caps (suc k) warn crit [] h = refl
warnings-retain_from caps zero warn crit (e ∷ es) h = ground (
  arith,
  critical_not_warning e,
  warnings-retain_from caps zero warn crit es,
  warnings-retain_from caps zero warn (crit + 1) es,
)
warnings-retain_from caps (suc k) warn crit (e ∷ es) h = ground (
  arith,
  critical_not_warning e,
  warnings-retain_from caps k (warn + 1) crit es,
  warnings-retain_from caps (suc k) warn crit es,
  warnings-retain_from caps (suc k) warn (crit + 1) es,
)

-- The caps keep, of each severity, exactly the newest events up to its cap, in their order: of the
-- critical ones the first `maxCriticals`, of the warnings the first `maxWarnings`.
pub retain-take :
    (caps : Caps) (es : List DisplayEvent)
    → (filter is_critical (retain caps es) ≡ take caps.max_criticals (filter is_critical es))
      × (filter is_warning (retain caps es) ≡ take caps.max_warnings (filter is_warning es))
unfolding retain
retain-take caps es = (
  criticals-retain_from caps caps.max_criticals 0 0 es (omega arith),
  warnings-retain_from caps caps.max_warnings 0 0 es (omega arith),
)
