-- ===== src/PlainYaml.antt =====
-- A concrete js-yaml whose documents are values: what the examples give for the interface of the
-- library. Its dump is the value itself.
use k8s_sentinel.Base.{Option, none, some, Json, Yaml, Bool, true, false, arith, ◌≡◌, ◌↔◌, refl}
use native.Mathlib.Decide.{ℕ_discrete}

unfoldable pub Json_discrete : Discrete Json
unfolding ℕ_discrete
Json_discrete = hlevel ℕ_discrete

-- Whether two values are the same.
abbrev pub decided {ℓ} : {P : Type ℓ} → Dec P → Bool
decided (yes p) = true
decided (no n) = false

pub decided_iff {ℓ} : {P : Type ℓ} (d : Dec P) → (decided d ≡ true) ↔ P
decided_iff (yes p) = (λ e. p, λ q. refl)
decided_iff (no n) = (λ e. absurd (ground arith), λ q. absurd (n q))

-- Documents that are values themselves, with the empty text as no value.
abbrev pub plain_yaml : Yaml
plain_yaml = record {
  Doc = Option Json;
  Canon = Json;
  load = λ d. d;
  dump = some;
  blank = none;
  canon = λ j. j;
  same = λ a b. decided (Json_discrete a b);
  same_iff = λ a b. decided_iff (Json_discrete a b);
}
