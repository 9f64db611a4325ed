-- ===== src/Base/Logic.antt =====
-- Tests on native numbers, the conditional, and case lemmas.
use Prim.Native.Nat.{ℕ, ◌≤◌, ◌<◌, compare, Ordering}
use mathlib.Core.Path.{◌≡◌, refl, subst}
use mathlib.Core.Logic.{◌↔◌, ◌⊎◌, inl, inr}
use mathlib.Core.Bool.{Bool, true, false, ◌&&◌, ◌||◌}
use mathlib.Core.Option.{Option, none, some}
use native.Mathlib.Omega.{arith}

abbrev pub ltb : ℕ → ℕ → Bool
ltb a b = elim (compare a b) [ Ordering.lt ↦ true | _ ↦ false ]

abbrev pub leb : ℕ → ℕ → Bool
leb a b = elim (compare a b) [ Ordering.gt ↦ false | _ ↦ true ]

infix 50 ◌==◌
abbrev pub ◌==◌ : ℕ → ℕ → Bool
a == b = elim (compare a b) [ Ordering.eq ↦ true | _ ↦ false ]

infix 1 if◌then◌else◌
abbrev pub if◌then◌else◌ {ℓ} : {A : Type ℓ} → Bool → A → A → A
if true then x else y = x
if false then x else y = y

pub ltb→lt : (a b : ℕ) → ltb a b ≡ true → a < b
ltb→lt a b h = ground arith

pub lt→ltb : (a b : ℕ) → a < b → ltb a b ≡ true
lt→ltb a b h = ground arith

pub leb→le : (a b : ℕ) → leb a b ≡ true → a ≤ b
leb→le a b h = ground arith

pub ==_iff : (a b : ℕ) → ((a == b) ≡ true) ↔ (a ≡ b)
==_iff a b = ground arith

pub ==_refl : (a : ℕ) → (a == a) ≡ true
==_refl a = ground arith

pub Bool-cases : (b : Bool) → (b ≡ true) ⊎ (b ≡ false)
Bool-cases true = inl refl
Bool-cases false = inr refl

pub and-eq_true : (a b : Bool) → (a && b) ≡ true → (a ≡ true) × (b ≡ true)
and-eq_true true b h = (refl, h)
and-eq_true false b h = ground arith

pub or-eq_false : (a b : Bool) → (a || b) ≡ false → (a ≡ false) × (b ≡ false)
or-eq_false true b h = ground arith
or-eq_false false b h = (refl, h)

pub Option-cases {ℓ} : {A : Type ℓ} (o : Option A) → (o ≡ none) ⊎ ((a : A) × (o ≡ some a))
Option-cases none = inl refl
Option-cases (some a) = inr (a, refl)

-- A chain of steps that may find nothing, as in a parser.
infixl 5 ◌>>=◌
unfoldable pub ◌>>=◌ {ℓ κ} : {A : Type ℓ} {B : Type κ} → Option A → (A → Option B) → Option B
none >>= k = none
some a >>= k = k a

-- `!!e`
abbrev pub is_some {ℓ} : {A : Type ℓ} → Option A → Bool
is_some none = false
is_some (some a) = true

-- `e ?? d`
abbrev pub or_else {ℓ} : {A : Type ℓ} → Option A → A → A
or_else none d = d
or_else (some a) d = a

-- What a value satisfies, if one is found.
pub data Ensures {ℓ κ} {A : Type ℓ} (P : A → Type κ) : Option A → Type (ℓ ⊔ κ) where
  nothing : Ensures P none
  just : {a : A} → P a → Ensures P (some a)

pub ensured {ℓ κ} :
    {A : Type ℓ} {P : A → Type κ} {o : Option A} {a : A} → Ensures P o → o ≡ some a → P a
ensured nothing e = cc
ensured {P} (just p) e = subst P (cc) p

pub Ensures-weaken {ℓ κ μ} :
    {A : Type ℓ} {P : A → Type κ} {Q : A → Type μ} {o : Option A}
    → ((a : A) → P a → Q a)
    → Ensures P o
    → Ensures Q o
Ensures-weaken f nothing = nothing
Ensures-weaken f (just {a} p) = just (f a p)

-- Every value that is found is that value.
pub found {ℓ} : {A : Type ℓ} (o : Option A) → Ensures (λ a. o ≡ some a) o
found none = nothing
found (some a) = just refl

pub Ensures->>= {ℓ κ μ ν} :
    {A : Type ℓ} {B : Type κ} {P : A → Type μ} {Q : B → Type ν} {m : Option A} {f : A → Option B}
    → Ensures P m
    → ((a : A) → P a → Ensures Q (f a))
    → Ensures Q (m >>= f)
unfolding ◌>>=◌
Ensures->>= nothing k = nothing
Ensures->>= (just {a} p) k = k a p

pub Ensures-if {ℓ κ} :
    {A : Type ℓ} {Q : A → Type κ} (t : Bool) {m n : Option A}
    → (t ≡ true → Ensures Q m)
    → (t ≡ false → Ensures Q n)
    → Ensures Q (if t then m else n)
Ensures-if true h k = h refl
Ensures-if false h k = k refl

pub some-eq {ℓ} : {A : Type ℓ} (a b : A) → some a ≡ some b → a ≡ b
some-eq a b h = cc

-- A guard that let something through changed nothing.
pub guard_not {ℓ} :
    {A : Type ℓ} (t : Bool) (m : Option A) {a : A}
    → (if t then none else m) ≡ some a
    → (if t then none else m) ≡ m
guard_not true m e = cc
guard_not false m e = refl

-- `if (o) return f(o)`, and what follows.
abbrev pub or_go_on {ℓ κ} : {A : Type ℓ} {B : Type κ} → Option A → (A → B) → B → B
or_go_on none f rest = rest
or_go_on (some a) f rest = f a

pub Ensures-or_go_on {ℓ κ μ} :
    {A : Type ℓ} {B : Type κ} {Q : B → Type μ} (o : Option A) {f : A → Option B} {rest : Option B}
    → ((a : A) → o ≡ some a → Ensures Q (f a))
    → (o ≡ none → Ensures Q rest)
    → Ensures Q (or_go_on o f rest)
Ensures-or_go_on none h k = k refl
Ensures-or_go_on (some a) h k = h a refl

pub Ensures-both {ℓ κ μ} :
    {A : Type ℓ} {P : A → Type κ} {Q : A → Type μ} {o : Option A}
    → Ensures P o
    → Ensures Q o
    → Ensures (λ a. P a × Q a) o
Ensures-both nothing k = nothing
Ensures-both (just {a} p) k = just (p, ensured k refl)

-- What holds of both branches, each under its test.
pub if_cases {ℓ κ} :
    {A : Type ℓ} (P : A → Type κ) (b : Bool) (x y : A)
    → (b ≡ true → P x)
    → (b ≡ false → P y)
    → P (if b then x else y)
if_cases P true x y h k = h refl
if_cases P false x y h k = k refl
