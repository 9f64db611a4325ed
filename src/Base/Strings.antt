-- ===== src/Base/Strings.antt =====
-- Texts as lists of code units, with the string operations that the sources call.
use Prim.Native.Char.{code}
use Prim.Native.Nat.{ℕ, zero, suc, ◌+◌, ◌*◌, ◌-◌, ◌/◌, ◌%◌}
use Prim.Native.String.{String}
use mathlib.Core.Path.{◌≡◌, refl, ap, ◌∙◌}
use mathlib.Core.Logic.{◌↔◌, inl, inr}
use mathlib.Core.Bool.{Bool, true, false, ◌&&◌, ◌||◌, not}
use mathlib.Core.List.{List, [], ◌∷◌, ◌++◌, map}
use native.Mathlib.Omega.{arith}
use k8s_sentinel.Base.Logic.{◌==◌, leb, if◌then◌else◌, Bool-cases}
use k8s_sentinel.Base.Lists.{is_empty}

abbrev pub Text : Type 0
Text = List ℕ

-- A literal of the source. It stays shut, so that a long message is one name in a proof.
unfoldable pub lit : String → Text
lit String.[] = []
lit (String.◌∷◌ c s) = code c ∷ lit s

-- `a === b` on strings.
infix 50 ◌===◌
unfoldable pub ◌===◌ : Text → Text → Bool
[] === [] = true
(a ∷ s) === (b ∷ t) = (a == b) && (s === t)
_ === _ = false

pub ===_iff : (s t : Text) → ((s === t) ≡ true) ↔ (s ≡ t)
unfolding ◌===◌
===_iff [] [] = ground arith
===_iff [] (b ∷ t) = ground arith
===_iff (a ∷ s) [] = ground arith
===_iff (a ∷ s) (b ∷ t) = ground (arith, ===_iff s t)

pub ===_refl : (s : Text) → (s === s) ≡ true
===_refl s = (===_iff s s).1 refl

-- `xs.includes(x)` on an array of strings.
unfoldable pub member : Text → List Text → Bool
member x [] = false
member x (y ∷ ys) = (y === x) || member x ys

-- White space and line terminators, as `trim` and `\s` read them.
unfoldable pub is_space : ℕ → Bool
is_space c =
    (leb 9 c && leb c 13)
    || (c == 32)
    || (c == 160)
    || (c == 5760)
    || (leb 8192 c && leb c 8202)
    || (c == 8232)
    || (c == 8233)
    || (c == 8239)
    || (c == 8287)
    || (c == 12288)
    || (c == 65279)

unfoldable pub trim_start : Text → Text
trim_start [] = []
trim_start (c ∷ s) = let rest = trim_start s in if is_space c then rest else c ∷ s

unfoldable pub trim_end : Text → Text
trim_end [] = []
trim_end (c ∷ s) = let rest = trim_end s in if is_empty rest && is_space c then [] else c ∷ rest

unfoldable pub trim : Text → Text
unfolding trim_start trim_end is_space
trim s = trim_end (trim_start s)

-- `s.startsWith(p)`
unfoldable pub starts_with : Text → Text → Bool
starts_with s [] = true
starts_with [] (p ∷ ps) = false
starts_with (c ∷ s) (p ∷ ps) = (c == p) && starts_with s ps

-- `s.includes(p)`
unfoldable pub includes : Text → Text → Bool
unfolding starts_with
includes [] p = starts_with [] p
includes (c ∷ s) p = starts_with (c ∷ s) p || includes s p

-- `s.split(c)` at a single character.
abbrev pub cons_head : ℕ → List Text → List Text
cons_head c [] = (c ∷ []) ∷ []
cons_head c (p ∷ ps) = (c ∷ p) ∷ ps

unfoldable pub split : ℕ → Text → List Text
split sep [] = [] ∷ []
split sep (c ∷ s) = let rest = split sep s in if c == sep then [] ∷ rest else cons_head c rest

-- `parts.join(sep)`
unfoldable pub join : Text → List Text → Text
join sep [] = []
join sep (p ∷ []) = p
join sep (p ∷ q ∷ ps) = p ++ (sep ++ join sep (q ∷ ps))

abbrev pub is_digit : ℕ → Bool
is_digit c = leb b'0' c && leb c b'9'

-- The number that a text of decimal digits writes.
unfoldable pub number_from : ℕ → Text → ℕ
number_from acc [] = acc
number_from acc (c ∷ s) = number_from (acc * 10 + (c - b'0')) s

-- `toLowerCase` and `toUpperCase` of the ASCII letters.
unfoldable pub lower : Text → Text
lower = map (λ c. if leb b'A' c && leb c b'Z' then c + 32 else c)

unfoldable pub upper : Text → Text
upper = map (λ c. if leb b'a' c && leb c b'z' then c - 32 else c)

-- `String(n)` of a natural number, given `n < 10 ^ fuel`.
unfoldable pub decimal_fuel : ℕ → ℕ → Text → Text
decimal_fuel zero n out = out
decimal_fuel (suc k) n out =
    let more = decimal_fuel k (n / 10) ((n % 10 + b'0') ∷ out) in
    if leb n 9 then (n + b'0') ∷ out else more

unfoldable pub decimal : ℕ → Text
unfolding decimal_fuel
decimal n = decimal_fuel (suc n) n []

trim_end_idem : (s : Text) → trim_end (trim_end s) ≡ trim_end s
unfolding trim_end
trim_end_idem [] = refl
trim_end_idem (c ∷ s) = elim (Bool-cases (is_empty (trim_end s) && is_space c)) [
  | inl drop ↦ rw drop
  | inr keep ↦ rw keep (rw (trim_end_idem s) (rw keep))
]

trim_start_idem : (s : Text) → trim_start (trim_start s) ≡ trim_start s
unfolding trim_start
trim_start_idem [] = refl
trim_start_idem (c ∷ s) = elim (Bool-cases (is_space c)) [
  | inl space ↦ rw space (trim_start_idem s)
  | inr other ↦ rw other (rw other)
]

-- Cutting the end keeps a clean start.
trim_start-trim_end-trim_start :
    (s : Text) → trim_start (trim_end (trim_start s)) ≡ trim_end (trim_start s)
unfolding trim_start trim_end
trim_start-trim_end-trim_start [] = refl
trim_start-trim_end-trim_start (c ∷ s) = elim (Bool-cases (is_space c)) [
  | inl space ↦ rw space (trim_start-trim_end-trim_start s)
  | inr other ↦ rw other (ground (arith, other))
]

pub trim_idem : (s : Text) → trim (trim s) ≡ trim s
unfolding trim
trim_idem s = ap trim_end (trim_start-trim_end-trim_start s) ∙ trim_end_idem (trim_start s)

pub trim-nil : trim [] ≡ []
unfolding trim
trim-nil = refl

-- A text that is empty after trimming, or not.
pub is_empty-eq_true {ℓ} : {A : Type ℓ} (s : List A) → is_empty s ≡ true → s ≡ []
is_empty-eq_true [] h = refl
is_empty-eq_true (c ∷ s) h = ground arith

pub member-append :
    (k : Text) (xs ys : List Text) → member k (xs ++ ys) ≡ (member k xs || member k ys)
unfolding member
member-append k [] ys = refl
member-append k (x ∷ xs) ys = ground (arith, member-append k xs ys)

abbrev starts_clean : Text → Bool
starts_clean [] = true
starts_clean (c ∷ s) = not (is_space c)

starts_clean-trim_start : (s : Text) → starts_clean (trim_start s) ≡ true
unfolding trim_start
starts_clean-trim_start [] = refl
starts_clean-trim_start (c ∷ s) = elim (Bool-cases (is_space c)) [
  | inl space ↦ rw space (starts_clean-trim_start s)
  | inr other ↦ rw (other, other) refl
]

starts_clean-trim_end : (s : Text) → starts_clean s ≡ true → starts_clean (trim_end s) ≡ true
unfolding trim_end
starts_clean-trim_end [] h = refl
starts_clean-trim_end (c ∷ s) h = ground arith

trim_start-append :
    (s t : Text) → starts_clean s ≡ true → is_empty s ≡ false → trim_start (s ++ t) ≡ s ++ t
unfolding trim_start
trim_start-append [] t h e = ground arith
trim_start-append (c ∷ s) t h e = ground arith

is_empty-append : (s t : Text) → is_empty t ≡ false → is_empty (s ++ t) ≡ false
is_empty-append [] t h = h
is_empty-append (c ∷ s) t h = refl

pub trim_end-append :
    (s t : Text) → trim_end t ≡ t → is_empty t ≡ false → trim_end (s ++ t) ≡ s ++ t
unfolding trim_end
trim_end-append [] t h e = h
trim_end-append (c ∷ s) t h e = rw (trim_end-append s t h e, is_empty-append s t e) refl

-- What is put behind a trimmed text stays, if it does not end in white space.
pub trim-append :
    (v t : Text)
    → is_empty (trim v) ≡ false
    → trim_end t ≡ t
    → is_empty t ≡ false
    → trim (trim v ++ t) ≡ trim v ++ t
unfolding trim
trim-append v t filled clean e =
    ap trim_end (
      trim_start-append (trim v) t
        (starts_clean-trim_end (trim_start v) (starts_clean-trim_start v)) filled)
    ∙ trim_end-append (trim v) t clean e
