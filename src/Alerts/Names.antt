-- ===== src/Alerts/Names.antt =====
-- pages/AlertsPage.tsx: a field of names, which is written with commas between them.
use k8s_sentinel.Base.{
  Text, ℕ, ◌==◌, ==_iff, ◌≤◌, lit, trim, trim_start, trim_end, split, join, is_space, is_empty, all,
  filter, length, not, ◌&&◌, Bool, true, false, List, [], ◌∷◌, ◌++◌, map, All, if_cases, ◌≡◌, refl,
  sym, ap, subst, ◌∙◌, arith, Bool-cases, inl, inr,
}
use k8s_sentinel.Alerts.{names_of, shown, press}

abbrev pub plain : Text → Bool
plain = all (λ c. not (c == b','))

-- A name as it is written: without commas, without blanks around it, and not empty.
abbrev pub IsName : Text → Type 0
IsName s = (plain s ≡ true) × (trim s ≡ s) × (is_empty s ≡ false)

plain-cons : (c : ℕ) (s : Text) → plain (c ∷ s) ≡ true → ((c == b',') ≡ false) × (plain s ≡ true)
plain-cons c s h = ground arith

split-plain : (s : Text) → plain s ≡ true → split b',' s ≡ s ∷ []
unfolding split
split-plain [] h = refl
split-plain (c ∷ s) h = let (n, rest) = plain-cons c s h in rw (n, split-plain s rest) refl

split-append : (s t : Text) → plain s ≡ true → split b',' (s ++ b',' ∷ t) ≡ s ∷ split b',' t
unfolding split
split-append [] t h = refl
split-append (c ∷ s) t h = let (n, rest) = plain-cons c s h in rw (n, split-append s t rest) refl

split-join :
    (x : Text) (xs : List Text)
    → All IsName (x ∷ xs)
    → split b',' (join (lit ",") (x ∷ xs)) ≡ x ∷ xs
unfolding join lit
split-join x [] ((p, t, n), h) = split-plain x p
split-join x (y ∷ ys) ((p, t, n), h) =
    split-append x (join (44 ∷ []) (y ∷ ys)) p ∙ ap (λ l. x ∷ l) (split-join y ys h)

-- Names are not changed where a field is read.
abbrev kept : List Text → List Text
kept xs = filter (λ s. not (is_empty s)) (map trim xs)

kept-IsName : (xs : List Text) → All IsName xs → kept xs ≡ xs
kept-IsName [] h = refl
kept-IsName (x ∷ xs) ((p, t, n), h) = rw (t, n) (ap (λ l. x ∷ l) (kept-IsName xs h))

-- What a field shows of names is read as those names.
pub names_of-shown : (xs : List Text) → All IsName xs → names_of (shown xs) ≡ xs
unfolding names_of shown
names_of-shown [] h = refl
names_of-shown (x ∷ xs) h = ap kept (split-join x xs h) ∙ kept-IsName (x ∷ xs) h

plain-trim_start : (s : Text) → plain s ≡ true → plain (trim_start s) ≡ true
unfolding trim_start
plain-trim_start [] h = refl
plain-trim_start (c ∷ s) h =
    if_cases (λ t. plain t ≡ true) (is_space c) _ _ (λ _. plain-trim_start s ((plain-cons c s h).1))
      (λ _. h)

plain-trim_end : (s : Text) → plain s ≡ true → plain (trim_end s) ≡ true
unfolding trim_end
plain-trim_end [] h = refl
plain-trim_end (c ∷ s) h =
    let (n, rest) = plain-cons c s h in
    let e = plain-trim_end s rest in
    if_cases (λ t. plain t ≡ true) (is_empty (trim_end s) && is_space c) _ _ (λ _. refl)
      (λ _. ground arith)

plain-trim : (s : Text) → plain s ≡ true → plain (trim s) ≡ true
unfolding trim
plain-trim s h = plain-trim_end (trim_start s) (plain-trim_start s h)

plain-append :
    (s : Text) (c : ℕ) → plain s ≡ true → (c == b',') ≡ false → plain (s ++ c ∷ []) ≡ true
plain-append [] c h n = rw n refl
plain-append (d ∷ s) c h n = let (m, rest) = plain-cons d s h in rw m (plain-append s c rest n)

-- A field with one name at most, without commas in it.
data AtMostOne : List Text → Type 0 where
  none_yet : AtMostOne []
  just_one : {x : Text} → plain x ≡ true → AtMostOne (x ∷ [])

kept-AtMostOne : (x : Text) → plain x ≡ true → AtMostOne (kept (x ∷ []))
kept-AtMostOne x h =
    if_cases AtMostOne (not (is_empty (trim x))) _ _ (λ _. just_one (plain-trim x h))
      (λ _. none_yet)

kept-blank : (x : Text) → kept (x ∷ [] ∷ []) ≡ kept (x ∷ [])
unfolding trim
kept-blank x = refl

names_of-AtMostOne : (x : Text) (key : ℕ) → plain x ≡ true → AtMostOne (names_of (x ++ key ∷ []))
unfolding names_of split
names_of-AtMostOne x key h = elim (Bool-cases (key == b',')) [
  | inl comma ↦
      subst (λ k. AtMostOne (kept (split b',' (x ++ k ∷ [])))) (sym ((==_iff key b',').0 comma))
        (subst (λ l. AtMostOne (kept l)) (sym (split-append x [] h))
          (subst AtMostOne (sym (kept-blank x)) (kept-AtMostOne x h)))
  | inr other ↦
      subst (λ l. AtMostOne (kept l))
        (sym (split-plain (x ++ key ∷ []) (plain-append x key h other)))
        (kept-AtMostOne (x ++ key ∷ []) (plain-append x key h other))
]

press-AtMostOne : (key : ℕ) (xs : List Text) → AtMostOne xs → AtMostOne (press key xs)
unfolding press shown
press-AtMostOne key _ none_yet = names_of-AtMostOne [] key refl
press-AtMostOne key _ (just_one {x} h) = names_of-AtMostOne x key h

-- Keys that are pressed one after the other, each at the end of what the field shows by then.
abbrev pub typed : Text → List Text → List Text
typed [] xs = xs
typed (key ∷ keys) xs = typed keys (press key xs)

typed-AtMostOne : (keys : Text) (xs : List Text) → AtMostOne xs → AtMostOne (typed keys xs)
typed-AtMostOne [] xs h = h
typed-AtMostOne (key ∷ keys) xs h = typed-AtMostOne keys (press key xs) (press-AtMostOne key xs h)

AtMostOne-length : (xs : List Text) → AtMostOne xs → length xs ≤ 1
AtMostOne-length _ none_yet = omega arith
AtMostOne-length _ (just_one h) = omega arith

-- Whatever keys are pressed in an empty field, each at the end of what it shows, commas among them: the
-- field has one name at most.
pub typed-le : (keys : Text) → length (typed keys []) ≤ 1
typed-le keys = AtMostOne-length (typed keys []) (typed-AtMostOne keys [] none_yet)
