-- ===== src/Selector/Settled.antt =====
-- components/SelectorPreview.tsx: that the line comes to show the answer, and what it names.
use k8s_sentinel.Base.{
  Text, ℕ, suc, ◌+◌, ◌-◌, ◌≤◌, ◌==◌, ==_refl, ===_refl, length, take, map, List, [], ◌∷◌, Object,
  none, some, true, false, Bool, if_cases, ◌≡◌, refl, sym, subst, ap, ◌∙◌, arith,
}
use k8s_sentinel.Selector.{
  Wanted, Found, State, render, delay_over, answer, same_labels, same_key, whole_cluster,
  run_effect, step, run, Line, selects, name_of, at_most_five, count_line, is_failed, line,
}

same_labels_refl : (o : Object Text) → same_labels o o ≡ true
same_labels_refl [] = refl
same_labels_refl ((k, v) ∷ o) = rw (===_refl k, ===_refl v) (same_labels_refl o)

same_key_refl : (w : Wanted) → same_key w w ≡ true
unfolding same_key
same_key_refl w = rw (===_refl w.namespace) (same_labels_refl w.labels)

abbrev awaiting : Wanted → State → State
awaiting w s = record s {
  wanted = w;
  rendered = true;
  effect = s.effect + 1;
  waiting = none;
  flying = (s.effect + 1, w) ∷ s.flying;
}

-- After the delay, the request for what is wanted is in flight, whatever else is.
asked :
    (s : State) (w : Wanted)
    → same_key w s.wanted ≡ false
    → whole_cluster w ≡ false
    → step delay_over (step (render w) s) ≡ awaiting w s
unfolding step run_effect
asked s w other part = rw (other, part) refl

abbrev shown_now : Wanted → Found → State → State
shown_now w d s = record (awaiting w s) { flying = s.flying; result = some (w, d) }

answered_now :
    (s : State) (w : Wanted) (d : Found)
    → step (answer (s.effect + 1) d) (awaiting w s) ≡ shown_now w d s
unfolding step
answered_now s w d = rw (==_refl (s.effect + 1)) (rw (==_refl (s.effect + 1)) refl)

shown_now-line :
    (s : State) (w : Wanted) (d : Found)
    → whole_cluster w ≡ false
    → is_failed s.failed w ≡ false
    → line (shown_now w d s) ≡ count_line w d
unfolding line
shown_now-line s w d part fresh = rw (part, fresh, same_key_refl w) refl

-- Other pods are wanted: once the delay is over and the request is answered, the line says what was
-- answered, however many requests for earlier selectors are still awaited. The selector is not that of
-- the whole cluster, and is not the one whose query failed last.
pub answered-line :
    (s : State) (w : Wanted) (d : Found)
    → same_key w s.wanted ≡ false
    → whole_cluster w ≡ false
    → is_failed s.failed w ≡ false
    → line (run (render w ∷ delay_over ∷ answer (s.effect + 1) d ∷ []) s) ≡ count_line w d
unfolding run
answered-line s w d other part fresh =
    ap (λ q. line (step (answer (s.effect + 1) d) q)) (asked s w other part)
    ∙ ap line (answered_now s w d)
    ∙ shown_now-line s w d part fresh

length-take-5 : {A : Type 0} (xs : List A) → length (take 5 xs) ≡ at_most_five (length xs)
length-take-5 [] = refl
length-take-5 (a ∷ []) = refl
length-take-5 (a ∷ b ∷ []) = refl
length-take-5 (a ∷ b ∷ c ∷ []) = refl
length-take-5 (a ∷ b ∷ c ∷ d ∷ []) = refl
length-take-5 (a ∷ b ∷ c ∷ d ∷ e ∷ xs) = ground arith

length-map : {A B : Type 0} (f : A → B) (xs : List A) → length (map f xs) ≡ length xs
length-map f [] = refl
length-map f (x ∷ xs) = ap suc (length-map f xs)

abbrev AddsUp : ℕ → Line → Type 0
AddsUp most (selects labelled ns total names more) =
    (length names ≤ 5) × (length names + more ≡ most)
AddsUp most _ = Unit

five-le : (n : ℕ) → at_most_five n ≤ 5
five-le n = ground arith

five-rest : (n t : ℕ) → n ≤ t → at_most_five n + (t - at_most_five n) ≡ t
five-rest n t h = ground arith

count_line-AddsUp :
    (w : Wanted) (d : Found) → length d.pods ≤ d.total → AddsUp d.total (count_line w d)
count_line-AddsUp w d fits =
    if_cases (AddsUp d.total) (d.total == 0) _ _ (λ _. tt)
      (λ _.
        let e =
          length-take-5 (map (name_of w.namespace) d.pods)
          ∙ ap at_most_five (length-map (name_of w.namespace) d.pods) in
        (
          subst (λ n. n ≤ 5) (sym e) (five-le (length d.pods)),
          subst (λ n. n + (d.total - at_most_five (length d.pods)) ≡ d.total) (sym e)
              (five-rest (length d.pods) d.total fits),
        ))

-- A line that names pods names at most five, and the pods that it names and those that it only counts
-- are as many as the answer says, where the answer lists no more than it counts.
count_line-bounds :
    (w : Wanted) (d : Found) (labelled : Bool) (ns : Text) (total : ℕ) (names : List Text)
    (more : ℕ)
    → length d.pods ≤ d.total
    → count_line w d ≡ selects labelled ns total names more
    → (length names ≤ 5) × (length names + more ≡ d.total)
count_line-bounds w d labelled ns total names more fits e =
    subst (AddsUp d.total) e (count_line-AddsUp w d fits)
