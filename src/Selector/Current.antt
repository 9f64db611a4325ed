-- ===== src/Selector/Current.antt =====
-- components/SelectorPreview.tsx: an answer is shown for what it answers, and for nothing else.
use k8s_sentinel.Base.{
  Text, ℕ, ◌==◌, ==_iff, ◌===◌, ===_iff, List, [], ◌∷◌, Object, Option, none, some, if_cases, true,
  ◌&&◌, ◌≡◌, refl, sym, subst, ap₂, arith, and-eq_true,
}
use k8s_sentinel.Selector.{
  Wanted, Found, State, Event, render, delay_over, answer, failure, same_labels, same_key,
  whole_cluster, run_effect, initial, mounted, request_of, send_wanted, take_answer, take_failure,
  step, run, Line, every_pod, unavailable, blank, selects_none, selects, count_line, result_line,
  is_failed, line,
}

same_labels-eq : (o u : Object Text) → same_labels o u ≡ true → o ≡ u
same_labels-eq [] [] h = refl
same_labels-eq [] (e ∷ u) h = ground arith
same_labels-eq (e ∷ o) [] h = ground arith
same_labels-eq ((j, v) ∷ o) ((k, w) ∷ u) h =
    let (both, c) = and-eq_true ((j === k) && (v === w)) (same_labels o u) h in
    let (a, b) = and-eq_true (j === k) (v === w) both in
    ap₂ (λ e o. e ∷ o) (ap₂ (λ i x. (i, x)) ((===_iff j k).0 a) ((===_iff v w).0 b))
      (same_labels-eq o u c)

same_key-eq : (a b : Wanted) → same_key a b ≡ true → a ≡ b
unfolding same_key
same_key-eq a b h =
    let (n, l) = and-eq_true (a.namespace === b.namespace) _ h in
    ap₂ (λ n l. record { namespace = n; labels = l }) ((===_iff a.namespace b.namespace).0 n)
      (same_labels-eq a.labels b.labels l)

-- What holds of each answer for the request that it answers.
module _ (Answers : Wanted → Found → Type 0) where
  abbrev pub Fair : Event → State → Type 0
  Fair (answer n d) s = (w : Wanted) → request_of n s.flying ≡ some w → Answers w d
  Fair _ s = Unit

  abbrev pub AllFair : List Event → State → Type 0
  AllFair [] s = Unit
  AllFair (e ∷ es) s = Fair e s × AllFair es (step e s)

  abbrev pub Answered : Option (Wanted × Found) → Type 0
  Answered none = Unit
  Answered (some (w, d)) = Answers w d

  abbrev Right : State → Type 0
  Right s = Answered s.result

  run_effect-Right : (s : State) → Right s → Right (run_effect s)
  unfolding run_effect
  run_effect-Right s h = if_cases Right (whole_cluster s.wanted) _ _ (λ _. h) (λ _. h)

  send_wanted-Right : (o : Option ℕ) (s : State) → Right s → Right (send_wanted o s)
  send_wanted-Right none s h = h
  send_wanted-Right (some ms) s h = h

  take_answer-Right :
      (n : ℕ) (d : Found) (o : Option Wanted) (s : State)
      → ((w : Wanted) → o ≡ some w → Answers w d)
      → Right s
      → Right (take_answer n d o s)
  take_answer-Right n d none s f h = h
  take_answer-Right n d (some w) s f h = if_cases Right (n == s.effect) _ _ (λ _. f w refl) (λ _. h)

  take_failure-Right :
      (n : ℕ) (o : Option Wanted) (s : State) → Right s → Right (take_failure n o s)
  take_failure-Right n none s h = h
  take_failure-Right n (some w) s h = if_cases Right (n == s.effect) _ _ (λ _. h) (λ _. h)

  step-Right : (e : Event) (s : State) → Fair e s → Right s → Right (step e s)
  unfolding step
  step-Right (render w) s f h =
      if_cases Right (same_key w s.wanted) _ _ (λ _. h) (λ _. run_effect-Right _ h)
  step-Right delay_over s f h = send_wanted-Right s.waiting s h
  step-Right (answer n d) s f h = take_answer-Right n d _ s f h
  step-Right (failure n) s f h = take_failure-Right n _ s h

  run-Right : (es : List Event) (s : State) → AllFair es s → Right s → Right (run es s)
  unfolding run
  run-Right [] s f h = h
  run-Right (e ∷ es) s (f, fs) h = run-Right es (step e s) fs (step-Right e s f h)

  mounted-Right : (w : Wanted) → Right (mounted w)
  unfolding mounted
  mounted-Right w = run_effect-Right (initial w) tt

  -- A line that says how many pods there are says it of an answer for what is wanted now.
  abbrev pub Backed : Wanted → Line → Type 0
  Backed w every_pod = whole_cluster w ≡ true
  Backed w unavailable = Unit
  Backed w blank = Unit
  Backed w (selects_none ns) = (ns ≡ w.namespace) × (d : Found) × (d.total ≡ 0) × Answers w d
  Backed w (selects labelled ns total names more) =
      (d : Found) × (count_line w d ≡ selects labelled ns total names more) × Answers w d

  count_line-Backed : (w : Wanted) (d : Found) → Answers w d → Backed w (count_line w d)
  count_line-Backed w d h =
      if_cases (λ l. l ≡ count_line w d → Backed w l) (d.total == 0) _ _
        (λ e. λ _. (refl, d, (==_iff d.total 0).0 e, h)) (λ _. λ e. (d, sym e, h)) refl

  result_line-Backed :
      (w : Wanted) (o : Option (Wanted × Found)) → Answered o → Backed w (result_line w o)
  result_line-Backed w none h = tt
  result_line-Backed w (some (k, d)) h =
      if_cases (Backed w) (same_key k w) _ _
        (λ e. count_line-Backed w d (subst (λ v. Answers v d) (same_key-eq k w e) h)) (λ _. tt)

  -- Whatever happens to the line, what it says is backed by an answer for the very selector that is
  -- wanted then: no answer for an earlier one is shown under it, where each answer is right about the
  -- request that it answers.
  pub run-line :
      (w : Wanted) (es : List Event)
      → AllFair es (mounted w)
      → Backed (run es (mounted w)).wanted (line (run es (mounted w)))
  unfolding line
  run-line w es fair =
      let s = run es (mounted w) in
      if_cases (Backed s.wanted) (whole_cluster s.wanted) _ _ (λ e. e)
        (λ _.
          if_cases (Backed s.wanted) (is_failed s.failed s.wanted) _ _ (λ _. tt)
            (λ _. result_line-Backed s.wanted s.result (run-Right es _ fair (mounted-Right w))))
