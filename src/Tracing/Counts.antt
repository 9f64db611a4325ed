-- ===== src/Tracing/Counts.antt =====
-- Every kprobe of a policy that opens is of a supported kind and adds a rule to the form.
use k8s_sentinel.Base.{
  Text, lit, Ensures, nothing, just, ensured, found, Ensures->>=, Ensures-if, subst, sym,
  Ensures-weaken, All, true, false, List, [], ◌∷◌, Option, none, some, inl, inr, ◌⊎◌, ◌≡◌, refl,
  Json, prop, prop_of, truthy, not, is_empty, arith, ◌==◌, as_text, length, ◌+◌, ◌≤◌, length-append,
  ltb, ◌&&◌, ◌∙◌, some-eq,
}
use k8s_sentinel.Tracing.{Mode, Permission, ProcessRule, FormInput, Progress}
use k8s_sentinel.Tracing.Representable.{
  is_number, iterate, representable, process_operators, file_operators,
}
use k8s_sentinel.Tracing.Selectors.{
  push_binary, push_binaries, note_process_mode, process_arg, process_match_binaries, process_args,
  process_selector, file_mode_of, file_arg_at, file_arg, file_args, file_selector,
}
use k8s_sentinel.Tracing.Reader.{
  is_exec_call, is_network_call, is_file_call, call_of, rule_count, process_selectors,
  file_selectors, read_call, read_kprobe, read_kprobes, read_doc,
}

abbrev Grows : List ProcessRule → List ProcessRule → Type 0
Grows rules rules' = length rules ≤ length rules'

push_binary-Grows :
    (b : Json) (rules : List ProcessRule) → Ensures (Grows rules) (push_binary b rules)
unfolding push_binary
push_binary-Grows b rules =
    Ensures-if (not (truthy b)) (λ _. just (omega arith))
      (λ _. Ensures->>= (found (as_text b)) (λ t _. just (omega (arith, length-append rules _))))

push_binaries-Grows :
    (bs : List Json) (rules : List ProcessRule) → Ensures (Grows rules) (push_binaries bs rules)
unfolding push_binaries
push_binaries-Grows [] rules = just (omega arith)
push_binaries-Grows (b ∷ bs) rules =
    Ensures->>= (push_binary-Grows b rules)
      (λ mid h. Ensures-weaken (λ _ k. omega arith) (push_binaries-Grows bs mid))

process_match_binaries-Grows :
    (mbs : List Json) (rules : List ProcessRule)
    → Ensures (Grows rules) (process_match_binaries mbs rules)
unfolding process_match_binaries
process_match_binaries-Grows [] rules = just (omega arith)
process_match_binaries-Grows (mb ∷ mbs) rules = Ensures->>= (found _) (λ bins _.
    Ensures->>= (push_binaries-Grows bins rules)
      (λ mid h. Ensures-weaken (λ _ k. omega arith) (process_match_binaries-Grows mbs mid)))

abbrev GrowsForm : FormInput → FormInput → Type 0
GrowsForm form form' = rule_count form ≤ rule_count form'

abbrev GrowsProgress : Progress → Progress → Type 0
GrowsProgress p p' = GrowsForm p.form p'.form

note_process_mode-Grows :
    (m : Option Mode) (p : Progress) → Ensures (GrowsProgress p) (note_process_mode m p)
unfolding note_process_mode
note_process_mode-Grows none p = just (omega arith)
note_process_mode-Grows (some m) p = Ensures->>= (found _) (λ _ _. just (omega arith))

process_args-Grows :
    (args : List Json) (sel : Json) (p : Progress)
    → Ensures (GrowsProgress p) (process_args args sel p)
unfolding process_args process_arg
process_args-Grows [] sel p = Ensures->>= (found _) (λ mbs _.
    Ensures->>= (process_match_binaries-Grows mbs p.form.process) (λ rules h. just (omega arith)))
process_args-Grows (ma ∷ more) sel p =
    Ensures-if (is_number (lit "0") (prop (lit "index") ma) && is_empty more)
      (λ _. Ensures->>= (note_process_mode-Grows _ p) (λ q hq. Ensures->>= (found _) (λ bins _.
        Ensures->>= (push_binaries-Grows bins q.form.process) (λ rules h. just (omega arith)))))
      (λ _. nothing)

process_selectors-Grows :
    (sels : List Json) (p : Progress) → Ensures (GrowsProgress p) (process_selectors sels p)
unfolding process_selectors process_selector
process_selectors-Grows [] p = just (omega arith)
process_selectors-Grows (sel ∷ sels) p =
    Ensures->>= (Ensures->>= (found _) (λ args _. process_args-Grows args sel p))
      (λ q h. Ensures-weaken (λ _ k. omega arith) (process_selectors-Grows sels q))

file_args-Grows :
    (except : List Json) (permission : Option Permission) (mas : List Json) (form : FormInput)
    → Ensures (GrowsForm form) (file_args except permission mas form)
unfolding file_args file_arg
file_args-Grows except permission [] form = just (omega arith)
file_args-Grows except permission (ma ∷ mas) form =
    Ensures->>= (at (file_mode_of (prop (lit "operator") ma)))
      (λ form' h. Ensures-weaken (λ _ k. omega arith) (file_args-Grows except permission mas form'))
  where
    at : (m : Option Mode) → Ensures (GrowsForm form) (file_arg_at m except permission ma form)
    at none = just (omega arith)
    at (some m) = Ensures->>= (found _) (λ mode _.
        Ensures->>= (found _) (λ values _. just (omega (arith, length-append form.file _))))

file_selectors-Grows :
    (sels : List Json) (form : FormInput) → Ensures (GrowsForm form) (file_selectors sels form)
unfolding file_selectors file_selector
file_selectors-Grows [] form = just (omega arith)
file_selectors-Grows (sel ∷ sels) form =
    Ensures->>=
      (Ensures->>= (found _) (λ mbs _. Ensures->>= (found _) (λ args _.
        Ensures->>= (found _)
          (λ acc _. Ensures-if (ltb 1 acc.0) (λ _. nothing) (λ _. file_args-Grows _ _ _ form)))))
      (λ form' h. Ensures-weaken (λ _ k. omega arith) (file_selectors-Grows sels form'))

-- An execve or a file kprobe that the form can hold.
abbrev pub IsShown : Json → Type 0
IsShown kp =
    (call : Text) × (call_of kp ≡ some call)
    × ((is_exec_call call ≡ true) × (representable process_operators kp ≡ true)
        ⊎ (is_file_call call ≡ true) × (representable file_operators kp ≡ true))

-- What the branch on the call does: it reads a kprobe that is shown, or nothing.
abbrev Read : Text → Json → Progress → Progress → Type 0
Read call kp p p' =
    GrowsProgress p p'
    × ((rule_count p'.form ≡ rule_count p.form)
        ⊎ ((is_exec_call call ≡ true) × (representable process_operators kp ≡ true)
            ⊎ (is_file_call call ≡ true) × (representable file_operators kp ≡ true)))

read_call-Read :
    (call : Text) (kp : Json) (sels : List Json) (p : Progress)
    → Ensures (Read call kp p) (read_call call kp sels p)
unfolding read_call
read_call-Read call kp sels p =
    Ensures-if (is_exec_call call)
      (λ exec.
        Ensures-if (representable process_operators kp)
          (λ ok. Ensures-weaken (λ _ g. (g, inr (inl (exec, ok)))) (process_selectors-Grows sels p))
          (λ _. nothing))
      (λ _.
        Ensures-if (is_network_call call) (λ _. nothing)
          (λ _.
            Ensures-if (is_file_call call)
              (λ file.
                Ensures-if (representable file_operators kp)
                  (λ ok.
                    Ensures->>= (file_selectors-Grows sels p.form)
                      (λ form g. just (g, inr (inr (file, ok)))))
                  (λ _. nothing))
              (λ _. just (omega arith, inl refl))))

read_kprobe-IsShown :
    (kp : Json) (p : Progress)
    → Ensures (λ p'. (rule_count p.form + 1 ≤ rule_count p'.form) × IsShown kp) (read_kprobe kp p)
unfolding read_kprobe
read_kprobe-IsShown kp p = Ensures->>= (found (call_of kp)) (λ call is.
    Ensures->>= (found _) (λ sels _. Ensures->>= (read_call-Read call kp sels p) (λ p' r.
      Ensures-if (rule_count p'.form == rule_count p.form) (λ _. nothing)
        (λ more. by_kind call is p' more r.0 r.1))))
  where
    by_kind :
        (call : Text)
        → call_of kp ≡ some call
        → (p' : Progress) → (rule_count p'.form == rule_count p.form) ≡ false
        → GrowsProgress p p'
        → (rule_count p'.form ≡ rule_count p.form)
          ⊎ ((is_exec_call call ≡ true) × (representable process_operators kp ≡ true)
              ⊎ (is_file_call call ≡ true) × (representable file_operators kp ≡ true))
        → Ensures (λ q. (rule_count p.form + 1 ≤ rule_count q.form) × IsShown kp) (some p')
    by_kind call is p' more grows (inl same) = absurd (ground arith)
    by_kind call is p' more grows (inr kind) = just (ground arith, (call, is, kind))

read_kprobes-IsShown :
    (kps : List Json) (p : Progress)
    → Ensures
        (λ p'. (rule_count p.form + length kps ≤ rule_count p'.form) × All IsShown kps)
        (read_kprobes kps p)
unfolding read_kprobes
read_kprobes-IsShown [] p = just (omega arith, tt)
read_kprobes-IsShown (kp ∷ kps) p = Ensures->>= (read_kprobe-IsShown kp p) (λ q h.
    Ensures-weaken (λ _ k. (omega (arith, h.0, k.0), (h.1, k.1))) (read_kprobes-IsShown kps q))

-- When a document opens as a form, each of its kprobes is an execve kprobe or a file kprobe that
-- passes `representable`, and the form has at least as many rules as the document has kprobes:
-- no kprobe is dropped without a trace, and none of a network call opens.
pub read_doc-IsShown :
    (doc : Json) (kps : List Json) (form : FormInput)
    → read_doc doc ≡ some form
    → iterate (prop_of (lit "kprobes") (prop (lit "spec") doc)) ≡ some kps
    → All IsShown kps × (length kps ≤ rule_count form)
unfolding read_doc
read_doc-IsShown doc kps form e reads =
    let (h, shown) =
      ensured {P = λ f. (length kps ≤ rule_count f) × All IsShown kps}
        (Ensures->>= (found _) (λ name _. Ensures->>= (found _) (λ kps' same.
          Ensures->>= (read_kprobes-IsShown kps' _) (λ p h. just (
            subst (λ l. (length l ≤ rule_count p.form) × All IsShown l)
              (some-eq _ _ (sym same ∙ reads)) (omega (arith, h.0), h.1))))))
        e in
    (shown, h)
