-- ===== src/Tracing/Absolute.antt =====
-- The binaries of a form that was read are absolute paths.
use k8s_sentinel.Base.{
  Text, lit, starts_with, Bool-cases, Ensures, nothing, just, ensured, found, Ensures->>=,
  Ensures-if, Ensures-weaken, subst, sym, ◌∙◌, ◌&&◌, ltb, All, All-append, true, List, [], ◌∷◌,
  Option, none, some, inl, inr, ◌≡◌, refl, Json, prop, truthy, not, is_empty, trim, ◌==◌, as_text,
}
use k8s_sentinel.Tracing.{Mode, Permission, ProcessRule, FormInput, Progress}
use k8s_sentinel.Tracing.Representable.{is_number, representable, process_operators, file_operators}
use k8s_sentinel.Tracing.Selectors.{
  absolute, push_binary, push_binaries, note_process_mode, process_arg, process_match_binaries,
  process_args, process_selector, file_mode_of, file_arg_at, file_arg, file_args, file_selector,
}
use k8s_sentinel.Tracing.Reader.{
  is_exec_call, is_network_call, is_file_call, rule_count, process_selectors, file_selectors,
  read_call, read_kprobe, read_kprobes, start_form, read_doc, yaml_to_form,
}

abbrev pub IsAbsolute : Text → Type 0
IsAbsolute b = starts_with b (lit "/") ≡ true

abbrev pub HasAbsolute : List ProcessRule → Type 0
HasAbsolute = All (λ r. All IsAbsolute r.binaries)

absolute-IsAbsolute : (b : Text) → IsAbsolute (absolute b)
unfolding absolute starts_with lit
absolute-IsAbsolute b = elim (Bool-cases (starts_with b (lit "/"))) [
  | inl slash ↦ rw slash slash
  | inr bare ↦ rw bare
]

push_binary-HasAbsolute :
    (b : Json) (rules : List ProcessRule)
    → HasAbsolute rules
    → Ensures HasAbsolute (push_binary b rules)
unfolding push_binary
push_binary-HasAbsolute b rules h =
    Ensures-if (not (truthy b)) (λ _. just h)
      (λ _. Ensures->>= (found (as_text b)) (λ t _. just (
        All-append _ rules (record { binaries = absolute t ∷ [] } ∷ []) h
          ((absolute-IsAbsolute t, tt), tt))))

push_binaries-HasAbsolute :
    (bs : List Json) (rules : List ProcessRule)
    → HasAbsolute rules
    → Ensures HasAbsolute (push_binaries bs rules)
unfolding push_binaries
push_binaries-HasAbsolute [] rules h = just h
push_binaries-HasAbsolute (b ∷ bs) rules h =
    Ensures->>= (push_binary-HasAbsolute b rules h) (push_binaries-HasAbsolute bs)

process_match_binaries-HasAbsolute :
    (mbs : List Json) (rules : List ProcessRule)
    → HasAbsolute rules
    → Ensures HasAbsolute (process_match_binaries mbs rules)
unfolding process_match_binaries
process_match_binaries-HasAbsolute [] rules h = just h
process_match_binaries-HasAbsolute (mb ∷ mbs) rules h = Ensures->>= (found _) (λ bins _.
    Ensures->>= (push_binaries-HasAbsolute bins rules h) (process_match_binaries-HasAbsolute mbs))

-- The invariant of the loops, on the form so far.
abbrev IsGood : Progress → Type 0
IsGood p = HasAbsolute p.form.process

note_process_mode-IsGood :
    (m : Option Mode) (p : Progress) → IsGood p → Ensures IsGood (note_process_mode m p)
unfolding note_process_mode
note_process_mode-IsGood none p h = just h
note_process_mode-IsGood (some m) p h = Ensures->>= (found _) (λ _ _. just h)

process_arg-IsGood : (ma : Json) (p : Progress) → IsGood p → Ensures IsGood (process_arg ma p)
unfolding process_arg
process_arg-IsGood ma p h = Ensures->>= (note_process_mode-IsGood _ p h) (λ q hq.
    Ensures->>= (found _) (λ bins _.
      Ensures->>= (push_binaries-HasAbsolute bins q.form.process hq) (λ rules hr. just hr)))

process_args-IsGood :
    (args : List Json) (sel : Json) (p : Progress)
    → IsGood p
    → Ensures IsGood (process_args args sel p)
unfolding process_args
process_args-IsGood [] sel p h = Ensures->>= (found _) (λ mbs _.
    Ensures->>= (process_match_binaries-HasAbsolute mbs p.form.process h) (λ rules hr. just hr))
process_args-IsGood (ma ∷ more) sel p h =
    Ensures-if (is_number (lit "0") (prop (lit "index") ma) && is_empty more)
      (λ _. process_arg-IsGood ma p h) (λ _. nothing)

process_selectors-IsGood :
    (sels : List Json) (p : Progress) → IsGood p → Ensures IsGood (process_selectors sels p)
unfolding process_selectors process_selector
process_selectors-IsGood [] p h = just h
process_selectors-IsGood (sel ∷ sels) p h =
    Ensures->>= (Ensures->>= (found _) (λ args _. process_args-IsGood args sel p h))
      (process_selectors-IsGood sels)

-- A file rule leaves the processes alone.
abbrev SameProcess : FormInput → FormInput → Type 0
SameProcess form form' = form'.process ≡ form.process

file_arg-SameProcess :
    (except : List Json) (permission : Option Permission) (ma : Json) (form : FormInput)
    → Ensures (SameProcess form) (file_arg except permission ma form)
unfolding file_arg
file_arg-SameProcess except permission ma form = by_mode (file_mode_of (prop (lit "operator") ma))
  where
    by_mode :
        (m : Option Mode) → Ensures (SameProcess form) (file_arg_at m except permission ma form)
    by_mode none = just refl
    by_mode (some m) =
        Ensures->>= (found _) (λ mode _. Ensures->>= (found _) (λ values _. just refl))

file_args-SameProcess :
    (except : List Json) (permission : Option Permission) (mas : List Json) (form : FormInput)
    → Ensures (SameProcess form) (file_args except permission mas form)
unfolding file_args
file_args-SameProcess except permission [] form = just refl
file_args-SameProcess except permission (ma ∷ mas) form =
    Ensures->>= (file_arg-SameProcess except permission ma form)
      (λ form' h. Ensures-weaken (λ _ k. k ∙ h) (file_args-SameProcess except permission mas form'))

file_selector-SameProcess :
    (sel : Json) (form : FormInput) → Ensures (SameProcess form) (file_selector sel form)
unfolding file_selector
file_selector-SameProcess sel form = Ensures->>= (found _) (λ mbs _.
    Ensures->>= (found _) (λ args _.
      Ensures->>= (found _)
        (λ acc _. Ensures-if (ltb 1 acc.0) (λ _. nothing) (λ _. file_args-SameProcess _ _ _ form))))

file_selectors-SameProcess :
    (sels : List Json) (form : FormInput) → Ensures (SameProcess form) (file_selectors sels form)
unfolding file_selectors
file_selectors-SameProcess [] form = just refl
file_selectors-SameProcess (sel ∷ sels) form =
    Ensures->>= (file_selector-SameProcess sel form)
      (λ form' h. Ensures-weaken (λ _ k. k ∙ h) (file_selectors-SameProcess sels form'))

read_call-IsGood :
    (call : Text) (kp : Json) (sels : List Json) (p : Progress)
    → IsGood p
    → Ensures IsGood (read_call call kp sels p)
unfolding read_call
read_call-IsGood call kp sels p h =
    Ensures-if (is_exec_call call)
      (λ _.
        Ensures-if (representable process_operators kp) (λ _. process_selectors-IsGood sels p h)
          (λ _. nothing))
      (λ _.
        Ensures-if (is_network_call call) (λ _. nothing)
          (λ _.
            Ensures-if (is_file_call call)
              (λ _.
                Ensures-if (representable file_operators kp)
                  (λ _.
                    Ensures->>= (file_selectors-SameProcess sels p.form)
                      (λ form same. just (subst HasAbsolute (sym same) h)))
                  (λ _. nothing))
              (λ _. just h)))

read_kprobes-IsGood :
    (kps : List Json) (p : Progress) → IsGood p → Ensures IsGood (read_kprobes kps p)
unfolding read_kprobes read_kprobe
read_kprobes-IsGood [] p h = just h
read_kprobes-IsGood (kp ∷ kps) p h =
    Ensures->>=
      (Ensures->>= (found _) (λ call _. Ensures->>= (found _) (λ sels _.
        Ensures->>= (read_call-IsGood call kp sels p h) (λ p' h'.
          Ensures-if (rule_count p'.form == rule_count p.form) (λ _. nothing) (λ _. just h')))))
      (read_kprobes-IsGood kps)

-- Every binary of the process rules of a form that `yamlToForm` reads begins with a slash, whatever the
-- policy holds. The binaries that file rules except are not among these.
pub yaml_to_form-HasAbsolute :
    (load : Text → Option Json) (raw : Text) (form : FormInput)
    → yaml_to_form load raw ≡ some form
    → HasAbsolute form.process
unfolding yaml_to_form read_doc start_form
yaml_to_form-HasAbsolute load raw form e =
    ensured {P = λ (f : FormInput). HasAbsolute f.process}
      (Ensures-if (is_empty (trim raw)) (λ _. nothing)
        (λ _. Ensures->>= (found (load raw)) (λ doc _. Ensures->>= (found _) (λ name _.
          Ensures->>= (found _)
            (λ kps _. Ensures->>= (read_kprobes-IsGood kps _ tt) (λ p h. just h))))))
      e
