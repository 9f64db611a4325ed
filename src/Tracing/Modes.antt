-- ===== src/Tracing/Modes.antt =====
-- utils/yamlToForm.ts: the mode of the arguments of execve selectors, and that of the form.
use k8s_sentinel.Base.{Text, lit, All, true, List, Option, some, ◌≡◌, Json, prop}
use k8s_sentinel.Tracing.{Mode, FormInput, Progress}
use k8s_sentinel.Tracing.Representable.{array_or_empty, iterate}
use k8s_sentinel.Tracing.Selectors.{process_mode_of}
use k8s_sentinel.Tracing.Reader.{is_exec_call, call_of}

-- The form has the mode that was seen.
abbrev HasSeen : Progress → Type 0
HasSeen p = (m : Mode) → p.process_mode_seen ≡ some m → p.form.process_mode ≡ m

-- A mode that was seen stays.
abbrev Keeps : Progress → Progress → Type 0
Keeps p p' = (m : Mode) → p.process_mode_seen ≡ some m → p'.process_mode_seen ≡ some m

abbrev Sees : Option Mode → Progress → Type 0
Sees o p = (m : Mode) → o ≡ some m → p.process_mode_seen ≡ some m

-- What a step does to the mode: it keeps the invariant and what was seen.
abbrev Steady : Progress → Progress → Type 0
Steady p p' = HasSeen p' × Keeps p p'

abbrev mode_of : Json → Option Mode
mode_of ma = process_mode_of (prop (lit "operator") ma)

-- What was seen of every argument of a list.
abbrev AllSeen : List Json → Progress → Type 0
AllSeen mas p = All (λ ma. Sees (mode_of ma) p) mas

-- A file rule leaves the process mode alone.
abbrev SameMode : FormInput → FormInput → Type 0
SameMode form form' = form'.process_mode ≡ form.process_mode

-- What holds of every selector's arguments.
abbrev pub OnArgs : (Json → Type 0) → List Json → Type 0
OnArgs P sels =
    All
      (λ sel.
        (args : List Json) → array_or_empty (prop (lit "matchArgs") sel) ≡ some args → All P args)
      sels

abbrev SeenIn : Progress → Json → Type 0
SeenIn p ma = Sees (mode_of ma) p

-- What holds of every argument of an execve kprobe.
abbrev pub OnExec : (Json → Type 0) → Json → Type 0
OnExec P kp =
    (call : Text)
    → call_of kp ≡ some call
    → is_exec_call call ≡ true
    → (sels : List Json) → iterate (prop (lit "selectors") kp) ≡ some sels
    → OnArgs P sels

-- The argument's operator has no mode, or the form's.
abbrev pub AgreesWith : FormInput → Json → Type 0
AgreesWith form ma =
    (m : Mode) → process_mode_of (prop (lit "operator") ma) ≡ some m → form.process_mode ≡ m
