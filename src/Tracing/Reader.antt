-- ===== src/Tracing/Reader.antt =====
-- utils/yamlToForm.ts: the loop over the kprobes, and `yamlToForm`.
use k8s_sentinel.Base.{
  Text, lit, ◌===◌, trim, includes, is_empty, length, ◌+◌, ◌==◌, if◌then◌else◌, ◌||◌, Bool, List,
  [], ◌∷◌, Option, none, some, ◌>>=◌, Json, null, str, arr, obj, prop, prop_of, truthy, of_items,
  of_fields,
}
use k8s_sentinel.Tracing.{whitelist, FormInput, Progress}
use k8s_sentinel.Tracing.Representable.{iterate, representable, process_operators, file_operators}
use k8s_sentinel.Tracing.Selectors.{process_selector, file_selector}

abbrev pub is_exec_call : Text → Bool
is_exec_call call = (call === lit "sys_execve") || includes call (lit "sys_execve")

abbrev pub is_network_call : Text → Bool
is_network_call call = (call === lit "tcp_connect") || (call === lit "inet_csk_accept")

abbrev pub is_file_call : Text → Bool
is_file_call call =
    (call === lit "security_file_permission")
    || (call === lit "sys_read")
    || (call === lit "sys_write")
    || (call === lit "sys_openat")

unfoldable pub process_selectors : List Json → Progress → Option Progress
unfolding process_selector
process_selectors [] p = some p
process_selectors (sel ∷ sels) p = do p' ← process_selector sel p; process_selectors sels p'

unfoldable pub file_selectors : List Json → FormInput → Option FormInput
unfolding file_selector
file_selectors [] form = some form
file_selectors (sel ∷ sels) form = do form' ← file_selector sel form; file_selectors sels form'

-- `kp.call ?? ''`
abbrev pub call_of : Json → Option Text
call_of kp = elim (prop (lit "call") kp) [
  | none ↦ some []
  | some j ↦ elim j [ null ↦ some [] | str s ↦ some s | _ ↦ none ]
]

-- The branches on the call.
unfoldable pub read_call : Text → Json → List Json → Progress → Option Progress
unfolding process_selectors file_selectors includes representable
read_call call kp selectors p =
    if is_exec_call call
    then (if representable process_operators kp then process_selectors selectors p else none)
    else if is_network_call call
    then none
    else if is_file_call call
    then (if representable file_operators kp
        then (do form ← file_selectors selectors p.form; some (record p { form = form }))
        else none)
    else some p

-- How many rules the form has taken.
abbrev pub rule_count : FormInput → Prim.Native.Nat.ℕ
rule_count form = length form.process + length form.file

-- One kprobe, which must add something that the form can show.
unfoldable pub read_kprobe : Json → Progress → Option Progress
unfolding read_call
read_kprobe kp p = do
  call ← call_of kp
  selectors ← iterate (prop (lit "selectors") kp)
  p' ← read_call call kp selectors p
  (if rule_count p'.form == rule_count p.form then none else some p')

unfoldable pub read_kprobes : List Json → Progress → Option Progress
unfolding read_kprobe
read_kprobes [] p = some p
read_kprobes (kp ∷ kps) p = do p' ← read_kprobe kp p; read_kprobes kps p'

-- `x || undefined`
abbrev if_truthy : Option Json → Option Json
if_truthy none = none
if_truthy (some j) = if truthy j then some j else none

-- The selector's labels, if there are any.
abbrev nonempty_object : Option Json → Option Json
nonempty_object none = none
nonempty_object (some (obj o)) = if is_empty (of_fields o) then none else some (obj o)
nonempty_object (some (arr xs)) = if is_empty (of_items xs) then none else some (arr xs)
nonempty_object (some _) = none

unfoldable pub start_form : Json → Json → FormInput
start_form name doc = record {
  name = name;
  namespace = if_truthy (prop_of (lit "namespace") (prop (lit "metadata") doc));
  pod_selector =
      nonempty_object
        (prop_of (lit "matchLabels") (prop_of (lit "podSelector") (prop (lit "spec") doc)));
  process_mode = whitelist;
  process = [];
  file_mode = none;
  file = [];
}

-- The form of a document that js-yaml has read.
unfoldable pub read_doc : Json → Option FormInput
unfolding start_form read_kprobes
read_doc doc = do
  name ← if_truthy (prop_of (lit "name") (prop (lit "metadata") doc))
  kprobes ← iterate (prop_of (lit "kprobes") (prop (lit "spec") doc))
  p ← read_kprobes kprobes (record { form = start_form name doc; process_mode_seen = none })
  some p.form

-- `yaml.load` is a parameter: `none` where it throws or the document is empty.
unfoldable pub yaml_to_form : (Text → Option Json) → Text → Option FormInput
unfolding read_doc
yaml_to_form load raw = if is_empty (trim raw) then none else do doc ← load raw; read_doc doc
