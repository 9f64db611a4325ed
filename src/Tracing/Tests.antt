-- ===== src/Tracing/Tests.antt =====
-- Concrete policies, and the theorems at them.
mod Pages
use k8s_sentinel.Base.{
  Text, lit, ◌===◌, trim, includes, starts_with, List, [], ◌∷◌, Option, none, some, Json, str, num,
  object, array, get, All, ◌≡◌, refl, ◌>>=◌, member, ◌≤◌,
}
use k8s_sentinel.Tracing.{blacklist, whitelist, FormInput, read}
use k8s_sentinel.Tracing.Reader.{read_doc, yaml_to_form, rule_count}
use k8s_sentinel.Tracing.Absolute.{HasAbsolute, yaml_to_form-HasAbsolute}
use k8s_sentinel.Tracing.Counts.{IsShown, read_doc-IsShown}

reader : Unit {0}
unfolding lit ◌===◌ trim includes starts_with get ◌>>=◌ yaml_to_form member
reader = tt

abbrev arg : Text → Text → Json → Json
arg index operator values =
    object ((lit "index", num index) ∷ (lit "operator", str operator) ∷ (lit "values", values) ∷ [])

abbrev exec_kprobe : Json
exec_kprobe = object (
    (lit "call", str (lit "sys_execve"))
    ∷ (
      lit "selectors",
      array (
          object (
            (
              lit "matchArgs",
              array (
                  arg (lit "0") (lit "Equal") (array (str (lit "/bin/sh") ∷ str (lit "curl") ∷ []))
                  ∷ []),
            )
            ∷ [])
          ∷ []),
    )
    ∷ [])

abbrev file_kprobe : Json
file_kprobe = object (
    (lit "call", str (lit "security_file_permission"))
    ∷ (
      lit "selectors",
      array (
          object (
            (
              lit "matchArgs",
              array (
                  arg (lit "0") (lit "Prefix") (array (str (lit "/etc") ∷ []))
                  ∷ arg (lit "1") (lit "Equal") (array (num (lit "4") ∷ []))
                  ∷ []),
            )
            ∷ [])
          ∷ []),
    )
    ∷ [])

abbrev pub policy : List Json → Json
policy kps = object (
    (lit "metadata", object ((lit "name", str (lit "p")) ∷ []))
    ∷ (lit "spec", object ((lit "kprobes", array kps) ∷ []))
    ∷ [])

abbrev shell_form : FormInput
shell_form = record {
  name = str (lit "p");
  namespace = none;
  pod_selector = none;
  process_mode = blacklist;
  process = record { binaries = lit "/bin/sh" ∷ [] } ∷ record { binaries = lit "/curl" ∷ [] } ∷ [];
  file_mode = some blacklist;
  file =
      record { paths = str (lit "/etc") ∷ []; except_binaries = none; permission = some read } ∷ [];
}

abbrev load_policy : Text → Option Json
load_policy raw = some (policy (exec_kprobe ∷ file_kprobe ∷ []))

read_test : read_doc (policy (exec_kprobe ∷ file_kprobe ∷ [])) ≡ some shell_form
unfolding reader
read_test = refl

network_test : read_doc (policy (object ((lit "call", str (lit "tcp_connect")) ∷ []) ∷ [])) ≡ none
unfolding reader
network_test = refl

yaml_to_form-HasAbsolute_example : HasAbsolute shell_form.process
unfolding reader
yaml_to_form-HasAbsolute_example = yaml_to_form-HasAbsolute load_policy (lit "x") shell_form refl

read_doc-IsShown_example :
    All IsShown (exec_kprobe ∷ file_kprobe ∷ []) × (2 ≤ rule_count shell_form)
unfolding reader
read_doc-IsShown_example =
    read_doc-IsShown (policy (exec_kprobe ∷ file_kprobe ∷ [])) (exec_kprobe ∷ file_kprobe ∷ [])
      shell_form read_test refl

-- A selector that matches by binaries, under the operator given, and one that matches by its argument.
abbrev by_binary : Text → Json
by_binary operator = object (
    (
      lit "matchBinaries",
      array (
          object
            ((lit "operator", str operator) ∷ (lit "values", array (str (lit "/bin/a") ∷ [])) ∷ [])
          ∷ []),
    )
    ∷ [])

abbrev mixed : Json
mixed = policy (
    object (
      (lit "call", str (lit "sys_execve"))
      ∷ (
        lit "selectors",
        array (
            by_binary (lit "NotIn")
            ∷ object (
                (
                  lit "matchArgs",
                  array (arg (lit "0") (lit "Equal") (array (str (lit "/bin/b") ∷ [])) ∷ []),
                )
                ∷ [])
            ∷ []),
      )
      ∷ [])
    ∷ [])

abbrev shown_modes : Option FormInput → Option Text
shown_modes none = none
shown_modes (some f) = elim f.process_mode [
  | whitelist ↦ some (lit "whitelist")
  | blacklist ↦ some (lit "blacklist")
]

-- The exception of older policies is read as one more binary of the blacklist, and inverted on save.
mixed-shown : shown_modes (read_doc mixed) ≡ some (lit "blacklist")
unfolding lit ◌===◌ trim includes starts_with get ◌>>=◌ read_doc member
mixed-shown = refl
