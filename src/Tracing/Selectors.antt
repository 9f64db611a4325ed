-- ===== src/Tracing/Selectors.antt =====
-- utils/yamlToForm.ts: what one selector of an execve or a file kprobe adds to the form.
use k8s_sentinel.Base.{
  Text, lit, ◌===◌, is_empty, ltb, filter, starts_with, flat_map, ◌+◌, ℕ, if◌then◌else◌, ◌&&◌, ◌||◌,
  not, Bool, true, false, List, [], ◌∷◌, ◌++◌, map, Option, none, some, ◌>>=◌, Json, null, bool,
  num, str, arr, obj, Items, nil, cons, prop, as_text, truthy, of_items,
}
use k8s_sentinel.Tracing.{
  Mode, whitelist, blacklist, Permission, read, write, ProcessRule, FileRule, FormInput, Progress,
}
use k8s_sentinel.Tracing.Representable.{array_or_empty, iterate, is_text, is_number, is_null}

-- `NotEqual` and `NotPostfix` exclude the binaries, `Equal` and `Postfix` name them.
unfoldable pub process_mode_of : Option Json → Option Mode
process_mode_of op =
    if is_text (lit "NotEqual") op || is_text (lit "NotPostfix") op
    then some whitelist
    else if is_text (lit "Equal") op || is_text (lit "Postfix") op
    then some blacklist
    else none

unfoldable pub file_mode_of : Option Json → Option Mode
file_mode_of op =
    if is_text (lit "NotPrefix") op
    then some whitelist
    else if is_text (lit "Prefix") op
    then some blacklist
    else none

abbrev pub same_mode : Mode → Mode → Bool
same_mode whitelist whitelist = true
same_mode blacklist blacklist = true
same_mode _ _ = false

-- The mode after one more that was read: `none` if it contradicts the first.
unfoldable pub meet_mode : Option Mode → Mode → Option Mode
meet_mode none m = some m
meet_mode (some seen) m = if same_mode seen m then some m else none

unfoldable pub absolute : Text → Text
unfolding starts_with
absolute bin = if starts_with bin (lit "/") then bin else lit "/" ++ bin

-- `if (bin) result.process.push(...)`, which throws at a true value that is no text.
unfoldable pub push_binary : Json → List ProcessRule → Option (List ProcessRule)
unfolding absolute
push_binary bin rules =
    if not (truthy bin)
    then some rules
    else do b ← as_text bin; some (rules ++ record { binaries = absolute b ∷ [] } ∷ [])

unfoldable pub push_binaries : List Json → List ProcessRule → Option (List ProcessRule)
unfolding push_binary
push_binaries [] rules = some rules
push_binaries (b ∷ bs) rules = do rules' ← push_binary b rules; push_binaries bs rules'

-- The mode of one argument, noted in the form and in `processModeSeen`.
unfoldable pub note_process_mode : Option Mode → Progress → Option Progress
unfolding meet_mode
note_process_mode none p = some p
note_process_mode (some m) p = do
  _ ← meet_mode p.process_mode_seen m
  some (record { form = record (p.form) { process_mode = m }; process_mode_seen = some m })

abbrev pub with_process : Progress → List ProcessRule → Progress
with_process p rules = record p { form = record (p.form) { process = rules } }

-- One round of the loop over `matchArgs`.
unfoldable pub process_arg : Json → Progress → Option Progress
unfolding process_mode_of note_process_mode push_binaries
process_arg ma p = do
  p' ← note_process_mode (process_mode_of (prop (lit "operator") ma)) p
  bins ← iterate (prop (lit "values") ma)
  rules ← push_binaries bins p'.form.process
  some (with_process p' rules)

-- The older form: the binaries of `matchBinaries`.
unfoldable pub process_match_binaries : List Json → List ProcessRule → Option (List ProcessRule)
unfolding push_binaries
process_match_binaries [] rules = some rules
process_match_binaries (mb ∷ mbs) rules = do
  bins ← (if is_null mb then none else iterate (prop (lit "values") mb))
  rules' ← push_binaries bins rules
  process_match_binaries mbs rules'

-- A selector has at most one argument, and that at index 0.
unfoldable pub process_args : List Json → Json → Progress → Option Progress
unfolding process_arg process_match_binaries
process_args [] sel p = do
  mbs ← iterate (prop (lit "matchBinaries") sel)
  rules ← process_match_binaries mbs p.form.process
  some (with_process p rules)
process_args (ma ∷ more) sel p =
    if is_number (lit "0") (prop (lit "index") ma) && is_empty more then process_arg ma p else none

unfoldable pub process_selector : Json → Progress → Option Progress
unfolding process_args
process_selector sel p = do
  args ← (if is_null sel then none else array_or_empty (prop (lit "matchArgs") sel))
  process_args args sel p

-- `String(v)`, where an object is not told apart from another.
mutual
  pub string_of : Json → Text
  string_of null = lit "null"
  string_of (bool true) = lit "true"
  string_of (bool false) = lit "false"
  string_of (num n) = n
  string_of (str s) = s
  string_of (arr xs) = string_items xs
  string_of (obj o) = lit "[object Object]"

  pub string_items : Items → Text
  string_items nil = []
  string_items (cons null nil) = []
  string_items (cons x nil) = string_of x
  string_items (cons null (cons y ys)) = lit "," ++ string_items (cons y ys)
  string_items (cons x (cons y ys)) = string_of x ++ lit "," ++ string_items (cons y ys)

-- `vals[0]` as a permission: a single value of MAY_READ (4) or MAY_WRITE (2).
unfoldable pub permission_of : List Json → Option Permission
unfolding string_of
permission_of (v ∷ []) =
    if string_of v === lit "4"
    then some read
    else if string_of v === lit "2"
    then some write
    else none
permission_of _ = none

-- The loop that counts the path arguments and reads the permission: `idx0Count`, `permission`.
unfoldable pub scan_args : List Json → ℕ × Option Permission → Option (ℕ × Option Permission)
unfolding permission_of
scan_args [] acc = some acc
scan_args (ma ∷ mas) (paths, permission) =
    let at_path = scan_args mas (paths + 1, permission) in
    let at_other = (do
      vals ←
          (if is_number (lit "1") (prop (lit "index") ma)
              && is_text (lit "Equal") (prop (lit "operator") ma)
            then array_or_empty (prop (lit "values") ma)
            else none)
      found ← permission_of vals
      (elim permission [ none ↦ scan_args mas (paths, some found) | some _ ↦ none ])) in
    if is_number (lit "0") (prop (lit "index") ma) then at_path else at_other

-- `xs.flatMap(f)` keeps a result that is no array as one entry.
abbrev flat_values : Option Json → List Json
flat_values none = []
flat_values (some null) = []
flat_values (some (arr xs)) = of_items xs
flat_values (some j) = j ∷ []

-- `exceptBins`
unfoldable pub except_bins : List Json → List Json
except_bins mbs = filter truthy (
    flat_map (λ mb. flat_values (prop (lit "values") mb))
      (filter (λ mb. is_text (lit "NotIn") (prop (lit "operator") mb)) mbs))

abbrev pub unless_empty : List Json → Option (List Json)
unless_empty [] = none
unless_empty (x ∷ xs) = some (x ∷ xs)

-- A whitelist's paths are one rule, each path of a blacklist is a rule of its own.
unfoldable pub file_rules :
    Mode → List Json → Option (List Json) → Option Permission → List FileRule
file_rules whitelist [] except permission = []
file_rules whitelist (x ∷ xs) except permission =
    record { paths = x ∷ xs; except_binaries = except; permission = permission } ∷ []
file_rules blacklist paths except permission =
    map (λ path. record { paths = path ∷ []; except_binaries = except; permission = permission })
      paths

-- One path argument of a known mode: the form's file mode and its file rules.
unfoldable pub file_arg_at :
    Option Mode → List Json → Option Permission → Json → FormInput → Option FormInput
unfolding meet_mode file_rules
file_arg_at none except permission ma form = some form
file_arg_at (some m) except permission ma form = do
  mode ← meet_mode form.file_mode m
  values ← array_or_empty (prop (lit "values") ma)
  some (record form {
    file_mode = some mode;
    file = form.file ++ file_rules m (filter truthy values) (unless_empty except) permission;
  })

unfoldable pub file_arg : List Json → Option Permission → Json → FormInput → Option FormInput
unfolding file_mode_of file_arg_at
file_arg except permission ma form =
    file_arg_at (file_mode_of (prop (lit "operator") ma)) except permission ma form

unfoldable pub file_args : List Json → Option Permission → List Json → FormInput → Option FormInput
unfolding file_arg
file_args except permission [] form = some form
file_args except permission (ma ∷ mas) form = do
  form' ← file_arg except permission ma form
  file_args except permission mas form'

unfoldable pub file_selector : Json → FormInput → Option FormInput
unfolding except_bins scan_args file_args
file_selector sel form = do
  mbs ← (if is_null sel then none else array_or_empty (prop (lit "matchBinaries") sel))
  args ← array_or_empty (prop (lit "matchArgs") sel)
  (paths, permission) ← scan_args args (0, none)
  (if ltb 1 paths
      then none
      else file_args (except_bins mbs) permission
          (filter (λ a. is_number (lit "0") (prop (lit "index") a)) args) form)
