-- ===== src/Cnp/Labels/Matching.antt =====
-- utils/cnpForm.ts: which value `toMatchLabels` gives to a label key.
use k8s_sentinel.Base.{
  Text, trim, ◌===◌, is_empty, Object, get, get-assign, if◌then◌else◌, ◌||◌, List, [], ◌∷◌, Option,
  none, some, ◌≡◌, refl, arith, ap, ◌∙◌, sym,
}
use k8s_sentinel.Cnp.{LabelPair, Rule, FormInput}
use k8s_sentinel.Cnp.Labels.{
  namespace_key, resolve_key, add_row, add_rows, to_match_labels, with_namespace,
  subject_match_labels, peer_match_labels,
}

-- The value that one row gives to the key `j`: the row is filled in, and its key stands for `j`.
abbrev pub row_value : Text → LabelPair → Option Text
row_value j p =
    if is_empty (trim p.key) || is_empty (trim p.value)
    then none
    else if resolve_key (trim p.key) === j
    then some (trim p.value)
    else none

abbrev pub first_of : Option Text → Option Text → Option Text
first_of none o = o
first_of (some v) o = some v

-- The value of the last row that gives one.
abbrev pub last_value : Text → List LabelPair → Option Text
last_value j [] = none
last_value j (p ∷ ps) = first_of (last_value j ps) (row_value j p)

first_of_assoc : (a b c : Option Text) → first_of (first_of a b) c ≡ first_of a (first_of b c)
first_of_assoc none b c = refl
first_of_assoc (some v) b c = refl

first_of-none : (a : Option Text) → first_of a none ≡ a
first_of-none none = refl
first_of-none (some v) = refl

get-add_row :
    (j : Text) (p : LabelPair) (out : Object Text)
    → get j (add_row p out) ≡ first_of (row_value j p) (get j out)
unfolding add_row
get-add_row j p out = ground (arith, get-assign (resolve_key (trim p.key)) j (trim p.value) out)

get-add_rows :
    (j : Text) (ps : List LabelPair) (out : Object Text)
    → get j (add_rows ps out) ≡ first_of (last_value j ps) (get j out)
unfolding add_rows
get-add_rows j [] out = refl
get-add_rows j (p ∷ ps) out =
    get-add_rows j ps (add_row p out)
    ∙ ap (first_of (last_value j ps)) (get-add_row j p out)
    ∙ sym (first_of_assoc (last_value j ps) (row_value j p) (get j out))

get-to_match_labels :
    (j : Text) (ps : List LabelPair) → get j (to_match_labels ps) ≡ last_value j ps
unfolding to_match_labels get
get-to_match_labels j ps = get-add_rows j ps [] ∙ first_of-none (last_value j ps)

-- The value of the namespace that is chosen in a field of its own.
abbrev pub namespace_value : Text → Text → Option Text
namespace_value j ns =
    if is_empty (trim ns) then none else if namespace_key === j then some (trim ns) else none

get-with_namespace :
    (j ns : Text) (o : Object Text)
    → get j (with_namespace ns o) ≡ first_of (namespace_value j ns) (get j o)
unfolding with_namespace
get-with_namespace j ns o = ground (arith, get-assign namespace_key j (trim ns) o)

-- Each key that the subject of a policy matches on has the value of the namespace field, where that is
-- filled in and the key is the namespace's, and else the value of the last row that is filled in and
-- stands for the key; a key with neither is not matched on.
get-subject_match_labels :
    (f : FormInput) (j : Text)
    → get j (subject_match_labels f)
      ≡ first_of (namespace_value j f.subject_namespace) (last_value j f.subject)
unfolding subject_match_labels
get-subject_match_labels f j =
    get-with_namespace j f.subject_namespace (to_match_labels f.subject)
    ∙ ap (first_of (namespace_value j f.subject_namespace)) (get-to_match_labels j f.subject)

-- The labels of a rule's peer are read off its rows and its namespace field in the same way.
get-peer_match_labels :
    (r : Rule) (j : Text)
    → get j (peer_match_labels r)
      ≡ first_of (namespace_value j r.peer_namespace) (last_value j r.peer_labels)
unfolding peer_match_labels
get-peer_match_labels r j =
    get-with_namespace j r.peer_namespace (to_match_labels r.peer_labels)
    ∙ ap (first_of (namespace_value j r.peer_namespace)) (get-to_match_labels j r.peer_labels)
