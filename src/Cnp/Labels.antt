-- ===== src/Cnp/Labels.antt =====
-- utils/cnpForm.ts: label rows and the `matchLabels` objects that they stand for.
pub mod Matching
pub mod Rows
use k8s_sentinel.Base.{
  Text, lit, trim, ◌===◌, member, is_empty, Object, assign, if◌then◌else◌, ◌||◌, List, [], ◌∷◌, map,
}
use k8s_sentinel.Cnp.{LabelPair, Rule, FormInput, empty_label}

abbrev pub namespace_key : Text
namespace_key = lit "io.kubernetes.pod.namespace"

abbrev pub namespace_aliases : List Text
namespace_aliases = lit "namespace" ∷ lit "ns" ∷ []

-- The label key that a row's key stands for.
unfoldable pub resolve_key : Text → Text
resolve_key key = if member key namespace_aliases then namespace_key else key

-- One round of the loop of `toMatchLabels`.
unfoldable pub add_row : LabelPair → Object Text → Object Text
unfolding resolve_key
add_row p out =
    if is_empty (trim p.key) || is_empty (trim p.value)
    then out
    else assign (resolve_key (trim p.key)) (trim p.value) out

unfoldable pub add_rows : List LabelPair → Object Text → Object Text
unfolding add_row
add_rows [] out = out
add_rows (p ∷ ps) out = add_rows ps (add_row p out)

unfoldable pub to_match_labels : List LabelPair → Object Text
unfolding add_rows
to_match_labels pairs = add_rows pairs []

-- The namespace chosen in its own field is one more label.
unfoldable pub with_namespace : Text → Object Text → Object Text
with_namespace ns labels =
    if is_empty (trim ns) then labels else assign namespace_key (trim ns) labels

unfoldable pub subject_match_labels : FormInput → Object Text
unfolding to_match_labels with_namespace
subject_match_labels input = with_namespace input.subject_namespace (to_match_labels input.subject)

unfoldable pub peer_match_labels : Rule → Object Text
unfolding to_match_labels with_namespace
peer_match_labels rule = with_namespace rule.peer_namespace (to_match_labels rule.peer_labels)

unfoldable pub label_row : Text × Text → LabelPair
label_row (key, value) = record {
  key = if key === namespace_key then lit "namespace" else key;
  value = value;
}

unfoldable pub to_label_pairs : Object Text → List LabelPair
unfolding label_row
to_label_pairs [] = empty_label ∷ []
to_label_pairs (e ∷ o) = map label_row (e ∷ o)
