-- ===== src/Vap/Binding.antt =====
-- pages/VAPPage.tsx: `generateBindingYaml`.
use k8s_sentinel.Base.{Text, lit, trim, join, is_empty, filter, not, List, [], ◌∷◌, ◌++◌, map}
use k8s_sentinel.Vap.{ValidationAction}
use k8s_sentinel.Vap.Escape.{escape_yaml}
use k8s_sentinel.Vap.Rules.{or_text}

pub data BindingNsMode : Type 0 where
  all include exclude : BindingNsMode

-- `namespaces.map(n => n.trim()).filter(Boolean)`
unfoldable pub ns_list : List Text → List Text
unfolding trim
ns_list namespaces = filter (λ n. not (is_empty n)) (map trim namespaces)

abbrev actions_text : List ValidationAction → Text
actions_text [] = lit "Deny"
actions_text (a ∷ as') = join (lit ", ") (a ∷ as')

abbrev operator_name : BindingNsMode → Text
operator_name include = lit "In"
operator_name _ = lit "NotIn"

abbrev match_label_lines : Text → List Text
match_label_lines ns =
    lit "  matchResources:"
    ∷ lit "    namespaceSelector:"
    ∷ lit "      matchLabels:"
    ∷ (lit "        kubernetes.io/metadata.name: " ++ ns)
    ∷ []

abbrev match_expression_lines : BindingNsMode → List Text → List Text
match_expression_lines mode namespaces =
    lit "  matchResources:"
    ∷ lit "    namespaceSelector:"
    ∷ lit "      matchExpressions:"
    ∷ lit "        - key: kubernetes.io/metadata.name"
    ∷ (lit "          operator: " ++ operator_name mode)
    ∷ lit "          values:"
    ∷ map (λ n. lit "            - " ++ n) namespaces

-- The lines of the namespace selector. One included namespace keeps the older shape.
unfoldable pub selector_lines : BindingNsMode → List Text → List Text
selector_lines all namespaces = []
selector_lines include [] = []
selector_lines include (n ∷ []) = match_label_lines n
selector_lines include (n ∷ m ∷ ns) = match_expression_lines include (n ∷ m ∷ ns)
selector_lines exclude [] = []
selector_lines exclude (n ∷ ns) = match_expression_lines exclude (n ∷ ns)

unfoldable pub binding_lines :
    Text → Text → BindingNsMode → List Text → List ValidationAction → List Text
unfolding selector_lines ns_list join
binding_lines name policy_name ns_mode namespaces actions =
    lit "apiVersion: admissionregistration.k8s.io/v1"
    ∷ lit "kind: ValidatingAdmissionPolicyBinding"
    ∷ lit "metadata:"
    ∷ (lit "  name: \"" ++ escape_yaml (or_text (trim name) (lit "my-binding")) ++ lit "\"")
    ∷ lit "  annotations:"
    ∷ lit "    sentinel.io/builder: \"true\""
    ∷ lit "spec:"
    ∷ (lit "  policyName: \""
        ++ escape_yaml (or_text (trim policy_name) (lit "my-policy"))
        ++ lit "\"")
    ∷ (lit "  validationActions: [" ++ actions_text actions ++ lit "]")
    ∷ selector_lines ns_mode (ns_list namespaces)

unfoldable pub generate_binding_yaml :
    Text → Text → BindingNsMode → List Text → List ValidationAction → Text
unfolding binding_lines join
generate_binding_yaml name policy_name ns_mode namespaces actions =
    join (10 ∷ []) (binding_lines name policy_name ns_mode namespaces actions)
