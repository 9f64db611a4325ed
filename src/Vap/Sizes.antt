-- ===== src/Vap/Sizes.antt =====
-- pages/VAPPage.tsx: the size limits of ConfigMaps and Secrets.
use k8s_sentinel.Base.{
  Text, lit, trim, decimal, is_digit, all, number_from, split, length, ltb, if◌then◌else◌, ◌&&◌,
  List, [], ◌∷◌, ◌++◌, map, ℕ, zero, suc, ◌*◌, ◌/◌,
}
use k8s_sentinel.Vap.{SizeLimitRule}
use k8s_sentinel.Vap.Escape.{escape_yaml}
use k8s_sentinel.Vap.Rules.{or_text}

abbrev power_of_ten : ℕ → ℕ
power_of_ten zero = 1
power_of_ten (suc n) = 10 * power_of_ten n

-- `Math.floor(Number(kb) * 1024)` of a number in plain decimal notation, and 0 of any other text: a
-- sign, an exponent and hexadecimal digits are not modelled.
unfoldable pub decimal_times_1024 : List Text → ℕ
unfolding number_from
decimal_times_1024 (whole ∷ []) = if all is_digit whole then number_from 0 whole * 1024 else 0
decimal_times_1024 (whole ∷ part ∷ []) =
    if all is_digit (whole ++ part) && ltb 0 (length (whole ++ part))
    then (number_from 0 (whole ++ part) * 1024) / power_of_ten (length part)
    else 0
decimal_times_1024 _ = 0

unfoldable pub kb_to_bytes : Text → ℕ
unfolding decimal_times_1024 split trim
kb_to_bytes kb = decimal_times_1024 (split b'.' (trim kb))

pub data SizeKind : Type 0 where
  config_map secret : SizeKind

abbrev pub size_kind_name : SizeKind → Text
size_kind_name config_map = lit "ConfigMap"
size_kind_name secret = lit "Secret"

-- `SIZE_TOTAL_EXPR`
abbrev pub size_total_expr : List Text
size_total_expr =
    lit "variables.newTotal <= variables.totalLimit ||"
    ∷ lit "(variables.isUpdate && variables.newTotal <= variables.oldTotal)"
    ∷ []

unfoldable pub auto_size_limit_message : SizeKind → SizeLimitRule → Text
unfolding kb_to_bytes decimal
auto_size_limit_message kind rule =
    if ltb 0 (kb_to_bytes rule.total_kb)
    then size_kind_name kind
      ++ lit " total size exceeds "
      ++ decimal (kb_to_bytes rule.total_kb)
      ++ lit " bytes"
    else size_kind_name kind ++ lit " total size limit exceeded"

unfoldable pub config_map_size_spec_lines : SizeLimitRule → List Text
unfolding kb_to_bytes decimal
config_map_size_spec_lines rule =
    lit "  matchConditions:"
    ∷ lit "    - name: skip-huge-maps"
    ∷ lit "      expression: >-"
    ∷ lit "        (has(object.data) ? size(object.data) : 0) +"
    ∷ lit "        (has(object.binaryData) ? size(object.binaryData) : 0) <= 200"
    ∷ lit "  variables:"
    ∷ lit "    - name: totalLimit"
    ∷ (lit "      expression: \"" ++ decimal (kb_to_bytes rule.total_kb) ++ lit "\"")
    ∷ lit "    - name: isUpdate"
    ∷ lit "      expression: 'request.operation == \"UPDATE\" && oldObject != null'"
    ∷ lit "    - name: newData"
    ∷ lit "      expression: \"has(object.data) ? object.data : {}\""
    ∷ lit "    - name: oldData"
    ∷ lit "      expression: \"(variables.isUpdate && has(oldObject.data)) ? oldObject.data : {}\""
    ∷ lit "    - name: newBin"
    ∷ lit "      expression: \"has(object.binaryData) ? object.binaryData : {}\""
    ∷ lit "    - name: oldBin"
    ∷ lit
        "      expression: \"(variables.isUpdate && has(oldObject.binaryData)) ? oldObject.binaryData : {}\""
    ∷ lit "    - name: newTotal"
    ∷ lit "      expression: >-"
    ∷ lit "        variables.newData.map(k, k.size() + bytes(variables.newData[k]).size()).sum() +"
    ∷ lit "        variables.newBin.map(k, k.size() + (variables.newBin[k].size() * 3) / 4).sum()"
    ∷ lit "    - name: oldTotal"
    ∷ lit "      expression: >-"
    ∷ lit "        variables.oldData.map(k, k.size() + bytes(variables.oldData[k]).size()).sum() +"
    ∷ lit "        variables.oldBin.map(k, k.size() + (variables.oldBin[k].size() * 3) / 4).sum()"
    ∷ []

unfoldable pub secret_size_spec_lines : SizeLimitRule → List Text
unfolding kb_to_bytes decimal
secret_size_spec_lines rule =
    lit "  matchConditions:"
    ∷ lit "    - name: skip-managed-types"
    ∷ lit "      expression: >-"
    ∷ lit "        !(object.type in ["
    ∷ lit "          \"kubernetes.io/service-account-token\","
    ∷ lit "          \"bootstrap.kubernetes.io/token\","
    ∷ lit "          \"helm.sh/release.v1\""
    ∷ lit "        ])"
    ∷ lit "    - name: skip-huge-maps"
    ∷ lit "      expression: \"(has(object.data) ? size(object.data) : 0) <= 200\""
    ∷ lit "  variables:"
    ∷ lit "    - name: totalLimit"
    ∷ (lit "      expression: \"" ++ decimal (kb_to_bytes rule.total_kb) ++ lit "\"")
    ∷ lit "    - name: isUpdate"
    ∷ lit "      expression: 'request.operation == \"UPDATE\" && oldObject != null'"
    ∷ lit "    - name: newData"
    ∷ lit "      expression: \"has(object.data) ? object.data : {}\""
    ∷ lit "    - name: oldData"
    ∷ lit "      expression: \"(variables.isUpdate && has(oldObject.data)) ? oldObject.data : {}\""
    ∷ lit "    - name: newTotal"
    ∷ lit "      expression: >-"
    ∷ lit "        variables.newData.map(k, k.size() + (variables.newData[k].size() * 3) / 4).sum()"
    ∷ lit "    - name: oldTotal"
    ∷ lit "      expression: >-"
    ∷ lit "        variables.oldData.map(k, k.size() + (variables.oldData[k].size() * 3) / 4).sum()"
    ∷ []

-- The one validation: the total size against the cap.
unfoldable pub size_rule_to_yaml_lines : SizeKind → SizeLimitRule → List Text
unfolding auto_size_limit_message trim
size_rule_to_yaml_lines kind rule =
    lit "    - expression: >-"
    ∷ (map (λ l. lit "        " ++ l) size_total_expr
        ++ (lit "      message: \""
            ++ escape_yaml (or_text (trim rule.message) (auto_size_limit_message kind rule))
            ++ lit "\"")
          ∷ lit "      reason: Forbidden"
          ∷ [])
