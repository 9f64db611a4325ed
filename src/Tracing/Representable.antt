-- ===== src/Tracing/Representable.antt =====
-- utils/yamlToForm.ts: `representable`, the test that a kprobe holds nothing the form would drop,
-- with the readings of unknown values that the whole file shares.
use k8s_sentinel.Base.{
  Text, lit, ◌===◌, member, length, ltb, any, all, ◌&&◌, not, Bool, true, false, List, [], ◌∷◌, map,
  Option, none, some, Json, null, bool, num, str, arr, obj, prop, as_array, of_items, of_fields,
}

-- `x ?? []`, as a list that is looped over by an array method.
abbrev pub array_or_empty : Option Json → Option (List Json)
array_or_empty none = some []
array_or_empty (some null) = some []
array_or_empty (some j) = as_array j

-- `for (const x of j ?? [])`, which also walks the characters of a text.
abbrev pub iterate : Option Json → Option (List Json)
iterate none = some []
iterate (some null) = some []
iterate (some (arr xs)) = some (of_items xs)
iterate (some (str s)) = some (map (λ c. str (c ∷ [])) s)
iterate (some _) = none

-- `v === text`
abbrev pub is_text : Text → Option Json → Bool
is_text t (some (str s)) = s === t
is_text t _ = false

-- `v === n`, of a number by its text.
abbrev pub is_number : Text → Option Json → Bool
is_number t (some (num n)) = n === t
is_number t _ = false

abbrev pub is_one_of : List Text → Option Json → Bool
is_one_of ts (some (str s)) = member s ts
is_one_of ts _ = false

abbrev pub is_there : Option Json → Bool
is_there none = false
is_there (some j) = true

-- `v !== undefined && v !== false`
abbrev is_set_return : Option Json → Bool
is_set_return none = false
is_set_return (some (bool b)) = b
is_set_return (some _) = true

-- `Object.keys(a).length > 1`; `none` where `a` is null.
abbrev has_two_keys : Json → Option Bool
has_two_keys null = none
has_two_keys (bool b) = some false
has_two_keys (num n) = some false
has_two_keys (str s) = some (ltb 1 (length s))
has_two_keys (arr xs) = some (ltb 1 (length (of_items xs)))
has_two_keys (obj o) = some (ltb 1 (length (of_fields o)))

abbrev pub is_null : Json → Bool
is_null null = true
is_null _ = false

abbrev false_of : Option Bool → Bool
false_of (some false) = true
false_of _ = false

abbrev pub kprobe_unsupported : List Text
kprobe_unsupported = lit "returnArg" ∷ lit "message" ∷ lit "tags" ∷ []

abbrev pub selector_unsupported : List Text
selector_unsupported =
    lit "matchNamespaces"
    ∷ lit "matchCapabilities"
    ∷ lit "matchPIDs"
    ∷ lit "matchReturnArgs"
    ∷ lit "matchNamespaceChanges"
    ∷ lit "matchCapabilityChanges"
    ∷ []

abbrev pub process_operators : List Text
process_operators = lit "Equal" ∷ lit "NotEqual" ∷ lit "Postfix" ∷ lit "NotPostfix" ∷ []

abbrev pub file_operators : List Text
file_operators = lit "Prefix" ∷ lit "NotPrefix" ∷ []

-- The whole test fails where a part throws, so a part that throws reads as false.
abbrev pub holds {ℓ} : {A : Type ℓ} → Option A → (A → Bool) → Bool
holds none p = false
holds (some a) p = p a

unfoldable pub arg_ok : List Text → Json → Bool
arg_ok ops ma =
    not (is_null ma)
    && not (
        is_number (lit "0") (prop (lit "index") ma)
        && not (is_one_of ops (prop (lit "operator") ma)))

unfoldable pub selector_ok : List Text → Json → Bool
unfolding arg_ok
selector_ok ops sel =
    not (is_null sel)
    && not (any (λ k. is_there (prop k sel)) selector_unsupported)
    && holds (array_or_empty (prop (lit "matchActions") sel))
        (λ actions. not (ltb 1 (length actions)) && all (λ a. false_of (has_two_keys a)) actions)
    && holds (array_or_empty (prop (lit "matchBinaries") sel))
        (λ mbs. all (λ mb. is_text (lit "NotIn") (prop (lit "operator") mb)) mbs)
    && holds (iterate (prop (lit "matchArgs") sel)) (λ args. all (arg_ok ops) args)

unfoldable pub representable : List Text → Json → Bool
unfolding selector_ok
representable ops kp =
    not (is_set_return (prop (lit "return") kp))
    && not (any (λ k. is_there (prop k kp)) kprobe_unsupported)
    && holds (iterate (prop (lit "selectors") kp)) (λ sels. all (selector_ok ops) sels)
