-- ===== src/Vap/Expressions/Quoted.antt =====
-- pages/VAPPage.tsx: the readers of the expressions of label, annotation and image validations, with
-- the parts of regular expressions that they use. `none` stands for `null`.
use k8s_sentinel.Base.{
  Text, lit, includes, is_empty, ◌==◌, if◌then◌else◌, [], ◌∷◌, ◌++◌, Option, none, some, ◌>>=◌,
}
use k8s_sentinel.Vap.{
  LabelCondition, equal, unequal, LabelRule, no_latest, required_registry, ImageRule,
}
use k8s_sentinel.Vap.Expressions.{normalised, after}

-- `[^']*'` with what it captures and what follows.
unfoldable pub up_to_quote : Text → Option (Text × Text)
up_to_quote [] = none
up_to_quote (c ∷ s) =
    let rest = (do (t, r) ← up_to_quote s; some (c ∷ t, r)) in
    if c == b'\'' then some ([], s) else rest

-- `([^']+)'`
unfoldable pub quoted : Text → Option (Text × Text)
unfolding up_to_quote
quoted s = do (t, r) ← up_to_quote s; if is_empty t then none else some (t, r)

abbrev pub or_next {ℓ} : {A : Type ℓ} → Option A → Option A → Option A
or_next none o = o
or_next (some a) o = some a

-- A match at the first position where there is one.
unfoldable pub first_match {ℓ} : {A : Type ℓ} → (Text → Option A) → Text → Option A
first_match f [] = f []
first_match f (c ∷ s) = or_next (f (c ∷ s)) (first_match f s)

-- `.*` before a part: a match at the last position where there is one.
unfoldable pub last_match {ℓ} : {A : Type ℓ} → (Text → Option A) → Text → Option A
last_match f [] = f []
last_match f (c ∷ s) = or_next (last_match f s) (f (c ∷ s))

-- `object\.metadata\.FIELD\['[^']+'\] OP '([^']+)'`
unfoldable pub compared_value : Text → Text → Text → Option Text
unfolding after quoted
compared_value field op s = do
  r ← after (lit "object.metadata." ++ field ++ lit "['") s
  (k, r') ← quoted r
  r'' ← after (lit "] " ++ op ++ lit " '") r'
  (v, end) ← quoted r''
  some v

-- `!\('([^']+)' in object\.metadata\.FIELD\).*` and the comparison with `!=`
unfoldable pub denied_pair : Text → Text → Option (Text × Text)
unfolding compared_value last_match
denied_pair field s = do
  r ← after (lit "!('") s
  (k, r') ← quoted r
  r'' ← after (lit " in object.metadata." ++ field ++ lit ")") r'
  v ← last_match (compared_value field (lit "!=")) r''
  some (k, v)

-- `'([^']+)' in object\.metadata\.FIELD.*` and the comparison with `==`
unfoldable pub required_pair : Text → Text → Option (Text × Text)
unfolding compared_value last_match
required_pair field s = do
  r ← after (lit "'") s
  (k, r') ← quoted r
  r'' ← after (lit " in object.metadata." ++ field) r'
  v ← last_match (compared_value field (lit "==")) r''
  some (k, v)

abbrev pub rule_of : LabelCondition → Text → Option (Text × Text) → Option LabelRule
rule_of condition msg none = none
rule_of condition msg (some (k, v)) =
    some (record { key = k; condition = condition; value = v; message = msg })

-- What the two readers share: the one for labels and the one for annotations.
unfoldable pub parse_pair : Text → Text → Text → Option LabelRule
unfolding normalised first_match denied_pair required_pair
parse_pair field expr msg =
    let e = normalised expr in
    or_next (rule_of equal msg (first_match (denied_pair field) e))
      (rule_of unequal msg (first_match (required_pair field) e))

unfoldable pub parse_expression_to_rule : Text → Text → Option LabelRule
unfolding parse_pair
parse_expression_to_rule = parse_pair (lit "labels")

unfoldable pub parse_expression_to_annotation_rule : Text → Text → Option LabelRule
unfolding parse_pair
parse_expression_to_annotation_rule = parse_pair (lit "annotations")

-- `c\.image\.lowerAscii\(\)\.startsWith\('([^']+)'\)`
unfoldable pub registry_at : Text → Option Text
unfolding after quoted
registry_at s = do
  r ← after (lit "c.image.lowerAscii().startsWith('") s
  (reg, r') ← quoted r
  end ← after (lit ")") r'
  some reg

abbrev pub registry_rule : Text → Option Text → Option ImageRule
registry_rule msg none = none
registry_rule msg (some reg) =
    some (record { policy = required_registry; registry = reg; message = msg })

unfoldable pub parse_expression_to_image_rule : Text → Text → Option ImageRule
unfolding normalised includes first_match registry_at
parse_expression_to_image_rule expr msg =
    let e = normalised expr in
    if includes e (lit "!c.image.endsWith(':latest')")
    then some (record { policy = no_latest; registry = []; message = msg })
    else registry_rule msg (first_match registry_at e)
