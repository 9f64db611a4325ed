-- ===== src/Vap/Escape.antt =====
-- pages/VAPPage.tsx: `escapeYaml` and `escapeCel`, and that what they write reads back.
use mathlib.Core.Option
use k8s_sentinel.Base.{
  Text, ◌==◌, if◌then◌else◌, [], ◌∷◌, ◌++◌, Option, none, some, ℕ, ◌≡◌, refl, ap, ◌∙◌, arith, ◌||◌,
  ◌&&◌, not, leb, Bool, true, All,
}

-- `s.replace(/c/g, '\\x')`: a backslash and `x` for each `c`.
unfoldable pub replace_char : ℕ → ℕ → Text → Text
replace_char c x [] = []
replace_char c x (d ∷ s) =
    let rest = replace_char c x s in if d == c then b'\\' ∷ x ∷ rest else d ∷ rest

unfoldable pub escape_yaml : Text → Text
unfolding replace_char
escape_yaml s = replace_char 9 b't' (
    replace_char 13 b'r'
      (replace_char 10 b'n' (replace_char b'"' b'"' (replace_char b'\\' b'\\' s))))

unfoldable pub escape_cel : Text → Text
unfolding replace_char
escape_cel s = replace_char b'\'' b'\'' (replace_char b'\\' b'\\' s)

-- The characters of the basic plane that a YAML text may have: the rest are control characters, two that
-- are no characters, and the halves of those of other planes.
unfoldable pub is_printable : ℕ → Bool
is_printable c =
    c == 9
    || c == 10
    || c == 13
    || (leb 32 c && leb c 126)
    || c == 133
    || (leb 160 c && leb c 55295)
    || (leb 57344 c && leb c 65533)

-- Reads the escapes of a double-quoted YAML scalar that `escapeYaml` writes; `none` at a bare quote, a
-- bare line end, a bare tab, a character that is not printable or an escape that it does not write.
unfoldable pub unescape_yaml : Text → Option Text
unescape_yaml [] = some []
unescape_yaml (c ∷ []) =
    if c == b'\\' || c == b'"' || c == 10 || c == 13 || c == 9 || not (is_printable c)
    then none
    else some (c ∷ [])
unescape_yaml (c ∷ d ∷ s) =
    let plain = Option.map (◌∷◌ c) (unescape_yaml (d ∷ s)) in
    let rest = unescape_yaml s in
    if c == b'\\'
    then (if d == b'\\' || d == b'"'
        then Option.map (◌∷◌ d) rest
        else if d == b'n'
        then Option.map (◌∷◌ 10) rest
        else if d == b'r'
        then Option.map (◌∷◌ 13) rest
        else if d == b't'
        then Option.map (◌∷◌ 9) rest
        else none)
    else if c == b'"' || c == 10 || c == 13 || c == 9 || not (is_printable c)
    then none
    else plain

-- One character as the five passes leave it.
escape_char : ℕ → Text
escape_char c =
    if c == b'\\'
    then b'\\' ∷ b'\\' ∷ []
    else if c == b'"'
    then b'\\' ∷ b'"' ∷ []
    else if c == 10
    then b'\\' ∷ b'n' ∷ []
    else if c == 13
    then b'\\' ∷ b'r' ∷ []
    else if c == 9
    then b'\\' ∷ b't' ∷ []
    else c ∷ []

-- The five passes over the text are one pass over its characters.
escape_yaml-cons : (c : ℕ) (s : Text) → escape_yaml (c ∷ s) ≡ escape_char c ++ escape_yaml s
unfolding escape_yaml escape_char
escape_yaml-cons c s = ground arith

unescape_yaml-escape_char :
    (c : ℕ) (s : Text)
    → is_printable c ≡ true
    → unescape_yaml (escape_char c ++ s) ≡ Option.map (◌∷◌ c) (unescape_yaml s)
unfolding unescape_yaml escape_char
unescape_yaml-escape_char c [] h = ground arith
unescape_yaml-escape_char c (d ∷ s) h = ground arith

unescape_yaml-nil : unescape_yaml (escape_yaml []) ≡ some []
unfolding unescape_yaml escape_yaml
unescape_yaml-nil = refl

-- What `escapeYaml` writes between double quotes is read back as the text that it was given, for every
-- text of characters of the basic plane that YAML lets a text have: tabs and line ends are among them,
-- other control characters are not.
pub unescape_yaml-escape_yaml :
    (s : Text) → All (λ c. is_printable c ≡ true) s → unescape_yaml (escape_yaml s) ≡ some s
unescape_yaml-escape_yaml [] h = unescape_yaml-nil
unescape_yaml-escape_yaml (c ∷ s) (printable, h) =
    ap unescape_yaml (escape_yaml-cons c s)
    ∙ unescape_yaml-escape_char c (escape_yaml s) printable
    ∙ ap (Option.map (◌∷◌ c)) (unescape_yaml-escape_yaml s h)

-- Reads the escapes of a single-quoted CEL string that `escapeCel` writes: a backslash stands before
-- a backslash or a quote, and neither stands alone.
unfoldable pub unescape_cel : Text → Option Text
unescape_cel [] = some []
unescape_cel (c ∷ []) = if c == b'\\' || c == b'\'' then none else some (c ∷ [])
unescape_cel (c ∷ d ∷ s) =
    let plain = Option.map (◌∷◌ c) (unescape_cel (d ∷ s)) in
    let rest = unescape_cel s in
    if c == b'\\'
    then (if d == b'\\' || d == b'\'' then Option.map (◌∷◌ d) rest else none)
    else if c == b'\''
    then none
    else plain

escape_cel_char : ℕ → Text
escape_cel_char c = if c == b'\\' || c == b'\'' then b'\\' ∷ c ∷ [] else c ∷ []

escape_cel-cons : (c : ℕ) (s : Text) → escape_cel (c ∷ s) ≡ escape_cel_char c ++ escape_cel s
unfolding escape_cel escape_cel_char
escape_cel-cons c s = ground arith

unescape_cel-escape_cel_char :
    (c : ℕ) (s : Text) → unescape_cel (escape_cel_char c ++ s) ≡ Option.map (◌∷◌ c) (unescape_cel s)
unfolding unescape_cel escape_cel_char
unescape_cel-escape_cel_char c [] = ground arith
unescape_cel-escape_cel_char c (d ∷ s) = ground arith

unescape_cel-nil : unescape_cel (escape_cel []) ≡ some []
unfolding unescape_cel escape_cel
unescape_cel-nil = refl

-- What `escapeCel` writes between single quotes is read back as the text that it was given, for
-- every text.
unescape_cel-escape_cel : (s : Text) → unescape_cel (escape_cel s) ≡ some s
unescape_cel-escape_cel [] = unescape_cel-nil
unescape_cel-escape_cel (c ∷ s) =
    ap unescape_cel (escape_cel-cons c s)
    ∙ unescape_cel-escape_cel_char c (escape_cel s)
    ∙ ap (Option.map (◌∷◌ c)) (unescape_cel-escape_cel s)
