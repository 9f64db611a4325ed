-- ===== src/Vap/Expressions/Folded.antt =====
-- pages/VAPPage.tsx: the expressions that the lines of a validation hold, as YAML reads its folded
-- scalars (`>-`): the lines of the block without their indentation, with a space between them.
use k8s_sentinel.Base.{Text, lit, join, ◌===◌, if◌then◌else◌, List, [], ◌∷◌, none, some}
use k8s_sentinel.Vap.Expressions.{after}

abbrev block : List Text → List Text
block [] = []
block (l ∷ ls) =
    let rest = block ls in elim (after (lit "        ") l) [ none ↦ [] | some t ↦ t ∷ rest ]

unfoldable pub folded_expressions : List Text → List Text
unfolding after join
folded_expressions [] = []
folded_expressions (l ∷ ls) =
    let rest = folded_expressions ls in
    if l === lit "    - expression: >-" then join (lit " ") (block ls) ∷ rest else rest
