-- ===== src/Alerts/Tests.antt =====
-- A field of names that is typed, and one that is pasted.
use k8s_sentinel.Base.{lit, trim, [], ◌∷◌, ◌≡◌, ◌≤◌, refl, length}
use k8s_sentinel.Alerts.{names_of, shown, press}
use k8s_sentinel.Alerts.Names.{typed, typed-le, names_of-shown}

pasted : names_of (lit "default, kube-system") ≡ lit "default" ∷ lit "kube-system" ∷ []
unfolding names_of lit
pasted = refl

typed_names : typed (lit "a,b") [] ≡ lit "ab" ∷ []
unfolding press lit
typed_names = refl

typed-le_example : length (typed (lit "a,b") []) ≤ 1
typed-le_example = typed-le (lit "a,b")

names_of-shown_example :
    names_of (shown (lit "default" ∷ lit "kube-system" ∷ []))
    ≡ lit "default" ∷ lit "kube-system" ∷ []
unfolding lit trim
names_of-shown_example =
    names_of-shown (lit "default" ∷ lit "kube-system" ∷ [])
      ((refl, refl, refl), ((refl, refl, refl), tt))
