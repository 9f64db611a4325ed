-- ===== src/Cnp/Parse/Head.antt =====
-- utils/cnpForm.ts: what a form that `tryParseCNPForm` opens has of the head of the document.
use k8s_sentinel.Base.{
  Text, lit, ◌===◌, ===_iff, ◌&&◌, not, and-eq_true, true, List, [], ◌∷◌, Option, none, some, Json,
  null, bool, num, str, arr, obj, cons, nil, of_items, of_fields, IsBare, is_empty, prop, prop_of,
  as_text, Yaml, Ensures, nothing, just, Ensures->>=, Ensures-if, Ensures-weaken, found, ◌>>=◌, ◌≡◌,
  refl, arith, ap, ◌∙◌, length, ◌+◌, ◌==◌,
}
use k8s_sentinel.Cnp.{Scope, namespaced, cluster, FormInput}
use k8s_sentinel.Cnp.Parse.{
  text_or_blank, policy_scope, namespace_of, subject_labels, is_there, has_keys, is_form_policy,
  value_reads_true, reads_true, read_form,
}

abbrev pub IsKind : Scope → Option Json → Type 0
IsKind cluster o = o ≡ some (str (lit "CiliumClusterwideNetworkPolicy"))
IsKind namespaced o = o ≡ some (str (lit "CiliumNetworkPolicy"))

-- A text of the document, or a blank where there is none.
abbrev pub Reads : Text → Option Json → Type 0
Reads t none = t ≡ []
Reads t (some null) = t ≡ []
Reads t (some j) = j ≡ str t

abbrev pub ReadsNamespace : Scope → Text → Option Json → Type 0
ReadsNamespace cluster ns o = ns ≡ []
ReadsNamespace namespaced ns o = Reads ns o

-- What JavaScript writes as the text true: that text, the Boolean, or a list of one of these.
abbrev pub SaysTrue : Json → Type 0
SaysTrue (str s) = s ≡ lit "true"
SaysTrue (bool b) = b ≡ true
SaysTrue (arr (cons j nil)) = SaysTrue j
SaysTrue _ = ⊥

abbrev pub IsMarked : Option Json → Type 0
IsMarked none = ⊥
IsMarked (some j) = SaysTrue j

-- The kind, the name and the namespace are in the form; the form's annotation is there, but no list of
-- specs and no label.
abbrev pub HasHead : Json → FormInput → Type 0
HasHead doc f =
    IsKind f.scope (prop (lit "kind") doc)
    × Reads f.name (prop_of (lit "name") (prop (lit "metadata") doc))
    × ReadsNamespace f.scope f.namespace (prop_of (lit "namespace") (prop (lit "metadata") doc))
    × IsMarked (
        prop_of (lit "sentinel.io/builder")
          (prop_of (lit "annotations") (prop (lit "metadata") doc)))
    × (prop (lit "specs") doc ≡ none)
    × IsBare (prop_of (lit "labels") (prop (lit "metadata") doc))

value_reads_true-SaysTrue : (j : Json) → value_reads_true j ≡ true → SaysTrue j
value_reads_true-SaysTrue (str s) h = (===_iff s (lit "true")).0 h
value_reads_true-SaysTrue (bool b) h = h
value_reads_true-SaysTrue (arr (cons j nil)) h = value_reads_true-SaysTrue j h
value_reads_true-SaysTrue (arr (cons j (cons k xs))) h = absurd (ground arith)
value_reads_true-SaysTrue (arr nil) h = absurd (ground arith)
value_reads_true-SaysTrue null h = absurd (ground arith)
value_reads_true-SaysTrue (num n) h = absurd (ground arith)
value_reads_true-SaysTrue (obj o) h = absurd (ground arith)

reads_true-IsMarked : (o : Option Json) → reads_true o ≡ true → IsMarked o
reads_true-IsMarked none h = absurd (ground arith)
reads_true-IsMarked (some j) h = value_reads_true-SaysTrue j h

text_or_blank-Reads : (o : Option Json) (t : Text) → text_or_blank o ≡ some t → Reads t o
text_or_blank-Reads none t e = cc
text_or_blank-Reads (some null) t e = cc
text_or_blank-Reads (some (str s)) t e = cc
text_or_blank-Reads (some (bool b)) t e = absurd (ground arith)
text_or_blank-Reads (some (num n)) t e = absurd (ground arith)
text_or_blank-Reads (some (arr xs)) t e = absurd (ground arith)
text_or_blank-Reads (some (obj o)) t e = absurd (ground arith)

namespace_of-ReadsNamespace :
    (s : Scope) (doc : Json) (ns : Text)
    → namespace_of s doc ≡ some ns
    → ReadsNamespace s ns (prop_of (lit "namespace") (prop (lit "metadata") doc))
namespace_of-ReadsNamespace cluster doc ns e = cc
namespace_of-ReadsNamespace namespaced doc ns e = text_or_blank-Reads _ ns e

as_text-str : (j : Json) (t : Text) → as_text j ≡ some t → j ≡ str t
as_text-str (str s) t e = cc
as_text-str null t e = absurd (ground arith)
as_text-str (bool b) t e = absurd (ground arith)
as_text-str (num n) t e = absurd (ground arith)
as_text-str (arr xs) t e = absurd (ground arith)
as_text-str (obj o) t e = absurd (ground arith)

policy_scope-IsKind :
    (doc : Json) → Ensures (λ s. IsKind s (prop (lit "kind") doc)) (policy_scope doc)
unfolding policy_scope ◌>>=◌
policy_scope-IsKind doc = Ensures->>= (kind_text (prop (lit "kind") doc)) (λ kind e.
    Ensures-if (kind === lit "CiliumClusterwideNetworkPolicy")
      (λ t. just (e ∙ ap (λ k. some (str k)) ((===_iff kind _).0 t)))
      (λ _.
        Ensures-if (kind === lit "CiliumNetworkPolicy")
          (λ t. just (e ∙ ap (λ k. some (str k)) ((===_iff kind _).0 t))) (λ _. nothing)))
  where
    kind_text : (o : Option Json) → Ensures (λ t. o ≡ some (str t)) (o >>= as_text)
    kind_text none = nothing
    kind_text (some j) =
        Ensures-weaken (λ t e. ap (λ j. some j) (as_text-str j t e)) (found (as_text j))

is_empty-nil {ℓ} : {A : Type ℓ} (xs : List A) → not (not (is_empty xs)) ≡ true → xs ≡ []
is_empty-nil [] h = refl
is_empty-nil (x ∷ xs) h = absurd (ground arith)

has_keys-IsBare : (o : Option Json) → not (has_keys o) ≡ true → IsBare o
has_keys-IsBare none h = tt
has_keys-IsBare (some null) h = tt
has_keys-IsBare (some (bool b)) h = tt
has_keys-IsBare (some (num n)) h = tt
has_keys-IsBare (some (obj o)) h = is_empty-nil (of_fields o) h
has_keys-IsBare (some (arr xs)) h = is_empty-nil (of_items xs) h
has_keys-IsBare (some (str s)) h = is_empty-nil s h

is_there-none : (o : Option Json) → not (is_there o) ≡ true → o ≡ none
is_there-none none h = refl
is_there-none (some j) h = absurd (ground arith)

is_form_policy-plain :
    (doc : Json)
    → is_form_policy doc ≡ true
    → IsMarked (
        prop_of
          (lit "sentinel.io/builder")
          (prop_of (lit "annotations") (prop (lit "metadata") doc)))
      × (prop (lit "specs") doc ≡ none)
      × IsBare (prop_of (lit "labels") (prop (lit "metadata") doc))
unfolding is_form_policy
is_form_policy-plain doc h =
    let specs = prop (lit "specs") doc in
    let labels = prop_of (lit "labels") (prop (lit "metadata") doc) in
    let mark =
      prop_of (lit "sentinel.io/builder")
        (prop_of (lit "annotations") (prop (lit "metadata") doc)) in
    let (marked, bare) =
      and-eq_true (reads_true mark && not (is_there specs)) (not (has_keys labels)) h in
    let (annotated, single) = and-eq_true (reads_true mark) (not (is_there specs)) marked in
    (reads_true-IsMarked mark annotated, is_there-none specs single, has_keys-IsBare labels bare)

module _ (yaml : Yaml) where
  pub read_form-HasHead : (doc : Json) → Ensures (HasHead doc) (read_form yaml doc)
  unfolding read_form
  read_form-HasHead doc = Ensures->>= (policy_scope-IsKind doc) (λ scope k.
      Ensures->>= {P = λ s. is_form_policy doc ≡ true}
        (Ensures-if _ (λ t. Ensures-weaken (λ _ _. t) (found _)) (λ _. nothing))
        (λ spec t. Ensures->>= (found (subject_labels spec)) (λ o _. Ensures->>= (found _) (λ i _.
          Ensures->>= (found _) (λ e _. Ensures->>= (found _) (λ name en.
            Ensures->>= (found _) (λ namespace ens.
              Ensures-if (length i.rules + length e.rules == 0) (λ _. nothing)
                (λ _.
                  let (marked, single, bare) = is_form_policy-plain doc t in
                  just (
                    k,
                    text_or_blank-Reads _ name en,
                    namespace_of-ReadsNamespace scope doc namespace ens,
                    marked,
                    single,
                    bare,
                  )))))))))
