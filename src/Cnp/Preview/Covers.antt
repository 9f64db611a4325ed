-- ===== src/Cnp/Preview/Covers.antt =====
-- pages/CNPPage.tsx: what the preview of a form says of the pods that its policy governs.
use k8s_sentinel.Base.{
  Text, lit, trim, ◌===◌, ===_iff, starts_with, includes, is_empty, ==_iff, Object, get, assign,
  without, or_else, if◌then◌else◌, if_cases, List, [], ◌∷◌, ◌++◌, All, All-map, Option, none, some,
  Ensures, nothing, just, Ensures-if, true, false, ◌≡◌, ◌≢◌, ◌⊎◌, inl, inr, refl, sym, subst, ap,
  ◌∙◌, arith,
}
use k8s_sentinel.Cnp.{Scope, namespaced, cluster, FormInput}
use k8s_sentinel.Cnp.Labels.{namespace_key, subject_match_labels}
use k8s_sentinel.Cnp.Preview.{
  Preview, choose_namespace, hidden, query, after_source, pod_labels, query_or_hidden, names_other,
  preview_namespaced, preview_of, selector_preview,
}

pub record Pod : Type 0 where
  pub namespace : Text
  pub labels : Object Text
  pub derived : Object Text

-- The value of a label that Cilium takes from Kubernetes: the namespace of the pod, what it derives from
-- elsewhere, as the service account, the cluster and the labels of the namespace, or a label of the pod.
abbrev pub endpoint_label : Pod → Text → Option Text
endpoint_label pod k =
    if k === namespace_key
    then some pod.namespace
    else elim (get k pod.derived) [ some v ↦ some v | none ↦ get k pod.labels ]

-- Which of those labels a key of a selector asks for: the one of that name, or of the name behind the
-- source.
abbrev pub AsksFor : Text → Text → Type 0
AsksFor key k = ((key ≡ k) × (includes key (lit ":") ≡ false)) ⊎ (key ≡ lit "k8s:" ++ k)

abbrev pub Selects : Pod → Text × Text → Type 0
Selects pod e = (k : Text) → AsksFor e.0 k → endpoint_label pod k ≡ some e.1

-- An entry that asks for no label which Cilium derives, the namespace aside.
abbrev pub AsksUnderived : Pod → Text × Text → Type 0
AsksUnderived pod e = (k : Text) → AsksFor e.0 k → get k pod.derived ≡ none

abbrev pub InScope : Scope → Text → Pod → Type 0
InScope cluster ns pod = Unit
InScope namespaced ns pod = pod.namespace ≡ trim ns

-- A pod that the policy of a form may govern: what the selector asks of labels from Kubernetes holds.
abbrev pub Governs : Pod → FormInput → Type 0
Governs pod f = InScope f.scope f.namespace pod × All (Selects pod) (subject_match_labels f)

abbrev pub HasLabel : Pod → Text × Text → Type 0
HasLabel pod e = get e.0 pod.labels ≡ some e.1

-- A preview that does not leave the pod out: it looks for no pods, or finds this one.
pub data Covers (pod : Pod) : Preview → Type 0 where
  asks : Covers pod choose_namespace
  hides : Covers pod hidden
  finds :
      {ns : Text} {labels : Object Text}
      → (ns ≡ []) ⊎ (pod.namespace ≡ ns)
      → All (HasLabel pod) labels
      → Covers pod (query ns labels)

abbrev pub prefixed_namespace : Text
prefixed_namespace = lit "k8s:" ++ namespace_key

after_source-starts_with :
    (k : Text) → starts_with k (lit "k8s:") ≡ true → k ≡ lit "k8s:" ++ after_source k
unfolding starts_with lit
after_source-starts_with [] h = ground arith
after_source-starts_with (a ∷ []) h = ground (arith, ==_iff a 107)
after_source-starts_with (a ∷ b ∷ []) h = ground (arith, ==_iff a 107, ==_iff b 56)
after_source-starts_with (a ∷ b ∷ c ∷ []) h =
    ground (arith, ==_iff a 107, ==_iff b 56, ==_iff c 115)
after_source-starts_with (a ∷ b ∷ c ∷ d ∷ k) h =
    ground (arith, ==_iff a 107, ==_iff b 56, ==_iff c 115, ==_iff d 58)

All-assign {ℓ} :
    {V : Type ℓ} (P : Text × V → Type 0) (k : Text) (v : V) (o : Object V)
    → P (k, v)
    → All P o
    → All P (assign k v o)
unfolding assign
All-assign P k v [] p h = (p, tt)
All-assign P k v ((j, w) ∷ o) p (q, h) =
    if_cases (All P) (j === k) _ _ (λ e. (subst (λ i. P (i, v)) (sym ((===_iff j k).0 e)) p, h))
      (λ _. (q, All-assign P k v o p h))

All-without {ℓ} :
    {V : Type ℓ} (P : Text × V → Type 0) (k : Text) (o : Object V)
    → All P o
    → All (λ e. P e × (e.0 ≢ k)) (without k o)
unfolding without
All-without P k [] h = tt
All-without P k ((j, v) ∷ o) (p, h) =
    if_cases (All (λ e. P e × (e.0 ≢ k))) (j === k) _ _ (λ _. All-without P k o h)
      (λ apart. ((p, λ e. ground (arith, ===_iff j k)), All-without P k o h))

pub All-both {ℓ} :
    {A : Type ℓ} (P Q : A → Type 0) (o : List A) → All P o → All Q o → All (λ e. P e × Q e) o
All-both P Q [] h k = tt
All-both P Q (e ∷ o) (p, h) (q, k) = ((p, q), All-both P Q o h k)

-- A key that an object does not have is the key of none of its entries.
All-get {ℓ} : {V : Type ℓ} (k : Text) (o : Object V) → get k o ≡ none → All (λ e. e.0 ≢ k) o
unfolding get
All-get k [] h = tt
All-get k ((j, v) ∷ o) h = (λ e. ground (arith, ===_iff j k), All-get k o (ground arith))

namespace_key-plain : includes namespace_key (lit ":") ≡ false
unfolding includes lit
namespace_key-plain = refl

module _ (pod : Pod) where
  -- The namespace and the labels of the pod alone.
  abbrev own_label : Text → Option Text
  own_label k = if k === namespace_key then some pod.namespace else get k pod.labels

  abbrev Plain : Text × Text → Type 0
  Plain e = (k : Text) → AsksFor e.0 k → own_label k ≡ some e.1

  Selects-Plain : (e : Text × Text) → Selects pod e → AsksUnderived pod e → Plain e
  Selects-Plain e s underived k asked = own k (underived k asked) (s k asked)
    where
      own :
          (k : Text)
          → get k pod.derived ≡ none
          → endpoint_label pod k ≡ some e.1
          → own_label k ≡ some e.1
      own k n h = rw n at h

  -- An entry that the pod satisfies, and that is not about its namespace.
  abbrev Fits : Text × Text → Type 0
  Fits e = (Plain e × (e.0 ≢ prefixed_namespace)) × (e.0 ≢ namespace_key)

  HasLabel-own_label :
      (k v : Text) → k ≢ namespace_key → own_label k ≡ some v → get k pod.labels ≡ some v
  HasLabel-own_label k v apart h = ground (arith, ===_iff k namespace_key)

  pod_labels-HasLabel :
      (o out : Object Text)
      → All Fits o
      → All (HasLabel pod) out
      → Ensures (All (HasLabel pod)) (pod_labels o out)
  unfolding pod_labels
  pod_labels-HasLabel [] out h k = just k
  pod_labels-HasLabel ((key, v) ∷ o) out (((s, far), near), h) done =
      Ensures-if (starts_with key (lit "k8s:"))
        (λ t.
          let e = after_source-starts_with key t in
          pod_labels-HasLabel o _ h (
            All-assign (HasLabel pod) (after_source key) v out
              (HasLabel-own_label (after_source key) v (λ n. far (e ∙ ap (λ k. lit "k8s:" ++ k) n))
                (s (after_source key) (inr e)))
              done))
        (λ _.
          Ensures-if (includes key (lit ":")) (λ _. nothing)
            (λ plain. pod_labels-HasLabel o _ h (
              All-assign (HasLabel pod) key v out
                (HasLabel-own_label key v near (s key (inl (refl, plain)))) done)))

  query_or_hidden-Covers :
      (ns : Text) (o : Option (Object Text))
      → (ns ≡ []) ⊎ (pod.namespace ≡ ns)
      → Ensures (All (HasLabel pod)) o
      → Covers pod (query_or_hidden ns o)
  query_or_hidden-Covers ns none h k = hides
  query_or_hidden-Covers ns (some labels) h (just k) = finds h k

  -- The namespace that the selector asks for, if it asks for one.
  abbrev SameNamespace : Option Text → Type 0
  SameNamespace none = Unit
  SameNamespace (some l) = pod.namespace ≡ l

  named : (j v : Text) → (j === namespace_key) ≡ true → own_label j ≡ some v → pod.namespace ≡ v
  named j v e h = ground arith

  no_source : (j : Text) → (j === namespace_key) ≡ true → includes j (lit ":") ≡ false
  no_source j e =
      subst (λ k. includes k (lit ":") ≡ false) (sym ((===_iff j namespace_key).0 e))
        namespace_key-plain

  Plain-namespace : (o : Object Text) → All (Plain) o → SameNamespace (get namespace_key o)
  unfolding get
  Plain-namespace [] h = tt
  Plain-namespace ((j, v) ∷ o) (s, h) =
      if_cases SameNamespace (j === namespace_key) _ _
        (λ e. named j v e (s j (inl (refl, no_source j e)))) (λ _. Plain-namespace o h)

  names_other-none : (ns l : Text) → l ≡ ns → names_other ns (some l) ≡ none
  names_other-none ns l e = ground (arith, ===_iff l ns)

  preview_namespaced-Covers :
      (ns : Text) (l : Option Text) (o : Option (Object Text))
      → pod.namespace ≡ ns
      → SameNamespace l
      → Ensures (All (HasLabel pod)) o
      → Covers pod (preview_namespaced ns l o)
  preview_namespaced-Covers ns none o same n k =
      if_cases (Covers pod) (is_empty ns) _ _ (λ _. asks)
        (λ _. query_or_hidden-Covers ns o (inr same) k)
  preview_namespaced-Covers ns (some l) o same n k =
      if_cases (Covers pod) (is_empty ns) _ _ (λ _. asks)
        (λ _. rw (names_other-none ns l (sym n ∙ same)) (query_or_hidden-Covers ns o (inr same) k))

  cluster-namespace :
      (l : Option Text) → SameNamespace l → (or_else l [] ≡ []) ⊎ (pod.namespace ≡ or_else l [])
  cluster-namespace none h = inl refl
  cluster-namespace (some l) h = inr h

  Fits-without :
      (o : Object Text)
      → get prefixed_namespace o ≡ none
      → All (Plain) o
      → All Fits (without namespace_key o)
  Fits-without o far h =
      All-without (λ e. Plain e × (e.0 ≢ prefixed_namespace)) namespace_key o
        (All-both _ _ o h (All-get prefixed_namespace o far))

  preview_of-Covers :
      (s : Scope) (ns : Text) (o : Object Text)
      → trim ns ≡ ns
      → get prefixed_namespace o ≡ none
      → InScope s ns pod
      → All (Plain) o
      → Covers pod (preview_of s ns o)
  unfolding preview_of
  preview_of-Covers namespaced ns o trimmed far here h =
      preview_namespaced-Covers ns _ _ (here ∙ trimmed) (Plain-namespace o h)
        (pod_labels-HasLabel _ [] (Fits-without o far h) tt)
  preview_of-Covers cluster ns o trimmed far here h =
      query_or_hidden-Covers _ _ (cluster-namespace _ (Plain-namespace o h))
        (pod_labels-HasLabel _ [] (Fits-without o far h) tt)

-- The preview leaves out no pod that the policy of the form may govern: it names no pods only where
-- there are none, and a query that it sends finds every one of them. The namespace of the form is
-- without blanks around it, as the menu offers it, no row names the namespace's label with its source in
-- front, and none asks for another label that Cilium derives.
pub selector_preview-Covers :
    (f : FormInput) (pod : Pod)
    → trim f.namespace ≡ f.namespace
    → get prefixed_namespace (subject_match_labels f) ≡ none
    → All (AsksUnderived pod) (subject_match_labels f)
    → Governs pod f
    → Covers pod (selector_preview f)
unfolding selector_preview
selector_preview-Covers f pod trimmed far underived (here, h) =
    preview_of-Covers pod f.scope f.namespace (subject_match_labels f) trimmed far here (
      All-map (λ e (s, u). Selects-Plain pod e s u) (subject_match_labels f)
        (All-both (Selects pod) (AsksUnderived pod) (subject_match_labels f) h underived))
