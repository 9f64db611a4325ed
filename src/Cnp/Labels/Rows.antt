-- ===== src/Cnp/Labels/Rows.antt =====
-- utils/cnpForm.ts: the labels that `toMatchLabels` writes read back as rows that write them again.
use k8s_sentinel.Base.{
  Text, trim, trim_idem, ◌===◌, ===_iff, ===_refl, is_empty, Object, get, assign, without,
  get-assign, ◌||◌, false, Bool-cases, List, [], ◌∷◌, ◌++◌, map, All, or-eq_false, is_empty-eq_true,
  append_assoc, append-nil, none, some, or_else, ◌≡◌, refl, inl, inr, arith, ap, ◌∙◌, sym,
}
use k8s_sentinel.Cnp.{LabelPair}
use k8s_sentinel.Cnp.Labels.{
  namespace_key, resolve_key, add_row, add_rows, to_match_labels, with_namespace, label_row,
  to_label_pairs,
}

-- The row does not name the namespace, under its key or an alias.
abbrev pub IsPlainRow : LabelPair → Type 0
IsPlainRow p = (resolve_key (trim p.key) === namespace_key) ≡ false

-- A label that a row of its own writes.
abbrev pub IsPlainLabel : Text × Text → Type 0
IsPlainLabel (k, v) =
    ((trim k ≡ k) × (is_empty k ≡ false))
    × ((trim v ≡ v) × (is_empty v ≡ false))
    × ((resolve_key k ≡ k) × ((k === namespace_key) ≡ false))

-- Plain labels with distinct keys.
abbrev pub IsPlain : Object Text → Type 0
IsPlain [] = Unit
IsPlain (e ∷ o) = IsPlainLabel e × (get (e.0) o ≡ none) × IsPlain o

resolve_key_plain : (k : Text) → (resolve_key k === namespace_key) ≡ false → (resolve_key k ≡ k)
unfolding resolve_key
resolve_key_plain k h = ground (arith, ===_refl namespace_key)

get-assign_other :
    (j k : Text) (v : Text) (o : Object Text)
    → get j o ≡ none
    → (k === j) ≡ false
    → get j (assign k v o) ≡ none
get-assign_other j k v o h d = get-assign k j v o ∙ rw d h

assign-IsPlain :
    (k v : Text) (o : Object Text) → IsPlainLabel (k, v) → IsPlain o → IsPlain (assign k v o)
unfolding assign get
assign-IsPlain k v [] p h = (p, refl, tt)
assign-IsPlain k v ((j, w) ∷ o) p (q, new, h) = elim (Bool-cases (j === k)) [
  | inl same ↦ rw same (((q.0, p.1, q.2), new, h))
  | inr other ↦ rw other (
      (
        q,
        get-assign_other j k v o new (ground (arith, ===_iff k j, ===_iff j k, other)),
        assign-IsPlain k v o p h,
      ))
]

add_row-IsPlain :
    (p : LabelPair) (o : Object Text) → IsPlainRow p → IsPlain o → IsPlain (add_row p o)
unfolding add_row
add_row-IsPlain p o plain h = elim (Bool-cases (is_empty (trim p.key) || is_empty (trim p.value))) [
  | inl skip ↦ rw skip h
  | inr keep ↦
      let (ek, ev) = or-eq_false (is_empty (trim p.key)) (is_empty (trim p.value)) keep in
      let own = resolve_key_plain (trim p.key) plain in
      rw (keep, own)
        (assign-IsPlain (trim p.key) (trim p.value) o
          (
            (trim_idem p.key, ek),
            (trim_idem p.value, ev),
            (own, ap (λ k. k === namespace_key) (sym own) ∙ plain),
          )
          h)
]

add_rows-IsPlain :
    (ps : List LabelPair) (o : Object Text)
    → All IsPlainRow ps
    → IsPlain o
    → IsPlain (add_rows ps o)
unfolding add_rows
add_rows-IsPlain [] o hs h = h
add_rows-IsPlain (p ∷ ps) o (plain, hs) h =
    add_rows-IsPlain ps (add_row p o) hs (add_row-IsPlain p o plain h)

pub to_match_labels-IsPlain :
    (ps : List LabelPair) → All IsPlainRow ps → IsPlain (to_match_labels ps)
unfolding to_match_labels
to_match_labels-IsPlain ps hs = add_rows-IsPlain ps [] hs tt

pub assign_new : (k v : Text) (o : Object Text) → get k o ≡ none → assign k v o ≡ o ++ (k, v) ∷ []
unfolding assign get
assign_new k v [] h = refl
assign_new k v ((j, w) ∷ o) h = elim (Bool-cases (j === k)) [
  | inl same ↦ absurd (ground (arith, same))
  | inr other ↦ rw other (ap (◌∷◌ (j, w)) (assign_new k v o (ground (arith, other))))
]

-- No key of the second object is one of the first.
abbrev AreApart : Object Text → Object Text → Type 0
AreApart acc o = All (λ e. get (e.0) acc ≡ none) o

get-snoc :
    (j k v : Text) (o : Object Text)
    → get j o ≡ none
    → (k === j) ≡ false
    → get j (o ++ (k, v) ∷ []) ≡ none
unfolding get
get-snoc j k v [] h d = ground (arith, d)
get-snoc j k v ((i, w) ∷ o) h d = ground (arith, get-snoc j k v o, d)

snoc-AreApart :
    (acc o : Object Text) (k v : Text)
    → AreApart acc o
    → get k o ≡ none
    → AreApart (acc ++ (k, v) ∷ []) o
unfolding get
snoc-AreApart acc [] k v h new = tt
snoc-AreApart acc ((j, w) ∷ o) k v (h, hs) new = elim (Bool-cases (j === k)) [
  | inl same ↦ absurd (ground (arith, same))
  | inr other ↦ (
    get-snoc j k v acc h (ground (arith, ===_iff k j, ===_iff j k, other)),
    snoc-AreApart acc o k v hs (ground (arith, other)),
  )
]

add_row-label_row :
    (e : Text × Text) (acc : Object Text)
    → IsPlainLabel e
    → get (e.0) acc ≡ none
    → add_row (label_row e) acc ≡ acc ++ e ∷ []
unfolding add_row label_row
add_row-label_row (k, v) acc ((tk, ek), (tv, ev), (rk, nk)) new =
    rw (nk, tk, tv, ek, ev, rk) (assign_new k v acc new)

add_rows-label_row :
    (o acc : Object Text) → IsPlain o → AreApart acc o → add_rows (map label_row o) acc ≡ acc ++ o
unfolding add_rows
add_rows-label_row [] acc h d = sym (append-nil acc)
add_rows-label_row (e ∷ o) acc (p, new, h) (d, ds) =
    ap (add_rows (map label_row o)) (add_row-label_row e acc p d)
    ∙ add_rows-label_row o (acc ++ e ∷ []) h (snoc-AreApart acc o (e.0) (e.1) ds new)
    ∙ append_assoc acc (e ∷ []) o

nothing-AreApart : (o : Object Text) → AreApart [] o
unfolding get
nothing-AreApart [] = tt
nothing-AreApart (e ∷ o) = (refl, nothing-AreApart o)

pub to_match_labels-to_label_pairs :
    (o : Object Text) → IsPlain o → to_match_labels (to_label_pairs o) ≡ o
unfolding to_match_labels to_label_pairs add_rows add_row trim
to_match_labels-to_label_pairs [] h = refl
to_match_labels-to_label_pairs (e ∷ o) h =
    add_rows-label_row (e ∷ o) [] h (nothing-AreApart (e ∷ o))

get-append_new : (k v : Text) (o : Object Text) → get k o ≡ none → get k (o ++ (k, v) ∷ []) ≡ some v
unfolding get
get-append_new k v [] h = ground (arith, ===_refl k)
get-append_new k v ((j, w) ∷ o) h = ground (arith, get-append_new k v o)

without_plain : (o : Object Text) → IsPlain o → without namespace_key o ≡ o
unfolding without
without_plain [] h = refl
without_plain ((j, w) ∷ o) (p, new, h) = rw (p.2.1) (ap (◌∷◌ (j, w)) (without_plain o h))

get_plain : (o : Object Text) → IsPlain o → get namespace_key o ≡ none
unfolding get
get_plain [] h = refl
get_plain ((j, w) ∷ o) (p, new, h) = rw (p.2.1) (get_plain o h)

without-snoc :
    (v : Text) (o : Object Text)
    → IsPlain o
    → without namespace_key (o ++ (namespace_key, v) ∷ []) ≡ o
unfolding without
without-snoc v [] h = rw (===_refl namespace_key) refl
without-snoc v ((j, w) ∷ o) (p, new, h) = rw (p.2.1) (ap (◌∷◌ (j, w)) (without-snoc v o h))

-- The namespace is found in its own field again, and the other labels in the rows.
pub with_namespace-IsPlain :
    (ns : Text) (o : Object Text)
    → IsPlain o
    → (or_else (get namespace_key (with_namespace ns o)) [] ≡ trim ns)
      × (without namespace_key (with_namespace ns o) ≡ o)
unfolding with_namespace
with_namespace-IsPlain ns o h = elim (Bool-cases (is_empty (trim ns))) [
  | inl blank ↦ rw blank (
    ap (λ v. or_else v []) (get_plain o h) ∙ sym (is_empty-eq_true (trim ns) blank),
    without_plain o h,
  )
  | inr chosen ↦
      rw (chosen, assign_new namespace_key (trim ns) o (get_plain o h))
        (
          ap (λ v. or_else v []) (get-append_new namespace_key (trim ns) o (get_plain o h)),
          without-snoc (trim ns) o h,
        )
]

-- The rows that are read write the labels that they were read from.
pub with_namespace-to_label_pairs :
    (ns : Text) (o : Object Text)
    → IsPlain o
    → with_namespace (trim ns) (to_match_labels (to_label_pairs o)) ≡ with_namespace ns o
unfolding with_namespace
with_namespace-to_label_pairs ns o h = rw (trim_idem ns, to_match_labels-to_label_pairs o h) refl
