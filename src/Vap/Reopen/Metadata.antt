-- ===== src/Vap/Reopen/Metadata.antt =====
-- pages/VAPPage.tsx: what a manifest may have in its metadata beside its name, to open in a form.
use k8s_sentinel.Base.{
  Text, lit, ◌||◌, not, Bool, true, false, any, member, List, [], ◌∷◌, All, Option, none, some,
  Json, null, bool, num, str, arr, obj, Object, of_items, of_fields, IsBare, is_empty, prop,
  prop_of, ◌≡◌, ◌⊎◌, refl, arith, ===_iff,
}
use k8s_sentinel.Vap.Reopen.{any_key, own_annotations, metadata_beyond_builder}

-- The annotations that the form writes, and the one of kubectl.
abbrev pub IsOwn : Text → Type 0
IsOwn k =
    (k ≡ lit "sentinel.io/builder")
    ⊎ ((k ≡ lit "sentinel.io/apply-to")
        ⊎ ((k ≡ lit "sentinel.io/created-by")
            ⊎ (k ≡ lit "kubectl.kubernetes.io/last-applied-configuration")))

abbrev pub HasOwn : Option Json → Type 0
HasOwn (some (obj o)) = All (λ e. IsOwn e.0) (of_fields o)
HasOwn (some (arr xs)) = of_items xs ≡ []
HasOwn (some (str s)) = s ≡ []
HasOwn _ = Unit

-- No labels, and no other annotations.
abbrev pub HasPlainMetadata : Json → Type 0
HasPlainMetadata doc =
    IsBare (prop_of (lit "labels") (prop (lit "metadata") doc))
    × HasOwn (prop_of (lit "annotations") (prop (lit "metadata") doc))

is_empty-nil {ℓ} : {A : Type ℓ} (xs : List A) → not (is_empty xs) ≡ false → xs ≡ []
is_empty-nil [] h = refl
is_empty-nil (x ∷ xs) h = absurd (ground arith)

any-nil : (o : Object Json) → any (λ e. true) o ≡ false → o ≡ []
any-nil [] h = refl
any-nil (e ∷ o) h = absurd (ground arith)

any_key-IsBare : (o : Option Json) → any_key (λ k. true) o ≡ false → IsBare o
any_key-IsBare none h = tt
any_key-IsBare (some (obj o)) h = any-nil (of_fields o) h
any_key-IsBare (some (arr xs)) h = is_empty-nil (of_items xs) h
any_key-IsBare (some (str s)) h = is_empty-nil s h
any_key-IsBare (some null) h = tt
any_key-IsBare (some (bool b)) h = tt
any_key-IsBare (some (num n)) h = tt

member-IsOwn : (k : Text) → not (member k own_annotations) ≡ false → IsOwn k
unfolding member
member-IsOwn k h = ground (
  arith,
  ===_iff (lit "sentinel.io/builder") k,
  ===_iff (lit "sentinel.io/apply-to") k,
  ===_iff (lit "sentinel.io/created-by") k,
  ===_iff (lit "kubectl.kubernetes.io/last-applied-configuration") k,
)

any-IsOwn :
    (o : Object Json)
    → any (λ e. not (member e.0 own_annotations)) o ≡ false
    → All (λ e. IsOwn e.0) o
any-IsOwn [] h = tt
any-IsOwn ((k, v) ∷ o) h = (member-IsOwn k (ground arith), any-IsOwn o (ground arith))

any_key-HasOwn :
    (o : Option Json) → any_key (λ k. not (member k own_annotations)) o ≡ false → HasOwn o
any_key-HasOwn none h = tt
any_key-HasOwn (some (obj o)) h = any-IsOwn (of_fields o) h
any_key-HasOwn (some (arr xs)) h = is_empty-nil (of_items xs) h
any_key-HasOwn (some (str s)) h = is_empty-nil s h
any_key-HasOwn (some null) h = tt
any_key-HasOwn (some (bool b)) h = tt
any_key-HasOwn (some (num n)) h = tt

neither : (a b : Bool) → (a || b) ≡ false → (a ≡ false) × (b ≡ false)
neither false b h = (refl, h)
neither true b h = absurd (ground arith)

pub metadata_beyond_builder-HasPlainMetadata :
    (doc : Json) → metadata_beyond_builder doc ≡ false → HasPlainMetadata doc
unfolding metadata_beyond_builder
metadata_beyond_builder-HasPlainMetadata doc h =
    let (bare, own) = neither _ _ h in (any_key-IsBare _ bare, any_key-HasOwn _ own)
