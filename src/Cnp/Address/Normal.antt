-- ===== src/Cnp/Address/Normal.antt =====
-- utils/cnpForm.ts: `normalizeCIDR` writes a CIDR for every address and CIDR that is accepted.
use k8s_sentinel.Base.{
  Text, lit, trim, trim_end, trim-append, is_space, trim_idem, includes, starts_with, split,
  cons_head, length, all, is_empty, is_digit, number_from, leb, ◌==◌, if◌then◌else◌, ◌&&◌, ◌||◌,
  not, Bool, true, false, List, [], ◌∷◌, ◌++◌, ℕ, ◌≡◌, ◌⊎◌, inl, inr, refl, arith, Bool-cases, ap,
  ◌∙◌, sym, and-eq_true,
}
use k8s_sentinel.Cnp.Address.{
  is_plain_number, is_octet, is_v4_address, is_prefix, is_v6_char, count_double_colon,
  is_v4_cidr_parts, is_v4_cidr, is_v6_address, is_v6_cidr_parts, is_v6_cidr, normalize_cidr,
}

abbrev pub IsCidr : Text → Type 0
IsCidr v = (is_v4_cidr v ≡ true) ⊎ (is_v6_cidr v ≡ true)

abbrev pub has : ℕ → Text → Bool
has c [] = false
has c (d ∷ s) = (d == c) || has c s

includes-one : (c : ℕ) (s : Text) → includes s (c ∷ []) ≡ has c s
unfolding includes starts_with
includes-one c [] = refl
includes-one c (d ∷ s) = ground (arith, includes-one c s)

split-append : (c : ℕ) (s t : Text) → has c s ≡ false → split c (s ++ c ∷ t) ≡ s ∷ split c t
unfolding split
split-append c [] t h = ground arith
split-append c (d ∷ s) t h = ground (arith, split-append c s t)

split-alone : (c : ℕ) (s : Text) → has c s ≡ false → split c s ≡ s ∷ []
unfolding split
split-alone c [] h = refl
split-alone c (d ∷ s) h = ground (arith, split-alone c s)

octet-digits : (o : Text) → is_octet o ≡ true → all is_digit o ≡ true
unfolding is_octet is_plain_number
octet-digits [] h = refl
octet-digits (c ∷ []) h = ground arith
octet-digits (c ∷ d ∷ s) h = ground arith

abbrev is_v4_char : ℕ → Bool
is_v4_char c = is_digit c || (c == b'.')

abbrev all_digits : List Text → Bool
all_digits = all (all is_digit)

cons_head-digits :
    (c : ℕ) (ps : List Text)
    → all_digits (cons_head c ps) ≡ true
    → (is_digit c ≡ true) × (all_digits ps ≡ true)
cons_head-digits c [] h = ground arith
cons_head-digits c (p ∷ ps) h = ground arith

split-digits : (s : Text) → all_digits (split b'.' s) ≡ true → all is_v4_char s ≡ true
unfolding split
split-digits [] h = refl
split-digits (c ∷ s) h = ground (arith, cons_head-digits c (split b'.' s), split-digits s)

octets-digits : (os : List Text) → all is_octet os ≡ true → all_digits os ≡ true
octets-digits [] h = refl
octets-digits (o ∷ os) h = ground (arith, octet-digits o, octets-digits os)

v4_chars-colon : (s : Text) → all is_v4_char s ≡ true → has b':' s ≡ false
v4_chars-colon [] h = refl
v4_chars-colon (c ∷ s) h = ground (arith, v4_chars-colon s)

-- An IPv4 address has no colon.
v4-colon : (s : Text) → is_v4_address s ≡ true → has b':' s ≡ false
unfolding is_v4_address
v4-colon s h =
    v4_chars-colon s (split-digits s (octets-digits (split b'.' s) (and-eq_true _ _ h).1))

third : (a b c d e f : Bool) → (a && b && c && d && e && f) ≡ true → c ≡ true
third a b c d e f h = ground arith

v6-colon : (s : Text) → is_v6_address s ≡ true → has b':' s ≡ true
unfolding is_v6_address lit
v6-colon s h =
    sym (includes-one b':' s)
    ∙ third (not (is_empty s)) (all is_v6_char s) (includes s (lit ":"))
        (not (includes s (lit ":::"))) (leb (count_double_colon s) 1)
        (all (λ g. leb (length g) 4) (split b':' s)) h

is_v4_cidr-alone : (s : Text) → has b'/' s ≡ false → is_v4_cidr s ≡ is_v4_address s
unfolding is_v4_cidr is_v4_cidr_parts
is_v4_cidr-alone s h = ap is_v4_cidr_parts (split-alone b'/' s h)

is_v6_cidr-alone : (s : Text) → has b'/' s ≡ false → is_v6_cidr s ≡ is_v6_address s
unfolding is_v6_cidr is_v6_cidr_parts
is_v6_cidr-alone s h = ap is_v6_cidr_parts (split-alone b'/' s h)

is_v4_cidr-32 : (s : Text) → has b'/' s ≡ false → is_v4_cidr (s ++ lit "/32") ≡ is_v4_address s
unfolding is_v4_cidr is_v4_cidr_parts lit split is_prefix is_plain_number number_from
is_v4_cidr-32 s h = ap is_v4_cidr_parts (split-append b'/' s (lit "32") h)

is_v6_cidr-128 : (s : Text) → has b'/' s ≡ false → is_v6_cidr (s ++ lit "/128") ≡ is_v6_address s
unfolding is_v6_cidr is_v6_cidr_parts lit split is_prefix is_plain_number number_from
is_v6_cidr-128 s h = ap is_v6_cidr_parts (split-append b'/' s (lit "128") h)

-- What is added to a bare address, by its kind.
bare-IsCidr :
    (s : Text)
    → has b'/' s ≡ false
    → IsCidr s
    → IsCidr (if has b':' s then s ++ lit "/128" else s ++ lit "/32")
bare-IsCidr s h (inl v4) =
    let e = v4-colon s (sym (is_v4_cidr-alone s h) ∙ v4) in
    rw e (inl (is_v4_cidr-32 s h ∙ sym (is_v4_cidr-alone s h) ∙ v4))
bare-IsCidr s h (inr v6) =
    let e = v6-colon s (sym (is_v6_cidr-alone s h) ∙ v6) in
    rw e (inr (is_v6_cidr-128 s h ∙ sym (is_v6_cidr-alone s h) ∙ v6))

has-append : (c : ℕ) (s t : Text) → has c (s ++ t) ≡ (has c s || has c t)
has-append c [] t = refl
has-append c (d ∷ s) t = ground (arith, has-append c s t)

normalize_cidr-has :
    (v : Text)
    → normalize_cidr v ≡ (
        if has b'/' (trim v)
        then trim v
        else if has b':' (trim v)
        then trim v ++ lit "/128"
        else trim v ++ lit "/32")
unfolding normalize_cidr lit
normalize_cidr-has v = rw (includes-one b'/' (trim v), includes-one b':' (trim v)) refl

normalized-IsCidr :
    (s : Text)
    → IsCidr s
    → IsCidr (if has b'/' s then s else if has b':' s then s ++ lit "/128" else s ++ lit "/32")
normalized-IsCidr s h = elim (Bool-cases (has b'/' s)) [
  | inl slash ↦ rw slash h
  | inr bare ↦ rw bare (bare-IsCidr s bare h)
]

normalized-slash :
    (s : Text)
    → has b'/' (if has b'/' s then s else if has b':' s then s ++ lit "/128" else s ++ lit "/32")
      ≡ true
unfolding lit
normalized-slash s = elim (Bool-cases (has b'/' s)) [
  | inl slash ↦ rw slash slash
  | inr bare ↦ rw bare (elim (Bool-cases (has b':' s)) [
    | inl v6 ↦ rw v6 (has-append b'/' s (lit "/128") ∙ rw bare refl)
    | inr v4 ↦ rw v4 (has-append b'/' s (lit "/32") ∙ rw bare refl)
  ])
]

-- What is written for a text: itself if it has a prefix length, and else the address and the length that
-- stands for it alone.
abbrev pub Writes : Text → Text → Type 0
Writes s r =
    ((includes s (lit "/") ≡ true) × (r ≡ s))
    ⊎ (((is_v4_address s ≡ true) × (r ≡ s ++ lit "/32"))
        ⊎ ((is_v6_address s ≡ true) × (r ≡ s ++ lit "/128")))

bare-Writes :
    (s : Text)
    → has b'/' s ≡ false
    → IsCidr s
    → Writes s (if has b':' s then s ++ lit "/128" else s ++ lit "/32")
bare-Writes s h (inl v4) =
    let a = sym (is_v4_cidr-alone s h) ∙ v4 in let e = v4-colon s a in rw e (inr (inl (a, refl)))
bare-Writes s h (inr v6) =
    let a = sym (is_v6_cidr-alone s h) ∙ v6 in let e = v6-colon s a in rw e (inr (inr (a, refl)))

normalized-Writes :
    (s : Text)
    → IsCidr s
    → Writes s (if has b'/' s then s else if has b':' s then s ++ lit "/128" else s ++ lit "/32")
unfolding lit
normalized-Writes s h = elim (Bool-cases (has b'/' s)) [
  | inl slash ↦ rw slash (inl (includes-one b'/' s ∙ slash, refl))
  | inr bare ↦ rw bare (bare-Writes s bare h)
]

-- A CIDR or address that the form accepts, blanks around it aside, is written as it is if it has a slash;
-- else it is an IPv4 address, and a `/32` is put behind it, or an IPv6 address, and a `/128` is. What is
-- written is again accepted.
pub normalize_cidr-IsCidr :
    (v : Text) → IsCidr (trim v) → Writes (trim v) (normalize_cidr v) × IsCidr (normalize_cidr v)
normalize_cidr-IsCidr v h =
    rw (normalize_cidr-has v) (normalized-Writes (trim v) h, normalized-IsCidr (trim v) h)

trim_end-32 : trim_end (lit "/32") ≡ lit "/32"
unfolding trim_end lit is_space
trim_end-32 = refl

trim_end-128 : trim_end (lit "/128") ≡ lit "/128"
unfolding trim_end lit is_space
trim_end-128 = refl

trim-normalized :
    (v : Text)
    → is_empty (trim v) ≡ false
    → trim (
        if has b'/' (trim v)
        then trim v
        else if has b':' (trim v)
        then trim v ++ lit "/128"
        else trim v ++ lit "/32")
      ≡ (if has b'/' (trim v)
          then trim v
          else if has b':' (trim v)
          then trim v ++ lit "/128"
          else trim v ++ lit "/32")
unfolding lit
trim-normalized v h = elim (Bool-cases (has b'/' (trim v))) [
  | inl slash ↦ rw slash (trim_idem v)
  | inr bare ↦ rw bare (elim (Bool-cases (has b':' (trim v))) [
    | inl v6 ↦ rw v6 (trim-append v (lit "/128") h trim_end-128 refl)
    | inr v4 ↦ rw v4 (trim-append v (lit "/32") h trim_end-32 refl)
  ])
]

pub trim-normalize_cidr :
    (v : Text) → is_empty (trim v) ≡ false → trim (normalize_cidr v) ≡ normalize_cidr v
trim-normalize_cidr v h = rw (normalize_cidr-has v) (trim-normalized v h)

-- Normalising twice changes nothing more.
pub normalize_cidr_idem :
    (v : Text) → is_empty (trim v) ≡ false → normalize_cidr (normalize_cidr v) ≡ normalize_cidr v
normalize_cidr_idem v h =
    normalize_cidr-has (normalize_cidr v)
    ∙ rw (trim-normalize_cidr v h, normalize_cidr-has v, normalized-slash (trim v)) refl
