-- ===== src/Vap/Expressions/Replicas.antt =====
-- pages/VAPPage.tsx: the reader of replica expressions gives back what the builder writes.
use k8s_sentinel.Base.{
  Text, ℕ, ◌==◌, lit, decimal, trim, trim_end, trim_start, trim_end-append, is_space, is_digit, all,
  not, ◌&&◌, if◌then◌else◌, Bool, Bool-cases, true, false, [], ◌∷◌, ◌++◌, some, ◌>>=◌, ◌≡◌, refl,
  ap, ◌∙◌, inl, inr, arith, and-eq_true,
}
use k8s_sentinel.Vap.{ReplicaResource, deployments, statefulsets}
use k8s_sentinel.Vap.Rules.{replica_expr}
use k8s_sentinel.Vap.Expressions.{
  starts_space, squeeze, normalised, after, digits_to_end, bound_to_end,
  parse_expression_to_replica_rule,
}
use k8s_sentinel.Vap.Expressions.Digits.{
  number_from-decimal, digits-decimal, filled-decimal, digit-space, squeeze-digits, trim_end-digits,
  trim_start-digits,
}

abbrev is_spaced : ℕ → Text → Bool
is_spaced c s = if is_space c then (c == 32) && not (starts_space s) else true

-- White space is single spaces.
abbrev single_spaced : Text → Bool
single_spaced [] = true
single_spaced (c ∷ s) = is_spaced c s && single_spaced s

if-true : (b c : Bool) → b ≡ true → (if b then c else true) ≡ true → c ≡ true
if-true true c h k = k
if-true false c h k = absurd (ground arith)

spaced-next :
    (c : ℕ) (s : Text)
    → is_space c ≡ true
    → is_spaced c s ≡ true
    → (32 ≡ c) × (starts_space s ≡ false)
spaced-next c s space h =
    ground (arith, if-true (is_space c) ((c == 32) && not (starts_space s)) space h)

starts_space-append :
    (s t : Text) → starts_space s ≡ false → starts_space t ≡ false → starts_space (s ++ t) ≡ false
starts_space-append [] t h k = k
starts_space-append (c ∷ s) t h k = h

squeeze-append :
    (s t : Text)
    → single_spaced s ≡ true
    → starts_space t ≡ false
    → squeeze t ≡ t
    → squeeze (s ++ t) ≡ s ++ t
unfolding squeeze
squeeze-append [] t h k e = e
squeeze-append (c ∷ s) t h k e =
    let rest = squeeze-append s t (and-eq_true (is_spaced c s) _ h).1 k e in
    elim (Bool-cases (is_space c)) [
      | inl space ↦
          let next = spaced-next c s space (and-eq_true (is_spaced c s) _ h).0 in
          rw (space, starts_space-append s t next.1 k, rest) (ap (λ d. d ∷ s ++ t) next.0)
      | inr other ↦ rw (other, rest) refl
    ]

starts_space-digits : (s : Text) → all is_digit s ≡ true → starts_space s ≡ false
starts_space-digits [] h = refl
starts_space-digits (c ∷ s) h = digit-space c (and-eq_true (is_digit c) _ h).0

digits_to_end-decimal : (n : ℕ) → digits_to_end (decimal n) ≡ some n
unfolding digits_to_end
digits_to_end-decimal n = rw (filled-decimal n, digits-decimal n, number_from-decimal n) refl

normalised-append :
    (s : Text) (n : ℕ)
    → single_spaced s ≡ true
    → trim_start (s ++ decimal n) ≡ s ++ decimal n
    → normalised (s ++ decimal n) ≡ s ++ decimal n
unfolding normalised trim
normalised-append s n h e =
    ap (λ t. trim_end (trim_start t))
      (squeeze-append s (decimal n) h (starts_space-digits (decimal n) (digits-decimal n))
        (squeeze-digits (decimal n) (digits-decimal n)))
    ∙ ap trim_end e
    ∙ trim_end-append s (decimal n) (trim_end-digits (decimal n) (digits-decimal n))
        (filled-decimal n)

normalised-replica_expr :
    (r : ReplicaResource) (n : ℕ) → normalised (replica_expr r n) ≡ replica_expr r n
unfolding replica_expr lit trim_start is_space
normalised-replica_expr deployments n =
    normalised-append (lit "request.resource.resource != 'deployments' || object.spec.replicas <= ")
      n refl refl
normalised-replica_expr statefulsets n =
    normalised-append
      (lit "request.resource.resource != 'statefulsets' || object.spec.replicas <= ") n refl refl
normalised-replica_expr ReplicaResource.both n =
    normalised-append (lit "object.spec.replicas <= ") n refl refl

bound_to_end-decimal : (n : ℕ) → bound_to_end (lit " <= " ++ decimal n) ≡ some n
unfolding bound_to_end lit after trim_start is_space ◌>>=◌
bound_to_end-decimal n =
    rw (trim_start-digits (decimal n) (digits-decimal n)) (digits_to_end-decimal n)

-- The expression of a bound on replicas is read back as a rule for the same resources with the same
-- bound and the message that stands beside the expression.
pub parse_expression_to_replica_rule-replica_expr :
    (r : ReplicaResource) (n : ℕ) (message : Text)
    → parse_expression_to_replica_rule (replica_expr r n) message
      ≡ some (record { max_replicas = n; resource_type = r; message = message })
unfolding parse_expression_to_replica_rule replica_expr lit after ◌>>=◌
parse_expression_to_replica_rule-replica_expr deployments n message =
    rw (normalised-replica_expr deployments n, digits_to_end-decimal n) refl
parse_expression_to_replica_rule-replica_expr statefulsets n message =
    rw (normalised-replica_expr statefulsets n, digits_to_end-decimal n) refl
parse_expression_to_replica_rule-replica_expr ReplicaResource.both n message =
    rw (normalised-replica_expr ReplicaResource.both n, bound_to_end-decimal n) refl
