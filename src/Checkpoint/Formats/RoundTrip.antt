-- ===== src/Checkpoint/Formats/RoundTrip.antt =====
-- Retention spans and policies in crates/common/src/format/impl_checkpoint.rs: values and bytes.
use snarkops.Format.Ints.RoundTrip.{IsNonzeroU8, uint_format-IsLawful}
use snarkops.Format.Collections.RoundTrip.{vec_format-IsLawful, pair_format-IsLawful}
use snarkops.Format.Collections.{pair_format}
use snarkops.Format.Ints.{
  to_le_bytes, read_nonzero, u8_format, from_le_bytes, write_uint, read_uint,
}
use snarkops.Format.Packed.RoundTrip.{IsU64}
use snarkops.Format.Laws.{default_read_header-default_write_header, IsLawful}
use snarkops.Checkpoint.Retention.{
  year, is_unlimited, RetentionSpan, RetentionPolicy, RetentionRule,
}
use snarkops.Checkpoint.Formats.{
  pair_of_rule, month, week, day, hour, minute, span_pair_format, write_policy, span_format,
  rule_of_pair, policy_format, write_span, read_policy, read_span,
}
use snarkops.Checkpoint.Retention.{unlimited, minute, hour, day, week, month, year}
use snarkops.Common.{
  if◌then◌else◌, ◌+◌, refl, arith, length-map, ok, length, ◌++◌, ◌≡◌, All, ℕ, List, [], ◌∷◌, map,
}
use snarkops.Format.{read_exact}

-- The number of a span is not zero and fits in a byte.
abbrev pub IsSpan : RetentionSpan → Type 0
IsSpan unlimited = Unit
IsSpan (minute b) = IsNonzeroU8 b
IsSpan (hour b) = IsNonzeroU8 b
IsSpan (day b) = IsNonzeroU8 b
IsSpan (week b) = IsNonzeroU8 b
IsSpan (month b) = IsNonzeroU8 b
IsSpan (year b) = IsNonzeroU8 b

abbrev pub IsRule : RetentionRule → Type 0
IsRule r = IsSpan r.duration × IsSpan r.keep

abbrev pub IsPolicy : RetentionPolicy → Type 0
IsPolicy policy = IsU64 (length policy.rules) × All IsRule policy.rules

read_span-write_span :
    (span : RetentionSpan) (rest : List ℕ)
    → IsSpan span
    → read_span 1 ((write_span span).bytes ++ rest) ≡ ok (span, rest)
unfolding read_span write_span read_uint read_exact from_le_bytes read_nonzero to_le_bytes
    write_uint
read_span-write_span unlimited rest h = refl
read_span-write_span (minute b) rest h = ground arith
read_span-write_span (hour b) rest h = ground arith
read_span-write_span (day b) rest h = ground arith
read_span-write_span (week b) rest h = ground arith
read_span-write_span (month b) rest h = ground arith
read_span-write_span (year b) rest h = ground arith

-- A retention span is read back from its bytes, with and without its header.
pub span_format-IsLawful : IsLawful span_format IsSpan
span_format-IsLawful = record {
  data_round_trip = read_span-write_span;
  header_round_trip = λ span rest.
      default_read_header-default_write_header u8_format 1 span rest (uint_format-IsLawful 1)
        (omega arith);
}

rules_of_pairs : (rules : List RetentionRule) → map rule_of_pair (map pair_of_rule rules) ≡ rules
rules_of_pairs [] = refl
rules_of_pairs (r ∷ rules) = rw (rules_of_pairs rules)

pairs_are_valid :
    (rules : List RetentionRule)
    → All IsRule rules
    → All (λ (p : RetentionSpan × RetentionSpan). IsSpan p.0 × IsSpan p.1) (map pair_of_rule rules)
pairs_are_valid [] h = tt
pairs_are_valid (r ∷ rules) h = (h.0, pairs_are_valid rules h.1)

read_policy-write_policy :
    (policy : RetentionPolicy) (rest : List ℕ)
    → IsPolicy policy
    → read_policy (1, 1) ((write_policy policy).bytes ++ rest) ≡ ok (policy, rest)
unfolding read_policy write_policy
read_policy-write_policy policy rest (len, rules) =
    let pairs : List (RetentionSpan × RetentionSpan) = map pair_of_rule policy.rules in
    let header_law =
      pair_format-IsLawful u8_format u8_format (uint_format-IsLawful 1) (uint_format-IsLawful 1) in
    let law =
      vec_format-IsLawful (pair_format u8_format u8_format) span_pair_format header_law
        (omega arith, omega arith)
        (pair_format-IsLawful span_format span_format span_format-IsLawful span_format-IsLawful) in
    simp (
      law.data_round_trip pairs rest
          (rw (length-map policy.rules pair_of_rule) len, pairs_are_valid policy.rules rules),
      rules_of_pairs policy.rules,
    )

-- A retention policy of fewer than 2^64 rules is read back from its bytes, with and without its
-- header.
pub policy_format-IsLawful : IsLawful policy_format IsPolicy
policy_format-IsLawful = record {
  data_round_trip = read_policy-write_policy;
  header_round_trip = λ policy rest.
      default_read_header-default_write_header (pair_format u8_format u8_format) (1, 1) policy rest
        (pair_format-IsLawful u8_format u8_format (uint_format-IsLawful 1) (uint_format-IsLawful 1))
        (omega arith, omega arith);
}

-- The count that a write of a span returns is the number of bytes that it appends for an unlimited
-- span, and one less for every other.
pub write_span_count :
    (span : RetentionSpan)
    → length (write_span span).bytes
      ≡ (write_span span).count + (if is_unlimited span then 0 else 1)
unfolding write_span is_unlimited write_uint to_le_bytes
write_span_count unlimited = refl
write_span_count (minute b) = refl
write_span_count (hour b) = refl
write_span_count (day b) = refl
write_span_count (week b) = refl
write_span_count (month b) = refl
write_span_count (year b) = refl
