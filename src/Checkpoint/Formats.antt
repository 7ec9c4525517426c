-- ===== src/Checkpoint/Formats.antt =====
-- crates/common/src/format/impl_checkpoint.rs: retention spans and policies as bytes.
pub mod RoundTrip
use snarkops.Format.Collections.{read_vec, pair_format, write_vec}
use snarkops.Format.Ints.{read_uint, read_nonzero, nonzero_u8_format, u8_format, write_uint}
use snarkops.Checkpoint.Retention.{
  month, week, day, hour, unlimited, minute, RetentionRule, RetentionPolicy, RetentionSpan,
}
use snarkops.Checkpoint.Retention.{unlimited, minute, hour, day, week, month, year}
use snarkops.Common.{◌==◌, if◌then◌else◌, ◌++◌, ℕ, List, [], ◌∷◌, map}
use snarkops.Format.{
  custom, unsupported_version, fail, pure, ◌>>=◌, pure, default_read_header, default_write_header,
  Output, Reader, DataFormat,
}

-- `first?; second`, where the count of the first write is not returned.
abbrev pub then_write : Output → Output → Output
then_write a b = record { count = b.count; bytes = a.bytes ++ b.bytes }

unfoldable pub write_span : RetentionSpan → Output
write_span unlimited = write_uint 1 0
write_span (minute b) = then_write (write_uint 1 1) (nonzero_u8_format.write_data b)
write_span (hour b) = then_write (write_uint 1 2) (nonzero_u8_format.write_data b)
write_span (day b) = then_write (write_uint 1 3) (nonzero_u8_format.write_data b)
write_span (week b) = then_write (write_uint 1 4) (nonzero_u8_format.write_data b)
write_span (month b) = then_write (write_uint 1 5) (nonzero_u8_format.write_data b)
write_span (year b) = then_write (write_uint 1 6) (nonzero_u8_format.write_data b)

unfoldable pub span_of_tag : ℕ → Reader RetentionSpan
span_of_tag tag =
    if tag == 0
    then pure unlimited
    else if tag == 1
    then (do b ← read_nonzero; pure (minute b))
    else if tag == 2
    then (do b ← read_nonzero; pure (hour b))
    else if tag == 3
    then (do b ← read_nonzero; pure (day b))
    else if tag == 4
    then (do b ← read_nonzero; pure (week b))
    else if tag == 5
    then (do b ← read_nonzero; pure (month b))
    else if tag == 6
    then (do b ← read_nonzero; pure (year b))
    else fail (custom "invalid RetentionSpan discrminant")

unfoldable pub read_span : ℕ → Reader RetentionSpan
unfolding span_of_tag
read_span header =
    if header == 1
    then (do tag ← read_uint 1; span_of_tag tag)
    else fail (unsupported_version "RetentionSpan" 1 header)

abbrev pub span_format : DataFormat ℕ RetentionSpan
span_format = record {
  latest_header = 1;
  write_header = default_write_header u8_format 1;
  read_header = default_read_header u8_format;
  write_data = write_span;
  read_data = read_span;
}

abbrev pub span_pair_format : DataFormat (ℕ × ℕ) (RetentionSpan × RetentionSpan)
span_pair_format = pair_format span_format span_format

abbrev pub pair_of_rule : RetentionRule → RetentionSpan × RetentionSpan
pair_of_rule r = (r.duration, r.keep)

unfoldable pub write_policy : RetentionPolicy → Output
write_policy policy = write_vec span_pair_format (map pair_of_rule policy.rules)

abbrev pub rule_of_pair : RetentionSpan × RetentionSpan → RetentionRule
rule_of_pair (duration, keep) = record { duration = duration; keep = keep }

unfoldable pub read_policy : ℕ × ℕ → Reader RetentionPolicy
read_policy (version, span_header) =
    if version == 1
    then (do
      rules ← read_vec span_pair_format (span_header, span_header)
      pure (record { rules = map rule_of_pair rules }))
    else fail (unsupported_version "RetentionPolicy" 1 version)

abbrev pub policy_format : DataFormat (ℕ × ℕ) RetentionPolicy
policy_format = record {
  latest_header = (1, 1);
  write_header = default_write_header (pair_format u8_format u8_format) (1, 1);
  read_header = default_read_header (pair_format u8_format u8_format);
  write_data = write_policy;
  read_data = read_policy;
}
