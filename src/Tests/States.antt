-- ===== src/Tests/States.antt =====
-- The formats of the states: the cases of the tests in crates/common/src.
use snarkops.Format.{custom, read_exact}
use snarkops.Common.Int.{ℤ}
use snarkops.Checkpoint.Formats.{read_span, write_span}
use snarkops.Format.Ints.{write_uint, to_le_bytes, from_le_bytes, read_uint, read_nonzero}
use snarkops.Common.{if◌then◌else◌, ◌+◌, ltb, Bool, ◌≡◌, length, ℕ, [], ◌∷◌, refl, err}
use snarkops.Checkpoint.Retention.{is_unlimited, hour}
use snarkops.Checkpoint.Formats.RoundTrip.{write_span_count}

program : Unit {0}
unfolding read_span read_uint read_exact from_le_bytes write_span to_le_bytes write_uint
program = tt

span_runs : (write_span (hour 1)).bytes ≡ 2 ∷ 1 ∷ []
unfolding program
span_runs = refl

span_zero : read_span 1 (2 ∷ 0 ∷ []) ≡ err (custom "invalid NonZeroU8")
unfolding program read_nonzero
span_zero = refl

write_span_count_example :
    length (write_span (hour 1)).bytes
    ≡ (write_span (hour 1)).count + (if is_unlimited (hour 1) then 0 else 1)
write_span_count_example = write_span_count (hour 1)

abbrev any_time : ℤ → ℕ → Bool
any_time seconds nanos = ltb nanos 1_000_000_000
