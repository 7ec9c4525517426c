-- ===== src/Tests/Trees.antt =====
-- The trees of crates/common/src/db/tree.rs over a map in memory.
use snarkops.Controlplane.Tracker.Attempts.{attempts_counted, inc_times}
use snarkops.Controlplane.Tracker.{inc_attempts, get_attempts, clear_attempts}
use snarkops.Format.Packed.{write_packed, read_packed, bit_length, leading_zeros, num_bytes}
use snarkops.Format.{
  read_exact, default_read_header, read_dataformat, default_write_header, write_dataformat,
}
use snarkops.Format.Ints.RoundTrip.{uint_format-IsLawful}
use snarkops.Format.Ints.{from_le_bytes, read_uint, write_uint, to_le_bytes, u8_format}
use snarkops.Common.{
  ==_iff, arith, if◌then◌else◌, ok-injective, ◌&&◌, Result, ◌==◌, ◌≡◌, refl, List, [], ◌∷◌, none,
  some, ok, ℕ, true, false, Bool,
}
use snarkops.Common.Dict.{remove, insert, lookup-remove, lookup, lookup-insert, Dict}
use snarkops.Common.Text.{text_eq, text_eq_iff}
use snarkops.Database.{
  read_value, restore_found, restore, save_option, delete, save, Sled, IsSled, Bytes,
}
use snarkops.Database.Refinement.{
  write_to, write_all, saved_option, deleted, saved, Represents, Write, write_all_refines,
}

unfoldable starts_with : Bytes → Bytes → Bool
starts_with [] k = true
starts_with (b ∷ prefix) [] = false
starts_with (b ∷ prefix) (c ∷ k) = (b == c) && starts_with prefix k

unfoldable scan : Bytes → Dict Bytes Bytes → List (Result (Unit {0}) (Bytes × Bytes))
unfolding starts_with
scan prefix [] = []
scan prefix ((k, v) ∷ d) = if starts_with prefix k then ok (k, v) ∷ scan prefix d else scan prefix d

unfoldable in_memory : Sled (Dict Bytes Bytes) (Unit {0})
unfolding scan
in_memory = record {
  get = λ t k. ok (lookup text_eq k t);
  insert = λ t k v. ok (insert text_eq k v t);
  remove = λ t k. ok (lookup text_eq k t, remove text_eq k t);
  iter = λ t. scan [] t;
  scan_prefix = λ t prefix. scan prefix t;
}

in_memory-IsSled : IsSled in_memory
unfolding in_memory
in_memory-IsSled = record {
  get-insert = λ t t' k v j e.
      let same = lookup-insert text_eq text_eq_iff k j v t in
      rw (← ok-injective e) (ground (arith, same));
  get-remove = λ t t' k j old e.
      let same = lookup-remove text_eq text_eq_iff k j t in
      let eq = ok-injective e in ground (arith, same, eq);
}

abbrev same_byte : ℕ → ℕ → Bool
same_byte a b = a == b

program : Unit {0}
unfolding write_all write_to save delete save_option in_memory write_dataformat text_eq
    default_write_header to_le_bytes write_uint insert remove
program = tt

abbrev writes : List (Write ℕ ℕ)
writes = saved 1 10 ∷ saved 2 20 ∷ deleted 1 ∷ saved_option 3 (some 30) ∷ []

abbrev after_writes : Dict Bytes Bytes
after_writes = ((3 ∷ []), (30 ∷ [])) ∷ ((2 ∷ []), (20 ∷ [])) ∷ []

no_value :
    Represents in_memory in_memory-IsSled u8_format u8_format
      (uint_format-IsLawful 1)
      (uint_format-IsLawful 1)
      same_byte
      ==_iff
      []
      (λ _. none)
unfolding in_memory restore restore_found lookup
no_value j h = refl

writes_run :
    write_all in_memory in_memory-IsSled u8_format u8_format
      (uint_format-IsLawful 1)
      (uint_format-IsLawful 1)
      same_byte
      ==_iff
      []
      writes
    ≡ ok after_writes
unfolding program
writes_run = refl

write_all_refines_example : restore in_memory u8_format u8_format after_writes 3 ≡ ok (some 30)
write_all_refines_example =
    write_all_refines in_memory in_memory-IsSled u8_format u8_format (uint_format-IsLawful 1)
      (uint_format-IsLawful 1) same_byte ==_iff [] after_writes (λ _. none) writes
      (
        (omega arith, omega arith),
        ((omega arith, omega arith), (omega arith, ((omega arith, omega arith), tt))),
      )
      no_value writes_run 3 (omega arith)

-- The attempts of a transaction, with a byte for its key.
abbrev counted : Dict Bytes Bytes
counted = ((5 ∷ []), (1 ∷ 2 ∷ [])) ∷ []

clear_run : clear_attempts in_memory u8_format [] 5 ≡ ok []
unfolding clear_attempts delete in_memory remove
clear_run = refl

count_run :
    inc_times in_memory in_memory-IsSled u8_format (uint_format-IsLawful 1) same_byte ==_iff 2 [] 5
    ≡ ok counted
unfolding inc_times restore in_memory lookup save insert text_eq write_uint to_le_bytes
    read_dataformat default_read_header read_packed read_uint read_exact write_dataformat
    default_write_header write_packed remove inc_attempts read_value restore_found from_le_bytes
    bit_length leading_zeros num_bytes
count_run = refl

attempts_counted_example : get_attempts in_memory u8_format counted 5 ≡ 2
attempts_counted_example =
    attempts_counted in_memory in_memory-IsSled u8_format (uint_format-IsLawful 1) same_byte ==_iff
      2 [] [] counted 5 5 (omega arith) (omega arith) (omega arith) clear_run count_run
