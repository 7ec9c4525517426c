-- ===== src/Tests/Checkpoints.antt =====
-- Retention policies.
use mathlib.Core.List.{Perm}
use snarkops.Common.{ℕ, ◌≡◌, refl, some, List, [], ◌∷◌, ◌++◌, ◌*◌, map}
use snarkops.Common.Int.{ℤ, pos, ◌-ℤ◌}
use snarkops.Checkpoint.Retention.{
  hour, RetentionPolicy, second, reject_with_time, span_eq, as_delta, next_rule,
}
use snarkops.Checkpoint.Retention.Terminates.{reject_with_time_total}
use snarkops.Checkpoint.Retention.Partition.{reject_with_time-perm}

abbrev at_hours : List ℕ → List ℤ
at_hours hours = map (λ h. pos (h * 3600 * second)) hours

-- 4h:1h
abbrev four_hours : RetentionPolicy
four_hours = record { rules = record { duration = hour 4; keep = hour 1 } ∷ [] }

-- 4h:1h,8h:4h
abbrev two_rules : RetentionPolicy
two_rules = record {
  rules =
      record { duration = hour 4; keep = hour 1 }
      ∷ record { duration = hour 8; keep = hour 4 }
      ∷ [];
}

program : Unit {0}
unfolding reject_with_time next_rule ◌-ℤ◌ span_eq as_delta
program = tt

-- Six of ten hourly checkpoints are left, as many as the program's own tests expect.
four_hours_run :
    reject_with_time four_hours
      (pos (10 * 3600 * second))
      (at_hours (3 ∷ 1 ∷ 2 ∷ 6 ∷ 4 ∷ 5 ∷ 10 ∷ 9 ∷ 8 ∷ 7 ∷ []))
    ≡ some (at_hours (5 ∷ 4 ∷ 3 ∷ 2 ∷ []))
unfolding program
four_hours_run = refl

reject_with_time_total_example :
    (rejected : List ℤ) × (reject_with_time two_rules
        (pos (10 * 3600 * second))
        (at_hours (3 ∷ 1 ∷ []))
      ≡ some rejected)
reject_with_time_total_example =
    reject_with_time_total two_rules (pos (10 * 3600 * second)) (at_hours (3 ∷ 1 ∷ []))

reject_with_time-perm_example :
    (kept : List ℤ) × (last_kept : ℤ) × Perm
      (at_hours (5 ∷ 4 ∷ 3 ∷ 2 ∷ []) ++ (kept ++ last_kept ∷ []))
      (at_hours (3 ∷ 1 ∷ 2 ∷ 6 ∷ 4 ∷ 5 ∷ 10 ∷ 9 ∷ 8 ∷ 7 ∷ []))
reject_with_time-perm_example =
    reject_with_time-perm four_hours (pos (10 * 3600 * second))
      (at_hours (3 ∷ 1 ∷ 2 ∷ 6 ∷ 4 ∷ 5 ∷ 10 ∷ 9 ∷ 8 ∷ 7 ∷ [])) (at_hours (5 ∷ 4 ∷ 3 ∷ 2 ∷ []))
      (λ e. cc) four_hours_run
