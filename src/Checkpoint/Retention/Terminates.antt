-- ===== src/Checkpoint/Retention/Terminates.antt =====
-- The loop of `reject_with_time` of crates/checkpoint/src/retention.rs, and its fuel.
use mathlib.Core.List.{reverse}
use snarkops.Common.{
  ◌∙◌, ℕ, zero, suc, ◌+◌, ◌≤◌, ◌<◌, ◌≡◌, refl, true, false, Option, none, some, List, [], ◌∷◌,
  length, arith, Option-cases, inl, inr, ap, Bool-cases, List-cases,
}
use snarkops.Common.Int.{ℤ, ◌-ℤ◌}
use snarkops.Checkpoint.Retention.{
  RetentionSpan, unlimited, minute, RetentionRule, RetentionPolicy, as_delta, is_unlimited,
  NextRule, stay, switch, spin, next_rule, Walk, is_outlived, keep_or_reject, follow, round, walk,
  start_walk, reject_with_time, sort_newest_first,
}

-- Only the unlimited span has no length.
as_delta-none : (d : RetentionSpan) → as_delta d ≡ none → is_unlimited d ≡ true
unfolding as_delta is_unlimited
as_delta-none unlimited h = refl
as_delta-none (minute v) h = cc
as_delta-none _ h = cc

-- The inner loop never spins, and leaves no more rules than there were; a switch takes one.
abbrev Shrinks : ℕ → NextRule → Type 0
Shrinks n (stay rule rules) = length rules ≤ n
Shrinks n (switch promoted rule rules) = length rules < n
Shrinks n spin = ⊥

Shrinks-le : (m n : ℕ) (r : NextRule) → m ≤ n → Shrinks m r → Shrinks n r
Shrinks-le m n (stay rule rules) h k = omega arith
Shrinks-le m n (switch promoted rule rules) h k = omega arith
Shrinks-le m n spin h k = k

next_rule-Shrinks :
    (delta last_delta : ℤ) (curr : RetentionRule) (rules : List RetentionRule)
    → Shrinks (length rules) (next_rule delta last_delta curr rules)
unfolding next_rule
next_rule-Shrinks delta last_delta curr [] = omega arith
next_rule-Shrinks delta last_delta curr (rule ∷ rules) = ground (
  arith,
  Shrinks-le (length rules) (suc (length rules)) (next_rule delta last_delta rule rules),
  next_rule-Shrinks delta last_delta rule rules,
  as_delta-none rule.duration,
)

abbrev measure : Walk → ℕ
measure w = length w.rules + length w.times

abbrev Falls : ℕ → Option Walk → Type 0
Falls n none = ⊥
Falls n (some w) = measure w < n

follow-Falls :
    (w : Walk) (time : ℤ) (times : List ℤ) (r : NextRule)
    → w.times ≡ time ∷ times
    → Shrinks (length w.rules) r
    → Falls (length w.rules + suc (length times)) (follow w time times r)
unfolding follow keep_or_reject
follow-Falls w time times (stay rule rules) e h = ground arith
follow-Falls w time times (switch true rule rules) e h = omega arith
follow-Falls w time times (switch false rule rules) e h = omega (arith, ap length e)
follow-Falls w time times spin e h = h

round-Falls :
    (now : ℤ) (w : Walk) (time : ℤ) (times : List ℤ)
    → w.times ≡ time ∷ times
    → Falls (length w.rules + suc (length times)) (round now w time times)
unfolding round
round-Falls now w time times e =
    let moved = next_rule (now -ℤ time) (now -ℤ w.last_kept) w.curr_rule w.rules in
    let shrinks = next_rule-Shrinks (now -ℤ time) (now -ℤ w.last_kept) w.curr_rule w.rules in
    let falls = follow-Falls w time times moved e shrinks in
    elim (Bool-cases (is_outlived w.curr_rule.duration (now -ℤ w.last_kept))) [
      | inl h ↦ rw h (omega arith)
      | inr h ↦ rw h falls
    ]

module _ (fuel : ℕ) (now : ℤ) (w : Walk) where
  pub walk_end : w.times ≡ [] → walk (suc fuel) now w ≡ some w.rejected
  unfolding walk
  walk_end e = rw (e, walk)

  pub walk_step :
      (time : ℤ) (times : List ℤ) (w' : Walk)
      → w.times ≡ time ∷ times
      → round now w time times ≡ some w'
      → walk (suc fuel) now w ≡ walk fuel now w'
  unfolding walk
  walk_step time times w' e er = rw (e, walk) (rw er)

  pub walk_spin :
      (time : ℤ) (times : List ℤ)
      → w.times ≡ time ∷ times
      → round now w time times ≡ none
      → walk (suc fuel) now w ≡ none
  unfolding walk
  walk_spin time times e er = rw (e, walk) (rw er)

-- The outer loop ends within as many rounds as there are rules and times left, and one.
walk_total :
    (fuel : ℕ) (now : ℤ) (w : Walk)
    → measure w < fuel
    → (rejected : List ℤ) × (walk fuel now w ≡ some rejected)
walk_total zero now w h = elim h [ ]
walk_total (suc fuel) now w h = elim (List-cases w.times) [
  | inl e ↦ (w.rejected, walk_end fuel now w e)
  | inr (time, times, e) ↦
      let falls = round-Falls now w time times e in
      elim (Option-cases (round now w time times)) [
        | inl er ↦ absurd (rw er at falls)
        | inr (w', er) ↦
            let below : measure w' < fuel = omega (arith, ap length e, rw er at falls) in
            let (rejected, done) = walk_total fuel now w' below in
            (rejected, walk_step fuel now w time times w' e er ∙ done)
      ]
]

-- `reject_with_time` returns on every policy and every list of times.
pub reject_with_time_total :
    (policy : RetentionPolicy) (now : ℤ) (times : List ℤ)
    → (rejected : List ℤ) × (reject_with_time policy now times ≡ some rejected)
unfolding reject_with_time start_walk
reject_with_time_total policy now times = by_parts (reverse policy.rules) (sort_newest_first times)
  where
    by_parts :
        (rules : List RetentionRule) (ts : List ℤ)
        → (rejected : List ℤ) × (start_walk now rules ts ≡ some rejected)
    by_parts [] ts = ([], refl)
    by_parts (rule ∷ rules) [] = ([], refl)
    by_parts (rule ∷ rules) (t ∷ ts) =
        walk_total (suc (length rules + length ts)) now
          (record { curr_rule = rule; rules = rules; last_kept = t; times = ts; rejected = [] })
          (omega arith)
