-- ===== src/Checkpoint/Retention/Newest.antt =====
-- `reject_with_time` of crates/checkpoint/src/retention.rs rejects earlier times only.
use snarkops.Checkpoint.Retention.Terminates.{walk_step, walk_spin, walk_end}
use mathlib.Core.Option.{some-injective}
use mathlib.Core.List.{reverse}
use snarkops.Common.{
  zero, suc, ◌+◌, length, ◌∙◌, sym, List-cases, ℕ, Option, ◌≡◌, List, [], ◌∷◌, ◌++◌, All,
  All-append, arith, some, none, true, false, Option-cases, Bool-cases, inl, inr, refl,
}
use snarkops.Common.Int.{ℤ, ltb_ℤ, ◌-ℤ◌, -ℤ_parts}
use snarkops.Checkpoint.Retention.{
  insert, RetentionRule, RetentionPolicy, sort_newest_first, start_walk, next_rule, walk, round,
  unlimited, minute, hour, day, week, month, year, stay, switch, spin, is_too_near, NextRule,
  RetentionSpan, as_delta, keep_or_reject, follow, is_outlived, reject_with_time, Walk,
}

abbrev pub IsEarlier : ℤ → ℤ → Type 0
IsEarlier now t = ltb_ℤ t now ≡ true

outlived-IsEarlier :
    (duration : RetentionSpan) (now t : ℤ)
    → is_outlived duration (now -ℤ t) ≡ true
    → IsEarlier now t
unfolding is_outlived as_delta
outlived-IsEarlier unlimited now t h = absurd (cc h)
outlived-IsEarlier (minute v) now t h = ground (arith, -ℤ_parts now t)
outlived-IsEarlier (hour v) now t h = ground (arith, -ℤ_parts now t)
outlived-IsEarlier (day v) now t h = ground (arith, -ℤ_parts now t)
outlived-IsEarlier (week v) now t h = ground (arith, -ℤ_parts now t)
outlived-IsEarlier (month v) now t h = ground (arith, -ℤ_parts now t)
outlived-IsEarlier (year v) now t h = ground (arith, -ℤ_parts now t)

-- What is still to be looked at and what is rejected is earlier than now.
abbrev Earlier : ℤ → Walk → Type 0
Earlier now w = All (IsEarlier now) w.times × All (IsEarlier now) w.rejected

abbrev Onward : ℤ → Option Walk → Type 0
Onward now none = Unit
Onward now (some w) = Earlier now w

module _ (now : ℤ) (w : Walk) (time : ℤ) (times : List ℤ) (e : w.times ≡ time ∷ times)
    (h : Earlier now w) where
  rest : All (IsEarlier now) (time ∷ times)
  rest = rw e at h.0

  follow-Earlier : (next : NextRule) → Onward now (follow w time times next)
  unfolding follow keep_or_reject
  follow-Earlier (stay rule rules) =
      elim (Bool-cases (is_too_near rule.keep (w.last_kept -ℤ time))) [
        | inl near ↦
            rw near (rest.1, All-append (IsEarlier now) w.rejected (time ∷ []) h.1 (rest.0, tt))
        | inr far ↦ rw far (rest.1, h.1)
      ]
  follow-Earlier (switch true rule rules) = (rest.1, h.1)
  follow-Earlier (switch false rule rules) = h
  follow-Earlier spin = tt

  round-Earlier : Onward now (round now w time times)
  unfolding round
  round-Earlier =
      let last_delta = now -ℤ w.last_kept in
      let onward = follow-Earlier (next_rule (now -ℤ time) last_delta w.curr_rule w.rules) in
      elim (Bool-cases (is_outlived w.curr_rule.duration last_delta)) [
        | inl old ↦
            let earlier = outlived-IsEarlier w.curr_rule.duration now w.last_kept old in
            rw old
              (rest.1, All-append (IsEarlier now) w.rejected (w.last_kept ∷ []) h.1 (earlier, tt))
        | inr young ↦ rw young onward
      ]

walk-Earlier :
    (fuel : ℕ) (now : ℤ) (w : Walk) (rejected : List ℤ)
    → Earlier now w
    → walk fuel now w ≡ some rejected
    → All (IsEarlier now) rejected
unfolding walk
walk-Earlier zero now w rejected s h = cc
walk-Earlier (suc fuel) now w rejected s h = elim (List-cases w.times) [
  | inl e ↦
      let stop : w.rejected ≡ rejected = some-injective _ _ (sym (walk_end fuel now w e) ∙ h) in
      rw (← stop) s.1
  | inr (time, times, e) ↦
      let onward = round-Earlier now w time times e s in
      elim (Option-cases (round now w time times)) [
        | inl er ↦ absurd (cc (walk_spin fuel now w time times e er))
        | inr (w', er) ↦
            walk-Earlier fuel now w' rejected (rw er at onward)
              (sym (walk_step fuel now w time times w' e er) ∙ h)
      ]
]

insert-Earlier :
    (now t : ℤ) (ts : List ℤ)
    → IsEarlier now t
    → All (IsEarlier now) ts
    → All (IsEarlier now) (insert t ts)
unfolding insert
insert-Earlier now t [] h k = (h, tt)
insert-Earlier now t (u ∷ us) h k = elim (Bool-cases (ltb_ℤ t u)) [
  | inl e ↦ rw e (k.0, insert-Earlier now t us h k.1)
  | inr e ↦ rw e (h, k)
]

sort_newest_first-Earlier :
    (now : ℤ) (ts : List ℤ) → All (IsEarlier now) ts → All (IsEarlier now) (sort_newest_first ts)
unfolding sort_newest_first
sort_newest_first-Earlier now [] h = tt
sort_newest_first-Earlier now (t ∷ ts) h =
    insert-Earlier now t (sort_newest_first ts) h.0 (sort_newest_first-Earlier now ts h.1)

sort_newest_first-append :
    (now : ℤ) (ts : List ℤ)
    → All (IsEarlier now) ts
    → sort_newest_first (ts ++ now ∷ []) ≡ now ∷ sort_newest_first ts
unfolding sort_newest_first insert
sort_newest_first-append now [] h = refl
sort_newest_first-append now (t ∷ ts) h = rw (sort_newest_first-append now ts h.1, h.0) refl

-- If the newest time is now, everything that is rejected is earlier.
pub reject_with_time-Earlier :
    (policy : RetentionPolicy) (now : ℤ) (earlier rejected : List ℤ)
    → All (IsEarlier now) earlier
    → reject_with_time policy now (earlier ++ now ∷ []) ≡ some rejected
    → All (IsEarlier now) rejected
unfolding reject_with_time start_walk
reject_with_time-Earlier policy now earlier rejected h done =
    let sorted = sort_newest_first-append now earlier h in
    by_rules (reverse policy.rules) (sort_newest_first earlier)
      (sort_newest_first-Earlier now earlier h) (rw sorted at done)
  where
    by_rules :
        (rules : List RetentionRule) (ts : List ℤ)
        → All (IsEarlier now) ts
        → start_walk now rules (now ∷ ts) ≡ some rejected
        → All (IsEarlier now) rejected
    by_rules [] ts h e = rw (← some-injective _ _ e) tt
    by_rules (rule ∷ rules) ts h e =
        walk-Earlier (suc (length rules + length ts)) now
          (record { curr_rule = rule; rules = rules; last_kept = now; times = ts; rejected = [] })
          rejected (h, tt) e
