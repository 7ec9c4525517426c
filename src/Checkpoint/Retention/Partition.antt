-- ===== src/Checkpoint/Retention/Partition.antt =====
-- `reject_with_time` of crates/checkpoint/src/retention.rs: the times that are given, and what becomes
-- of each.
use mathlib.Core.Option.{some-injective}
use mathlib.Core.List.{perm_append_singleton, reverse, Perm, perm_middle}
use mathlib.Core.List.Perm
use snarkops.Common.{
  ℕ, zero, suc, ◌+◌, ◌≡◌, ◌≢◌, refl, true, false, Option, none, some, List, [], ◌∷◌, ◌++◌, length,
  arith, Option-cases, Bool-cases, List-cases, inl, inr, append_assoc,
}
use snarkops.Common.Int.{ℤ, ◌-ℤ◌, ltb_ℤ}
use snarkops.Checkpoint.Retention.Terminates.{walk_end, walk_step, walk_spin}
use snarkops.Common.{sym, ◌∙◌}
use snarkops.Checkpoint.Retention.{
  RetentionRule, RetentionPolicy, NextRule, stay, switch, spin, next_rule, Walk, is_outlived,
  is_too_near, keep_or_reject, follow, round, walk, start_walk, reject_with_time, sort_newest_first,
  insert,
}

-- Between the rounds the times that were given are those that are rejected, those that were kept
-- before the last one, the last one and those that are still to come.
abbrev Splits : List ℤ → Walk → Type 0
Splits given w = (kept : List ℤ) × Perm (w.rejected ++ (kept ++ w.last_kept ∷ w.times)) given

module _ (given : List ℤ) (w : Walk) (time : ℤ) (times : List ℤ) (e : w.times ≡ time ∷ times)
    (kept : List ℤ) (p : Perm (w.rejected ++ (kept ++ w.last_kept ∷ w.times)) given) where
  start : Perm (w.rejected ++ (kept ++ w.last_kept ∷ time ∷ times)) given
  start = rw e at p

  -- The current time becomes the last kept one.
  promote : Perm (w.rejected ++ ((kept ++ w.last_kept ∷ []) ++ time ∷ times)) given
  promote = simp append_assoc start

  -- The current time is rejected.
  drop_time : Perm ((w.rejected ++ time ∷ []) ++ (kept ++ w.last_kept ∷ times)) given
  drop_time =
      let behind : Perm (time ∷ (kept ++ w.last_kept ∷ times))
          (kept ++ w.last_kept ∷ time ∷ times) =
        Perm.trans (Perm.symm (perm_middle kept (w.last_kept ∷ times)))
          (Perm.append_left kept (Perm.swap w.last_kept time times)) in
      simp append_assoc (Perm.trans (Perm.append_left w.rejected behind) start)

  -- The last kept time is rejected, and the current one takes its place.
  drop_last : Perm ((w.rejected ++ w.last_kept ∷ []) ++ (kept ++ time ∷ times)) given
  drop_last =
      simp append_assoc (
        Perm.trans (Perm.append_left w.rejected (Perm.symm (perm_middle kept (time ∷ times))))
          start)

  keep_or_reject-Splits :
      (rule : RetentionRule) (rules : List RetentionRule)
      → Splits given (keep_or_reject w rule rules time times)
  unfolding keep_or_reject
  keep_or_reject-Splits rule rules =
      elim (Bool-cases (is_too_near rule.keep (w.last_kept -ℤ time))) [
        | inl near ↦ rw near (kept, drop_time)
        | inr far ↦ rw far (kept ++ w.last_kept ∷ [], promote)
      ]

  abbrev Onward : Option Walk → Type 0
  Onward none = Unit
  Onward (some w') = Splits given w'

  follow-Splits : (r : NextRule) → Onward (follow w time times r)
  unfolding follow
  follow-Splits (stay rule rules) = keep_or_reject-Splits rule rules
  follow-Splits (switch true rule rules) = (kept ++ w.last_kept ∷ [], promote)
  follow-Splits (switch false rule rules) = (kept, p)
  follow-Splits spin = tt

  round-Splits : (now : ℤ) → Onward (round now w time times)
  unfolding round
  round-Splits now =
      let moved = next_rule (now -ℤ time) (now -ℤ w.last_kept) w.curr_rule w.rules in
      let onward = follow-Splits moved in
      elim (Bool-cases (is_outlived w.curr_rule.duration (now -ℤ w.last_kept))) [
        | inl old ↦ rw old (kept, drop_last)
        | inr young ↦ rw young onward
      ]

walk-Splits :
    (given : List ℤ) (fuel : ℕ) (now : ℤ) (w : Walk) (rejected : List ℤ)
    → Splits given w
    → walk fuel now w ≡ some rejected
    → (kept : List ℤ) × (last_kept : ℤ) × Perm (rejected ++ (kept ++ last_kept ∷ [])) given
unfolding walk
walk-Splits given zero now w rejected s h = cc
walk-Splits given (suc fuel) now w rejected (kept, p) h = elim (List-cases w.times) [
  | inl e ↦
      let stop : w.rejected ≡ rejected = some-injective _ _ (sym (walk_end fuel now w e) ∙ h) in
      (kept, w.last_kept, rw (← stop) (rw e at p))
  | inr (time, times, e) ↦
      let onward = round-Splits given w time times e kept p now in
      elim (Option-cases (round now w time times)) [
        | inl er ↦ absurd (cc (walk_spin fuel now w time times e er))
        | inr (w', er) ↦
            walk-Splits given fuel now w' rejected (rw er at onward)
              (sym (walk_step fuel now w time times w' e er) ∙ h)
      ]
]

insert-perm : (t : ℤ) (ts : List ℤ) → Perm (insert t ts) (t ∷ ts)
unfolding insert
insert-perm t [] = Perm.refl (t ∷ [])
insert-perm t (u ∷ us) = elim (Bool-cases (ltb_ℤ t u)) [
  | inl h ↦ rw h (Perm.trans (Perm.cons u (insert-perm t us)) (Perm.swap t u us))
  | inr h ↦ rw h (Perm.refl (t ∷ u ∷ us))
]

pub sort_newest_first-perm : (ts : List ℤ) → Perm (sort_newest_first ts) ts
unfolding sort_newest_first
sort_newest_first-perm [] = Perm.refl []
sort_newest_first-perm (t ∷ ts) =
    Perm.trans (insert-perm t (sort_newest_first ts)) (Perm.cons t (sort_newest_first-perm ts))

abbrev Divides : List ℤ → List ℤ → Type 0
Divides rejected times =
    (kept : List ℤ) × (last_kept : ℤ) × Perm (rejected ++ (kept ++ last_kept ∷ [])) times

start_walk-Divides :
    (now : ℤ) (rules : List RetentionRule) (times rejected : List ℤ)
    → times ≢ []
    → start_walk now rules times ≡ some rejected
    → Divides rejected times
unfolding start_walk
start_walk-Divides now rules [] rejected h e = absurd (h refl)
start_walk-Divides now [] (t ∷ ts) rejected h e =
    let none_rejected : [] ≡ rejected = some-injective _ _ e in
    rw (← none_rejected) (ts, t, perm_append_singleton t ts)
start_walk-Divides now (rule ∷ rules) (t ∷ ts) rejected h e =
    walk-Splits (t ∷ ts) (suc (length rules + length ts)) now
      (record { curr_rule = rule; rules = rules; last_kept = t; times = ts; rejected = [] })
      rejected ([], Perm.refl (t ∷ ts)) e

insert-ne-nil : (t : ℤ) (ts : List ℤ) → insert t ts ≢ []
unfolding insert
insert-ne-nil t [] = cc
insert-ne-nil t (u ∷ us) = ground arith

sort_newest_first-ne-nil : (ts : List ℤ) → ts ≢ [] → sort_newest_first ts ≢ []
unfolding sort_newest_first
sort_newest_first-ne-nil [] h = h
sort_newest_first-ne-nil (t ∷ ts) h = insert-ne-nil t (sort_newest_first ts)

-- `reject_with_time` divides the times that it is given, if there are any, into those that it
-- rejects and those that stay, each as often as it was given, and at least one of them stays.
pub reject_with_time-perm :
    (policy : RetentionPolicy) (now : ℤ) (times rejected : List ℤ)
    → times ≢ []
    → reject_with_time policy now times ≡ some rejected
    → (kept : List ℤ) × (last_kept : ℤ) × Perm (rejected ++ (kept ++ last_kept ∷ [])) times
unfolding reject_with_time
reject_with_time-perm policy now times rejected some_time h =
    let sorted = sort_newest_first times in
    let (kept, last_kept, p) =
      start_walk-Divides now (reverse policy.rules) sorted rejected
        (sort_newest_first-ne-nil times some_time) h in
    (kept, last_kept, Perm.trans p (sort_newest_first-perm times))
