-- ===== src/Checkpoint/Retention.antt =====
-- crates/checkpoint/src/retention.rs: retention policies and the choice of checkpoints to reject.
-- A time and a difference of times is an integer number of nanoseconds.
pub mod Partition
pub mod Terminates
pub mod Newest
use mathlib.Core.List.{reverse}
use snarkops.Common.{
  ℕ, zero, suc, ◌+◌, ◌*◌, Bool, true, false, not, ◌&&◌, ◌||◌, Option, none, some, List, [], ◌∷◌,
  ◌++◌, ◌==◌, if◌then◌else◌, length,
}
use snarkops.Common.Int.{ℤ, pos, ◌-ℤ◌, ltb_ℤ}

-- The number of a span is a `NonZeroU8`.
pub data RetentionSpan : Type 0 where
  unlimited : RetentionSpan
  minute hour day week month year : ℕ → RetentionSpan

pub record RetentionRule : Type 0 where
  pub duration : RetentionSpan
  pub keep : RetentionSpan

pub record RetentionPolicy : Type 0 where
  pub rules : List RetentionRule

abbrev pub second : ℕ
second = 1_000_000_000

-- `as_delta`; at most 255 years, so no conversion of chrono fails.
unfoldable pub as_delta : RetentionSpan → Option ℤ
as_delta unlimited = none
as_delta (minute v) = some (pos (v * 60 * second))
as_delta (hour v) = some (pos (v * 3600 * second))
as_delta (day v) = some (pos (v * 86400 * second))
as_delta (week v) = some (pos (v * 7 * 86400 * second))
as_delta (month v) = some (pos (v * 30 * 86400 * second))
as_delta (year v) = some (pos (v * 365 * 86400 * second))

-- `as_timestamp` at a time in seconds.
unfoldable pub as_timestamp : ℤ → RetentionSpan → Option ℤ
as_timestamp now unlimited = none
as_timestamp now (minute v) = some (now -ℤ pos (v * 60))
as_timestamp now (hour v) = some (now -ℤ pos (v * 3600))
as_timestamp now (day v) = some (now -ℤ pos (v * 3600 * 24))
as_timestamp now (week v) = some (now -ℤ pos (v * 3600 * 24 * 7))
as_timestamp now (month v) = some (now -ℤ pos (v * 3600 * 24 * 30))
as_timestamp now (year v) = some (now -ℤ pos (v * 3600 * 24 * 365))

-- The derived `PartialEq`.
unfoldable pub span_eq : RetentionSpan → RetentionSpan → Bool
span_eq unlimited unlimited = true
span_eq (minute v) (minute w) = v == w
span_eq (hour v) (hour w) = v == w
span_eq (day v) (day w) = v == w
span_eq (week v) (week w) = v == w
span_eq (month v) (month w) = v == w
span_eq (year v) (year w) = v == w
span_eq _ _ = false

unfoldable pub is_unlimited : RetentionSpan → Bool
is_unlimited unlimited = true
is_unlimited _ = false

-- `is_ready_with_time`
unfoldable pub is_ready_with_time : RetentionPolicy → ℤ → ℤ → Bool
is_ready_with_time policy new_time last_time = elim policy.rules [
  | [] ↦ false
  | rule ∷ _ ↦ elim (as_delta rule.keep) [
    | none ↦ true
    | some keep ↦ not (ltb_ℤ (new_time -ℤ last_time) keep)
  ]
]

-- What the inner loop of `reject_with_time` ends in: it leaves the rule as it is (`stay`, with the
-- rules that follow), or moves to another one and continues the outer loop, where `promoted` says
-- that the current time became the last kept one. `spin` is a round that changes nothing.
pub data NextRule : Type 0 where
  stay : RetentionRule → List RetentionRule → NextRule
  switch : (promoted : Bool) → RetentionRule → List RetentionRule → NextRule
  spin : NextRule

-- `while let Some(RetentionRule { duration, .. }) = rules.peek() { .. }`
unfoldable pub next_rule : ℤ → ℤ → RetentionRule → List RetentionRule → NextRule
unfolding span_eq is_unlimited
next_rule delta last_delta curr_rule [] = stay curr_rule []
next_rule delta last_delta curr_rule (rule ∷ rules) =
    let skipped = next_rule delta last_delta rule rules in
    if span_eq curr_rule.duration rule.duration || is_unlimited rule.duration
    then skipped
    else elim (as_delta rule.duration) [
      | none ↦ spin
      | some next_duration ↦
          if not (ltb_ℤ delta next_duration) && not (ltb_ℤ last_delta next_duration)
          then stay curr_rule (rule ∷ rules)
          else switch (ltb_ℤ delta next_duration) rule rules
    ]

-- The variables of `reject_with_time`.
pub record Walk : Type 0 where
  pub curr_rule : RetentionRule
  pub rules : List RetentionRule
  pub last_kept : ℤ
  pub times : List ℤ
  pub rejected : List ℤ

unfoldable pub is_outlived : RetentionSpan → ℤ → Bool
is_outlived duration last_delta = elim (as_delta duration) [
  | none ↦ false
  | some d ↦ ltb_ℤ d last_delta
]

-- `let Some(keep) = curr_rule.keep.as_delta()`, and the test of step 5; an unlimited rule keeps.
unfoldable pub is_too_near : RetentionSpan → ℤ → Bool
is_too_near keep gap = elim (as_delta keep) [ none ↦ false | some k ↦ ltb_ℤ gap k ]

-- Steps 5 and 6: the current time is rejected, or becomes the last kept one.
unfoldable pub keep_or_reject : Walk → RetentionRule → List RetentionRule → ℤ → List ℤ → Walk
unfolding is_too_near
keep_or_reject w rule rules time times =
    if is_too_near rule.keep (w.last_kept -ℤ time)
    then record w {
      curr_rule = rule;
      rules = rules;
      times = times;
      rejected = w.rejected ++ time ∷ [];
    }
    else record w { curr_rule = rule; rules = rules; last_kept = time; times = times }

-- The rest of a round, once the inner loop has ended.
unfoldable pub follow : Walk → ℤ → List ℤ → NextRule → Option Walk
unfolding keep_or_reject
follow w time times (stay rule rules) = some (keep_or_reject w rule rules time times)
follow w time times (switch true rule rules) =
    some (record w { curr_rule = rule; rules = rules; last_kept = time; times = times })
follow w time times (switch false rule rules) = some (record w { curr_rule = rule; rules = rules })
follow w time times spin = none

-- A round of the outer loop, with the time that `times.peek()` shows and those behind it.
unfoldable pub round : ℤ → Walk → ℤ → List ℤ → Option Walk
unfolding is_outlived follow
round now w time times =
    let last_delta = now -ℤ w.last_kept in
    if is_outlived w.curr_rule.duration last_delta
    then some
        (record w { last_kept = time; times = times; rejected = w.rejected ++ w.last_kept ∷ [] })
    else follow w time times (next_rule (now -ℤ time) last_delta w.curr_rule w.rules)

-- `'outer: while let Some(time) = times.peek().cloned() { .. }`; `none`: the fuel is used up.
unfoldable pub walk : ℕ → ℤ → Walk → Option (List ℤ)
walk zero now w = none
walk (suc fuel) now w = elim w.times [
  | [] ↦ some w.rejected
  | time ∷ times ↦ elim (round now w time times) [ none ↦ none | some w' ↦ walk fuel now w' ]
]

-- `.collect::<BinaryHeap<_>>().into_sorted_vec().into_iter().rev()`: the newest first.
unfoldable pub insert : ℤ → List ℤ → List ℤ
insert t [] = t ∷ []
insert t (u ∷ us) = if ltb_ℤ t u then u ∷ insert t us else t ∷ u ∷ us

unfoldable pub sort_newest_first : List ℤ → List ℤ
unfolding insert
sort_newest_first [] = []
sort_newest_first (t ∷ ts) = insert t (sort_newest_first ts)

-- The loop over the rules, longest first, and the times, newest first, from their first elements.
unfoldable pub start_walk : ℤ → List RetentionRule → List ℤ → Option (List ℤ)
unfolding walk round
start_walk now [] times = some []
start_walk now (rule ∷ rules) [] = some []
start_walk now (rule ∷ rules) (time ∷ times) =
    walk (suc (length rules + length times)) now
      (record { curr_rule = rule; rules = rules; last_kept = time; times = times; rejected = [] })

-- `reject_with_time`
unfoldable pub reject_with_time : RetentionPolicy → ℤ → List ℤ → Option (List ℤ)
unfolding start_walk sort_newest_first
reject_with_time policy now times = start_walk now (reverse policy.rules) (sort_newest_first times)
