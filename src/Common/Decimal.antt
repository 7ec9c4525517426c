-- ===== src/Common/Decimal.antt =====
-- Numbers in decimal: `{}` of an unsigned integer, and `str::parse::<usize>` of 64 bits.
use Prim.Native.Nat.{ℕ, zero, suc, ◌+◌, ◌-◌, ◌*◌, ◌/◌, ◌%◌, ◌^◌, ◌<◌}
use native.Mathlib.Nat.{pow-suc}
use snarkops.Common.Tests.{if◌then◌else◌, ltb, leb, ◌==◌, Bool-cases, ltb→lt, lt→ltb}
use snarkops.Common.Text.{Text, all}
use mathlib.Core.Bool.{Bool, true, false, ◌&&◌}
use mathlib.Core.List.{[], ◌∷◌, ◌++◌}
use mathlib.Core.Logic.{inl, inr}
use mathlib.Core.Option.{Option, none, some}
use mathlib.Core.Path.{◌≡◌, refl, ap, ◌∙◌}
use native.Mathlib.Omega.{arith}

-- The digits of a number below 10 ^ fuel.
unfoldable pub to_decimal : ℕ → ℕ → Text
to_decimal zero n = []
to_decimal (suc fuel) n =
    let front = to_decimal fuel (n / 10) in
    if ltb n 10 then (b'0' + n) ∷ [] else front ++ ((b'0' + n % 10) ∷ [])

-- The text of a u64.
abbrev pub decimal : ℕ → Text
decimal n = to_decimal 20 n

unfoldable pub is_digit : ℕ → Bool
is_digit c = leb b'0' c && leb c b'9'

unfoldable pub digits_from : ℕ → Text → Option ℕ
unfolding is_digit
digits_from v [] = some v
digits_from v (c ∷ s) =
    let rest = digits_from (10 * v + (c - b'0')) s in if is_digit c then rest else none

abbrev pub below_u64 : Option ℕ → Option ℕ
below_u64 none = none
below_u64 (some n) = if ltb n (256 ^ 8) then some n else none

unfoldable pub parse_digits : Text → Option ℕ
unfolding digits_from
parse_digits [] = none
parse_digits (c ∷ s) = below_u64 (digits_from 0 (c ∷ s))

-- A plus may stand in front.
unfoldable pub parse_usize : Text → Option ℕ
unfolding parse_digits
parse_usize [] = none
parse_usize (c ∷ s) = if c == b'+' then parse_digits s else parse_digits (c ∷ s)

digits_from-snoc :
    (v w : ℕ) (s : Text) (d : ℕ)
    → digits_from v s ≡ some w
    → d < 10
    → digits_from v (s ++ ((b'0' + d) ∷ [])) ≡ some (10 * w + d)
unfolding digits_from
digits_from-snoc v w [] d h small = ground (arith, h)
digits_from-snoc v w (c ∷ s) d h small = elim (Bool-cases (is_digit c)) [
  | inl e ↦ rw e (digits_from-snoc (10 * v + (c - b'0')) w s d (rw e at h) small)
  | inr e ↦ absurd (cc (rw e at h))
]

digits_from-to_decimal : (fuel n : ℕ) → n < 10 ^ fuel → digits_from 0 (to_decimal fuel n) ≡ some n
unfolding to_decimal digits_from
digits_from-to_decimal zero n h = let e : n ≡ 0 = omega (arith, h) in rw e
digits_from-to_decimal (suc fuel) n h = elim (Bool-cases (ltb n 10)) [
  | inl e ↦
      let small = ltb→lt n 10 e in
      let same : 10 * 0 + n ≡ n = omega arith in
      rw e (digits_from-snoc 0 0 [] n refl small ∙ ap (λ v. some v) same)
  | inr e ↦
      let front : n / 10 < 10 ^ fuel = omega (arith, h, pow-suc 10 fuel) in
      let same : 10 * (n / 10) + n % 10 ≡ n = omega arith in
      rw e (
        digits_from-snoc 0 (n / 10) (to_decimal fuel (n / 10)) (n % 10)
          (digits_from-to_decimal fuel (n / 10) front) (omega arith)
        ∙ ap (λ v. some v) same)
]

all_digits_append :
    (s : Text) (d : ℕ) → all is_digit s ≡ true → d < 10 → all is_digit (s ++ (b'0' + d) ∷ []) ≡ true
unfolding all is_digit
all_digits_append [] d h small = ground arith
all_digits_append (c ∷ s) d h small = ground (arith, all_digits_append s d)

-- The decimal text of a number has digits only.
pub all_digits : (fuel n : ℕ) → all is_digit (to_decimal fuel n) ≡ true
unfolding to_decimal all
all_digits zero n = refl
all_digits (suc fuel) n = elim (Bool-cases (ltb n 10)) [
  | inl e ↦ rw e (all_digits_append [] n refl (ltb→lt n 10 e))
  | inr e ↦ rw e (
      all_digits_append (to_decimal fuel (n / 10)) (n % 10) (all_digits fuel (n / 10))
        (omega arith))
]

-- A text of digits, not the empty one, is parsed as its value.
parse_usize_digits :
    (s : Text) (d n : ℕ)
    → all is_digit (s ++ d ∷ []) ≡ true
    → digits_from 0 (s ++ d ∷ []) ≡ some n
    → n < 256 ^ 8
    → parse_usize (s ++ d ∷ []) ≡ some n
unfolding all is_digit parse_usize parse_digits
parse_usize_digits [] d n h value fits =
    let small = lt→ltb n (256 ^ 8) fits in
    let no_plus : (d == b'+') ≡ false = ground (arith, h) in rw (no_plus, value, small)
parse_usize_digits (c ∷ s) d n h value fits =
    let small = lt→ltb n (256 ^ 8) fits in
    let no_plus : (c == b'+') ≡ false = ground (arith, h) in rw (no_plus, value, small)

pub to_decimal-snoc : (fuel n : ℕ) → (s : Text) × (d : ℕ) × (to_decimal (suc fuel) n ≡ s ++ d ∷ [])
unfolding to_decimal
to_decimal-snoc fuel n = elim (Bool-cases (ltb n 10)) [
  | inl e ↦ ([], b'0' + n, rw e)
  | inr e ↦ (to_decimal fuel (n / 10), b'0' + n % 10, rw e)
]

-- A u64 is parsed back from its decimal text.
pub parse_usize-decimal : (n : ℕ) → n < 256 ^ 8 → parse_usize (decimal n) ≡ some n
parse_usize-decimal n h =
    let (s, d, e) = to_decimal-snoc 19 n in
    let digits : all is_digit (s ++ d ∷ []) ≡ true = rw (← e) (all_digits 20 n) in
    let value : digits_from 0 (s ++ d ∷ []) ≡ some n =
      rw (← e) (digits_from-to_decimal 20 n (omega (arith, h))) in
    rw e (parse_usize_digits s d n digits value h)
