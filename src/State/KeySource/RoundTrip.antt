-- ===== src/State/KeySource/RoundTrip.antt =====
-- Key sources of crates/common/src/key_source.rs: text and bytes, both ways.
use snarkops.Format.Ints.RoundTrip.{uint_format-IsLawful, read_uint-write_uint}
use snarkops.Format.Ints.{u8_format}
use snarkops.Format.Collections.RoundTrip.{string_format-IsLawful, IsText}
use snarkops.Format.Laws.{default_read_header-default_write_header, IsLawful}
use snarkops.Common.Decimal.{decimal, is_digit, parse_usize-decimal, all_digits, to_decimal-snoc}
use snarkops.Common.Text.{
  Text, codes, text_eq, text_eq-false, all, contains, starts_with, strip_prefix, rsplit_once-append,
  not_contains_of_all,
}
use snarkops.State.InternedId.{is_match}
use snarkops.State.NodeKey.{is_empty}
use snarkops.State.KeySource.{
  key_source_format, write_key_source, read_key_source, KeySource, local, private_key_literal,
  public_key_literal, program_literal, committee, named, is_private_key, is_public_key, is_program,
  parse_index, named_groups, parse_named, parse_committee, key_source_from_str, index_text,
  key_source_text,
}
use snarkops.Format.Packed.RoundTrip.{read_packed-write_packed, IsU64}
use snarkops.Common.{
  append_assoc, and_then_ok, Bool, List, ℕ, ◌≡◌, refl, true, false, not, ◌&&◌, ◌||◌, Option, none,
  some, [], ◌∷◌, ◌++◌, ok, arith, ap,
}

-- The text is not that of a key or of a committee, which are tried first.
pub record IsPlain (s : Text) : Type 0 where
  pub not_local : text_eq s (codes "local") ≡ false
  pub not_private : is_private_key s ≡ false
  pub not_public : is_public_key s ≡ false
  pub not_committee : strip_prefix (codes "committee.") s ≡ none

abbrev pub IsIndex : Option ℕ → Type 0
IsIndex none = Unit
IsIndex (some i) = IsU64 i

abbrev pub IsKeySource : KeySource → Type 0
IsKeySource local = Unit
IsKeySource (private_key_literal s) = is_private_key s ≡ true
IsKeySource (public_key_literal s) = is_public_key s ≡ true
IsKeySource (program_literal s) = IsPlain s × (is_program s ≡ true)
IsKeySource (committee i) = IsIndex i
IsKeySource (named name i) =
    IsPlain (key_source_text (named name i)) × (is_match name ≡ true) × IsIndex i

decimal_differs : (n : ℕ) (t : Text) → all is_digit t ≡ false → text_eq (decimal n) t ≡ false
decimal_differs n t h = text_eq-false (decimal n) t λ e. absurd (cc (all_digits 20 n, h, e))

decimal_not_dollar : (n : ℕ) → text_eq (decimal n) (codes "$") ≡ false
unfolding all is_digit
decimal_not_dollar n = decimal_differs n (codes "$") refl

parse_index-index_text : (i : Option ℕ) → IsIndex i → parse_index (index_text i) ≡ ok i
unfolding parse_index index_text text_eq
parse_index-index_text none h = refl
parse_index-index_text (some i) h = rw (decimal_not_dollar i, parse_usize-decimal i h)

-- The text of an index has no dot, and is what the group `idx` takes.
index_no_dot : (i : Option ℕ) → contains b'.' (index_text i) ≡ false
unfolding index_text contains is_digit
index_no_dot none = refl
index_no_dot (some i) = not_contains_of_all is_digit b'.' (decimal i) refl (all_digits 20 i)

is_empty-snoc : (s : Text) (d : ℕ) → is_empty (s ++ d ∷ []) ≡ false
unfolding is_empty
is_empty-snoc [] d = refl
is_empty-snoc (c ∷ s) d = refl

index_is_group :
    (i : Option ℕ)
    → (text_eq (index_text i) (codes "$")
        || all is_digit (index_text i) && not (is_empty (index_text i)))
      ≡ true
unfolding index_text text_eq
index_is_group none = refl
index_is_group (some i) =
    let (s, d, e) = to_decimal-snoc 19 i in
    let full : is_empty (decimal i) ≡ false = rw e (is_empty-snoc s d) in
    rw (decimal_not_dollar i, all_digits 20 i, full)

index_not_aleo : (i : Option ℕ) → text_eq (index_text i) (codes "aleo") ≡ false
unfolding index_text text_eq all is_digit
index_not_aleo none = refl
index_not_aleo (some i) = decimal_differs i (codes "aleo") refl

named_not_program :
    (name : Text) (i : Option ℕ) → is_program (name ++ (b'.' ∷ index_text i)) ≡ false
unfolding is_program
named_not_program name i =
    rw (rsplit_once-append b'.' name (index_text i) (index_no_dot i), is_program, index_not_aleo i)
      (ground arith)

parse_named-key_source_text :
    (name : Text) (i : Option ℕ)
    → is_match name ≡ true
    → IsIndex i
    → parse_named (name ++ (b'.' ∷ index_text i)) ≡ ok (named name i)
unfolding parse_named named_groups
parse_named-key_source_text name i h k = rw (
  rsplit_once-append b'.' name (index_text i) (index_no_dot i),
  parse_named,
  named_groups,
  h,
  index_is_group i,
  parse_index-index_text i k,
)

private_not_local : (s : Text) → is_private_key s ≡ true → text_eq s (codes "local") ≡ false
unfolding starts_with strip_prefix
private_not_local s h =
    text_eq-false s (codes "local") λ e. let long = ap is_private_key e in absurd (cc (h, long))

public_not_before :
    (s : Text)
    → is_public_key s ≡ true
    → (text_eq s (codes "local") ≡ false) × (is_private_key s ≡ false)
unfolding starts_with strip_prefix
public_not_before s h = (
  text_eq-false s (codes "local") (λ e. let long = ap is_public_key e in absurd (cc (h, long))),
  ground (arith, h),
)

-- A key source of one of the forms that are parsed, whose text has not the form of one that is tried
-- before it, is parsed back from its text.
pub key_source_from_str-key_source_text :
    (k : KeySource) → IsKeySource k → key_source_from_str (key_source_text k) ≡ ok k
unfolding key_source_from_str key_source_text text_eq starts_with strip_prefix parse_committee
key_source_from_str-key_source_text local h = refl
key_source_from_str-key_source_text (private_key_literal s) h =
    let other = private_not_local s h in rw (other, h)
key_source_from_str-key_source_text (public_key_literal s) h =
    let (other, public) = public_not_before s h in rw (other, public, h)
key_source_from_str-key_source_text (program_literal s) (plain, h) =
    rw (plain.not_local, plain.not_private, plain.not_public, plain.not_committee, h)
key_source_from_str-key_source_text (committee i) h =
    rw (parse_index-index_text i h, parse_committee) (ground arith)
key_source_from_str-key_source_text (named name i) (plain, h, k) =
    rw
      (
        plain.not_local,
        plain.not_private,
        plain.not_public,
        plain.not_committee,
        named_not_program name i,
      )
      (parse_named-key_source_text name i h k)

module _ (is_utf8 : List ℕ → Bool) where
  -- Texts in UTF-8, and an index that is a u64.
  abbrev pub IsKeySourceText : KeySource → Type 0
  IsKeySourceText local = Unit
  IsKeySourceText (private_key_literal s) = IsText is_utf8 s
  IsKeySourceText (public_key_literal s) = IsText is_utf8 s
  IsKeySourceText (program_literal s) = IsText is_utf8 s
  IsKeySourceText (committee i) = IsIndex i
  IsKeySourceText (named name i) = IsText is_utf8 name × IsIndex i

  read_key_source-write_key_source :
      (k : KeySource) (rest : List ℕ)
      → IsKeySourceText k
      → read_key_source is_utf8 1 ((write_key_source is_utf8 k).bytes ++ rest) ≡ ok (k, rest)
  unfolding read_key_source write_key_source
  read_key_source-write_key_source local rest h =
      and_then_ok _ (read_uint-write_uint 1 0 rest (omega arith)) refl
  read_key_source-write_key_source (private_key_literal s) rest h = simp append_assoc (
      and_then_ok _ (read_uint-write_uint 1 1 _ (omega arith))
        (and_then_ok _ ((string_format-IsLawful is_utf8).data_round_trip s rest h) refl))
  read_key_source-write_key_source (public_key_literal s) rest h = simp append_assoc (
      and_then_ok _ (read_uint-write_uint 1 6 _ (omega arith))
        (and_then_ok _ ((string_format-IsLawful is_utf8).data_round_trip s rest h) refl))
  read_key_source-write_key_source (program_literal s) rest h = simp append_assoc (
      and_then_ok _ (read_uint-write_uint 1 7 _ (omega arith))
        (and_then_ok _ ((string_format-IsLawful is_utf8).data_round_trip s rest h) refl))
  read_key_source-write_key_source (committee none) rest h =
      and_then_ok _ (read_uint-write_uint 1 2 rest (omega arith)) refl
  read_key_source-write_key_source (committee (some i)) rest h = simp append_assoc (
      and_then_ok _ (read_uint-write_uint 1 3 _ (omega arith))
        (and_then_ok _ (read_packed-write_packed i rest h) refl))
  read_key_source-write_key_source (named name none) rest h = simp append_assoc (
      and_then_ok _ (read_uint-write_uint 1 4 _ (omega arith))
        (and_then_ok _ ((string_format-IsLawful is_utf8).data_round_trip name rest h.0) refl))
  read_key_source-write_key_source (named name (some i)) rest h = simp append_assoc (
      and_then_ok _ (read_uint-write_uint 1 5 _ (omega arith)) (
        and_then_ok _ ((string_format-IsLawful is_utf8).data_round_trip name _ h.0)
          (and_then_ok _ (read_packed-write_packed i rest h.1) refl)))

  pub key_source_format-IsLawful : IsLawful (key_source_format is_utf8) IsKeySourceText
  key_source_format-IsLawful = record {
    data_round_trip = read_key_source-write_key_source;
    header_round_trip = λ k rest.
        default_read_header-default_write_header u8_format 1 k rest (uint_format-IsLawful 1)
          (omega arith);
  }
