-- ===== src/Events/Parse/Parser.antt =====
-- The parser of crates/common/src/events/filter_parse.rs.
use mathlib.Core.List.{reverse}
use Prim.Native.String.{String}
use snarkops.Common.{
  ℕ, zero, suc, Option, none, some, List, [], ◌∷◌, if◌then◌else◌, length, Result, ok, err, and_then,
}
use snarkops.Common.Text.{Text}
use snarkops.Events.Parse.Errors.{
  Parsable, ParseError, expected_token, parse_error, panicked, out_of_fuel,
}
use snarkops.Events.Parse.Lexer.{
  Token, open_paren, close_paren, comma, whitespace, text, Lexed, token, panics, is_whitespace,
}

-- `Token::label`
unfoldable pub label : Token → String
label open_paren = "open paren"
label close_paren = "close paren"
label comma = "comma"
label whitespace = "whitespace"
label (text _) = "text"

abbrev pub Parser {ℓ} : Type ℓ → Type ℓ
Parser A = List Lexed → Result ParseError (A × List Lexed)

module _ {ℓ κ} {A : Type ℓ} {B : Type κ} where
  infixl 5 ◌>>=◌
  abbrev pub ◌>>=◌ : Parser A → (A → Parser B) → Parser B
  ◌>>=◌ m f input = and_then (m input) λ (a, rest). f a rest

module _ {ℓ} {B : Type ℓ} where
  infixl 5 ◌>>◌
  abbrev pub ◌>>◌ : Parser (Unit {0}) → Parser B → Parser B
  ◌>>◌ m k input = and_then (m input) λ (_, rest). k rest

abbrev pub pure {ℓ} : {A : Type ℓ} → A → Parser A
pure a input = ok (a, input)

abbrev pub fail {ℓ} : {A : Type ℓ} → ParseError → Parser A
fail e input = err e

-- `self.tokens.peek()` and `self.next()`
unfoldable pub peek : Parser (Option Token)
peek [] = ok (none, [])
peek (panics ∷ rest) = err panicked
peek (token t ∷ rest) = ok (some t, token t ∷ rest)

unfoldable pub next : Parser (Option Token)
next [] = ok (none, [])
next (panics ∷ rest) = err panicked
next (token t ∷ rest) = ok (some t, rest)

unfoldable pub trim_whitespace : Parser (Unit {0})
trim_whitespace [] = ok (tt, [])
trim_whitespace (panics ∷ rest) = err panicked
trim_whitespace (token whitespace ∷ rest) = trim_whitespace rest
trim_whitespace (token t ∷ rest) = ok (tt, token t ∷ rest)

-- `s.trim()`
unfoldable pub trim_start : Text → Text
unfolding is_whitespace
trim_start [] = []
trim_start (c ∷ s) = let trimmed = trim_start s in if is_whitespace c then trimmed else c ∷ s

unfoldable pub trim : Text → Text
unfolding trim_start
trim s = reverse (trim_start (reverse (trim_start s)))

-- `expect_token(token, P::_, |token| token.text())`
unfoldable pub text_of : Parsable → Option Token → Parser Text
unfolding label
text_of expected none = fail (expected_token expected "EOF")
text_of expected (some (text s)) = pure s
text_of expected (some t) = fail (expected_token expected (label t))

unfoldable pub check_open : Option Token → Parser (Unit {0})
unfolding label
check_open none = fail (expected_token Parsable.open_paren "EOF")
check_open (some open_paren) = pure tt
check_open (some t) = fail (expected_token Parsable.open_paren (label t))

unfoldable pub check_close : Option Token → Parser (Unit {0})
unfolding label
check_close none = fail (expected_token Parsable.close_paren "EOF")
check_close (some close_paren) = pure tt
check_close (some t) = fail (expected_token Parsable.close_paren (label t))

unfoldable pub of_option {ℓ} : {A : Type ℓ} → Parsable → Option A → Parser A
of_option expected none = fail (parse_error expected)
of_option expected (some a) = pure a

-- `expect_parsed(t.next(), P::_)`
unfoldable pub expect_parsed {ℓ} : {A : Type ℓ} → Parsable → (Text → Option A) → Parser A
unfolding next text_of of_option trim
expect_parsed expected from_str = do
  t ← next
  s ← text_of expected t
  of_option expected (from_str (trim s))

module _ {ℓ} {A : Type ℓ} where
  unfoldable pub parens : Parser A → Parser A
  unfolding trim_whitespace next check_open check_close
  parens filter = do
    trim_whitespace
    opening ← next
    check_open opening
    trim_whitespace
    a ← filter
    closing ← next
    check_close closing
    pure a

  -- What follows an item of a list, and the rest of the list.
  unfoldable pub after_item : Parser (List A) → Option Token → Parser (List A)
  unfolding next trim_whitespace label
  after_item more (some comma) = do separator ← next; trim_whitespace; more
  after_item more (some close_paren) = pure []
  after_item more (some t) = fail (expected_token Parsable.comma_or_close_paren (label t))
  after_item more none = fail (expected_token Parsable.comma_or_close_paren "EOF")

  unfoldable pub item_or_end : Parser (List A) → Option Token → Parser (List A)
  item_or_end item (some close_paren) = pure []
  item_or_end item none = fail (expected_token Parsable.close_paren "EOF")
  item_or_end item (some _) = item

  -- The loop of `vec_of`.
  unfoldable pub items : ℕ → Parser A → Parser (List A)
  unfolding peek trim_whitespace after_item item_or_end
  items zero matcher = fail out_of_fuel
  items (suc fuel) matcher = do
    first ← peek
    item_or_end
        (do
          x ← matcher
          trim_whitespace
          follower ← peek
          xs ← after_item (items fuel matcher) follower
          pure (x ∷ xs))
        first

  -- Each round of the loop takes a token at least.
  unfoldable pub vec_of : Parser A → Parser (List A)
  unfolding trim_whitespace items
  vec_of matcher = do trim_whitespace; λ input. items (suc (length input)) matcher input
