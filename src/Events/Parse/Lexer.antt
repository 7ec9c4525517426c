-- ===== src/Events/Parse/Lexer.antt =====
-- The lexer of crates/common/src/events/filter_parse.rs. It counts characters and cuts bytes.
use snarkops.Common.{
  ℕ, zero, suc, ◌+◌, ◌-◌, Bool, not, ◌&&◌, ◌||◌, Option, none, some, List, [], ◌∷◌, ◌==◌, leb, ltb,
  if◌then◌else◌, length,
}
use snarkops.Common.Text.{Text}

pub data Token : Type 0 where
  open_paren close_paren comma whitespace : Token
  text : Text → Token

-- What a call of the lexer gives: a token, or a panic.
pub data Lexed : Type 0 where
  token : Token → Lexed
  panics : Lexed

-- `char::is_whitespace`: the characters of the Unicode property White_Space.
unfoldable pub is_whitespace : ℕ → Bool
is_whitespace c =
    (leb 9 c && leb c 13)
    || (c == 32
        || (c == 0x85
            || (c == 0xa0
                || (c == 0x1680
                    || ((leb 0x2000 c && leb c 0x200a)
                        || (c == 0x2028
                            || (c == 0x2029 || (c == 0x202f || (c == 0x205f || c == 0x3000)))))))))

-- The bytes of a character in UTF-8, and of a text.
unfoldable pub width : ℕ → ℕ
width c = if ltb c 0x80 then 1 else if ltb c 0x800 then 2 else if ltb c 0x10000 then 3 else 4

unfoldable pub byte_length : Text → ℕ
unfolding width
byte_length [] = 0
byte_length (c ∷ s) = width c + byte_length s

-- The text behind the first `n` bytes, and the first `n` bytes; `none` where a character would be
-- cut or the text ends before.
unfoldable pub skip_bytes : ℕ → Text → Option Text
unfolding width
skip_bytes zero s = some s
skip_bytes (suc n) [] = none
skip_bytes (suc n) (c ∷ s) = if leb (width c) (suc n) then skip_bytes (suc n - width c) s else none

unfoldable pub take_bytes : ℕ → Text → Option Text
take_bytes zero s = some []
take_bytes (suc n) [] = none
take_bytes (suc n) (c ∷ s) =
    if leb (width c) (suc n)
    then (elim (take_bytes (suc n - width c) s) [ none ↦ none | some t ↦ some (c ∷ t) ])
    else none

-- `&string[start..end]`; `none` is a panic.
unfoldable pub slice : Text → ℕ → ℕ → Option Text
unfolding skip_bytes take_bytes
slice s start end =
    if ltb end start
    then none
    else elim (skip_bytes start s) [ none ↦ none | some rest ↦ take_bytes (end - start) rest ]

-- The iterator `chars.enumerate()`: the number of the next character, and the characters left.
pub record Chars : Type 0 where
  pub index : ℕ
  pub rest : Text

-- `while let Some((_, c)) = self.chars.peek() { if !p(c) { break; } self.chars.next(); }`
unfoldable pub advance : (ℕ → Bool) → ℕ → Text → Chars
advance p index [] = record { index = index; rest = [] }
advance p index (c ∷ cs) =
    let further = advance p (index + 1) cs in
    if p c then further else record { index = index; rest = c ∷ cs }

-- The characters that a text token goes on over.
unfoldable pub is_text_char : ℕ → Bool
is_text_char c = not (c == b'(' || (c == b')' || c == b','))

-- `self.chars.peek().map_or_else(|| self.string.len(), |(i, _)| *i)`
unfoldable pub text_end : Text → Chars → ℕ
unfolding byte_length
text_end string chars = elim chars.rest [ [] ↦ byte_length string | _ ∷ _ ↦ chars.index ]

unfoldable pub text_token : Option Text → Lexed
text_token none = panics
text_token (some t) = token (text t)

-- `Lexer::next`, when there is a character left.
unfoldable pub next_token : Text → ℕ → ℕ → Text → Lexed × Chars
unfolding advance is_whitespace is_text_char text_end text_token slice
next_token string index c cs =
    let here : Chars = record { index = index + 1; rest = cs } in
    if c == b'('
    then (token open_paren, here)
    else if c == b')'
    then (token close_paren, here)
    else if c == b','
    then (token comma, here)
    else if is_whitespace c
    then (token whitespace, advance is_whitespace (index + 1) cs)
    else let after = advance is_text_char (index + 1) cs in
      (text_token (slice string index (text_end string after)), after)

-- All that the lexer gives. Each call takes a character at least.
unfoldable pub lex : ℕ → Text → Chars → List Lexed
unfolding next_token
lex zero string chars = []
lex (suc fuel) string chars = elim chars.rest [
  | [] ↦ []
  | c ∷ cs ↦
      let (first, after) = next_token string chars.index c cs in first ∷ lex fuel string after
]

-- `Lexer::new`
unfoldable pub tokens : Text → List Lexed
unfolding lex
tokens string = lex (length string) string (record { index = 0; rest = string })
