-- ===== src/Events/Parse/Errors.antt =====
-- The errors of the parser of crates/common/src/events/filter_parse.rs.
use Prim.Native.String.{String}
use snarkops.Common.Text.{Text}

-- `EventFilterParsable`
pub data Parsable : Type 0 where
  open_paren close_paren comma_or_close_paren filter_name agent_id env_id : Parsable
  transaction_id cannon_id event_kind node_key node_target : Parsable

-- `EventFilterParseError`, without the messages of the values' own parsers; `panicked` is a panic of
-- the lexer and `out_of_fuel` has no counterpart.
pub data ParseError : Type 0 where
  invalid_filter : Text → ParseError
  expected_token : Parsable → (received : String) → ParseError
  parse_error : Parsable → ParseError
  trailing_tokens panicked out_of_fuel : ParseError
