-- ===== src/Events/Parse/Filters.antt =====
-- `expect_filter` and `EventFilter::from_str` of crates/common/src/events/filter_parse.rs.
use snarkops.Common.{ℕ, zero, suc, none, some, List, [], ◌∷◌, length, Result, ok, err, and_then}
use snarkops.Common.Text.{Text}
use snarkops.State.InternedId
use snarkops.State.NodeKey
use snarkops.State.NodeTarget
use snarkops.State.NodeTarget.{WildMatch, NodeTarget, from_vec}
use snarkops.Events.Models.{parse_kind}
use snarkops.Events.Filter.{
  EventFilter, Filters, unfiltered, all_of, any_of, one_of, not_of, no_filters, filter_then,
  agent_is, has_agent, env_is, has_env, transaction_is, has_transaction, cannon_is, has_cannon,
  event_is, has_node_key, node_key_is, node_target_is,
}
use snarkops.Events.Parse.Keyword.{Keyword, keyword}
use snarkops.Events.Parse.Errors.{
  Parsable, ParseError, invalid_filter, trailing_tokens, out_of_fuel,
}
use snarkops.Events.Parse.Lexer.{Lexed, tokens}
use snarkops.Events.Parse.Parser.{
  Parser, ◌>>=◌, ◌>>◌, pure, fail, next, trim_whitespace, trim, text_of, expect_parsed, parens,
  vec_of,
}

module _ {P : Type 0} where
  -- `Vec<EventFilter>` as `Filters`.
  unfoldable pub of_list : List (EventFilter P) → Filters P
  of_list [] = no_filters
  of_list (f ∷ fs) = filter_then f (of_list fs)

  -- The fallback: an event kind by its name.
  unfoldable pub kind_or_invalid : Text → Parser (EventFilter P)
  kind_or_invalid name = elim (parse_kind name) [
    | none ↦ fail (invalid_filter name)
    | some kind ↦ pure (event_is kind)
  ]

module _ {P : Type 0} (W : WildMatch P) where
  -- The arms of `match filter_name.trim()`; `again` is `expect_filter`.
  unfoldable pub filter_body : Parser (EventFilter P) → Text → Keyword → Parser (EventFilter P)
  unfolding parens vec_of expect_parsed of_list kind_or_invalid next text_of
  filter_body again name Keyword.unfiltered = pure unfiltered
  filter_body again name Keyword.any_of = parens do fs ← vec_of again; pure (any_of (of_list fs))
  filter_body again name Keyword.all_of = parens do fs ← vec_of again; pure (all_of (of_list fs))
  filter_body again name Keyword.one_of = parens do fs ← vec_of again; pure (one_of (of_list fs))
  filter_body again name Keyword.not_of = parens do f ← again; pure (not_of f)
  filter_body again name Keyword.agent_is =
      parens do id ← expect_parsed Parsable.agent_id InternedId.from_str; pure (agent_is id)
  filter_body again name Keyword.has_agent = pure has_agent
  filter_body again name Keyword.env_is =
      parens do id ← expect_parsed Parsable.env_id InternedId.from_str; pure (env_is id)
  filter_body again name Keyword.has_env = pure has_env
  filter_body again name Keyword.transaction_is =
      parens do t ← next; s ← text_of Parsable.transaction_id t; pure (transaction_is s)
  filter_body again name Keyword.has_transaction = pure has_transaction
  filter_body again name Keyword.cannon_is =
      parens do id ← expect_parsed Parsable.cannon_id InternedId.from_str; pure (cannon_is id)
  filter_body again name Keyword.has_cannon = pure has_cannon
  filter_body again name Keyword.event_is =
      parens do kind ← expect_parsed Parsable.event_kind parse_kind; pure (event_is kind)
  filter_body again name Keyword.node_key_is =
      parens do key ← expect_parsed Parsable.node_key NodeKey.from_str; pure (node_key_is key)
  filter_body again name Keyword.has_node_key = pure has_node_key
  filter_body again name Keyword.node_target_is = parens do
    ts ← vec_of (expect_parsed Parsable.node_target (NodeTarget.from_str W))
    pure (node_target_is (from_vec ts))
  filter_body again name Keyword.unknown = kind_or_invalid name

  -- `expect_filter`, to the given depth of nesting.
  unfoldable pub expect_filter : ℕ → Parser (EventFilter P)
  unfolding filter_body keyword trim_whitespace next text_of trim
  expect_filter zero input = err out_of_fuel
  expect_filter (suc depth) input =
      let run : Parser (EventFilter P) = (do
        trim_whitespace
        t ← next
        filter_name ← text_of Parsable.filter_name t
        let name = trim filter_name
        filter_body (expect_filter depth) name (keyword name)) in
      run input

  -- `trailing_tokens`, on the token that is left if there is one.
  unfoldable pub no_more : EventFilter P → List Lexed → Result ParseError (EventFilter P)
  unfolding trim_whitespace next
  no_more filter input = and_then (trim_whitespace input) λ (_, rest).
      and_then (next rest) λ (t, _). elim t [ none ↦ ok filter | some _ ↦ err trailing_tokens ]

  -- `EventFilter::from_str`; each level of nesting takes a token at least.
  unfoldable pub from_tokens : List Lexed → Result ParseError (EventFilter P)
  unfolding expect_filter no_more
  from_tokens input =
      and_then (expect_filter (suc (length input)) input) λ (filter, rest). no_more filter rest

  unfoldable pub from_str : Text → Result ParseError (EventFilter P)
  unfolding from_tokens tokens
  from_str s = from_tokens (tokens s)
