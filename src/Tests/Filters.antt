-- ===== src/Tests/Filters.antt =====
-- Event filters.
use snarkops.Common.{◌≡◌, refl, ◌&&◌, none, some, ok, err}
use snarkops.Common.Int.{pos}
use snarkops.Common.Text.{Text, codes, text_eq, all}
use snarkops.State.InternedId
use snarkops.State.NodeTarget.{WildMatch}
use snarkops.Events.Models.{Event, EventKind, agent_connected, parse_kind, handshake_complete}
use snarkops.Events.Filter.{
  unfiltered, all_of, not_of, no_filters, filter_then, has_agent, agent_is, has_env, event_is,
  matches, bitand,
}
use snarkops.Events.Filter.Meaning.{matches-bitand}
use snarkops.Events.Parse.Errors.{Parsable, expected_token, trailing_tokens}
use snarkops.Events.Parse.Filters.{from_str}

abbrev exact : WildMatch Text
exact = record { new = λ s. s; to_string = λ p. p; matches = text_eq }

abbrev joined : Event Unit
joined = record {
  created_at = pos 0;
  agent = some (codes "default");
  node_key = none;
  env = none;
  transaction = none;
  cannon = none;
  content = EventKind.agent handshake_complete;
}

matches-bitand_example :
    matches exact joined (bitand has_agent has_env)
    ≡ matches exact joined has_agent && matches exact joined has_env
matches-bitand_example = matches-bitand exact joined has_agent has_env

program : Unit {0}
unfolding from_str text_eq parse_kind InternedId.from_str all
program = tt

parse_list :
    from_str exact (codes "all-of(not(agent-is(foo-bar)), unfiltered,)")
    ≡ ok (
        all_of
          (filter_then (not_of (agent_is (codes "foo-bar"))) (filter_then unfiltered no_filters)))
unfolding program
parse_list = refl

parse_event : from_str exact (codes " agent-connected ") ≡ ok (event_is agent_connected)
unfolding program
parse_event = refl

parse_open :
    from_str exact (codes "any-of(unfiltered")
    ≡ err (expected_token Parsable.comma_or_close_paren "EOF")
unfolding program
parse_open = refl

parse_more : from_str exact (codes "unfiltered, ") ≡ err trailing_tokens
unfolding program
parse_more = refl
