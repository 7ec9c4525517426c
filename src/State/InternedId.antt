-- ===== src/State/InternedId.antt =====
-- crates/common/src/state/id.rs: identifiers of agents, environments, cannons and storages. The
-- interner gives equal texts equal identifiers, so an identifier is its text.
use snarkops.Common.{
  ℕ, Bool, false, ◌&&◌, ◌||◌, Option, none, some, [], ◌∷◌, ◌==◌, leb, if◌then◌else◌, length,
}
use snarkops.Common.Text.{Text, all}

-- `[A-Za-z0-9]`
unfoldable pub is_alphanumeric : ℕ → Bool
is_alphanumeric c =
    leb b'A' c && leb c b'Z' || (leb b'a' c && leb c b'z' || leb b'0' c && leb c b'9')

-- `[A-Za-z0-9\-_.]`
unfoldable pub is_inner : ℕ → Bool
unfolding is_alphanumeric
is_inner c = is_alphanumeric c || (c == b'-' || (c == b'_' || c == b'.'))

-- INTERNED_ID_REGEX, `^[A-Za-z0-9][A-Za-z0-9\-_.]{0,63}$`
unfoldable pub is_match : Text → Bool
unfolding is_inner
is_match [] = false
is_match (c ∷ s) = is_alphanumeric c && (all is_inner s && leb (length s) 63)

-- `InternedId::from_str`; its error, a message, is `none`.
unfoldable pub from_str : Text → Option Text
unfolding is_match
from_str s = if is_match s then some s else none
