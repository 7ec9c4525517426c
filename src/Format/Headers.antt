-- ===== src/Format/Headers.antt =====
-- The headers that most formats of the program have: a version, `u8`, or two, `(u8, u8)`. They are
-- parts of the headers of larger formats, and are read there by `read_header` or `read_data`.
use snarkops.Format.Ints.{read_uint, write_uint, u8_format}
use snarkops.Format.Ints.RoundTrip.{read_uint-write_uint, IsUint}
use snarkops.Format.Collections.{pair_format}
use snarkops.Common.{ℕ, ◌≡◌, refl, List, ◌++◌, ok, and_then_ok, append_assoc}
use snarkops.Format.{Reader, Output, ◌>>=◌, ◌⊕◌, pure, default_read_header}

-- The data of a `(u8, u8)`.
unfoldable pub write_u8_pair : ℕ × ℕ → Output
write_u8_pair h = write_uint 1 h.0 ⊕ write_uint 1 h.1

unfoldable pub read_u8_pair : Reader (ℕ × ℕ)
read_u8_pair = do first ← read_uint 1; second ← read_uint 1; pure (first, second)

-- `T::read_header` of a type whose header is a u8, and of one whose header is a `(u8, u8)`.
unfoldable pub read_u8_header : Reader ℕ
read_u8_header = default_read_header u8_format

unfoldable pub read_u8_pair_header : Reader (ℕ × ℕ)
read_u8_pair_header = default_read_header (pair_format u8_format u8_format)

abbrev pub IsU8Pair : ℕ × ℕ → Type 0
IsU8Pair h = IsUint 1 h.0 × IsUint 1 h.1

pub read_u8_pair-write_u8_pair :
    (h : ℕ × ℕ) (rest : List ℕ)
    → IsU8Pair h
    → read_u8_pair ((write_u8_pair h).bytes ++ rest) ≡ ok (h, rest)
unfolding read_u8_pair write_u8_pair
read_u8_pair-write_u8_pair h rest (first, second) = simp append_assoc (
    and_then_ok _ (read_uint-write_uint 1 h.0 _ first)
      (and_then_ok _ (read_uint-write_uint 1 h.1 rest second) refl))

pub read_u8_header-write_uint :
    (h : ℕ) (rest : List ℕ)
    → IsUint 1 h
    → read_u8_header ((write_uint 1 h).bytes ++ rest) ≡ ok (h, rest)
unfolding read_u8_header default_read_header
read_u8_header-write_uint h rest v = read_uint-write_uint 1 h rest v

pub read_u8_pair_header-write_u8_pair :
    (h : ℕ × ℕ) (rest : List ℕ)
    → IsU8Pair h
    → read_u8_pair_header ((write_u8_pair h).bytes ++ rest) ≡ ok (h, rest)
unfolding read_u8_pair_header default_read_header write_u8_pair
read_u8_pair_header-write_u8_pair h rest (first, second) = simp append_assoc (
    and_then_ok _ (read_uint-write_uint 1 h.0 _ first)
      (and_then_ok _ (read_uint-write_uint 1 h.1 rest second) refl))
