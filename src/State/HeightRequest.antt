-- ===== src/State/HeightRequest.antt =====
-- crates/common/src/state/height_request.rs: the height that a node's ledger is set to.
use snarkops.Format.Collections.RoundTrip.{pair_format-IsLawful}
use snarkops.Checkpoint.Formats.{read_span, write_span}
use snarkops.Format.Ints.{read_uint, u8_format, write_uint}
use snarkops.Format.Collections.{pair_format}
use snarkops.Checkpoint.Formats.RoundTrip.{span_format-IsLawful, IsSpan}
use snarkops.Format.Ints.RoundTrip.{uint_format-IsLawful, read_uint-write_uint, IsUint}
use snarkops.Format.Laws.{default_read_header-default_write_header, IsLawful}
use snarkops.Common.{
  append_assoc, arith, false, ◌⊎◌, ◌==◌, ok, ◌↔◌, if◌then◌else◌, true, ◌≡◌, ◌||◌, ◌++◌, Bool, ℕ,
  List,
}
use snarkops.Format.{
  custom, unsupported_version, default_read_header, ◌⊕◌, default_write_header, Reader, Output,
  DataFormat, pure, fail, ◌>>=◌,
}
use snarkops.Checkpoint.Retention.{span_eq, RetentionSpan, unlimited}

-- `absolute` has a u32.
pub data HeightRequest : Type 0 where
  top : HeightRequest
  absolute : ℕ → HeightRequest
  checkpoint : RetentionSpan → HeightRequest

unfoldable pub write_height_request : HeightRequest → Output
write_height_request top = write_uint 1 0
write_height_request (absolute height) = write_uint 1 1 ⊕ write_uint 4 height
write_height_request (checkpoint retention) = write_uint 1 2 ⊕ write_span retention

unfoldable pub height_request_of_tag : ℕ → ℕ → Reader HeightRequest
height_request_of_tag span_header tag =
    if tag == 0
    then pure top
    else if tag == 1
    then (do height ← read_uint 4; pure (absolute height))
    else if tag == 2
    then (do retention ← read_span span_header; pure (checkpoint retention))
    else fail (custom "invalid HeightRequest discriminant")

unfoldable pub read_height_request : ℕ × ℕ → Reader HeightRequest
unfolding height_request_of_tag
read_height_request (version, span_header) =
    if version == 1
    then (do tag ← read_uint 1; height_request_of_tag span_header tag)
    else fail (unsupported_version "HeightRequest" 1 version)

abbrev pub height_request_format : DataFormat (ℕ × ℕ) HeightRequest
height_request_format = record {
  latest_header = (1, 1);
  write_header = default_write_header (pair_format u8_format u8_format) (1, 1);
  read_header = default_read_header (pair_format u8_format u8_format);
  write_data = write_height_request;
  read_data = read_height_request;
}

-- The derived `PartialEq`.
unfoldable pub request_eq : HeightRequest → HeightRequest → Bool
request_eq top top = true
request_eq (absolute h) (absolute k) = h == k
request_eq (checkpoint r) (checkpoint s) = span_eq r s
request_eq _ _ = false

unfoldable pub is_top : HeightRequest → Bool
unfolding request_eq
is_top request = request_eq request top

unfoldable pub reset : HeightRequest → Bool
unfolding request_eq
reset request = request_eq request (absolute 0) || request_eq request (checkpoint unlimited)

abbrev pub IsHeightRequest : HeightRequest → Type 0
IsHeightRequest top = Unit
IsHeightRequest (absolute height) = IsUint 4 height
IsHeightRequest (checkpoint retention) = IsSpan retention

read_height_request-write_height_request :
    (request : HeightRequest) (rest : List ℕ)
    → IsHeightRequest request
    → read_height_request (1, 1) ((write_height_request request).bytes ++ rest) ≡ ok (request, rest)
unfolding read_height_request write_height_request
read_height_request-write_height_request top rest h =
    simp (read_uint-write_uint 1 0 rest (omega arith))
read_height_request-write_height_request (absolute height) rest h = simp (
  append_assoc,
  read_uint-write_uint 1 1 ((write_uint 4 height).bytes ++ rest) (omega arith),
  read_uint-write_uint 4 height rest h,
)
read_height_request-write_height_request (checkpoint retention) rest h = simp (
  append_assoc,
  read_uint-write_uint 1 2 ((write_span retention).bytes ++ rest) (omega arith),
  span_format-IsLawful.data_round_trip retention rest h,
)

-- A height request, with a u32 as its height, is read back from its bytes, with and without its
-- header.
pub height_request_format-IsLawful : IsLawful height_request_format IsHeightRequest
height_request_format-IsLawful = record {
  data_round_trip = read_height_request-write_height_request;
  header_round_trip = λ request rest.
      default_read_header-default_write_header (pair_format u8_format u8_format) (1, 1) request rest
        (pair_format-IsLawful u8_format u8_format (uint_format-IsLawful 1) (uint_format-IsLawful 1))
        (omega arith, omega arith);
}

-- A request resets the ledger exactly if it asks for height 0 or for an unlimited time ago.
pub reset_iff :
    (request : HeightRequest)
    → (reset request ≡ true) ↔ ((request ≡ absolute 0) ⊎ (request ≡ checkpoint unlimited))
unfolding reset span_eq
reset_iff top = ground arith
reset_iff (absolute h) = ground arith
reset_iff (checkpoint r) = ground arith
