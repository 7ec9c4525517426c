-- ===== src/Checkpoint/Header.antt =====
-- crates/checkpoint/src/header.rs: the header of a checkpoint and its bytes.
use snarkops.Format.{read_exact}
use snarkops.Checkpoint.Retention.{second}
use snarkops.Format.Ints.RoundTrip.{
  from_bits-to_bits, to_bits_fits, from_le_bytes-to_le_bytes, read_exact-append_of_length,
  length-to_le_bytes, IsInt, IsUint,
}
use snarkops.Format.Ints.{from_bits, to_bits, from_le_bytes, to_le_bytes}
use snarkops.Common.Int.{pos, ◌*ℤ◌, ℤ}
use snarkops.Common.{
  length-append, take_self, drop-append, take-append, ◌+◌, length, ◌≡◌, ◌==◌, map_err, take,
  and_then, if◌then◌else◌, Result, drop, ◌++◌, ℕ, List, [], ◌∷◌, ok, err, refl, arith,
}

-- A hash is 32 bytes.
pub record CheckpointHeader : Type 0 where
  pub block_height : ℕ
  pub timestamp : ℤ
  pub block_hash : List ℕ
  pub genesis_hash : List ℕ
  pub content_len : ℕ

pub data HeaderError : Type 0 where
  unexpected_eof : HeaderError
  invalid_version : ℕ → HeaderError

abbrev pub checkpoint_version : ℕ
checkpoint_version = 2

-- `time`, in nanoseconds; the code stops where a `TimeDelta` cannot hold the seconds.
unfoldable pub time : CheckpointHeader → ℤ
time header = header.timestamp *ℤ pos second

-- The fields behind the version.
unfoldable pub field_bytes : CheckpointHeader → List ℕ
field_bytes header =
    to_le_bytes 4 header.block_height
    ++ (to_le_bytes 8 (to_bits 8 header.timestamp)
        ++ (header.block_hash ++ (header.genesis_hash ++ to_le_bytes 8 header.content_len)))

unfoldable pub write_bytes : CheckpointHeader → List ℕ
unfolding field_bytes
write_bytes header = checkpoint_version ∷ field_bytes header

-- The fields, taken one after the other from the bytes behind the version.
unfoldable pub take_fields : List ℕ → CheckpointHeader
take_fields buf =
    let buf1 = drop 4 buf in
    let buf2 = drop 8 buf1 in
    let buf3 = drop 32 buf2 in
    let buf4 = drop 32 buf3 in
    record {
      block_height = from_le_bytes (take 4 buf);
      timestamp = from_bits 8 (from_le_bytes (take 8 buf1));
      block_hash = take 32 buf2;
      genesis_hash = take 32 buf3;
      content_len = from_le_bytes (take 8 buf4);
    }

unfoldable pub check_version : List ℕ → Result HeaderError CheckpointHeader
unfolding take_fields
check_version [] = err unexpected_eof
check_version (version ∷ buf) =
    if version == checkpoint_version then ok (take_fields buf) else err (invalid_version version)

-- `read_bytes`: the header and the bytes behind it.
unfoldable pub read_bytes : List ℕ → Result HeaderError (CheckpointHeader × List ℕ)
unfolding check_version
read_bytes input =
    and_then (map_err (λ _. unexpected_eof) (read_exact (1 + 4 + 8 + 32 + 32 + 8) input))
      λ (buf, rest). and_then (check_version buf) λ header. ok (header, rest)

pub record IsHeader (header : CheckpointHeader) : Type 0 where
  pub height_fits : IsUint 4 header.block_height
  pub timestamp_fits : IsInt 8 header.timestamp
  pub hash_bytes : length header.block_hash ≡ 32
  pub genesis_bytes : length header.genesis_hash ≡ 32
  pub len_fits : IsUint 8 header.content_len

take_fields-field_bytes :
    (header : CheckpointHeader) → IsHeader header → take_fields (field_bytes header) ≡ header
unfolding take_fields field_bytes
take_fields-field_bytes header v =
    let len = to_le_bytes 8 header.content_len in
    let genesis = header.genesis_hash ++ len in
    let hash = header.block_hash ++ genesis in
    let time = to_le_bytes 8 (to_bits 8 header.timestamp) in
    let height = to_le_bytes 4 header.block_height in
    let height_length = length-to_le_bytes 4 header.block_height in
    let time_length = length-to_le_bytes 8 (to_bits 8 header.timestamp) in
    rw
      (
        take-append 4 height (time ++ hash) height_length,
        drop-append 4 height (time ++ hash) height_length,
        take-append 8 time hash time_length,
        drop-append 8 time hash time_length,
        take-append 32 header.block_hash genesis v.hash_bytes,
        drop-append 32 header.block_hash genesis v.hash_bytes,
        take-append 32 header.genesis_hash len v.genesis_bytes,
        drop-append 32 header.genesis_hash len v.genesis_bytes,
        take_self 8 len (length-to_le_bytes 8 header.content_len),
        from_le_bytes-to_le_bytes 4 header.block_height v.height_fits,
        from_le_bytes-to_le_bytes 8 (to_bits 8 header.timestamp)
            (to_bits_fits 8 header.timestamp v.timestamp_fits),
        from_le_bytes-to_le_bytes 8 header.content_len v.len_fits,
        from_bits-to_bits 8 header.timestamp v.timestamp_fits,
      )
      refl

length-write_bytes :
    (header : CheckpointHeader) → IsHeader header → length (write_bytes header) ≡ 85
unfolding write_bytes field_bytes
length-write_bytes header v =
    let bits = to_bits 8 header.timestamp in
    let len = to_le_bytes 8 header.content_len in
    let genesis = header.genesis_hash ++ len in
    omega (
      arith,
      v.hash_bytes,
      v.genesis_bytes,
      length-to_le_bytes 4 header.block_height,
      length-to_le_bytes 8 bits,
      length-to_le_bytes 8 header.content_len,
      length-append header.genesis_hash len,
      length-append header.block_hash genesis,
      length-append (to_le_bytes 8 bits) (header.block_hash ++ genesis),
      length-append (to_le_bytes 4 header.block_height)
          (to_le_bytes 8 bits ++ (header.block_hash ++ genesis)),
    )

-- A header in its widths, with hashes of 32 bytes, is read back from its bytes, whatever follows
-- them.
pub read_bytes-write_bytes :
    (header : CheckpointHeader) (rest : List ℕ)
    → IsHeader header
    → read_bytes (write_bytes header ++ rest) ≡ ok (header, rest)
unfolding read_bytes write_bytes check_version
read_bytes-write_bytes header rest v =
    let size : length (write_bytes header) ≡ 85 = length-write_bytes header v in
    rw
      (
        read_exact-append_of_length 85 (write_bytes header) rest size,
        take_fields-field_bytes header v,
      )
      refl
