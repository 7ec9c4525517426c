-- ===== src/Checkpoint/Ledger.antt =====
-- `CheckpointHeader::read_ledger` of crates/checkpoint/src/header.rs, over a ledger of snarkVM.
use snarkops.Checkpoint.Header.{CheckpointHeader}
use snarkops.Common.{ℕ, List, Option, Result, ok, err, none, some, and_then, map_err}
use snarkops.Common.Int.{ℤ}

-- What is read of a ledger of snarkVM: the committee and block databases, and the bytes of a hash.
pub record Ledger (E H C : Type 0) : Type 0 where
  pub current_height : Result E ℕ
  pub get_block_hash : ℕ → Result E (Option H)
  pub get_block_timestamp : H → Result E (Option ℤ)
  pub block_bytes : H → List ℕ
  pub read_content : Result E C

pub data HeaderReadError (E H : Type 0) : Type 0 where
  open_ledger : E → HeaderReadError E H
  read_ledger_error : E → HeaderReadError E H
  block_not_found : ℕ → HeaderReadError E H
  hashless_genesis : HeaderReadError E H
  block_missing_header : ℕ → H → HeaderReadError E H

-- `.map_err(ReadLedger)?`, and the error where there is nothing.
abbrev pub expect :
    {A E H : Type 0} → Result E (Option A) → HeaderReadError E H → Result (HeaderReadError E H) A
expect (err e) missing = err (read_ledger_error e)
expect (ok none) missing = err missing
expect (ok (some a)) missing = ok a

module _ {E H C : Type 0} where
  unfoldable pub read_header : Ledger E H C → Result (HeaderReadError E H) CheckpointHeader
  read_header l = and_then (map_err read_ledger_error l.current_height) λ height.
      and_then (expect (l.get_block_hash height) (block_not_found height)) λ block_hash.
        and_then (expect (l.get_block_hash 0) hashless_genesis) λ genesis_hash.
          and_then
            (expect (l.get_block_timestamp block_hash) (block_missing_header height block_hash))
            λ timestamp. ok (record {
              block_height = height;
              timestamp = timestamp;
              block_hash = l.block_bytes block_hash;
              genesis_hash = l.block_bytes genesis_hash;
              content_len = 0;
            })

  -- `read_ledger`, on the databases as they were opened.
  unfoldable pub read_ledger :
      Result E (Ledger E H C) → Result (HeaderReadError E H) CheckpointHeader
  unfolding read_header
  read_ledger opened = and_then (map_err open_ledger opened) read_header
