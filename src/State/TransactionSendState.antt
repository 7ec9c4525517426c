-- ===== src/State/TransactionSendState.antt =====
-- crates/common/src/state/transaction_status.rs: how far the sending of a transaction is.
use snarkops.State.DateTime.{
  read_date_time-write_date_time, DateTime, read_date_time, write_date_time, IsDateTime,
}
use snarkops.Format.Collections.{option_format}
use snarkops.Format.Collections.RoundTrip.{option_format-IsLawful, OptionIsValid}
use snarkops.Format.Ints.RoundTrip.{
  unit_format-IsLawful, read_uint-write_uint, uint_format-IsLawful, IsUint,
}
use snarkops.Format.Ints.{read_uint, uint_format, unit_format, u8_format, write_uint}
use snarkops.Format.Laws.{default_read_header-default_write_header, IsLawful}
use snarkops.Common.{append_assoc, arith, ok, ◌==◌, if◌then◌else◌, ◌≡◌, ◌++◌, Bool, Option, ℕ, List}
use snarkops.Common.Int.{ℤ}
use snarkops.Format.{
  custom, unsupported_version, default_read_header, ◌⊕◌, default_write_header, Reader, Output,
  DataFormat, pure, fail, ◌>>=◌,
}

-- `broadcasted` has the latest height of the network, a u32, at the time of the broadcast.
pub data TransactionSendState : Type 0 where
  authorized : TransactionSendState
  executing : DateTime → TransactionSendState
  unsent : TransactionSendState
  broadcasted : Option ℕ → DateTime → TransactionSendState

-- `Option::<u32>`
abbrev pub height_format : DataFormat Unit (Option ℕ)
height_format = option_format unit_format (uint_format 4)

unfoldable pub write_send_state : TransactionSendState → Output
write_send_state authorized = write_uint 1 0
write_send_state (executing timestamp) = write_uint 1 1 ⊕ write_date_time timestamp
write_send_state unsent = write_uint 1 2
write_send_state (broadcasted height timestamp) =
    write_uint 1 3 ⊕ height_format.write_data height ⊕ write_date_time timestamp

module _ (is_time : ℤ → ℕ → Bool) where
  unfoldable pub send_state_of_tag : ℕ → Reader TransactionSendState
  send_state_of_tag tag =
      if tag == 0
      then pure authorized
      else if tag == 1
      then (do timestamp ← read_date_time is_time; pure (executing timestamp))
      else if tag == 2
      then pure unsent
      else if tag == 3
      then (do
        height ← height_format.read_data tt
        timestamp ← read_date_time is_time
        pure (broadcasted height timestamp))
      else fail (custom "Invalid CannonTransactionStatus tag")

  unfoldable pub read_send_state : ℕ → Reader TransactionSendState
  unfolding send_state_of_tag
  read_send_state header =
      if header == 1
      then (do tag ← read_uint 1; send_state_of_tag tag)
      else fail (unsupported_version "CannonTransactionStatus" 1 header)

  abbrev pub send_state_format : DataFormat ℕ TransactionSendState
  send_state_format = record {
    latest_header = 1;
    write_header = default_write_header u8_format 1;
    read_header = default_read_header u8_format;
    write_data = write_send_state;
    read_data = read_send_state;
  }

  abbrev pub IsSendState : TransactionSendState → Type 0
  IsSendState authorized = Unit
  IsSendState (executing timestamp) = IsDateTime is_time timestamp
  IsSendState unsent = Unit
  IsSendState (broadcasted height timestamp) =
      OptionIsValid (IsUint 4) height × IsDateTime is_time timestamp

  read_send_state-write_send_state :
      (state : TransactionSendState) (rest : List ℕ)
      → IsSendState state
      → read_send_state 1 ((write_send_state state).bytes ++ rest) ≡ ok (state, rest)
  unfolding read_send_state write_send_state
  read_send_state-write_send_state authorized rest h =
      simp (read_uint-write_uint 1 0 rest (omega arith))
  read_send_state-write_send_state (executing timestamp) rest h = simp (
    append_assoc,
    read_uint-write_uint 1 1 ((write_date_time timestamp).bytes ++ rest) (omega arith),
    read_date_time-write_date_time is_time timestamp rest h,
  )
  read_send_state-write_send_state unsent rest h =
      simp (read_uint-write_uint 1 2 rest (omega arith))
  read_send_state-write_send_state (broadcasted height timestamp) rest h =
      let law =
        option_format-IsLawful unit_format (uint_format 4) unit_format-IsLawful tt
          (uint_format-IsLawful 4) in
      let time = (write_date_time timestamp).bytes ++ rest in
      simp (
        append_assoc,
        read_uint-write_uint 1 3 ((height_format.write_data height).bytes ++ time) (omega arith),
        law.data_round_trip height time h.0,
        read_date_time-write_date_time is_time timestamp rest h.1,
      )

  -- The state of a transaction, with times that `chrono` accepts and a u32 height, is read back from
  -- its bytes, with and without its header.
  pub send_state_format-IsLawful : IsLawful send_state_format IsSendState
  send_state_format-IsLawful = record {
    data_round_trip = read_send_state-write_send_state;
    header_round_trip = λ state rest.
        default_read_header-default_write_header u8_format 1 state rest (uint_format-IsLawful 1)
          (omega arith);
  }
