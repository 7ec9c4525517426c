-- ===== src/State/DateTime.antt =====
-- crates/common/src/format/impl_chrono.rs: times and their format.
use snarkops.Format.Ints.RoundTrip.{read_uint-write_uint, read_int-write_int, IsUint, IsInt}
use snarkops.Format.Ints.{read_uint, unit_format, read_int, write_uint, write_int}
use snarkops.Common.Int.{◌+ℤ◌, pos, ◌*ℤ◌, ℤ}
use snarkops.Checkpoint.Retention.{second}
use snarkops.Common.{append_assoc, if◌then◌else◌, ok, ◌≡◌, ◌++◌, List, Bool, ℕ, true}
use snarkops.Format.{
  custom, default_read_header, Reader, default_write_header, ◌⊕◌, Output, DataFormat, pure, fail,
  ◌>>=◌,
}

-- `DateTime<Utc>`: the seconds since 1970, and the nanoseconds of the second.
pub record DateTime : Type 0 where
  pub timestamp : ℤ
  pub subsec_nanos : ℕ

-- The nanoseconds since 1970.
unfoldable pub nanos : DateTime → ℤ
nanos t = t.timestamp *ℤ pos second +ℤ pos t.subsec_nanos

unfoldable pub write_date_time : DateTime → Output
write_date_time t = write_int 8 t.timestamp ⊕ write_uint 4 t.subsec_nanos

-- `chrono` says which seconds and nanoseconds are a time: `DateTime::from_timestamp` has a result.
module _ (is_time : ℤ → ℕ → Bool) where
  unfoldable pub read_date_time : Reader DateTime
  read_date_time = do
    timestamp ← read_int 8
    subsec_nanos ← read_uint 4
    if is_time timestamp subsec_nanos
        then pure (record { timestamp = timestamp; subsec_nanos = subsec_nanos })
        else fail (custom "Invalid timestamp in datetime")

  abbrev pub date_time_format : DataFormat Unit DateTime
  date_time_format = record {
    latest_header = tt;
    write_header = default_write_header unit_format tt;
    read_header = default_read_header unit_format;
    write_data = write_date_time;
    read_data = λ _. read_date_time;
  }

  -- A time that `chrono` accepts, in an i64 and a u32.
  pub record IsDateTime (t : DateTime) : Type 0 where
    pub timestamp_fits : IsInt 8 t.timestamp
    pub nanos_fit : IsUint 4 t.subsec_nanos
    pub accepted : is_time t.timestamp t.subsec_nanos ≡ true

  pub read_date_time-write_date_time :
      (t : DateTime) (rest : List ℕ)
      → IsDateTime t
      → read_date_time ((write_date_time t).bytes ++ rest) ≡ ok (t, rest)
  unfolding read_date_time write_date_time
  read_date_time-write_date_time t rest h = simp (
    append_assoc,
    read_int-write_int 8 t.timestamp ((write_uint 4 t.subsec_nanos).bytes ++ rest) h.timestamp_fits,
    read_uint-write_uint 4 t.subsec_nanos rest h.nanos_fit,
    h.accepted,
  )
