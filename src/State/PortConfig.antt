-- ===== src/State/PortConfig.antt =====
-- crates/common/src/state/port_config.rs: the ports of an agent's node, each a u16.
use snarkops.Format.Ints.{read_uint, write_uint, u8_format}
use snarkops.Format.Ints.RoundTrip.{uint_format-IsLawful, read_uint-write_uint, IsUint}
use snarkops.Format.Laws.{default_read_header-default_write_header, IsLawful}
use snarkops.Common.{and_then_ok, refl, arith, ◌==◌, append_assoc, if◌then◌else◌, ℕ}
use snarkops.Format.{
  unsupported_version, default_read_header, ◌⊕◌, Output, Reader, default_write_header, DataFormat,
  pure, fail, ◌>>=◌,
}

pub record PortConfig : Type 0 where
  pub node : ℕ
  pub bft : ℕ
  pub rest : ℕ
  pub metrics : ℕ

unfoldable pub write_port_config : PortConfig → Output
write_port_config c =
    write_uint 2 c.node ⊕ write_uint 2 c.bft ⊕ write_uint 2 c.rest ⊕ write_uint 2 c.metrics

unfoldable pub read_port_config : ℕ → Reader PortConfig
read_port_config header =
    if header == 1
    then (do
      node ← read_uint 2
      bft ← read_uint 2
      rest ← read_uint 2
      metrics ← read_uint 2
      pure (record { node = node; bft = bft; rest = rest; metrics = metrics }))
    else fail (unsupported_version "PortConfig" 1 header)

abbrev pub port_config_format : DataFormat ℕ PortConfig
port_config_format = record {
  latest_header = 1;
  write_header = default_write_header u8_format 1;
  read_header = default_read_header u8_format;
  write_data = write_port_config;
  read_data = read_port_config;
}

pub record IsPortConfig (c : PortConfig) : Type 0 where
  pub node_fits : IsUint 2 c.node
  pub bft_fits : IsUint 2 c.bft
  pub rest_fits : IsUint 2 c.rest
  pub metrics_fits : IsUint 2 c.metrics

-- A configuration of four u16 ports is read back from its bytes, with and without its header.
pub port_config_format-IsLawful : IsLawful port_config_format IsPortConfig
unfolding read_port_config write_port_config
port_config_format-IsLawful = record {
  data_round_trip = λ c behind h. simp append_assoc (
      and_then_ok _ (read_uint-write_uint 2 c.node _ h.node_fits) (
        and_then_ok _ (read_uint-write_uint 2 c.bft _ h.bft_fits) (
          and_then_ok _ (read_uint-write_uint 2 c.rest _ h.rest_fits)
            (and_then_ok _ (read_uint-write_uint 2 c.metrics behind h.metrics_fits) refl))));
  header_round_trip = λ c behind.
      default_read_header-default_write_header u8_format 1 c behind (uint_format-IsLawful 1)
        (omega arith);
}
