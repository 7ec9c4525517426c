-- ===== src/State/NetworkId.antt =====
-- crates/common/src/state/network.rs: the networks, as text and as bytes.
use snarkops.Common.{
  ℕ, ◌≡◌, refl, Bool, true, false, Option, none, some, List, ◌++◌, ◌==◌, if◌then◌else◌, ok, arith,
  and_then_ok,
}
use snarkops.Common.Text.{Text, codes, text_eq}
use snarkops.Format.Ints.{read_uint, write_uint, u8_format}
use snarkops.Format.Ints.RoundTrip.{read_uint-write_uint, uint_format-IsLawful}
use snarkops.Format.Laws.{IsLawful, default_read_header-default_write_header}
use snarkops.Format.{
  DataFormat, Reader, Output, ◌>>=◌, pure, fail, custom, unsupported_version, default_write_header,
  default_read_header,
}

pub data NetworkId : Type 0 where
  mainnet testnet canary : NetworkId

unfoldable pub network_eq : NetworkId → NetworkId → Bool
network_eq mainnet mainnet = true
network_eq testnet testnet = true
network_eq canary canary = true
network_eq _ _ = false

-- `Display`
unfoldable pub network_text : NetworkId → Text
network_text mainnet = codes "mainnet"
network_text testnet = codes "testnet"
network_text canary = codes "canary"

-- `FromStr`; its error, a message, is `none`.
unfoldable pub parse_network : Text → Option NetworkId
parse_network s =
    if text_eq s (codes "mainnet")
    then some mainnet
    else if text_eq s (codes "testnet")
    then some testnet
    else if text_eq s (codes "canary")
    then some canary
    else none

unfoldable pub network_tag : NetworkId → ℕ
network_tag mainnet = 0
network_tag testnet = 1
network_tag canary = 2

unfoldable pub network_of_tag : ℕ → Reader NetworkId
network_of_tag n =
    if n == 0
    then pure mainnet
    else if n == 1
    then pure testnet
    else if n == 2
    then pure canary
    else fail (custom "Invalid network ID")

unfoldable pub write_network : NetworkId → Output
unfolding network_tag
write_network network = write_uint 1 (network_tag network)

unfoldable pub read_network : ℕ → Reader NetworkId
unfolding network_of_tag
read_network header =
    if header == 1
    then (do n ← read_uint 1; network_of_tag n)
    else fail (unsupported_version "network_id" 1 header)

abbrev pub network_format : DataFormat ℕ NetworkId
network_format = record {
  latest_header = 1;
  write_header = default_write_header u8_format 1;
  read_header = default_read_header u8_format;
  write_data = write_network;
  read_data = read_network;
}

pub parse_network-network_text : (n : NetworkId) → parse_network (network_text n) ≡ some n
unfolding parse_network network_text text_eq
parse_network-network_text mainnet = refl
parse_network-network_text testnet = refl
parse_network-network_text canary = refl

read_network-write_network :
    (n : NetworkId) (rest : List ℕ)
    → read_network 1 ((write_network n).bytes ++ rest) ≡ ok (n, rest)
unfolding read_network write_network
read_network-write_network mainnet rest =
    and_then_ok _ (read_uint-write_uint 1 0 rest (omega arith)) refl
read_network-write_network testnet rest =
    and_then_ok _ (read_uint-write_uint 1 1 rest (omega arith)) refl
read_network-write_network canary rest =
    and_then_ok _ (read_uint-write_uint 1 2 rest (omega arith)) refl

pub network_format-IsLawful : IsLawful network_format (λ _. Unit {0})
network_format-IsLawful = record {
  data_round_trip = λ n rest h. read_network-write_network n rest;
  header_round_trip = λ n rest.
      default_read_header-default_write_header u8_format 1 n rest (uint_format-IsLawful 1)
        (omega arith);
}
