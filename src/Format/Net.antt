-- ===== src/Format/Net.antt =====
-- crates/common/src/format/impl_net.rs: addresses of the standard library as bytes.
use snarkops.Common.{
  and_then_ok, append_assoc, ok, List, ◌==◌, ℕ, ◌++◌, ◌≡◌, refl, length, if◌then◌else◌, arith,
}
use snarkops.Format.Ints.{read_uint, unit_format, write_uint}
use snarkops.Format.Ints.RoundTrip.{
  IsUint, read_uint-write_uint, unit_format-IsLawful, read_exact-append_of_length,
}
use snarkops.Format.Laws.{IsLawful, default_read_header-default_write_header}
use snarkops.Format.{
  DataFormat, Reader, Output, ◌>>=◌, ◌⊕◌, pure, fail, custom, read_exact, write,
  default_write_header, default_read_header,
}

-- An address is its octets, 4 or 16 of them.
pub data IpAddr : Type 0 where
  ip_v4 ip_v6 : List ℕ → IpAddr

-- Octets and port; that of version 6 has its flow info and its scope too.
pub data SocketAddr : Type 0 where
  socket_v4 : List ℕ → ℕ → SocketAddr
  socket_v6 : List ℕ → ℕ → ℕ → ℕ → SocketAddr

unfoldable pub write_ip_addr : IpAddr → Output
write_ip_addr (ip_v4 octets) = write_uint 1 0 ⊕ write octets
write_ip_addr (ip_v6 octets) = write_uint 1 1 ⊕ write octets

unfoldable pub ip_addr_of_tag : ℕ → Reader IpAddr
ip_addr_of_tag n =
    if n == 0
    then (do octets ← read_exact 4; pure (ip_v4 octets))
    else if n == 1
    then (do octets ← read_exact 16; pure (ip_v6 octets))
    else fail (custom "invalid IpAddr discriminant")

unfoldable pub read_ip_addr : Reader IpAddr
unfolding ip_addr_of_tag
read_ip_addr = do n ← read_uint 1; ip_addr_of_tag n

-- The flow info and the scope of an address are not written.
unfoldable pub write_socket_addr : SocketAddr → Output
write_socket_addr (socket_v4 octets port) = write_uint 1 0 ⊕ write octets ⊕ write_uint 2 port
write_socket_addr (socket_v6 octets port flowinfo scope_id) =
    write_uint 1 1 ⊕ write octets ⊕ write_uint 2 port

unfoldable pub socket_addr_of_tag : ℕ → Reader SocketAddr
socket_addr_of_tag n =
    if n == 0
    then (do octets ← read_exact 4; port ← read_uint 2; pure (socket_v4 octets port))
    else if n == 1
    then (do octets ← read_exact 16; port ← read_uint 2; pure (socket_v6 octets port 0 0))
    else fail (custom "invalid SocketAddr discriminant")

unfoldable pub read_socket_addr : Reader SocketAddr
unfolding socket_addr_of_tag
read_socket_addr = do n ← read_uint 1; socket_addr_of_tag n

abbrev pub ip_addr_format : DataFormat Unit IpAddr
ip_addr_format = record {
  latest_header = tt;
  write_header = default_write_header unit_format tt;
  read_header = default_read_header unit_format;
  write_data = write_ip_addr;
  read_data = λ _. read_ip_addr;
}

abbrev pub socket_addr_format : DataFormat Unit SocketAddr
socket_addr_format = record {
  latest_header = tt;
  write_header = default_write_header unit_format tt;
  read_header = default_read_header unit_format;
  write_data = write_socket_addr;
  read_data = λ _. read_socket_addr;
}

abbrev pub IsIpAddr : IpAddr → Type 0
IsIpAddr (ip_v4 octets) = length octets ≡ 4
IsIpAddr (ip_v6 octets) = length octets ≡ 16

-- An address without flow info and scope, since these are not written.
abbrev pub IsSocketAddr : SocketAddr → Type 0
IsSocketAddr (socket_v4 octets port) = (length octets ≡ 4) × IsUint 2 port
IsSocketAddr (socket_v6 octets port flowinfo scope_id) =
    (length octets ≡ 16) × IsUint 2 port × (flowinfo ≡ 0) × (scope_id ≡ 0)

read_ip_addr-write_ip_addr :
    (a : IpAddr) (rest : List ℕ)
    → IsIpAddr a
    → read_ip_addr ((write_ip_addr a).bytes ++ rest) ≡ ok (a, rest)
unfolding read_ip_addr write_ip_addr
read_ip_addr-write_ip_addr (ip_v4 octets) rest h = simp append_assoc (
    and_then_ok _ (read_uint-write_uint 1 0 _ (omega arith))
      (and_then_ok _ (read_exact-append_of_length 4 octets rest h) refl))
read_ip_addr-write_ip_addr (ip_v6 octets) rest h = simp append_assoc (
    and_then_ok _ (read_uint-write_uint 1 1 _ (omega arith))
      (and_then_ok _ (read_exact-append_of_length 16 octets rest h) refl))

read_socket_addr-write_socket_addr :
    (a : SocketAddr) (rest : List ℕ)
    → IsSocketAddr a
    → read_socket_addr ((write_socket_addr a).bytes ++ rest) ≡ ok (a, rest)
unfolding read_socket_addr write_socket_addr
read_socket_addr-write_socket_addr (socket_v4 octets port) rest (h, k) = simp append_assoc (
    and_then_ok _ (read_uint-write_uint 1 0 _ (omega arith)) (
      and_then_ok _ (read_exact-append_of_length 4 octets _ h)
        (and_then_ok _ (read_uint-write_uint 2 port rest k) refl)))
read_socket_addr-write_socket_addr (socket_v6 octets port flowinfo scope_id) rest (h, k, f, s) =
    simp append_assoc (
      and_then_ok _ (read_uint-write_uint 1 1 _ (omega arith)) (
        and_then_ok _ (read_exact-append_of_length 16 octets _ h)
          (and_then_ok _ (read_uint-write_uint 2 port rest k) (rw (f, s)))))

pub ip_addr_format-IsLawful : IsLawful ip_addr_format IsIpAddr
ip_addr_format-IsLawful = record {
  data_round_trip = read_ip_addr-write_ip_addr;
  header_round_trip = λ a rest.
      default_read_header-default_write_header unit_format tt a rest unit_format-IsLawful tt;
}

-- An address of a socket with as many octets as its version has, a u16 as its port, no flow info and
-- no scope is read back from its bytes, with and without its header.
pub socket_addr_format-IsLawful : IsLawful socket_addr_format IsSocketAddr
socket_addr_format-IsLawful = record {
  data_round_trip = read_socket_addr-write_socket_addr;
  header_round_trip = λ a rest.
      default_read_header-default_write_header unit_format tt a rest unit_format-IsLawful tt;
}
