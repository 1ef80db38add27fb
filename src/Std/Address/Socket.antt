-- ===== src/Std/Address/Socket.antt =====
-- `str::parse` of `SocketAddr`, as the parser of `core::net` reads it.
use vs_vpn.Prelude.{ℕ, [], ◌∷◌, Bytes, Option, none, some, length, true, ◌≡◌, refl, replicate, ◌++◌}
use vs_vpn.Std.Address.{
  ◌>>=◌, read_number, read_given_char, read_ipv4, read_ipv6, read_octet, read_groups, read_group,
  whole,
}
use vs_vpn.Std.Words.{to_be_bytes}

pub data SocketAddr : Type 0 where
  v4 : (octets : Bytes) (port : ℕ) → SocketAddr
  v6 : (octets : Bytes) (port scope_id : ℕ) → SocketAddr

-- A number in decimal, of any number of digits
abbrev decimal : (bound : ℕ) → Bytes → Option (ℕ × Bytes)
decimal bound s = read_number 10 bound (length s) true s

unfoldable pub read_port : Bytes → Option (ℕ × Bytes)
read_port s = do t ← read_given_char b':' s; decimal 65535 t

unfoldable pub read_socket_addr_v4 : Bytes → Option (SocketAddr × Bytes)
unfolding read_port
read_socket_addr_v4 s = do
  (octets, t) ← read_ipv4 s
  (port, u) ← read_port t
  some (v4 octets port, u)

-- A scope, or 0 and the text as it was
abbrev scope_or_none : Bytes → Option (ℕ × Bytes) → ℕ × Bytes
scope_or_none s none = (0, s)
scope_or_none s (some r) = r

abbrev read_scope_id : Bytes → ℕ × Bytes
read_scope_id s = scope_or_none s (do t ← read_given_char b'%' s; decimal 4294967295 t)

unfoldable pub read_socket_addr_v6 : Bytes → Option (SocketAddr × Bytes)
unfolding read_port
read_socket_addr_v6 s = do
  t ← read_given_char b'[' s
  (octets, u) ← read_ipv6 t
  let (scope_id, v) = read_scope_id u
  w ← read_given_char b']' v
  (port, x) ← read_port w
  some (v6 octets port scope_id, x)

abbrev or_v6 : Bytes → Option (SocketAddr × Bytes) → Option (SocketAddr × Bytes)
or_v6 s none = read_socket_addr_v6 s
or_v6 s (some r) = some r

-- `addr.parse::<SocketAddr>()`
unfoldable pub parse_socket_addr : Bytes → Option SocketAddr
unfolding read_socket_addr_v4 read_socket_addr_v6
parse_socket_addr s = do r ← or_v6 s (read_socket_addr_v4 s); whole r

unspecified :
    parse_socket_addr (b'0' ∷ b'.' ∷ b'0' ∷ b'.' ∷ b'0' ∷ b'.' ∷ b'0' ∷ b':' ∷ b'0' ∷ [])
    ≡ some (v4 (0 ∷ 0 ∷ 0 ∷ 0 ∷ []) 0)
unfolding parse_socket_addr read_ipv4 read_octet
unspecified = refl

loopback :
    parse_socket_addr (b'[' ∷ b':' ∷ b':' ∷ b'1' ∷ b'%' ∷ b'7' ∷ b']' ∷ b':' ∷ b'4' ∷ b'3' ∷ [])
    ≡ some (v6 (replicate 15 0 ++ 1 ∷ []) 43 7)
unfolding parse_socket_addr read_ipv4 read_octet read_ipv6 read_groups read_group to_be_bytes
loopback = refl
