-- ===== src/Client/Inline.antt =====
-- The tests inside lib/src/client.rs as programs, over pipes in memory: each side finds what the other one
-- writes in the exchange. Listening and connecting are left out.
use vs_vpn.Prelude.{
  ℕ, ◌≡◌, refl, [], ◌∷◌, ◌++◌, Bytes, true, false, length, get_or, replicate, ◌==◌,
}
use vs_vpn.Outcome.{Outcome, ok, ◌>>=◌, ◌>>◌}
use vs_vpn.Std.Asserts.{codes, equal_bytes, assert, is_err, unwrap, unwrap_some, completed}
use vs_vpn.Std.Words.{to_be_bytes, as_u16, from_be_bytes, to_le_bytes}
use vs_vpn.Std.Slices.{index, slice}
use vs_vpn.Std.Utf8.{from_utf8_lossy}
use vs_vpn.Std.Format.{show}
use vs_vpn.Std.Address.{
  parse_ipv4, read_ipv4, read_octet, parse_ipv6, read_ipv6, read_groups, read_group,
}
use vs_vpn.Io.Pipe.{End, holding, pipe, pull}
use vs_vpn.Crypto.Primitives.{Suite}
use vs_vpn.Crypto.Toy.{keyed}
use vs_vpn.Crypto.{
  Channel, derive_session_keys, secure_handshake, seal, unseal, full_nonce, write_encrypted_frame,
  read_frame_body, read_encrypted_frame,
}
use vs_vpn.Protocol.{
  AddressType, ipv4, socks_version, socks_command, encode_address, address_code, address_type,
  parse_header, header_address, ipv4_text, tunnel_header, reply_code,
}
use vs_vpn.Protocol.Read.{read_address}
use vs_vpn.Protocol.Inline.{written_header, same_type}
use vs_vpn.Tunnel.{outward, race}
use vs_vpn.Tunnel.Plain
use vs_vpn.Tunnel.Plain.{plain, frame_behind}
use vs_vpn.Client.{
  contains, greet, read_request, read_target, send_socks_reply, reply_bytes, on_status,
  run_tunnel_client, handle_socks_client,
}

-- A frame as the tests write it on a plain connection
abbrev pub plain_frame : Bytes → Bytes
plain_frame bytes = to_be_bytes (as_u16 (length bytes)) ++ bytes

abbrev pub channel : Bytes → Channel End
channel bytes = record { stream = holding bytes; nonce = 0 }

-- The length of a frame, and the frame
abbrev pub read_frame : End → Outcome (Bytes × End)
read_frame tunnel = do
  (len_buf, tunnel) ← completed (pull 2 tunnel)
  completed (pull (from_be_bytes (get_or len_buf 0 0) (get_or len_buf 1 0)) tunnel)

-- The task of the mock server: it reads the header, and answers a status.
unfoldable mock_server : (status : ℕ) → End → Outcome ((AddressType × Bytes × ℕ) × End)
mock_server status tunnel = do
  (frame, tunnel) ← read_frame tunnel
  parsed ← unwrap (parse_header frame)
  ok (parsed, record tunnel { sent = tunnel.sent ++ (to_be_bytes 1 ++ status ∷ []) })

-- What the server has read is what the client has asked for.
abbrev same_target :
    (parsed : AddressType × Bytes × ℕ) → AddressType → Bytes → ℕ → Outcome (Unit {0})
same_target (s_atyp, s_addr, s_port) atyp addr port = do
  assert (same_type s_atyp atyp)
  assert (equal_bytes s_addr addr)
  assert (s_port == port)

unfoldable test_tunnel_header_plain : Outcome (Unit {0})
unfolding mock_server
test_tunnel_header_plain = do
  let (atyp, addr_bytes) = encode_address (codes "example.com")
  let header = written_header (atyp, addr_bytes) 443
  (parsed, server) ← mock_server 0x00 (holding (plain_frame header))
  (status_buf, _) ← read_frame (holding server.sent)
  assert (get_or status_buf 0 1 == 0x00)
  same_target parsed atyp (codes "example.com") 443

unfoldable test_tunnel_header_ipv4_plain : Outcome (Unit {0})
unfolding mock_server
test_tunnel_header_ipv4_plain = do
  let header = written_header (encode_address (codes "10.0.0.1")) 8080
  (parsed, server) ← mock_server 0x05 (holding (plain_frame header))
  (status_buf, _) ← read_frame (holding server.sent)
  assert (get_or status_buf 0 0 == 0x05)
  same_target parsed ipv4 (codes "10.0.0.1") 8080

unfoldable test_tunnel_header_encrypted :
    Suite → (psk client_random server_random : Bytes) → Outcome (Unit {0})
test_tunnel_header_encrypted crypto psk client_random server_random = do
  ((ck, sk), _) ←
      completed (secure_handshake crypto pipe psk client_random true (holding server_random))
  ((server_ck, server_sk), _) ←
      completed (secure_handshake crypto pipe psk server_random false (holding client_random))
  let (atyp, addr_bytes) = encode_address (codes "10.0.0.1")
  let header = written_header (atyp, addr_bytes) 8080
  (_, client) ← completed (write_encrypted_frame crypto pipe header ck (channel []))
  (plain, _) ← completed (read_encrypted_frame crypto pipe server_ck (channel client.stream.sent))
  plain ← unwrap_some plain
  parsed ← unwrap (parse_header plain)
  (_, server) ← completed (write_encrypted_frame crypto pipe (0x00 ∷ []) server_sk (channel []))
  (status, _) ← completed (read_encrypted_frame crypto pipe sk (channel server.stream.sent))
  status ← unwrap_some status
  assert (get_or status 0 1 == 0x00)
  same_target parsed atyp (codes "10.0.0.1") 8080

-- The greeting of the SOCKS5 client, and its request with a command for 127.0.0.1:80
abbrev asks : (command : ℕ) → Bytes
asks command =
    socks_version ∷ 0x01 ∷ 0x00 ∷ socks_version ∷ command ∷ 0x00 ∷ 0x01 ∷ 127 ∷ 0 ∷ 0 ∷ 1 ∷ 0 ∷ 80
    ∷ []

-- The mock server has answered that it accepts, and the relay ends with the client's connection.
unfoldable test_socks5_handshake_and_connect_plain : Outcome (Unit {0})
test_socks5_handshake_and_connect_plain = do
  let tunnel = Plain.new pipe (holding (to_be_bytes 1 ++ 0x00 ∷ []))
  (_, socks_conn) ←
      completed
        (handle_socks_client pipe (plain pipe (outward ∷ [])) (ok tunnel) (holding (asks 0x01)))
  let replies = socks_conn.sent
  assert (get_or replies 0 0 == socks_version)
  assert (get_or replies 1 1 == 0x00)
  assert (get_or replies 2 0 == socks_version)
  assert (get_or replies 3 1 == 0x00)

-- No tunnel is asked for: the connection is refused before.
unfoldable test_socks5_unsupported_command :
    (connected : Outcome (Plain.PlainTunnel End)) → Outcome (Unit {0})
test_socks5_unsupported_command connected = do
  let (result, socks_conn) =
      handle_socks_client pipe (plain pipe []) connected (holding (asks 0x02))
  assert (is_err result)
  assert (get_or socks_conn.sent 2 0 == socks_version)
  assert (get_or socks_conn.sent 3 0 == 0x07)

-- All that a run of these programs calls.
calls : ℕ
unfolding encode_address parse_ipv4 read_ipv4 read_octet parse_ipv6 read_ipv6 read_groups read_group
    to_be_bytes from_be_bytes address_code address_type parse_header header_address index slice
    from_utf8_lossy ipv4_text show tunnel_header derive_session_keys write_encrypted_frame seal
    full_nonce to_le_bytes read_encrypted_frame read_frame_body unseal pull secure_handshake
calls = 0

headers_arrive :
    (test_tunnel_header_plain ≡ ok tt)
    × (test_tunnel_header_ipv4_plain ≡ ok tt)
    × (test_tunnel_header_encrypted keyed (replicate 32 9) (replicate 32 1) (replicate 32 2)
        ≡ ok tt)
unfolding test_tunnel_header_plain test_tunnel_header_ipv4_plain test_tunnel_header_encrypted calls
headers_arrive = (refl, refl, refl)

socks_is_answered :
    (test_socks5_handshake_and_connect_plain ≡ ok tt)
    × (test_socks5_unsupported_command (ok (Plain.new pipe (holding []))) ≡ ok tt)
unfolding test_socks5_handshake_and_connect_plain test_socks5_unsupported_command calls
    handle_socks_client greet contains read_request read_target read_address socks_command
    send_socks_reply reply_bytes reply_code run_tunnel_client on_status Plain.new Plain.send_frame
    Plain.recv_frame frame_behind Plain.relay_bidirectional race
socks_is_answered = (refl, refl)
