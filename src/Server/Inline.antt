-- ===== src/Server/Inline.antt =====
-- The tests inside lib/src/server.rs on a target that cannot be reached, as programs over pipes in memory.
-- Those with an echo server behind the tunnel are left out: their stream is gone when the relay has ended.
use vs_vpn.Prelude.{ℕ, ◌≡◌, refl, [], ◌++◌, Bytes, true, false, get_or, replicate, ◌==◌}
use vs_vpn.Outcome.{Outcome, ok, err, io, system, library, ◌>>=◌, ◌>>◌}
use vs_vpn.Std.Asserts.{codes, assert, is_err, unwrap, unwrap_some, completed}
use vs_vpn.Std.Words.{to_be_bytes, from_be_bytes, to_le_bytes}
use vs_vpn.Std.Slices.{index, slice}
use vs_vpn.Std.Format.{show}
use vs_vpn.Std.Address.{parse_ipv4, read_ipv4, read_octet}
use vs_vpn.Io.Pipe.{End, holding, pipe, pull}
use vs_vpn.Crypto.Primitives.{Suite}
use vs_vpn.Crypto.Toy.{keyed}
use vs_vpn.Crypto.{
  derive_session_keys, secure_handshake, seal, unseal, full_nonce, write_encrypted_frame,
  read_frame_body, read_encrypted_frame,
}
use vs_vpn.Protocol.{
  encode_address, address_code, address_type, parse_header, header_address, ipv4_text,
}
use vs_vpn.Protocol.Inline.{written_header}
use vs_vpn.Tunnel.Plain
use vs_vpn.Tunnel.Plain.{plain, frame_behind}
use vs_vpn.Tunnel.Encrypted
use vs_vpn.Tunnel.Encrypted.{encrypted}
use vs_vpn.Client.Inline.{plain_frame, channel, read_frame}
use vs_vpn.Server.{run_tunnel_server, answer}

-- No connection to the target comes about.
abbrev unreachable : Bytes → Outcome End
unreachable target = err (io (system 111) (library 0))

-- The header for 127.0.0.1:1
abbrev header : Bytes
header = written_header (encode_address (codes "127.0.0.1")) 1

unfoldable test_server_target_unreachable_plain : Outcome (Unit {0})
test_server_target_unreachable_plain = do
  let (result, tunnel) =
      run_tunnel_server (plain pipe []) unreachable (Plain.new pipe (holding (plain_frame header)))
  assert (is_err result)
  client ← unwrap_some tunnel.stream
  (status_buf, _) ← read_frame (holding client.sent)
  assert (get_or status_buf 0 0 == 0x05)

unfoldable test_server_target_unreachable_encrypted :
    Suite → (psk client_random server_random : Bytes) → Outcome (Unit {0})
test_server_target_unreachable_encrypted crypto psk client_random server_random = do
  ((ck, sk), _) ←
      completed (secure_handshake crypto pipe psk client_random true (holding server_random))
  (_, client) ← completed (write_encrypted_frame crypto pipe header ck (channel []))
  tunnel ← unwrap (
      Encrypted.new crypto pipe psk server_random false
        (holding (client_random ++ client.stream.sent)))
  let (result, tunnel) = run_tunnel_server (encrypted crypto pipe []) unreachable tunnel
  assert (is_err result)
  server ← unwrap_some tunnel.stream
  (_, server) ← completed (pull 32 (holding server.sent))
  (status, _) ← completed (read_encrypted_frame crypto pipe sk (channel server.arrived))
  status ← unwrap_some status
  assert (get_or status 0 0 == 0x05)

-- All that a run of these programs calls.
calls : ℕ
unfolding encode_address parse_ipv4 read_ipv4 read_octet to_be_bytes from_be_bytes address_code
    address_type parse_header header_address index slice ipv4_text show derive_session_keys
    write_encrypted_frame seal full_nonce to_le_bytes read_encrypted_frame read_frame_body unseal
    pull secure_handshake run_tunnel_server answer
calls = 0

unreachable_is_refused :
    (test_server_target_unreachable_plain ≡ ok tt)
    × (test_server_target_unreachable_encrypted keyed
          (replicate 32 9)
          (replicate 32 1)
          (replicate 32 2)
        ≡ ok tt)
unfolding test_server_target_unreachable_plain test_server_target_unreachable_encrypted calls
    Plain.new Plain.send_frame Plain.recv_frame frame_behind Encrypted.new Encrypted.send_frame
    Encrypted.recv_frame
unreachable_is_refused = (refl, refl)
