-- ===== src/Client/Tests.antt =====
-- The theorems on the SOCKS5 side at concrete inputs.
use vs_vpn.Prelude.{◌≡◌, refl, [], ◌∷◌, ◌++◌, Bytes, true, false, some, arith, replicate}
use vs_vpn.Outcome.{Outcome, ok, err, text, unsupported_command, server_closed}
use vs_vpn.Io.Pipe.{End, pipe, pipe_wire}
use vs_vpn.Std.Words.{from_be_bytes}
use vs_vpn.Protocol.{address_code, tunnel_header}
use vs_vpn.Tunnel.{Tunnel}
use vs_vpn.Client.{Session, contains, handle_socks_client, through}
use vs_vpn.Client.Request.{Target, domain_target, kind, request_address, target_addr, Left}
use vs_vpn.Client.Unanswered.{unreachable, handle_socks_client-unanswered}
use vs_vpn.Tunnel.{inward, race}
use vs_vpn.Tunnel.Encrypted
use vs_vpn.Tunnel.Encrypted.{EncryptedTunnel, encrypted}
use vs_vpn.Std.Words.{to_le_bytes, to_be_bytes}
use vs_vpn.Io.Pipe.{pull}
use vs_vpn.Crypto.Toy.{keyed}
use vs_vpn.Crypto.{
  write_encrypted_frame, seal, unseal, full_nonce, read_encrypted_frame, read_frame_body,
  receive_round,
}
use vs_vpn.Protocol.{succeeded}
use vs_vpn.Client.{run_tunnel_client, on_status, send_socks_reply, reply_bytes}
use vs_vpn.Client.Completed.{NoError, over_key, run_tunnel_client-NoError}
use vs_vpn.Client.Handling.{handle_socks_client-connect, handle_socks_client-other_command}

-- A tunnel to a server that accepts every target and has nothing to relay.
abbrev willing : Tunnel End
willing = record {
  State = Bytes;
  send_frame = λ bytes s. (ok tt, s ++ bytes);
  recv_frame = λ s. (ok (some (0 ∷ [])), s);
  relay_bidirectional = λ p. (ok (some tt), p);
}

abbrev idle : Outcome Bytes
idle = ok []

abbrev foo : Target
foo = domain_target (b'f' ∷ b'o' ∷ b'o' ∷ [])

abbrev asking : Bytes → End
asking bytes = record { arrived = bytes; sent = [] }

abbrev connect_request : Bytes
connect_request =
    5
    ∷ 2
    ∷ ((2 ∷ 0 ∷ [])
        ++ (5 ∷ 1 ∷ 0 ∷ address_code (kind foo) ∷ (request_address foo ++ (1 ∷ 187 ∷ 99 ∷ []))))

offered : contains 0x00 (2 ∷ 0 ∷ []) ≡ true
unfolding contains
offered = refl

refused : contains 0x00 (2 ∷ []) ≡ false
unfolding contains
refused = refl

handle_socks_client-connect_example :
    (s' : End) × (handle_socks_client pipe willing idle (asking connect_request)
      ≡ through pipe willing (tunnel_header (target_addr foo) (from_be_bytes 1 187)) idle s')
    × Left pipe pipe_wire (asking connect_request) (99 ∷ []) (0x05 ∷ 0x00 ∷ []) s'
handle_socks_client-connect_example =
    handle_socks_client-connect pipe pipe_wire willing idle (asking connect_request) foo 5 5 0 1 187
      (2 ∷ 0 ∷ []) (99 ∷ []) offered tt refl refl

handle_socks_client-unanswered_example :
    (s' : End) × (handle_socks_client pipe willing
        (err (text server_closed))
        (asking connect_request)
      ≡ (err (text server_closed), s'))
    × Left pipe pipe_wire (asking connect_request) (99 ∷ []) (0x05 ∷ 0x00 ∷ []) s'
handle_socks_client-unanswered_example =
    handle_socks_client-unanswered pipe pipe_wire willing (err (text server_closed))
      (text server_closed) (asking connect_request) foo 5 5 0 1 187 (2 ∷ 0 ∷ []) (99 ∷ [])
      (unreachable (text server_closed)) offered tt refl refl

abbrev bind_request : Bytes
bind_request = 5 ∷ 2 ∷ ((2 ∷ 0 ∷ []) ++ (5 ∷ 2 ∷ 0 ∷ 1 ∷ []))

handle_socks_client-other_command_example :
    (s' : End) × (handle_socks_client pipe willing idle (asking bind_request)
      ≡ (err (text unsupported_command), s'))
    × Left pipe pipe_wire
        (asking bind_request)
        []
        (0x05 ∷ 0x00 ∷ 0x05 ∷ 0x07 ∷ 0x00 ∷ 0x01 ∷ 0 ∷ 0 ∷ 0 ∷ 0 ∷ 0 ∷ 0 ∷ [])
        s'
handle_socks_client-other_command_example =
    handle_socks_client-other_command pipe pipe_wire willing idle (asking bind_request) 5 5 2 0 1
      (2 ∷ 0 ∷ []) [] offered (omega arith) refl refl

abbrev session : Session End Bytes
session = record { conn = asking []; tunnel = [] }

-- An encrypted tunnel at whose end a status frame has arrived and then a frame that does not decrypt.
abbrev no_frame : Bytes
no_frame = 0 ∷ 16 ∷ replicate 16 7

abbrev status_frame : Bytes
status_frame = 0 ∷ 17 ∷ 0 ∷ (replicate 12 0 ++ replicate 4 2)

abbrev tampered : EncryptedTunnel End
tampered = record {
  stream = some (asking (status_frame ++ no_frame));
  client_key = replicate 32 1;
  server_key = replicate 32 2;
  c_nonce = 0;
  s_nonce = 0;
  is_client = true;
}

abbrev header_frame : Bytes
header_frame = 0 ∷ 17 ∷ 9 ∷ (replicate 12 0 ++ replicate 4 1)

abbrev has_sent : EncryptedTunnel End
has_sent = record tampered {
  stream = some (record { arrived = status_frame ++ no_frame; sent = header_frame });
  c_nonce = 1;
}

abbrev has_status : EncryptedTunnel End
has_status = record tampered {
  stream = some (record { arrived = no_frame; sent = header_frame });
  c_nonce = 1;
  s_nonce = 1;
}

sends : Encrypted.send_frame keyed pipe (9 ∷ []) tampered ≡ (ok tt, has_sent)
unfolding Encrypted.send_frame write_encrypted_frame seal full_nonce to_le_bytes to_be_bytes
sends = refl

receives : Encrypted.recv_frame keyed pipe has_sent ≡ (ok (some (0 ∷ [])), has_status)
unfolding Encrypted.recv_frame read_encrypted_frame read_frame_body unseal full_nonce to_le_bytes
    from_be_bytes pull
receives = refl

-- The relay has met the frame, and the session has ended well.
ends_well :
    (run_tunnel_client pipe
      (encrypted keyed pipe (inward ∷ []))
      (9 ∷ [])
      (record { conn = asking []; tunnel = tampered })).0
    ≡ ok (some tt)
unfolding run_tunnel_client on_status send_socks_reply sends receives Encrypted.relay_bidirectional
    race receive_round
ends_well = refl

run_tunnel_client-NoError_example :
    NoError
      (run_tunnel_client pipe
        (encrypted keyed pipe (inward ∷ []))
        (9 ∷ [])
        (record { conn = asking []; tunnel = tampered })).0
run_tunnel_client-NoError_example =
    run_tunnel_client-NoError pipe (encrypted keyed pipe (inward ∷ [])) (9 ∷ []) [] (asking [])
      (record { arrived = []; sent = reply_bytes succeeded }) tampered has_sent has_status
      (over_key keyed (inward ∷ [])) sends receives refl
