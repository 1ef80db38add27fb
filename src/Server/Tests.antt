-- ===== src/Server/Tests.antt =====
-- The theorems on the server at concrete inputs.
use vs_vpn.Prelude.{◌≡◌, refl, [], ◌∷◌, ◌++◌, Bytes, true, false, some, replicate, arith}
use vs_vpn.Outcome.{Outcome, Message, ok, err, io, unexpected_eof}
use vs_vpn.Io.Pipe.{End, holding, pipe, pipe_wire}
use vs_vpn.Protocol.{ipv4, ipv4_text, tunnel_header}
use vs_vpn.Protocol.Delivery.{Printed, of_ipv4}
use vs_vpn.Crypto.Toy.{toy, toy_laws}
use vs_vpn.Crypto.Frames.{sealed_frame}
use vs_vpn.Tunnel.{Tunnel, Schedule, outward, inward}
use vs_vpn.Tunnel.Encrypted
use vs_vpn.Tunnel.Encrypted.{EncryptedTunnel, encrypted, send_key, send_nonce, accept}
use vs_vpn.Tunnel.Encrypted.Pairing.{Paired}
use vs_vpn.Server.{answer, run_with}
use vs_vpn.Std.Words.{to_le_bytes, to_be_bytes}
use vs_vpn.Outcome.{text, client_closed, server_rejected}
use vs_vpn.Crypto.{write_encrypted_frame, seal, full_nonce}
use vs_vpn.Client.{run_tunnel_client}
use vs_vpn.Prelude.{ap, ◌∙◌, append_left, drop, get_or}
use vs_vpn.Outcome.{Error}
use vs_vpn.Std.Words.{from_be_bytes}
use vs_vpn.Crypto.Toy.{keyed}
use vs_vpn.Crypto.{unseal}
use vs_vpn.Tunnel.Encrypted.{recv_key}
use vs_vpn.Server.{run_tunnel_server}
use vs_vpn.Server.Stranger.{IsStranger, run_tunnel_server-stranger}
use vs_vpn.Server.Status.{run_tunnel_client-refused}
use vs_vpn.Server.Accepting.{accepted, run_with-early_close}

-- The client asks for 10.0.0.1:443.
abbrev header : Bytes
header = tunnel_header (ipv4_text 10 0 0 1) 443

header-Printed : Printed ipv4 (ipv4_text 10 0 0 1)
header-Printed = of_ipv4 10 0 0 1 (omega arith) (omega arith) (omega arith) (omega arith)

abbrev dial : Bytes → Outcome End
dial _ = ok (holding (4 ∷ []))

abbrev client : EncryptedTunnel End
client = record {
  stream = some (holding []);
  client_key = replicate 32 1;
  server_key = replicate 32 2;
  c_nonce = 0;
  s_nonce = 0;
  is_client = true;
}

abbrev in_flight : Bytes
in_flight = sealed_frame toy (send_key client) (send_nonce client) header ++ []

abbrev server : EncryptedTunnel End
server = record client { stream = some (holding in_flight); is_client = false }

abbrev schedule : Schedule
schedule = outward ∷ inward ∷ []

-- A tunnel whose next frame is the header.
abbrev heard : Tunnel End
heard = record {
  State = Bytes;
  send_frame = λ bytes s. (ok tt, s ++ bytes);
  recv_frame = λ s. (ok (some header), s);
  relay_bidirectional = λ p. (ok (some tt), p);
}

run_with-early_close_example :
    (m : Message) × (run_with (
        accepted (server ∷ [])
        ++ accept toy pipe (replicate 32 9) (replicate 32 2) (ok (holding (1 ∷ [])))
          ∷ ok server
          ∷ [])
      ≡ record { spawned = server ∷ []; returned = some (err (io unexpected_eof m)) })
run_with-early_close_example =
    run_with-early_close toy pipe pipe_wire (replicate 32 9) (replicate 32 2) (server ∷ [])
      (holding (1 ∷ [])) (ok server ∷ []) refl (omega arith)

-- A session whose header has one byte: the client before and after it, and the server behind it.
abbrev served : EncryptedTunnel End
served = record client { stream = some (holding []); c_nonce = 1; is_client = false }

abbrev status_frame : Bytes → Bytes
status_frame status = sealed_frame toy (send_key served) (send_nonce served) status ++ []

abbrev asking : Bytes → EncryptedTunnel End
asking status = record client { stream = some (holding (status_frame status)) }

abbrev asked : Bytes → End
asked status = record { arrived = status_frame status; sent = 0 ∷ 17 ∷ 9 ∷ replicate 16 0 }

abbrev after_asking : Bytes → EncryptedTunnel End
after_asking status = record client { stream = some (asked status); c_nonce = 1 }

asks :
    (status : Bytes)
    → Encrypted.send_frame toy pipe (9 ∷ []) (asking status) ≡ (ok tt, after_asking status)
unfolding Encrypted.send_frame write_encrypted_frame seal full_nonce to_le_bytes to_be_bytes
asks status = refl

served-Paired : (status : Bytes) → Paired served (after_asking status)
served-Paired status = record {
  sides = refl;
  client_keys = refl;
  server_keys = refl;
  c_counters = refl;
  s_counters = refl;
  client_whole = refl;
  server_whole = refl;
}

run_tunnel_client-refused_example :
    (a₂ : EncryptedTunnel End) × (b' : EncryptedTunnel End) × (conn' : End) × (t' : End) × (answer
        (encrypted toy pipe schedule)
        (err (text client_closed))
        served
      ≡ (err (text client_closed), b'))
    × (b'.stream ≡ some t')
    × (t'.sent ≡ [] ++ sealed_frame toy (send_key served) (send_nonce served) (5 ∷ []))
    × (run_tunnel_client pipe
          (encrypted toy pipe schedule)
          (9 ∷ [])
          (record { conn = holding []; tunnel = asking (5 ∷ []) })
        ≡ (err (text (server_rejected 5)), record { conn = conn'; tunnel = a₂ }))
    × (conn'.sent ≡ [] ++ (0x05 ∷ 0x05 ∷ 0x00 ∷ 0x01 ∷ 0 ∷ 0 ∷ 0 ∷ 0 ∷ 0 ∷ 0 ∷ []))
    × Paired b' a₂
run_tunnel_client-refused_example =
    run_tunnel_client-refused toy toy_laws pipe pipe_wire (text client_closed) schedule (9 ∷ []) []
      (asking (5 ∷ [])) (after_asking (5 ∷ [])) served (asked (5 ∷ [])) (holding []) (holding [])
      (asks (5 ∷ [])) (served-Paired (5 ∷ [])) refl refl refl refl refl

-- A frame under another key
abbrev strange_text : Bytes
strange_text = 9 ∷ (replicate 12 0 ++ replicate 4 8)

abbrev approached : EncryptedTunnel End
approached = record client { stream = some (holding (0 ∷ 17 ∷ strange_text)); is_client = false }

not_opened : (pt : Bytes) → unseal keyed (recv_key approached) 0 strange_text ≡ ok pt → ⊥
unfolding unseal full_nonce to_le_bytes
not_opened pt h = cc

is_stranger : IsStranger keyed pipe pipe_wire (recv_key approached) 0 (0 ∷ 17 ∷ strange_text)
unfolding from_be_bytes
is_stranger hi lo ct more pt arrived size good =
    let counted : 17 ≡ from_be_bytes hi lo =
      ap (λ xs. from_be_bytes (get_or xs 0 0) (get_or xs 1 0)) arrived in
    let same : strange_text ≡ ct =
      append_left strange_text [] ct more (counted ∙ size) (ap (drop 2) arrived) in
    not_opened pt (ap (unseal keyed (recv_key approached) 0) same ∙ good)

run_tunnel_server-stranger_example :
    (e : Error) × (t' : EncryptedTunnel End) × ((d : Bytes → Outcome End)
      → run_tunnel_server (encrypted keyed pipe schedule) d approached ≡ (err e, t'))
run_tunnel_server-stranger_example =
    run_tunnel_server-stranger keyed pipe pipe_wire schedule approached
      (holding (0 ∷ 17 ∷ strange_text)) refl refl is_stranger
