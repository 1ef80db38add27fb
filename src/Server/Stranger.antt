-- ===== src/Server/Stranger.antt =====
-- `run_tunnel_server` on an encrypted tunnel whose peer does not have the key.
use vs_vpn.Prelude.{ℕ, ◌≡◌, refl, ◌∷◌, ◌++◌, Bytes, true, some, length}
use vs_vpn.Outcome.{Outcome, ok, err, Error, text, client_closed}
use vs_vpn.Io.{Io, Wire}
use vs_vpn.Std.Words.{from_be_bytes}
use vs_vpn.Crypto.Primitives.{Suite}
use vs_vpn.Crypto.{unseal}
use vs_vpn.Crypto.Reading.{at_end, refused, opened, read_encrypted_frame-cases}
use vs_vpn.Tunnel.{Schedule}
use vs_vpn.Tunnel.Encrypted
use vs_vpn.Tunnel.Encrypted.{EncryptedTunnel, encrypted, recv_key, recv_nonce, put_recv}
use vs_vpn.Server.{run_tunnel_server}

module _ (crypto : Suite) (tokio : Io) (wire : Wire tokio) where
  open tokio use {Stream}

  -- The bytes do not begin with a whole frame that opens under the key and the counter.
  abbrev pub IsStranger : (key : Bytes) (n : ℕ) (arrived : Bytes) → Type 0
  IsStranger key n arrived =
      (hi lo : ℕ) (ciphertext more plaintext : Bytes)
      → arrived ≡ hi ∷ lo ∷ (ciphertext ++ more)
      → from_be_bytes hi lo ≡ length ciphertext
      → unseal crypto key n ciphertext ≡ ok plaintext
      → ⊥

  -- A peer without the key reaches nothing through the server. Where the bytes that have arrived at an
  -- encrypted tunnel, closed behind them, do not begin with a whole frame that opens under the key and the
  -- counter that the server reads with, the session ends with an error, and it is the same whatever
  -- `TcpStream::connect` would answer for whichever target: no target is dialled.
  pub run_tunnel_server-stranger :
      (schedule : Schedule) (t : EncryptedTunnel Stream) (s : Stream)
      → t.stream ≡ some s
      → wire.closed s ≡ true
      → IsStranger (recv_key t) (recv_nonce t) (wire.arrived s)
      → (e : Error) × (t' : EncryptedTunnel Stream) × ((dial : Bytes → Outcome Stream)
          → run_tunnel_server (encrypted crypto tokio schedule) dial t ≡ (err e, t'))
  unfolding run_tunnel_server Encrypted.recv_frame
  run_tunnel_server-stranger schedule t s has closed stranger =
      elim (read_encrypted_frame-cases crypto tokio wire (recv_key t)
        (record { stream = s; nonce = recv_nonce t }) closed) [
          | at_end s' _ end ↦ (
            text client_closed,
            put_recv (record { stream = s'; nonce = recv_nonce t }) t,
            λ dial. rw (has, end) refl,
          )
          | refused c' e bad _ _ ↦ (e, put_recv c' t, λ dial. rw (has, bad) refl)
          | opened hi lo ct pt more s' arrived size good _ _ _ ↦
              absurd (stranger hi lo ct more pt arrived size good)
        ]
