-- ===== src/Tunnel/Quic/End.antt =====
-- The end of a QUIC stream.
use vs_vpn.Prelude.{ℕ, ◌≡◌, ◌≢◌, refl, [], ◌∷◌, Bytes, Option, none, some, get_or}
use vs_vpn.Outcome.{Outcome, ok, err, panic}
use vs_vpn.Act.{continue, pure, ◌>>=◌}
use vs_vpn.Std.Words.{from_be_bytes}
use vs_vpn.Tunnel.Quic.{Quinn, QuicTunnel, fill, read_exact_quic, recv_frame}

module _ (quinn : Quinn) where
  open quinn use {SendStream, RecvStream, read}

  not_none :
      (r : Outcome (Option (Unit {0}) × Bytes)) (s : RecvStream)
      → (continue (λ (_, frame). pure (some frame)) r s).0 ≢ ok none
  not_none (ok (_, frame)) s e = cc
  not_none (err x) s e = cc
  not_none panic s e = cc

  behind_length :
      (r : Outcome (Option (Unit {0}) × Bytes)) (s : RecvStream)
      → (continue
          (λ (_, len_buf).
            read_exact_quic quinn (from_be_bytes (get_or len_buf 0 0) (get_or len_buf 1 0))
            >>= λ (_, frame). pure (some frame))
          r
          s).0
        ≢ ok none
  behind_length (ok (_, len_buf)) s =
      let (r, s') =
        read_exact_quic quinn (from_be_bytes (get_or len_buf 0 0) (get_or len_buf 1 0)) s in
      not_none r s'
  behind_length (err x) s = λ e. cc
  behind_length panic s = λ e. cc

  by_stream :
      (send : Option SendStream) (recv : Option RecvStream)
      → (recv_frame quinn (record { send = send; recv = recv })).0 ≢ ok none
  unfolding recv_frame
  by_stream send none = λ e. cc
  by_stream send (some s) = let (r, s') = read_exact_quic quinn 2 s in behind_length r s'

  -- `recv_frame` never says that the stream has ended: whatever the state of the tunnel and whatever
  -- its stream answers, it does not return `Ok(None)`.
  pub recv_frame-ne-none : (t : QuicTunnel quinn) → (recv_frame quinn t).0 ≢ ok none
  recv_frame-ne-none t = by_stream t.send t.recv

  -- On a tunnel whose stream answers every read by `None`, `recv_frame` returns an empty frame.
  pub recv_frame-ended :
      (t : QuicTunnel quinn) (r : RecvStream)
      → t.recv ≡ some r
      → ((n : ℕ) → read n r ≡ (ok none, r))
      → recv_frame quinn t ≡ (ok (some []), t)
  unfolding recv_frame
  recv_frame-ended t r h ended = rw (h, recv_frame, first, second)
    where
      first : read_exact_quic quinn 2 r ≡ (ok (none, 0 ∷ 0 ∷ []), r)
      first = unfold read_exact_quic fill in rw (ended 2)

      second : read_exact_quic quinn (from_be_bytes 0 0) r ≡ (ok (some tt, []), r)
      second = unfold read_exact_quic fill from_be_bytes in refl
