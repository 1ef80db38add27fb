-- ===== src/Tunnel/Quic/Relay.antt =====
-- What the relay of a QUIC tunnel carries over, whichever direction makes its next round.
use vs_vpn.Prelude.{
  ◌≤◌, ◌≡◌, ◌≢◌, refl, ap, subst, sym, ◌∙◌, [], ◌∷◌, ◌++◌, append_assoc, append-nil, arith, Bytes,
  true, false, none, length,
}
use vs_vpn.Outcome.{ok}
use vs_vpn.Io.{Io, Wire}
use vs_vpn.Tunnel.{Direction, Schedule, outward, inward, race, turn}
use vs_vpn.Tunnel.Quic.{
  Quinn, Both, send_chunk, deliver_chunk, relay_external_to_quic, relay_quic_to_external,
}
use vs_vpn.Tunnel.Quic.Frames.{QuinnWire}

module _ (quinn : Quinn) (wire : QuinnWire quinn) (tokio : Io) (io : Wire tokio) where
  abbrev Streams : Type 0
  Streams = Both quinn tokio.Stream

  abbrev pub round : Direction → Streams → Streams
  round d b = (turn (relay_external_to_quic quinn tokio) (relay_quic_to_external quinn tokio) d b).1

  -- Bytes are there for a round. Without any its read waits.
  abbrev pub IsReady : Direction → Streams → Type 0
  IsReady outward b = io.arrived b.external ≢ []
  IsReady inward b = wire.arrived b.recv ≢ []

  -- Every round of the schedule finds its bytes.
  abbrev pub Runs : Schedule → Streams → Type 0
  Runs [] b = Unit
  Runs (d ∷ schedule) b = IsReady d b × Runs schedule (round d b)

  pub record IsOpen (b : Streams) : Type 0 where
    pub send_accepting : wire.accepting b.send ≡ true
    pub external_accepting : io.accepting b.external ≡ true

  -- What went over in both directions between `b` and `c`
  pub record Carried (b c : Streams) : Type 0 where
    pub out : Bytes
    pub back : Bytes
    pub taken : io.arrived b.external ≡ out ++ io.arrived c.external
    pub sent : wire.sent c.send ≡ wire.sent b.send ++ out
    pub received : wire.arrived b.recv ≡ back ++ wire.arrived c.recv
    pub written : io.sent c.external ≡ io.sent b.external ++ back
    pub still_open : IsOpen c

  send_chunk-sent :
      (b : Streams) (chunk : Bytes)
      → 1 ≤ length chunk
      → wire.accepting b.send ≡ true
      → (s : quinn.SendStream) × (send_chunk quinn tokio chunk b
          ≡ (ok false, record b { send = s }))
        × (wire.sent s ≡ wire.sent b.send ++ chunk)
        × (wire.accepting s ≡ true)
  unfolding send_chunk
  send_chunk-sent b [] h acc = absurd (omega arith)
  send_chunk-sent b (c ∷ cs) h acc =
      let (s, wrote, sent, takes) = wire.write_all_accepting b.send (c ∷ cs) acc in
      (s, rw wrote refl, sent, takes)

  outward-Carried :
      (b : Streams)
      → IsOpen b
      → IsReady outward b
      → (c : Streams) × (relay_external_to_quic quinn tokio b ≡ (ok false, c)) × Carried b c
  unfolding relay_external_to_quic
  outward-Carried b o h =
      let (e, chunk, got, split, some_bytes, _, _, sent, acc) =
        io.read_arrived b.external 16384 (omega arith) h in
      let (s, wrote, more, takes) =
        send_chunk-sent (record b { external = e }) chunk some_bytes o.send_accepting in
      (
        record b { external = e; send = s },
        rw (got, wrote) refl,
        record {
          out = chunk;
          back = [];
          taken = split;
          sent = more;
          received = refl;
          written = sent ∙ sym (append-nil (io.sent b.external));
          still_open = record {
            send_accepting = takes;
            external_accepting = acc ∙ o.external_accepting;
          };
        },
      )

  inward-Carried :
      (b : Streams)
      → IsOpen b
      → IsReady inward b
      → (c : Streams) × (relay_quic_to_external quinn tokio b ≡ (ok false, c)) × Carried b c
  unfolding relay_quic_to_external deliver_chunk
  inward-Carried b o h =
      let (r, x, xs, got, split, _) = wire.read_arrived b.recv 16384 (omega arith) h in
      let (e, wrote, sent, left, _, acc) =
        io.write_all_accepting b.external (x ∷ xs) o.external_accepting in
      (
        record b { external = e; recv = r },
        rw (got, wrote) refl,
        record {
          out = [];
          back = x ∷ xs;
          taken = sym left;
          sent = sym (append-nil (wire.sent b.send));
          received = split;
          written = sent;
          still_open = record { send_accepting = o.send_accepting; external_accepting = acc };
        },
      )

  Carried-trans : {b c d : Streams} → Carried b c → Carried c d → Carried b d
  Carried-trans {b} {c} {d} f g = record {
    out = f.out ++ g.out;
    back = f.back ++ g.back;
    taken =
        f.taken
        ∙ ap (λ xs. f.out ++ xs) g.taken
        ∙ sym (append_assoc f.out g.out (io.arrived d.external));
    sent = g.sent ∙ ap (λ xs. xs ++ g.out) f.sent ∙ append_assoc (wire.sent b.send) f.out g.out;
    received =
        f.received
        ∙ ap (λ xs. f.back ++ xs) g.received
        ∙ sym (append_assoc f.back g.back (wire.arrived d.recv));
    written =
        g.written
        ∙ ap (λ xs. xs ++ g.back) f.written
        ∙ append_assoc (io.sent b.external) f.back g.back;
    still_open = g.still_open;
  }

  -- However the rounds of the two loops take turns, as long as each finds bytes to read: the relay goes on,
  -- and it has sent into the tunnel exactly the bytes that it has taken from the external stream, and has
  -- written to that stream exactly those that it has taken from the tunnel, each in their order.
  pub race-Carried :
      (schedule : Schedule) (b : Streams)
      → IsOpen b
      → Runs schedule b
      → (c : Streams) × (race
            (relay_external_to_quic quinn tokio)
            (relay_quic_to_external quinn tokio)
            schedule
            b
          ≡ (ok none, c))
        × Carried b c
  unfolding race
  race-Carried [] b o h = (
    b,
    refl,
    record {
      out = [];
      back = [];
      taken = refl;
      sent = sym (append-nil _);
      received = refl;
      written = sym (append-nil _);
      still_open = o;
    },
  )
  race-Carried (outward ∷ schedule) b o (h, more) =
      let (c, went, f) = outward-Carried b o h in
      let (d, ran, g) =
        race-Carried schedule c f.still_open (subst (λ r. Runs schedule r.1) went more) in
      (d, rw went ran, Carried-trans f g)
  race-Carried (inward ∷ schedule) b o (h, more) =
      let (c, went, f) = inward-Carried b o h in
      let (d, ran, g) =
        race-Carried schedule c f.still_open (subst (λ r. Runs schedule r.1) went more) in
      (d, rw went ran, Carried-trans f g)
