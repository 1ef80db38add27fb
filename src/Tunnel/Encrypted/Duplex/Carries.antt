-- ===== src/Tunnel/Encrypted/Duplex/Carries.antt =====
-- What one direction has delivered, what is under way and what is still to be read.
use vs_vpn.Prelude.{
  ◌≡◌, ap, sym, subst, ◌∙◌, ◌++◌, append_assoc, Bytes, true, length, drop, drop-append,
}
use vs_vpn.Io.{Io, Wire}
use vs_vpn.Crypto.Primitives.{Suite, IsAead}
use vs_vpn.Crypto.{key_len}
use vs_vpn.Crypto.Frames.{framed, after}
use vs_vpn.Crypto.Rounds.{Frames}
use vs_vpn.Tunnel.Encrypted.{Both}
use vs_vpn.Tunnel.Encrypted.Duplex.{newly, Arrives}
use vs_vpn.Tunnel.Encrypted.Duplex.Lane.{Frames-snoc, First, Sent, Received}

-- One direction, from `a` to `b`: what is on its way are frames from the counter of the reader to that
-- of the writer, which hold what is between the delivered bytes and those still to be read.
pub record Carries (crypto : Suite) (tokio : Io) (wire : Wire tokio) (key base given flight : Bytes)
    (a b : Both tokio.Stream) : Type 0 where
  pub delivered : Bytes
  pub transit : Bytes
  pub whole_key : length key ≡ key_len
  pub in_step :
      Frames crypto key b.recv_counter (wire.arrived b.tunnel ++ flight) transit a.send_counter
  pub in_order : given ≡ delivered ++ (transit ++ wire.arrived a.external)
  pub written : wire.sent b.external ≡ base ++ delivered
  pub tunnel_accepting : wire.accepting a.tunnel ≡ true
  pub external_accepting : wire.accepting b.external ≡ true

module _ (crypto : Suite) (laws : IsAead crypto) (tokio : Io) (wire : Wire tokio) where
  open tokio use {Stream}

  abbrev Lane : (key base given flight : Bytes) (a b : Both Stream) → Type 0
  Lane = Carries crypto tokio wire

  pub Lane-send :
      {key base given flight : Bytes} {a b a' : Both Stream}
      → Lane key base given flight a b
      → Sent crypto tokio wire key a a'
      → Lane key base given (flight ++ newly crypto tokio wire a.tunnel a'.tunnel) a' b
  Lane-send {key} {base} {given} {flight} {a} {b} {a'} c s = record {
    delivered = c.delivered;
    transit = c.transit ++ s.chunk;
    whole_key = c.whole_key;
    in_step = frames;
    in_order = order;
    written = c.written;
    tunnel_accepting = s.tunnel_accepting;
    external_accepting = c.external_accepting;
  }
    where
      new : newly crypto tokio wire a.tunnel a'.tunnel ≡ framed s.ciphertext
      new =
          ap (drop (length (wire.sent a.tunnel))) s.wrote
          ∙ drop-append (wire.sent a.tunnel) (framed s.ciphertext)

      frames :
          Frames crypto key b.recv_counter
            (wire.arrived b.tunnel ++ (flight ++ newly crypto tokio wire a.tunnel a'.tunnel))
            (c.transit ++ s.chunk)
            a'.send_counter
      frames =
          rw (new, s.counted)
            (subst
              (λ xs.
                Frames crypto key b.recv_counter xs (c.transit ++ s.chunk) (after a.send_counter))
              (append_assoc (wire.arrived b.tunnel) flight (framed s.ciphertext))
              (Frames-snoc s.ciphertext s.chunk c.in_step s.tagged s.short s.opened))

      order : given ≡ c.delivered ++ ((c.transit ++ s.chunk) ++ wire.arrived a'.external)
      order =
          c.in_order
          ∙ ap (λ xs. c.delivered ++ (c.transit ++ xs)) s.split
          ∙ ap (λ xs. c.delivered ++ xs)
              (sym (append_assoc c.transit s.chunk (wire.arrived a'.external)))

  -- The round of the sender leaves what comes back to it alone.
  pub Lane-send_back :
      {key key' base given flight : Bytes} {a b a' : Both Stream}
      → Lane key' base given flight b a
      → Sent crypto tokio wire key a a'
      → Lane key' base given flight b a'
  Lane-send_back {flight = flight} {b = b} c s = record {
    delivered = c.delivered;
    transit = c.transit;
    whole_key = c.whole_key;
    in_step = rw (s.untouched, s.unread) c.in_step;
    in_order = c.in_order;
    written = s.unwritten ∙ c.written;
    tunnel_accepting = c.tunnel_accepting;
    external_accepting = s.external_accepting ∙ c.external_accepting;
  }

  pub Lane-receive :
      {key base given flight : Bytes} {a b b' : Both Stream}
      → (c : Lane key base given flight a b)
      → (f : First crypto key b.recv_counter a.send_counter
          (wire.arrived b.tunnel)
          flight
          c.transit)
      → Received crypto tokio wire b b' f.plaintext f.more
      → Lane key base given flight a b'
  Lane-receive {key} {base} {given} {flight} {a} {b} {b'} c f r = record {
    delivered = c.delivered ++ f.plaintext;
    transit = f.tail;
    whole_key = c.whole_key;
    in_step = rw (r.left, r.counted) f.later;
    in_order = order;
    written =
        r.delivered
        ∙ ap (λ xs. xs ++ f.plaintext) c.written
        ∙ append_assoc base c.delivered f.plaintext;
    tunnel_accepting = c.tunnel_accepting;
    external_accepting = r.external_accepting;
  }
    where
      order : given ≡ (c.delivered ++ f.plaintext) ++ (f.tail ++ wire.arrived a.external)
      order =
          c.in_order
          ∙ ap (λ xs. c.delivered ++ (xs ++ wire.arrived a.external)) f.first
          ∙ ap (λ xs. c.delivered ++ xs) (append_assoc f.plaintext f.tail (wire.arrived a.external))
          ∙ sym (append_assoc c.delivered f.plaintext (f.tail ++ wire.arrived a.external))

  pub Lane-receive_back :
      {key base given flight plaintext more : Bytes} {a b b' : Both Stream}
      → Lane key base given flight b a
      → Received crypto tokio wire b b' plaintext more
      → Lane key base given flight b' a
  Lane-receive_back c r = record {
    delivered = c.delivered;
    transit = c.transit;
    whole_key = c.whole_key;
    in_step = rw r.untouched c.in_step;
    in_order = rw r.unread c.in_order;
    written = c.written;
    tunnel_accepting = r.tunnel_accepting ∙ c.tunnel_accepting;
    external_accepting = c.external_accepting;
  }

  -- Bytes go from the network to the tunnel.
  pub Lane-carry :
      {key base given flight : Bytes} {a b : Both Stream}
      → Lane key base given flight a b
      → (chunk rest : Bytes) (t : Stream) → flight ≡ chunk ++ rest
      → Arrives crypto tokio wire b.tunnel chunk t
      → Lane key base given rest a (record b { tunnel = t })
  Lane-carry {key} {a = a} {b} c chunk rest t split arrives = record {
    delivered = c.delivered;
    transit = c.transit;
    whole_key = c.whole_key;
    in_step = rw arrives.arrived (
        subst (λ xs. Frames crypto key b.recv_counter xs c.transit a.send_counter)
          (ap (λ xs. wire.arrived b.tunnel ++ xs) split
            ∙ sym (append_assoc (wire.arrived b.tunnel) chunk rest))
          c.in_step);
    in_order = c.in_order;
    written = c.written;
    tunnel_accepting = c.tunnel_accepting;
    external_accepting = c.external_accepting;
  }

  pub Lane-carry_back :
      {key base given flight : Bytes} {a b : Both Stream}
      → Lane key base given flight b a
      → (chunk : Bytes) (t : Stream) → Arrives crypto tokio wire b.tunnel chunk t
      → Lane key base given flight (record b { tunnel = t }) a
  Lane-carry_back c chunk t arrives = record {
    delivered = c.delivered;
    transit = c.transit;
    whole_key = c.whole_key;
    in_step = c.in_step;
    in_order = c.in_order;
    written = c.written;
    tunnel_accepting = arrives.accepting ∙ c.tunnel_accepting;
    external_accepting = c.external_accepting;
  }

  -- The application sends more.
  pub Lane-supply :
      {key base given flight : Bytes} {a b : Both Stream}
      → Lane key base given flight a b
      → (more : Bytes) (e : Stream) → Arrives crypto tokio wire a.external more e
      → Lane key base (given ++ more) flight (record a { external = e }) b
  Lane-supply {a = a} c more e arrives = record {
    delivered = c.delivered;
    transit = c.transit;
    whole_key = c.whole_key;
    in_step = c.in_step;
    in_order =
        ap (λ xs. xs ++ more) c.in_order
        ∙ append_assoc c.delivered (c.transit ++ wire.arrived a.external) more
        ∙ ap (λ xs. c.delivered ++ xs)
            (append_assoc c.transit (wire.arrived a.external) more
              ∙ ap (λ xs. c.transit ++ xs) (sym arrives.arrived));
    written = c.written;
    tunnel_accepting = c.tunnel_accepting;
    external_accepting = c.external_accepting;
  }

  pub Lane-supply_back :
      {key base given flight : Bytes} {a b : Both Stream}
      → Lane key base given flight b a
      → (more : Bytes) (e : Stream) → Arrives crypto tokio wire a.external more e
      → Lane key base given flight b (record a { external = e })
  Lane-supply_back c more e arrives = record {
    delivered = c.delivered;
    transit = c.transit;
    whole_key = c.whole_key;
    in_step = c.in_step;
    in_order = c.in_order;
    written = arrives.sent ∙ c.written;
    tunnel_accepting = c.tunnel_accepting;
    external_accepting = arrives.accepting ∙ c.external_accepting;
  }
