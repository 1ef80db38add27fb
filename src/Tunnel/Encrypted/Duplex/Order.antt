-- ===== src/Tunnel/Encrypted/Duplex/Order.antt =====
-- Both directions of two relaying ends, along any steps: frames under way, and what has been delivered.
use vs_vpn.Prelude.{◌≡◌, refl, sym, ◌∙◌, [], ◌++◌, append-nil, Bytes, true, length}
use vs_vpn.Io.{Io, Wire}
use vs_vpn.Crypto.Primitives.{Suite, IsAead}
use vs_vpn.Crypto.{key_len}
use vs_vpn.Crypto.Rounds.{no_more}
use vs_vpn.Tunnel.Encrypted.{Both}
use vs_vpn.Tunnel.Encrypted.Duplex.{
  System, flip, HasFrame, Step, send, receive, carry, supply, other, Reach, here, later,
}
use vs_vpn.Tunnel.Encrypted.Duplex.Lane.{Frames-First, First, send-Sent, receive-Received}
use vs_vpn.Tunnel.Encrypted.Duplex.Carries.{
  Carries, Lane-send, Lane-send_back, Lane-receive, Lane-receive_back, Lane-carry, Lane-carry_back,
  Lane-supply, Lane-supply_back,
}

module _ (crypto : Suite) (laws : IsAead crypto) (tokio : Io) (wire : Wire tokio) where
  open tokio use {Stream}

  -- Both directions of a system, whose ends had been sent `base_a` and `base_b` before.
  pub record InOrder (base_a base_b : Bytes) (s : System Stream) : Type 0 where
    pub forth : Carries crypto tokio wire s.key_a base_b s.given_a s.to_b s.a s.b
    pub back : Carries crypto tokio wire s.key_b base_a s.given_b s.to_a s.b s.a

  pub flip-InOrder :
      {base_a base_b : Bytes} {s : System Stream}
      → InOrder base_a base_b s
      → InOrder base_b base_a (flip s)
  flip-InOrder i = record { forth = i.back; back = i.forth }

  pub receive-First :
      {base_a base_b : Bytes} (s : System Stream) (i : InOrder base_a base_b s)
      → HasFrame (wire.arrived s.b.tunnel)
      → First crypto s.key_a s.b.recv_counter s.a.send_counter
          (wire.arrived s.b.tunnel)
          s.to_b
          i.forth.transit
  receive-First s i h = Frames-First (wire.arrived s.b.tunnel) s.to_b i.forth.in_step refl h

  -- Every step keeps both directions in order.
  pub Step-InOrder :
      {s t : System Stream}
      → Step crypto tokio wire s t
      → {base_a base_b : Bytes} → InOrder base_a base_b s
      → InOrder base_a base_b t
  Step-InOrder (send s more) i =
      let (_, done) =
        send-Sent crypto laws tokio wire s.key_a s.a i.forth.whole_key i.forth.tunnel_accepting
          more in
      record {
        forth = Lane-send crypto laws tokio wire i.forth done;
        back = Lane-send_back crypto laws tokio wire i.back done;
      }
  Step-InOrder (receive s h) i =
      let f = receive-First s i h in
      let (_, done) =
        receive-Received crypto laws tokio wire s.key_a s.b f.ciphertext f.plaintext f.more f.tagged
          f.short f.opened f.at_front i.forth.external_accepting in
      record {
        forth = Lane-receive crypto laws tokio wire i.forth f done;
        back = Lane-receive_back crypto laws tokio wire i.back done;
      }
  Step-InOrder (carry s chunk rest t split arrives) i = record {
    forth = Lane-carry crypto laws tokio wire i.forth chunk rest t split arrives;
    back = Lane-carry_back crypto laws tokio wire i.back chunk t arrives;
  }
  Step-InOrder (supply s more e arrives) i = record {
    forth = Lane-supply crypto laws tokio wire i.forth more e arrives;
    back = Lane-supply_back crypto laws tokio wire i.back more e arrives;
  }
  Step-InOrder (other st) i = flip-InOrder (Step-InOrder st (flip-InOrder i))

  pub Reach-InOrder :
      {base_a base_b : Bytes} {s t : System Stream}
      → InOrder base_a base_b s
      → Reach crypto tokio wire s t
      → InOrder base_a base_b t
  Reach-InOrder i here = i
  Reach-InOrder i (later r st) = Step-InOrder st (Reach-InOrder i r)

  -- Where the relays of a pair in step begin: nothing is under way, and the streams take what is written.
  pub record IsFresh (s : System Stream) : Type 0 where
    pub whole_key_a : length s.key_a ≡ key_len
    pub whole_key_b : length s.key_b ≡ key_len
    pub to_b_counters : s.b.recv_counter ≡ s.a.send_counter
    pub to_a_counters : s.a.recv_counter ≡ s.b.send_counter
    pub to_b_empty : wire.arrived s.b.tunnel ++ s.to_b ≡ []
    pub to_a_empty : wire.arrived s.a.tunnel ++ s.to_a ≡ []
    pub given_a_arrived : s.given_a ≡ wire.arrived s.a.external
    pub given_b_arrived : s.given_b ≡ wire.arrived s.b.external
    pub a_tunnel_accepting : wire.accepting s.a.tunnel ≡ true
    pub b_tunnel_accepting : wire.accepting s.b.tunnel ≡ true
    pub a_external_accepting : wire.accepting s.a.external ≡ true
    pub b_external_accepting : wire.accepting s.b.external ≡ true

  Lane-fresh :
      {key base given flight : Bytes} {a b : Both Stream}
      → length key ≡ key_len
      → b.recv_counter ≡ a.send_counter
      → wire.arrived b.tunnel ++ flight ≡ []
      → given ≡ wire.arrived a.external
      → wire.sent b.external ≡ base
      → wire.accepting a.tunnel ≡ true
      → wire.accepting b.external ≡ true
      → Carries crypto tokio wire key base given flight a b
  Lane-fresh {base = base} hk n empty given sent tun ext = record {
    delivered = [];
    transit = [];
    whole_key = hk;
    in_step = rw (empty, n) no_more;
    in_order = given;
    written = sent ∙ sym (append-nil base);
    tunnel_accepting = tun;
    external_accepting = ext;
  }

  pub IsFresh-InOrder :
      (s : System Stream) → IsFresh s → InOrder (wire.sent s.a.external) (wire.sent s.b.external) s
  IsFresh-InOrder s f = record {
    forth =
        Lane-fresh f.whole_key_a f.to_b_counters f.to_b_empty f.given_a_arrived refl
          f.a_tunnel_accepting f.b_external_accepting;
    back =
        Lane-fresh f.whole_key_b f.to_a_counters f.to_a_empty f.given_b_arrived refl
          f.b_tunnel_accepting f.a_external_accepting;
  }

  -- Two ends in step begin to relay, nothing is under way, and the streams take what is written. After any
  -- rounds of the four loops, in any order, with the network bringing bytes in any portions and the
  -- applications sending more at any time, each application has been written exactly a front of what the
  -- other has sent: no byte is lost, doubled, changed or overtaken, in either direction.
  pub Reach-prefix :
      (s t : System Stream)
      → IsFresh s
      → Reach crypto tokio wire s t
      → (to_b : Bytes) × (to_a : Bytes) × (ahead_b : Bytes) × (ahead_a : Bytes) × (wire.sent
            t.b.external
          ≡ wire.sent s.b.external ++ to_b)
        × (t.given_a ≡ to_b ++ ahead_b)
        × (wire.sent t.a.external ≡ wire.sent s.a.external ++ to_a)
        × (t.given_b ≡ to_a ++ ahead_a)
  Reach-prefix s t fresh r =
      let i = Reach-InOrder (IsFresh-InOrder s fresh) r in
      (
        i.forth.delivered,
        i.back.delivered,
        i.forth.transit ++ wire.arrived t.a.external,
        i.back.transit ++ wire.arrived t.b.external,
        i.forth.written,
        i.forth.in_order,
        i.back.written,
        i.back.in_order,
      )
