-- ===== src/Tunnel/Encrypted/Duplex/Start.antt =====
-- The system in which the relays of two tunnels begin.
use vs_vpn.Prelude.{◌≡◌, refl, ap, sym, ◌∙◌, [], ◌++◌, Bytes, Bool, true, false, not, length}
use vs_vpn.Io.{Io, Wire}
use vs_vpn.Crypto.Primitives.{Suite, IsAead}
use vs_vpn.Tunnel.Encrypted.{EncryptedTunnel, send_key, start_relay}
use vs_vpn.Tunnel.Encrypted.Pairing.{Paired, same_nonce, whole_key}
use vs_vpn.Tunnel.Encrypted.Duplex.{System}
use vs_vpn.Tunnel.Encrypted.Duplex.Order.{IsFresh}

module _ {Stream : Type 0} {a b : EncryptedTunnel Stream} (p : Paired a b) where
  not-not : (side : Bool) → side ≡ not (not side)
  not-not true = refl
  not-not false = refl

  pub Paired-sym : Paired b a
  Paired-sym = record {
    sides = not-not a.is_client ∙ ap not (sym p.sides);
    client_keys = sym p.client_keys;
    server_keys = sym p.server_keys;
    c_counters = sym p.c_counters;
    s_counters = sym p.s_counters;
    client_whole = ap length (sym p.client_keys) ∙ p.client_whole;
    server_whole = ap length (sym p.server_keys) ∙ p.server_whole;
  }

-- Both tunnels relay, each between its stream and an external one; `to_b` and `to_a` are in the network.
abbrev pub relays :
    (tokio : Io)
    → Wire tokio
    → (a b : EncryptedTunnel tokio.Stream) (s t external_a external_b : tokio.Stream)
    → (to_b to_a : Bytes) → System tokio.Stream
relays tokio wire a b s t external_a external_b to_b to_a = record {
  a = start_relay a s external_a;
  b = start_relay b t external_b;
  key_a = send_key a;
  key_b = send_key b;
  to_b = to_b;
  to_a = to_a;
  given_a = wire.arrived external_a;
  given_b = wire.arrived external_b;
}

module _ (crypto : Suite) (laws : IsAead crypto) (tokio : Io) (wire : Wire tokio) where
  open tokio use {Stream}

  -- Two tunnels in step, between which nothing is under way, begin to relay in step, where all four
  -- streams take what is written.
  pub Paired-IsFresh :
      (a b : EncryptedTunnel Stream) (s t external_a external_b : Stream)
      → Paired a b
      → wire.arrived s ≡ []
      → wire.arrived t ≡ []
      → wire.accepting s ≡ true
      → wire.accepting t ≡ true
      → wire.accepting external_a ≡ true
      → wire.accepting external_b ≡ true
      → IsFresh crypto laws tokio wire (relays tokio wire a b s t external_a external_b [] [])
  Paired-IsFresh a b s t external_a external_b p read_s read_t acc_s acc_t acc_a acc_b = record {
    whole_key_a = whole_key p;
    whole_key_b = whole_key (Paired-sym p);
    to_b_counters = same_nonce p;
    to_a_counters = same_nonce (Paired-sym p);
    to_b_empty = ap (λ xs. xs ++ []) read_t;
    to_a_empty = ap (λ xs. xs ++ []) read_s;
    given_a_arrived = refl;
    given_b_arrived = refl;
    a_tunnel_accepting = acc_s;
    b_tunnel_accepting = acc_t;
    a_external_accepting = acc_a;
    b_external_accepting = acc_b;
  }
