-- ===== src/Tunnel/Encrypted/Duplex.antt =====
-- Two ends of an encrypted tunnel that both relay, with the network and the applications between and
-- behind them, as a step relation: the rounds of the four loops, and what moves bytes, in any order.
pub mod Carries
pub mod Lane
pub mod Order
pub mod Progress
pub mod Sealing
pub mod Start
mod Tests
use vs_vpn.Prelude.{ℕ, ◌+◌, ◌≤◌, ◌≡◌, ◌≢◌, [], ◌++◌, Bytes, Bool, length, drop, get_or}
use vs_vpn.Io.{Io, Wire}
use vs_vpn.Std.Words.{from_be_bytes}
use vs_vpn.Crypto.Primitives.{Suite}
use vs_vpn.Crypto.{send_round, receive_round}
use vs_vpn.Tunnel.Encrypted.{Both, outwards, inwards}

-- The relays of the ends `a` and `b`, the keys that each sends under, the bytes in the network to `b`
-- and to `a`, and all that the application behind each end has sent so far.
pub record System (Stream : Type 0) : Type 0 where
  pub a : Both Stream
  pub b : Both Stream
  pub key_a : Bytes
  pub key_b : Bytes
  pub to_b : Bytes
  pub to_a : Bytes
  pub given_a : Bytes
  pub given_b : Bytes

-- The same system, seen from the other end.
abbrev pub flip : {Stream : Type 0} → System Stream → System Stream
flip s = record {
  a = s.b;
  b = s.a;
  key_a = s.key_b;
  key_b = s.key_a;
  to_b = s.to_a;
  to_a = s.to_b;
  given_a = s.given_b;
  given_b = s.given_a;
}

-- A whole frame stands at the front. Without one the reads of a round wait.
abbrev pub HasFrame : Bytes → Type 0
HasFrame bytes =
    (2 ≤ length bytes) × (2 + from_be_bytes (get_or bytes 0 0) (get_or bytes 1 0) ≤ length bytes)

module _ (crypto : Suite) (tokio : Io) (wire : Wire tokio) where
  open tokio use {Stream}

  -- What a stream has been sent since it was `t`.
  abbrev pub newly : (t t' : Stream) → Bytes
  newly t t' = drop (length (wire.sent t)) (wire.sent t')

  -- One round of each loop, as `relay_bidirectional` runs it.
  abbrev pub sent_by : (key : Bytes) → Both Stream → Both Stream
  sent_by key a = (outwards (send_round crypto tokio key) a).1

  abbrev pub received_by : (key : Bytes) → Both Stream → Both Stream
  received_by key b = (inwards (receive_round crypto tokio key) b).1

  abbrev pub after_send : System Stream → System Stream
  after_send s =
      let a' = sent_by s.key_a s.a in
      record s { a = a'; to_b = s.to_b ++ newly s.a.tunnel a'.tunnel }

  abbrev pub after_receive : System Stream → System Stream
  after_receive s = record s { b = received_by s.key_a s.b }

  -- More bytes have arrived at a stream, and nothing else has changed.
  pub record Arrives (s : Stream) (more : Bytes) (s' : Stream) : Type 0 where
    pub arrived : wire.arrived s' ≡ wire.arrived s ++ more
    pub sent : wire.sent s' ≡ wire.sent s
    pub accepting : wire.accepting s' ≡ wire.accepting s

  -- `send`: a round on an external stream with bytes. `receive`: a round on a tunnel with a whole
  -- frame. `carry`: the network brings some bytes. `supply`: the application sends some.
  pub data Step : System Stream → System Stream → Type 0 where
    send : (s : System Stream) → wire.arrived s.a.external ≢ [] → Step s (after_send s)
    receive : (s : System Stream) → HasFrame (wire.arrived s.b.tunnel) → Step s (after_receive s)
    carry :
        (s : System Stream) (chunk rest : Bytes) (t : Stream)
        → s.to_b ≡ chunk ++ rest
        → Arrives s.b.tunnel chunk t
        → Step s (record s { to_b = rest; b = record s.b { tunnel = t } })
    supply :
        (s : System Stream) (more : Bytes) (e : Stream)
        → Arrives s.a.external more e
        → Step s (record s { given_a = s.given_a ++ more; a = record s.a { external = e } })
    other : {s t : System Stream} → Step (flip s) (flip t) → Step s t

  pub data Reach (s : System Stream) : System Stream → Type 0 where
    here : Reach s s
    later : {t u : System Stream} → Reach s t → Step t u → Reach s u
