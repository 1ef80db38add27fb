-- ===== src/Tunnel/Encrypted/Duplex/Sealing.antt =====
-- What two relaying ends have written into their tunnels, along any steps.
use vs_vpn.Prelude.{
  ◌≡◌, ◌≤◌, ◌<◌, ◌^◌, refl, ap, sym, subst, ◌∙◌, [], ◌∷◌, ◌++◌, append_assoc, append-nil, arith,
  Bytes, List, length, length-append,
}
use vs_vpn.Io.{Io, Wire}
use vs_vpn.Crypto.Primitives.{Suite, IsAead}
use vs_vpn.Crypto.{full_nonce}
use vs_vpn.Crypto.Frames.{framed}
use vs_vpn.Crypto.Nonces.{
  SealedFrames, no_frames, one_more, AllDifferent, seal-encrypt, SealedFrames-AllDifferent,
}
use vs_vpn.Crypto.Rounds.{Frames, no_more}
use vs_vpn.Tunnel.Encrypted.{Both}
use vs_vpn.Tunnel.Encrypted.Duplex.{
  System, flip, Step, send, receive, carry, supply, other, Reach, here, later,
}
use vs_vpn.Tunnel.Encrypted.Duplex.Lane.{Frames-snoc, Sent, send-Sent, receive-Received}
use vs_vpn.Tunnel.Encrypted.Duplex.Order.{
  InOrder, flip-InOrder, receive-First, Reach-InOrder, IsFresh, IsFresh-InOrder,
}

-- The end `a`, which was `a₀`, has written frames that it has sealed under its key with one counter after
-- the other, and which open to what it has taken of the bytes that its application has sent.
pub record Sealed (crypto : Suite) (tokio : Io) (wire : Wire tokio) (key given : Bytes)
    (a₀ a : Both tokio.Stream) : Type 0 where
  pub bytes : Bytes
  pub plain : Bytes
  pub sent : wire.sent a.tunnel ≡ wire.sent a₀.tunnel ++ bytes
  pub frames : Frames crypto key a₀.send_counter bytes plain a.send_counter
  pub nonces : List Bytes
  pub sealed : SealedFrames crypto key a₀.send_counter bytes nonces plain a.send_counter
  pub taken : given ≡ plain ++ wire.arrived a.external

-- Both ends of `t`, which was `s`
pub record BothSealed (crypto : Suite) (tokio : Io) (wire : Wire tokio) (s t : System tokio.Stream)
    : Type 0 where
  pub keys : (t.key_a ≡ s.key_a) × (t.key_b ≡ s.key_b)
  pub forth : Sealed crypto tokio wire t.key_a t.given_a s.a t.a
  pub back : Sealed crypto tokio wire t.key_b t.given_b s.b t.b

module _ (crypto : Suite) (laws : IsAead crypto) (tokio : Io) (wire : Wire tokio) where
  open tokio use {Stream}

  flip-BothSealed :
      {s t : System Stream}
      → BothSealed crypto tokio wire s t
      → BothSealed crypto tokio wire (flip s) (flip t)
  flip-BothSealed i = record { keys = (i.keys.1, i.keys.0); forth = i.back; back = i.forth }

  Sealed-send :
      {key given : Bytes} {a₀ a a' : Both Stream}
      → Sealed crypto tokio wire key given a₀ a
      → Sent crypto tokio wire key a a'
      → Sealed crypto tokio wire key given a₀ a'
  Sealed-send {key} {given} {a₀} {a} {a'} i done =
      let (cipher, made, asked) =
        seal-encrypt crypto key a.send_counter done.chunk done.ciphertext done.sealed in
      record {
        bytes = i.bytes ++ framed done.ciphertext;
        plain = i.plain ++ done.chunk;
        sent =
            done.wrote
            ∙ ap (λ xs. xs ++ framed done.ciphertext) i.sent
            ∙ append_assoc (wire.sent a₀.tunnel) i.bytes _;
        frames =
            subst
              (λ n.
                Frames crypto key a₀.send_counter (i.bytes ++ framed done.ciphertext)
                  (i.plain ++ done.chunk) n)
              (sym done.counted)
              (Frames-snoc done.ciphertext done.chunk i.frames done.tagged done.short done.opened);
        nonces = full_nonce a.send_counter ∷ i.nonces;
        sealed =
            subst
              (λ n.
                SealedFrames crypto key a₀.send_counter (i.bytes ++ framed done.ciphertext)
                  (full_nonce a.send_counter ∷ i.nonces) (i.plain ++ done.chunk) n)
              (sym done.counted)
              (one_more cipher done.chunk done.ciphertext made asked done.some_ i.sealed);
        taken =
            i.taken
            ∙ ap (λ xs. i.plain ++ xs) done.split
            ∙ sym (append_assoc i.plain done.chunk (wire.arrived a'.external));
      }

  -- A step that leaves the writing side alone
  Sealed-same :
      {key given : Bytes} {a₀ a a' : Both Stream}
      → Sealed crypto tokio wire key given a₀ a
      → wire.sent a'.tunnel ≡ wire.sent a.tunnel
      → a'.send_counter ≡ a.send_counter
      → wire.arrived a'.external ≡ wire.arrived a.external
      → Sealed crypto tokio wire key given a₀ a'
  Sealed-same {key} {given} {a₀} i sent counter arrived = record {
    bytes = i.bytes;
    plain = i.plain;
    sent = sent ∙ i.sent;
    frames =
        subst (λ n. Frames crypto key a₀.send_counter i.bytes i.plain n) (sym counter) i.frames;
    nonces = i.nonces;
    sealed =
        subst (λ n. SealedFrames crypto key a₀.send_counter i.bytes i.nonces i.plain n)
          (sym counter) i.sealed;
    taken = i.taken ∙ ap (λ xs. i.plain ++ xs) (sym arrived);
  }

  Step-BothSealed :
      {t u : System Stream}
      → Step crypto tokio wire t u
      → {s : System Stream} {base_a base_b : Bytes} → InOrder crypto laws tokio wire base_a base_b t
      → BothSealed crypto tokio wire s t
      → BothSealed crypto tokio wire s u
  Step-BothSealed (send t more) i b =
      let (_, done) =
        send-Sent crypto laws tokio wire t.key_a t.a i.forth.whole_key i.forth.tunnel_accepting
          more in
      record { keys = b.keys; forth = Sealed-send b.forth done; back = b.back }
  Step-BothSealed (receive t h) i b =
      let f = receive-First crypto laws tokio wire t i h in
      let (_, done) =
        receive-Received crypto laws tokio wire t.key_a t.b f.ciphertext f.plaintext f.more f.tagged
          f.short f.opened f.at_front i.forth.external_accepting in
      record {
        keys = b.keys;
        forth = b.forth;
        back = Sealed-same b.back done.unwritten done.untouched done.unread;
      }
  Step-BothSealed (carry t chunk rest x split arrives) i b = record {
    keys = b.keys;
    forth = b.forth;
    back = Sealed-same b.back arrives.sent refl refl;
  }
  Step-BothSealed (supply t more e arrives) i b = record {
    keys = b.keys;
    forth = record {
      bytes = b.forth.bytes;
      plain = b.forth.plain;
      sent = b.forth.sent;
      frames = b.forth.frames;
      nonces = b.forth.nonces;
      sealed = b.forth.sealed;
      taken =
          ap (λ xs. xs ++ more) b.forth.taken
          ∙ append_assoc b.forth.plain (wire.arrived t.a.external) more
          ∙ ap (λ xs. b.forth.plain ++ xs) (sym arrives.arrived);
    };
    back = b.back;
  }
  Step-BothSealed (other st) i b =
      flip-BothSealed
        (Step-BothSealed st (flip-InOrder crypto laws tokio wire i) (flip-BothSealed b))

  BothSealed-fresh :
      (s : System Stream) → IsFresh crypto laws tokio wire s → BothSealed crypto tokio wire s s
  BothSealed-fresh s f = record {
    keys = (refl, refl);
    forth = record {
      bytes = [];
      plain = [];
      sent = sym (append-nil _);
      frames = no_more;
      nonces = [];
      sealed = no_frames;
      taken = f.given_a_arrived;
    };
    back = record {
      bytes = [];
      plain = [];
      sent = sym (append-nil _);
      frames = no_more;
      nonces = [];
      sealed = no_frames;
      taken = f.given_b_arrived;
    };
  }

  all_sealed :
      (s t : System Stream)
      → IsFresh crypto laws tokio wire s
      → Reach crypto tokio wire s t
      → BothSealed crypto tokio wire s t
  all_sealed s _ fresh here = BothSealed-fresh s fresh
  all_sealed s _ fresh (later {t} r st) =
      Step-BothSealed st
        (Reach-InOrder crypto laws tokio wire (IsFresh-InOrder crypto laws tokio wire s fresh) r)
        (all_sealed s t fresh r)

  Sealed-AllDifferent :
      {key given : Bytes} {a₀ a : Both Stream} (i : Sealed crypto tokio wire key given a₀ a)
      → a₀.send_counter < 2 ^ 64
      → length given ≤ 2 ^ 64
      → AllDifferent i.nonces
  Sealed-AllDifferent {key} {given} {a₀} {a} i small short =
      SealedFrames-AllDifferent crypto key a₀.send_counter small
        (omega (arith, ap length i.taken, length-append i.plain (wire.arrived a.external))) i.sealed

  -- Two ends in step begin to relay, nothing is under way, the streams take what is written, and the counters are
  -- below 2 ^ 64. Whatever the order of the rounds, all that each end has written into its tunnel since are
  -- frames of what the cipher has answered under the end's own key for the nonce of one counter after the other,
  -- from the counter that the relay began with. As long as an application has sent no more than 2 ^ 64 bytes, no
  -- two of the end's frames have the same nonce. The frames open, counter by counter, to exactly what the end has
  -- taken of the bytes that its application has sent, and the keys are those of the beginning.
  pub Reach-BothSealed :
      (s t : System Stream)
      → IsFresh crypto laws tokio wire s
      → s.a.send_counter < 2 ^ 64
      → s.b.send_counter < 2 ^ 64
      → Reach crypto tokio wire s t
      → length t.given_a ≤ 2 ^ 64
      → length t.given_b ≤ 2 ^ 64
      → (i : BothSealed crypto tokio wire s t) × AllDifferent i.forth.nonces
        × AllDifferent i.back.nonces
  Reach-BothSealed s t fresh small_a small_b r few_a few_b =
      let i = all_sealed s t fresh r in
      (i, Sealed-AllDifferent i.forth small_a few_a, Sealed-AllDifferent i.back small_b few_b)
