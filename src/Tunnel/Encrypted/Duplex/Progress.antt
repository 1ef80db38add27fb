-- ===== src/Tunnel/Encrypted/Duplex/Progress.antt =====
-- What the rounds of two relaying ends answer, and how far they can go on.
use vs_vpn.Prelude.{
  ℕ, zero, suc, ◌<◌, ◌≤◌, ◌≡◌, ◌≢◌, refl, ap, sym, subst, ◌∙◌, [], ◌∷◌, ◌++◌, append-nil, arith,
  Bytes, false, length, length-append, get_or, ◌⊎◌, inl, inr, nil-cases,
}
use vs_vpn.Outcome.{ok}
use vs_vpn.Io.{Io, Wire}
use vs_vpn.Std.Words.{from_be_bytes}
use vs_vpn.Crypto.Primitives.{Suite, IsAead}
use vs_vpn.Crypto.{send_round, receive_round}
use vs_vpn.Crypto.Frames.{framed, length-framed}
use vs_vpn.Crypto.Rounds.{Frames, no_more, frame}
use vs_vpn.Tunnel.Encrypted.{outwards, inwards}
use vs_vpn.Tunnel.Encrypted.Duplex.{
  System, flip, HasFrame, sent_by, after_send, after_receive, Arrives, Step, send, receive, carry,
  Reach, here, later,
}
use vs_vpn.Tunnel.Encrypted.Duplex.Lane.{send-Sent, receive-Received, length_read}
use vs_vpn.Tunnel.Encrypted.Duplex.Order.{
  InOrder, IsFresh, IsFresh-InOrder, Reach-InOrder, Step-InOrder, receive-First, flip-InOrder,
}

-- Frames are no bytes at all, or the first of them is there.
Frames-ready :
    {crypto : Suite} {key : Bytes} {n m : ℕ} {wire plain : Bytes}
    → Frames crypto key n wire plain m
    → ((wire ≡ []) × (plain ≡ [])) ⊎ HasFrame wire
Frames-ready no_more = inl (refl, refl)
Frames-ready (frame {wire = w} ct pt tagged short opened fs) =
    let size : from_be_bytes (get_or (framed ct ++ w) 0 0) (get_or (framed ct ++ w) 1 0)
        ≡ length ct =
      length_read ct w (framed ct ++ w) [] short (sym (append-nil (framed ct ++ w)))
        (omega (arith, length-append (framed ct) w, length-framed ct)) in
    inr (
      omega (arith, length-append (framed ct) w, length-framed ct),
      omega (arith, size, length-append (framed ct) w, length-framed ct),
    )

no_bytes : (xs : Bytes) → length xs ≤ 0 → xs ≡ []
no_bytes [] h = refl
no_bytes (x ∷ xs) h = absurd (omega arith)

module _ (crypto : Suite) (laws : IsAead crypto) (tokio : Io) (wire : Wire tokio) where
  open tokio use {Stream}

  abbrev Ordered : (base_a base_b : Bytes) → System Stream → Type 0
  Ordered = InOrder crypto laws tokio wire

  abbrev Reached : System Stream → System Stream → Type 0
  Reached = Reach crypto tokio wire

  -- The two rounds of one direction, each where its bytes are there, answer that the loop goes on.
  pub record GoesOn (t : System Stream) : Type 0 where
    pub sends :
        wire.arrived t.a.external ≢ []
        → (outwards (send_round crypto tokio t.key_a) t.a).0 ≡ ok false
    pub receives :
        HasFrame (wire.arrived t.b.tunnel)
        → (inwards (receive_round crypto tokio t.key_a) t.b).0 ≡ ok false

  InOrder-GoesOn : {base_a base_b : Bytes} (t : System Stream) → Ordered base_a base_b t → GoesOn t
  InOrder-GoesOn t i = record {
    sends = λ more.
        (send-Sent crypto laws tokio wire t.key_a t.a i.forth.whole_key i.forth.tunnel_accepting
          more).0;
    receives = λ h.
        let f = receive-First crypto laws tokio wire t i h in
        (receive-Received crypto laws tokio wire t.key_a t.b f.ciphertext f.plaintext f.more
          f.tagged f.short f.opened f.at_front i.forth.external_accepting).0;
  }

  -- In every state that two ends in step reach, whatever the order of the rounds, no round fails or ends
  -- its loop, in either direction: on an external stream with bytes the outward round goes on, and on a
  -- tunnel with a whole frame the inward one.
  pub Reach-GoesOn :
      (s t : System Stream)
      → IsFresh crypto laws tokio wire s
      → Reach crypto tokio wire s t
      → GoesOn t × GoesOn (flip t)
  Reach-GoesOn s t fresh r =
      let i =
        Reach-InOrder crypto laws tokio wire (IsFresh-InOrder crypto laws tokio wire s fresh) r in
      (InOrder-GoesOn t i, InOrder-GoesOn (flip t) (flip-InOrder crypto laws tokio wire i))

  -- A state that `t` can go on to, with nothing more sent by the application behind `a`.
  pub record Later (base_a base_b : Bytes) (s t u : System Stream) : Type 0 where
    pub reach : Reached s u
    pub ordered : Ordered base_a base_b u
    pub given : u.given_a ≡ t.given_a

  send_all :
      (n : ℕ) (s t : System Stream) {base_a base_b : Bytes}
      → Ordered base_a base_b t
      → Reached s t
      → length (wire.arrived t.a.external) ≤ n
      → (u : System Stream) × Later base_a base_b s t u × (wire.arrived u.a.external ≡ [])
  send_all zero s t i r h =
      (t, record { reach = r; ordered = i; given = refl }, no_bytes (wire.arrived t.a.external) h)
  send_all (suc n) s t i r h = elim (nil-cases (wire.arrived t.a.external)) [
    | inl e ↦ (t, record { reach = r; ordered = i; given = refl }, e)
    | inr more ↦
        let st : Step crypto tokio wire t (after_send crypto tokio wire t) = send t more in
        let (_, done) =
          send-Sent crypto laws tokio wire t.key_a t.a i.forth.whole_key i.forth.tunnel_accepting
            more in
        let (u, later_, end) =
          send_all n s (after_send crypto tokio wire t) (Step-InOrder crypto laws tokio wire st i)
            (later r st)
            (omega (
              arith,
              ap length done.split,
              length-append done.chunk
                  (wire.arrived (sent_by crypto tokio wire t.key_a t.a).external),
              done.some_,
            )) in
        (u, record { reach = later_.reach; ordered = later_.ordered; given = later_.given }, end)
  ]

  all_written :
      (t : System Stream) {base_a base_b : Bytes}
      → (i : Ordered base_a base_b t) → i.forth.transit ≡ []
      → wire.arrived t.a.external ≡ []
      → wire.sent t.b.external ≡ base_b ++ t.given_a
  all_written t {base_b = base_b} i none_left read =
      i.forth.written ∙ ap (λ xs. base_b ++ xs) (sym order)
    where
      order : t.given_a ≡ i.forth.delivered
      order =
          i.forth.in_order
          ∙ ap (λ xs. i.forth.delivered ++ (xs ++ wire.arrived t.a.external)) none_left
          ∙ ap (λ xs. i.forth.delivered ++ xs) read
          ∙ append-nil i.forth.delivered

  receive_all :
      (n : ℕ) (s t : System Stream) {base_a base_b : Bytes}
      → Ordered base_a base_b t
      → Reached s t
      → t.to_b ≡ []
      → wire.arrived t.a.external ≡ []
      → length (wire.arrived t.b.tunnel) < n
      → (u : System Stream) × Later base_a base_b s t u
        × (wire.sent u.b.external ≡ base_b ++ t.given_a)
  receive_all zero s t i r empty read h = absurd (omega arith)
  receive_all (suc n) s t i r empty read h = elim (Frames-ready i.forth.in_step) [
    | inl (_, none_left) ↦
        (t, record { reach = r; ordered = i; given = refl }, all_written t i none_left read)
    | inr ready ↦
        let here_ : HasFrame (wire.arrived t.b.tunnel) =
          subst HasFrame
            (ap (λ xs. wire.arrived t.b.tunnel ++ xs) empty ∙ append-nil (wire.arrived t.b.tunnel))
            ready in
        let st : Step crypto tokio wire t (after_receive crypto tokio wire t) = receive t here_ in
        let f = receive-First crypto laws tokio wire t i here_ in
        let (_, done) =
          receive-Received crypto laws tokio wire t.key_a t.b f.ciphertext f.plaintext f.more
            f.tagged f.short f.opened f.at_front i.forth.external_accepting in
        let (u, later_, end) =
          receive_all n s (after_receive crypto tokio wire t)
            (Step-InOrder crypto laws tokio wire st i) (later r st) empty read
            (omega (
              arith,
              ap length done.left,
              ap length f.at_front,
              length-append (framed f.ciphertext) f.more,
              length-framed f.ciphertext,
            )) in
        (u, record { reach = later_.reach; ordered = later_.ordered; given = later_.given }, end)
  ]

  -- From every state that two ends in step have reached, all that the application behind `a` has sent so
  -- far can still be delivered: from that very state, steps of the relays and of the network lead to one in
  -- which the other application has been written all of it. (The network can bring any bytes to any stream.)
  pub Reach-delivers :
      (s t : System Stream)
      → IsFresh crypto laws tokio wire s
      → Reach crypto tokio wire s t
      → ((x : Stream) (more : Bytes) → (x' : Stream) × Arrives crypto tokio wire x more x')
      → (u : System Stream) × Reach crypto tokio wire t u
        × (u.given_a ≡ t.given_a)
        × (wire.sent u.b.external ≡ wire.sent s.b.external ++ t.given_a)
  Reach-delivers s t fresh r network =
      let i =
        Reach-InOrder crypto laws tokio wire (IsFresh-InOrder crypto laws tokio wire s fresh) r in
      let (u₁, l₁, read) = send_all (length (wire.arrived t.a.external)) t t i here (omega arith) in
      let (x, arrives) = network u₁.b.tunnel u₁.to_b in
      let u₂ : System Stream = record u₁ { to_b = []; b = record u₁.b { tunnel = x } } in
      let st : Step crypto tokio wire u₁ u₂ =
        carry u₁ u₁.to_b [] x (sym (append-nil u₁.to_b)) arrives in
      let (u₃, l₃, end) =
        receive_all (suc (length (wire.arrived u₂.b.tunnel))) t u₂
          (Step-InOrder crypto laws tokio wire st l₁.ordered) (later l₁.reach st) refl read
          (omega arith) in
      (u₃, l₃.reach, l₃.given ∙ l₁.given, end ∙ ap (λ xs. wire.sent s.b.external ++ xs) l₁.given)
