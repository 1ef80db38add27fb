-- ===== src/Io/Pipe.antt =====
-- One end of a pipe in memory, such as `tokio::io::duplex` gives to the source's tests: all of the
-- peer's bytes have arrived and the peer has closed, and it takes all that is written.
use vs_vpn.Prelude.{
  ℕ, zero, suc, ◌<◌, ◌≤◌, ◌≡◌, ◌≢◌, refl, ap, sym, ◌∙◌, [], ◌∷◌, ◌++◌, Bytes, Bool, true, length,
  take, drop, leb, if◌then◌else◌, take-append, drop-append, length-append, arith, take-append-drop,
}
use vs_vpn.Outcome.{ok, err, io, unexpected_eof, library}
use vs_vpn.Act.{Act}
use vs_vpn.Io.{Io, Wire}

pub record End : Type 0 where
  pub arrived : Bytes
  pub sent : Bytes

-- An end at which these bytes have arrived
abbrev pub holding : Bytes → End
holding bytes = record { arrived = bytes; sent = [] }

unfoldable pub pull : ℕ → Act End Bytes
pull n e =
    if leb n (length e.arrived)
    then (ok (take n e.arrived), record e { arrived = drop n e.arrived })
    else (err (io unexpected_eof (library 0)), record e { arrived = [] })

abbrev pub pull_some : ℕ → Act End Bytes
pull_some n e = (ok (take n e.arrived), record e { arrived = drop n e.arrived })

abbrev pub push : Bytes → Act End (Unit {0})
push bytes e = (ok tt, record e { sent = e.sent ++ bytes })

-- All that has arrived is copied in one turn.
abbrev pub copy_all : Act (End × End) Bool
copy_all (from, to) =
    (ok true, (record from { arrived = [] }, record to { sent = to.sent ++ from.arrived }))

abbrev pub pipe : Io
pipe = record {
  Stream = End;
  read_exact = pull;
  read = pull_some;
  write_all = push;
  copy_turn = copy_all;
}

pub pull_arrived :
    (e : End) (bytes rest : Bytes)
    → e.arrived ≡ bytes ++ rest
    → pull (length bytes) e ≡ (ok bytes, record e { arrived = rest })
unfolding pull
pull_arrived e bytes rest h = rw (h, fits, take-append bytes rest, drop-append bytes rest)
  where
    fits : leb (length bytes) (length (bytes ++ rest)) ≡ true
    fits = ground (arith, length-append bytes rest)

pub pull_eof :
    (e : End) (n : ℕ)
    → length e.arrived < n
    → pull n e ≡ (err (io unexpected_eof (library 0)), record e { arrived = [] })
unfolding pull
pull_eof e n h = ground arith

pub take_chunk :
    (n : ℕ) (xs : Bytes) → 0 < n → xs ≢ [] → (1 ≤ length (take n xs)) × (length (take n xs) ≤ n)
take_chunk n [] h k = absurd (k refl)
take_chunk zero (x ∷ xs) h k = absurd (omega arith)
take_chunk (suc n) (x ∷ xs) h k = (omega arith, omega (arith, at_most n xs))
  where
    at_most : (m : ℕ) (ys : Bytes) → length (take m ys) ≤ m
    at_most zero ys = omega arith
    at_most (suc m) [] = omega arith
    at_most (suc m) (y ∷ ys) = omega (arith, at_most m ys)

pub pull_some_nil :
    (n : ℕ) (e : End) → e.arrived ≡ [] → pull_some n e ≡ (ok [], record e { arrived = [] })
pull_some_nil n e h = ap (λ xs. (ok (take n xs), record e { arrived = drop n xs })) h ∙ nothing n
  where
    nothing : (m : ℕ) → pull_some m (record e { arrived = [] }) ≡ (ok [], record e { arrived = [] })
    nothing zero = refl
    nothing (suc m) = refl

abbrev pub pipe_wire : Wire pipe
pipe_wire = record {
  arrived = λ e. e.arrived;
  sent = λ e. e.sent;
  closed = λ e. true;
  accepting = λ e. true;
  read_exact_arrived = λ e bytes rest h.
      (record e { arrived = rest }, pull_arrived e bytes rest h, refl, refl, refl, refl);
  read_exact_eof = λ e n _ h. (record e { arrived = [] }, library 0, pull_eof e n h);
  read_arrived = λ e n h k.
      let (some_, few) = take_chunk n e.arrived h k in
      (
        record e { arrived = drop n e.arrived },
        take n e.arrived,
        refl,
        sym (take-append-drop n e.arrived),
        some_,
        few,
        refl,
        refl,
        refl,
      );
  read_eof = λ e n _ h. (record e { arrived = [] }, pull_some_nil n e h, refl, refl);
  write_all_accepting =
      λ e bytes _. (record e { sent = e.sent ++ bytes }, refl, refl, refl, refl, refl);
}
