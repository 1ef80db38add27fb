-- ===== src/Tunnel/Quic/HostPort.antt =====
-- `split_host_port` of feature/tunnel/quic/src/lib.rs.
use vs_vpn.Prelude.{
  ℕ, ◌<◌, ◌^◌, ◌≡◌, ◌≢◌, refl, sym, ap, ◌∙◌, [], ◌∷◌, ◌++◌, append_assoc, arith, Bytes, All, Option,
  none, some, ◌==◌, if◌then◌else◌, get_or,
}
use vs_vpn.Outcome.{Outcome, ok, ◌>>=◌, ok_or, io, other, invalid_address, invalid_port}
use vs_vpn.Std.Text.{rsplit_once, strip_suffix, parse_unsigned}
use vs_vpn.Std.Text.Numbers.{IsDigit, show_digits-IsDigit, parse_unsigned-show, rsplit_once-last}
use vs_vpn.Std.Format.{show}

abbrev or_whole : Option Bytes → Bytes → Bytes
or_whole (some inner) host = inner
or_whole none host = host

-- The host without the brackets around it, where it has both.
unfoldable pub unbracketed : Bytes → Bytes
unbracketed [] = []
unbracketed (c ∷ rest) =
    if c == b'[' then or_whole (strip_suffix b']' rest) (c ∷ rest) else c ∷ rest

unfoldable pub split_host_port : Bytes → Outcome (Bytes × ℕ)
split_host_port addr =
    ok_or (rsplit_once b':' addr) (io other (invalid_address addr)) >>= λ (host, port_str).
    ok_or (parse_unsigned 65535 port_str) (io other invalid_port) >>= λ port.
    ok (unbracketed host, port)

-- An address as one writes it: a host without a bracket in front, or a host in brackets, and a port.
pub data IsAddress : (addr host : Bytes) (port : ℕ) → Type 0 where
  plain_host :
      (host : Bytes) (port : ℕ)
      → port < 2 ^ 16
      → get_or host 0 0 ≢ b'['
      → IsAddress (host ++ b':' ∷ show port) host port
  in_brackets :
      (host : Bytes) (port : ℕ)
      → port < 2 ^ 16
      → IsAddress (b'[' ∷ (host ++ b']' ∷ b':' ∷ show port)) host port

unbracketed-named : (host : Bytes) → get_or host 0 0 ≢ b'[' → unbracketed host ≡ host
unfolding unbracketed
unbracketed-named [] h = refl
unbracketed-named (c ∷ host) h = ground arith

strip_suffix-cons :
    (c x y : ℕ) (ys front : Bytes)
    → strip_suffix c (y ∷ ys) ≡ some front
    → strip_suffix c (x ∷ y ∷ ys) ≡ some (x ∷ front)
unfolding strip_suffix
strip_suffix-cons c x y ys front e = rw (strip_suffix, e) refl

strip_suffix-last : (c : ℕ) (front : Bytes) → strip_suffix c (front ++ c ∷ []) ≡ some front
unfolding strip_suffix
strip_suffix-last c [] = ground arith
strip_suffix-last c (x ∷ []) = strip_suffix-cons c x c [] [] (strip_suffix-last c [])
strip_suffix-last c (x ∷ y ∷ front) =
    strip_suffix-cons c x y (front ++ c ∷ []) (y ∷ front) (strip_suffix-last c (y ∷ front))

unbracketed-in_brackets : (host : Bytes) → unbracketed (b'[' ∷ (host ++ b']' ∷ [])) ≡ host
unfolding unbracketed
unbracketed-in_brackets host = rw (strip_suffix-last b']' host) refl

no_colon : (xs : Bytes) → All IsDigit xs → All (λ x. x ≢ b':') xs
no_colon [] h = tt
no_colon (x ∷ xs) (hx, h) = ((λ e. absurd (omega arith)), no_colon xs h)

-- A host and a port of 16 bits, printed with a colon between them, are read again, whatever
-- colons the host has; the brackets around a host are taken off.
pub split_host_port-show :
    (host : Bytes) (port : ℕ)
    → port < 2 ^ 16
    → split_host_port (host ++ b':' ∷ show port) ≡ ok (unbracketed host, port)
unfolding split_host_port
split_host_port-show host port h = rw (
  rsplit_once-last b':' host (show port) (no_colon (show port) digits),
  parse_unsigned-show 65535 port (omega arith) (omega arith),
)
  where
    digits : All IsDigit (show port)
    digits = unfold show in show_digits-IsDigit 20 port

pub split_host_port-IsAddress :
    {addr host : Bytes} {port : ℕ}
    → IsAddress addr host port
    → split_host_port addr ≡ ok (host, port)
split_host_port-IsAddress (plain_host host port small bare) =
    split_host_port-show host port small ∙ ap (λ h. ok (h, port)) (unbracketed-named host bare)
split_host_port-IsAddress (in_brackets host port small) =
    ap (λ xs. split_host_port (b'[' ∷ xs)) (sym (append_assoc host (b']' ∷ []) (b':' ∷ show port)))
    ∙ split_host_port-show (b'[' ∷ (host ++ b']' ∷ [])) port small
    ∙ ap (λ h. ok (h, port)) (unbracketed-in_brackets host)
