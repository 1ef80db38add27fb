-- ===== src/Peer/Tests.antt =====
-- Runs of the parser, and the theorem on its fields at a concrete input.
use vs_vpn.Prelude.{
  ◌≡◌, refl, [], ◌∷◌, ◌++◌, arith, Bytes, none, some, List, true, get_or, if◌then◌else◌,
}
use vs_vpn.Std.Asserts.{codes, equal_bytes}
use vs_vpn.Std.Utf8.{from_utf8_lossy}
use vs_vpn.Std.Text.{trim, lines, parse_unsigned}
use vs_vpn.Std.Format.{show}
use vs_vpn.Peer.{scan, parse_lsof_f, display, lsof_args, identify_peer_impl, identify_peer}
use vs_vpn.Peer.Fields.{field, too_early, nil, cons, no_lines, and_line, other_field, scan-first}

abbrev printed : Bytes
printed =
    b'c' ∷ b'x' ∷ 10 ∷ b'p' ∷ b'4' ∷ b'2' ∷ 10 ∷ b'f' ∷ b'9' ∷ 10 ∷ b'c' ∷ b's' ∷ b'h' ∷ 10 ∷ []

parse_run : parse_lsof_f printed ≡ some (record { pid = 42; name = b's' ∷ b'h' ∷ [] })
unfolding parse_lsof_f scan lines trim parse_unsigned
parse_run = refl

-- The program prints the lines above where it is asked for the peer.
identified :
    identify_peer
      (λ program args.
        if equal_bytes (get_or args 3 []) (codes "TCP@127.0.0.1:5") then some printed else none)
      true
      (codes "127.0.0.1", 5)
      ([], 0)
    ≡ some (record { pid = 42; name = b's' ∷ b'h' ∷ [] })
unfolding identify_peer identify_peer_impl lsof_args parse_lsof_f scan lines trim parse_unsigned
    show from_utf8_lossy
identified = refl

display_run :
    display (record { pid = 42; name = b's' ∷ b'h' ∷ [] })
    ≡ b's' ∷ b'h' ∷ b'(' ∷ b'4' ∷ b'2' ∷ b')' ∷ []
unfolding display show
display_run = refl

trim_early : trim (b'c' ∷ b'x' ∷ []) ≡ b'c' ∷ b'x' ∷ []
unfolding trim
trim_early = refl

trim_file : trim (b'f' ∷ b'9' ∷ []) ≡ b'f' ∷ b'9' ∷ []
unfolding trim
trim_file = refl

trim_number : trim (b'p' ∷ b'4' ∷ b'2' ∷ 32 ∷ []) ≡ b'p' ∷ show 42
unfolding trim show
trim_number = refl

trim_command : trim (b'c' ∷ b's' ∷ b'h' ∷ []) ≡ b'c' ∷ b's' ∷ b'h' ∷ []
unfolding trim
trim_command = refl

abbrev early : List Bytes
early = (b'c' ∷ b'x' ∷ []) ∷ []

abbrev file : List Bytes
file = (b'f' ∷ b'9' ∷ []) ∷ []

trim_earlier : trim (b'p' ∷ b'7' ∷ []) ≡ b'p' ∷ b'7' ∷ []
unfolding trim
trim_earlier = refl

-- Another process number, 7, which no command follows
abbrev unnamed : List Bytes
unnamed = (b'p' ∷ b'7' ∷ []) ∷ []

scan-first_example :
    scan none (
      early
      ++ (unnamed ++ (b'p' ∷ b'4' ∷ b'2' ∷ 32 ∷ []) ∷ (file ++ (b'c' ∷ b's' ∷ b'h' ∷ []) ∷ [])))
    ≡ some (record { pid = 42; name = b's' ∷ b'h' ∷ [] })
scan-first_example =
    scan-first early unnamed file [] (b'p' ∷ b'4' ∷ b'2' ∷ 32 ∷ []) (b'c' ∷ b's' ∷ b'h' ∷ [])
      (b's' ∷ b'h' ∷ []) 42 (omega arith) (cons (too_early (b'x' ∷ []) trim_early refl) nil)
      (and_line (other_field b'p' (b'7' ∷ []) trim_earlier (omega arith)) no_lines) trim_number
      (cons (field b'f' (b'9' ∷ []) trim_file (omega arith) (omega arith)) nil) trim_command
