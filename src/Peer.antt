-- ===== src/Peer.antt =====
-- core/socket-peer/src/lib.rs: the process that opened a connection, out of what `lsof -F pcn` prints.
mod Tests
pub mod Fields
use vs_vpn.Prelude.{
  ℕ, [], ◌∷◌, ◌++◌, Bytes, Bool, true, false, List, Option, none, some, ◌==◌, if◌then◌else◌,
}
use vs_vpn.Std.Asserts.{codes}
use vs_vpn.Std.Utf8.{from_utf8_lossy}
use vs_vpn.Std.Text.{lines, trim, parse_unsigned}
use vs_vpn.Std.Format.{show}

pub record ProcessInfo : Type 0 where
  pub pid : ℕ
  pub name : Bytes

-- `Display`
unfoldable pub display : ProcessInfo → Bytes
display info = info.name ++ b'(' ∷ (show info.pid ++ b')' ∷ [])

-- A command line of the output answers where a process number is known.
abbrev pub named : Option ℕ → Bytes → Option ProcessInfo → Option ProcessInfo
named (some p) name rest = some (record { pid = p; name = name })
named none name rest = rest

-- The loop over the lines, trimmed.
unfoldable pub scan : (pid : Option ℕ) → List Bytes → Option ProcessInfo
scan pid [] = none
scan pid (line ∷ later) = elim (trim line) [
  | [] ↦ scan pid later
  | c ∷ field ↦
      let renumbered = scan (parse_unsigned 4294967295 field) later in
      let rest = scan pid later in
      if c == b'p' then renumbered else if c == b'c' then named pid field rest else rest
]

unfoldable pub parse_lsof_f : Bytes → Option ProcessInfo
parse_lsof_f stdout = scan none (lines stdout)

-- "/usr/sbin/lsof" and its arguments for an address, given by the text of its host
abbrev lsof_program : Bytes
lsof_program = codes "/usr/sbin/lsof"

unfoldable pub lsof_args : (host : Bytes) (port : ℕ) → List Bytes
lsof_args host port =
    let filter = codes "TCP@" ++ (host ++ b':' ∷ show port) in
    codes "-n" ∷ codes "-P" ∷ codes "-i" ∷ filter ∷ codes "-F" ∷ codes "pcn" ∷ []

-- `lsof` runs a program with arguments: what it has printed, or nothing where it could not be run.
module _ (lsof : (program : Bytes) (args : List Bytes) → Option Bytes) where
  abbrev parsed : Option Bytes → Option ProcessInfo
  parsed none = none
  parsed (some stdout) = parse_lsof_f (from_utf8_lossy stdout)

  -- On macOS; elsewhere no process is ever found.
  unfoldable pub identify_peer_impl :
      (macos : Bool) → (host : Bytes) (port : ℕ) → Option ProcessInfo
  identify_peer_impl true host port = parsed (lsof lsof_program (lsof_args host port))
  identify_peer_impl false host port = none

  -- The local address is not looked at.
  unfoldable pub identify_peer :
      (macos : Bool) → (peer_addr local_addr : Bytes × ℕ) → Option ProcessInfo
  identify_peer macos (host, port) local_addr = identify_peer_impl macos host port
