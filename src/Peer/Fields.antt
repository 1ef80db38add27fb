-- ===== src/Peer/Fields.antt =====
-- Which fields of the output decide.
use vs_vpn.Prelude.{
  ℕ, ◌<◌, ◌≡◌, ◌≢◌, refl, ◌∙◌, [], ◌∷◌, ◌++◌, arith, Bytes, false, List, Option, none, some, ◌==◌,
  Bool-cases, inl, inr,
}
use vs_vpn.Std.Text.{trim, parse_unsigned}
use vs_vpn.Std.Text.Numbers.{parse_unsigned-show}
use vs_vpn.Std.Format.{show}
use vs_vpn.Peer.{scan}

-- A line that is blank, or whose field is neither a process number nor, where one is known, a command.
pub data Passed (pid : Option ℕ) (line : Bytes) : Type 0 where
  blank : trim line ≡ [] → Passed pid line
  field : (c : ℕ) (rest : Bytes) → trim line ≡ c ∷ rest → c ≢ b'p' → c ≢ b'c' → Passed pid line
  too_early : (rest : Bytes) → trim line ≡ b'c' ∷ rest → pid ≡ none → Passed pid line

pub data AllPassed (pid : Option ℕ) : List Bytes → Type 0 where
  nil : AllPassed pid []
  cons :
      {line : Bytes} {lines : List Bytes}
      → Passed pid line
      → AllPassed pid lines
      → AllPassed pid (line ∷ lines)

-- A line that is blank, or whose field is not a command: a process number that can be read or not, too.
pub data NoCommand (line : Bytes) : Type 0 where
  blank_line : trim line ≡ [] → NoCommand line
  other_field : (c : ℕ) (rest : Bytes) → trim line ≡ c ∷ rest → c ≢ b'c' → NoCommand line

pub data NoCommands : List Bytes → Type 0 where
  no_lines : NoCommands []
  and_line :
      {line : Bytes} {lines : List Bytes}
      → NoCommand line
      → NoCommands lines
      → NoCommands (line ∷ lines)

differs : (x c : ℕ) → x ≢ c → (x == c) ≡ false
differs x c k = ground arith

scan-Passed :
    (pid : Option ℕ) (line : Bytes) (later : List Bytes)
    → Passed pid line
    → scan pid (line ∷ later) ≡ scan pid later
unfolding scan
scan-Passed pid line later (blank e) = rw (scan, e) refl
scan-Passed pid line later (field c rest e h k) =
    rw (scan, e, differs c b'p' h, differs c b'c' k) refl
scan-Passed pid line later (too_early rest e h) = rw (scan, e, h) refl

scan-AllPassed :
    (pid : Option ℕ) (lines later : List Bytes)
    → AllPassed pid lines
    → scan pid (lines ++ later) ≡ scan pid later
scan-AllPassed pid _ later nil = refl
scan-AllPassed pid _ later (cons {line} {lines} h hs) =
    scan-Passed pid line (lines ++ later) h ∙ scan-AllPassed pid lines later hs

-- Only the number that is known changes on lines without a command.
scan-NoCommand :
    (pid : Option ℕ) (line : Bytes)
    → NoCommand line
    → (q : Option ℕ) × ((later : List Bytes) → scan pid (line ∷ later) ≡ scan q later)
scan-NoCommand pid line (blank_line e) = (pid, λ later. scan-Passed pid line later (blank e))
scan-NoCommand pid line (other_field c rest e k) = elim (Bool-cases (c == b'p')) [
  | inl number ↦ (parse_unsigned 4294967295 rest, λ later. unfold scan in rw (scan, e, number) refl)
  | inr other ↦ (pid, λ later. unfold scan in rw (scan, e, other, differs c b'c' k) refl)
]

scan-NoCommands :
    (pid : Option ℕ) (lines : List Bytes)
    → NoCommands lines
    → (q : Option ℕ) × ((later : List Bytes) → scan pid (lines ++ later) ≡ scan q later)
scan-NoCommands pid _ no_lines = (pid, λ later. refl)
scan-NoCommands pid _ (and_line {line} {lines} h hs) =
    let (q, first) = scan-NoCommand pid line h in
    let (q', others) = scan-NoCommands q lines hs in
    (q', λ later. first (lines ++ later) ∙ others later)

-- The answer is the first command of the output that stands behind a process number, with the last such
-- number before it, below 2 ^ 32. The output has first any lines without a process number, where commands
-- are passed over, then any lines without a command, with other process numbers, readable or not, among
-- them; then the line with the number, behind it lines with neither, and the line with the command.
-- Whatever follows has no effect.
pub scan-first :
    (early unnamed between later : List Bytes) (number command name : Bytes) (pid : ℕ)
    → pid < 4294967296
    → AllPassed none early
    → NoCommands unnamed
    → trim number ≡ b'p' ∷ show pid
    → AllPassed (some pid) between
    → trim command ≡ b'c' ∷ name
    → scan none (early ++ (unnamed ++ number ∷ (between ++ command ∷ later)))
      ≡ some (record { pid = pid; name = name })
scan-first early unnamed between later number command name pid h passed nameless is_number passed'
      is_command =
    scan-AllPassed none early _ passed
    ∙ (scan-NoCommands none unnamed nameless).1 _
    ∙ at_number (scan-NoCommands none unnamed nameless).0
    ∙ scan-AllPassed (some pid) between _ passed'
    ∙ at_command
  where
    at_number :
        (q : Option ℕ)
        → scan q (number ∷ (between ++ command ∷ later))
          ≡ scan (some pid) (between ++ command ∷ later)
    at_number q =
        unfold scan in
        rw (scan, is_number, parse_unsigned-show 4294967295 pid (omega arith) (omega arith)) refl

    at_command : scan (some pid) (command ∷ later) ≡ some (record { pid = pid; name = name })
    at_command = unfold scan in rw (scan, is_command) refl
