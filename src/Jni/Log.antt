-- ===== src/Jni/Log.antt =====
-- The log between two starts: a queue of lines.
use vs_vpn.Prelude.{refl, [], ◌∷◌, ◌++◌, Bytes, List, Option, ◌≢◌}
use mathlib.Core.List.{filter, map}
use vs_vpn.Std.Text.{lines, trim}
use vs_vpn.Std.Utf8.{from_utf8_lossy}
use vs_vpn.Outcome.{Outcome, ok, err, panic}
use vs_vpn.Jni.{World, Platform, tee_write, joined, native_poll_logs}

-- A write of the subscriber, or a call of `nativePollLogs`.
pub data Use : Type 0 where
  write : (copied : Outcome (Unit {0})) → Bytes → Use
  poll : Use

abbrev pub is_text : (line : Bytes) → Dec (line ≢ [])
is_text [] = no (λ h. h refl)
is_text (c ∷ cs) = yes (λ e. cc)

-- The lines of a text without the white space around each, less the empty ones
abbrev pub text_lines : Bytes → List Bytes
text_lines text = filter is_text (map trim (lines text))

-- What a write of the subscriber gives to the log
abbrev pub kept_of : Outcome (Unit {0}) → Bytes → List Bytes
kept_of (ok _) data_ = text_lines (from_utf8_lossy data_)
kept_of (err e) data_ = []
kept_of panic data_ = []

-- The lines that are not blank, of all writes that stderr has taken
abbrev pub written : List Use → List Bytes
written [] = []
written (write copied data_ ∷ later) = kept_of copied data_ ++ written later
written (poll ∷ later) = written later

module _ (platform : Platform) where
  open platform use {JString, new_string}

  -- What the polls answer, and the world behind them.
  abbrev pub uses : List Use → World → List (Option JString) × World
  uses [] w = ([], w)
  uses (write copied data_ ∷ later) w = uses later (tee_write copied data_ w).1
  uses (poll ∷ later) w =
      let (answers, end) = uses later (native_poll_logs platform w).1 in
      ((native_poll_logs platform w).0 ∷ answers, end)

  abbrev pub joined_all : List (List Bytes) → List (Option JString)
  joined_all [] = []
  joined_all (ls ∷ more) = new_string (joined ls) ∷ joined_all more
