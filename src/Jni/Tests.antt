-- ===== src/Jni/Tests.antt =====
-- Runs of the bridge, and the theorems at concrete inputs.
use vs_vpn.Prelude.{
  ◌*◌, ◌≡◌, refl, [], ◌∷◌, Bytes, true, false, List, Option, none, some, length, ltb, if◌then◌else◌,
}
use vs_vpn.Outcome.{Outcome, ok}
use vs_vpn.Io.Pipe.{End}
use vs_vpn.Cli.{parse_secret}
use vs_vpn.Std.Text.{trim, lines}
use vs_vpn.Std.Utf8.{from_utf8_lossy}
use vs_vpn.Jni.{
  Platform, initial, parse_secret_opt, native_stop, begin_start, finish_start, tee_write, joined,
  native_poll_logs,
}
use vs_vpn.Jni.Calls.{stopped_world, second_check, overlapping, overlapping-running, IsSingle}
use vs_vpn.Jni.Interleaved.{
  Bridge, loaded, Reach, here, later, begins, finishes, stops, Reach-running,
}
use vs_vpn.Jni.Log.{Use, write, poll}
use vs_vpn.Jni.Secret.{accepted, parse_secret_opt-parse_secret}

-- Two lines, one of them blank.
logged :
    tee_write (ok tt) (32 ∷ b'o' ∷ b'k' ∷ 13 ∷ 10 ∷ 9 ∷ 10 ∷ b'x' ∷ []) initial
    ≡ (ok 8, record initial { log_buf = (b'o' ∷ b'k' ∷ []) ∷ (b'x' ∷ []) ∷ [] })
unfolding tee_write from_utf8_lossy lines trim
logged = refl

-- A JVM whose strings are their bytes, and which makes none of more than three bytes.
abbrev platform : Platform
platform = record {
  rendered = λ event. b'e' ∷ 10 ∷ [];
  stderr = λ bytes. ok tt;
  JString = Bytes;
  new_string = λ text_. if ltb 3 (length text_) then none else some text_;
}

polled :
    (native_poll_logs platform (record initial { log_buf = (1 ∷ []) ∷ (2 ∷ []) ∷ [] })).0
    ≡ some (1 ∷ 10 ∷ 2 ∷ [])
unfolding native_poll_logs joined
polled = refl

-- The lines are gone though the application has got nothing.
lost :
    native_poll_logs platform (record initial { log_buf = (1 ∷ 2 ∷ []) ∷ (3 ∷ []) ∷ [] })
    ≡ (none, initial)
unfolding native_poll_logs joined
lost = refl

-- A start, a stop between its two sections, a poll, and a second start that is refused.
abbrev b₁ : Bridge
b₁ = record {
  world = (begin_start platform [] [] initial).1;
  pending = (begin_start platform [] [] initial).0;
}

abbrev b₂ : Bridge
b₂ = record b₁ { world = (native_stop platform b₁.world).1 }

abbrev b₃ : Bridge
b₃ = record { world = (finish_start platform 0 (some 1080) b₂.world).1; pending = none }

abbrev b₄ : Bridge
b₄ = record {
  world = (begin_start platform [] [] b₃.world).1;
  pending = (begin_start platform [] [] b₃.world).0;
}

waits : b₂.pending ≡ some 0
unfolding begin_start
waits = refl

reached : Reach platform loaded b₄
reached =
    later
      (later (later (later here (begins loaded [] [] refl)) (stops b₁))
        (finishes b₂ 0 (some 1080) waits))
      (begins b₃ [] [] refl)

Reach-running_example : IsSingle b₄.world × ((native_stop platform b₄.world).1.running ≡ [])
Reach-running_example = Reach-running platform b₄ reached

abbrev log : List Use
log = write (ok tt) (b'o' ∷ b'k' ∷ 10 ∷ 10 ∷ b'x' ∷ 10 ∷ []) ∷ poll ∷ write (ok tt) (b'y' ∷ []) ∷ []

overlapping-running_example :
    ((begin_start platform [] [] (stopped_world platform [] 4)).0 ≡ some 4)
    × ((second_check platform [] [] (stopped_world platform [] 4)).0 ≡ some 5)
    × ((native_stop platform (overlapping platform [] [] 80 81 (stopped_world platform [] 4))).0
        ≡ true)
    × ((native_stop platform
          (native_stop platform
            (overlapping platform [] [] 80 81 (stopped_world platform [] 4))).1).0
        ≡ false)
    × ((native_stop platform
          (native_stop platform
            (overlapping platform [] [] 80 81 (stopped_world platform [] 4))).1).1.running
        ≡ 4 ∷ [])
overlapping-running_example = overlapping-running platform [] [] 80 81 4 []

-- A decoder that refuses all but the text without a character.
abbrev decode : Bytes → Option Bytes
decode [] = some []
decode (c ∷ s) = none

decode-length : (t bytes : Bytes) → decode t ≡ some bytes → length t ≡ 2 * length bytes
decode-length [] [] e = refl
decode-length [] (b ∷ bs) e = absurd cc
decode-length (c ∷ s) bytes e = absurd cc

parse_secret_opt-parse_secret_example :
    parse_secret_opt decode (some (1 ∷ [])) ≡ accepted (parse_secret decode (1 ∷ []))
parse_secret_opt-parse_secret_example = parse_secret_opt-parse_secret decode (1 ∷ []) decode-length

refused : accepted (parse_secret decode (1 ∷ [])) ≡ none
unfolding parse_secret
refused = refl

abbrev dial : Bytes → Outcome End
dial _ = ok (record { arrived = []; sent = [] })
