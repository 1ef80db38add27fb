-- ===== src/Jni.antt =====
-- android/rust-jni/src/lib.rs: the proxy inside the Android application, its statics STATE and LOG_BUF,
-- and the calls from Kotlin. `nativeStart` takes the lock of STATE twice, so it is two steps here.
pub mod Calls
pub mod Interleaved
pub mod Log
pub mod Secret
mod Tests
use vs_vpn.Prelude.{
  ℕ, zero, suc, ◌+◌, [], ◌∷◌, ◌++◌, Bytes, Bool, true, false, not, List, Option, none, some, length,
  ◌==◌, if◌then◌else◌,
}
use vs_vpn.Std.Utf8.{from_utf8_lossy}
use vs_vpn.Std.Text.{lines, trim}
use vs_vpn.Outcome.{Outcome, ok, err, panic, Error}
use vs_vpn.Act.{Act}

-- `hex::decode`, and the test of the empty text before it
abbrev pub of_key_length : Bytes → Option Bytes
of_key_length bytes = if length bytes == 32 then some bytes else none

abbrev pub key_of : Option Bytes → Option Bytes
key_of none = none
key_of (some bytes) = of_key_length bytes

unfoldable pub parse_secret_opt : (decode : Bytes → Option Bytes) → Option Bytes → Option Bytes
parse_secret_opt decode none = none
parse_secret_opt decode (some []) = none
parse_secret_opt decode (some (c ∷ s)) = key_of (decode (c ∷ s))

-- The secret of `nativeStart`: a null pointer, or a text. The empty text is no secret.
unfoldable pub secret_text : Option Bytes → Option Bytes
secret_text none = none
secret_text (some []) = none
secret_text (some (c ∷ s)) = some (c ∷ s)

-- `secret_key`, with which `client::run` is called
unfoldable pub secret_key : (decode : Bytes → Option Bytes) (secret : Option Bytes) → Option Bytes
secret_key decode secret = parse_secret_opt decode (secret_text secret)

-- What the bridge logs.
pub data Event : Type 0 where
  already_running : Event
  starting : (listen server : Bytes) → Event
  proxy_error : Error → Event
  bound_to : (port : ℕ) → Event
  failed_to_bind : Event
  stopping stopped not_running : Event

-- The statics, and the threads of proxies. `state` is the number of the start whose `ProxyState` it
-- holds. `running` are the starts whose thread has bound its port and neither ended nor been cancelled.
pub record World : Type 0 where
  pub log_buf : List Bytes
  pub state : Option ℕ
  pub starts : ℕ
  pub running : List ℕ

abbrev pub initial : World
initial = record { log_buf = []; state = none; starts = 0; running = [] }

-- The lines of a text that are not blank, behind those of the buffer.
abbrev pub add_line : Bytes → List Bytes → List Bytes
add_line [] rest = rest
add_line (c ∷ cs) rest = (c ∷ cs) ∷ rest

abbrev pub kept : List Bytes → List Bytes
kept [] = []
kept (line ∷ later) = add_line (trim line) (kept later)

-- The bytes go to stderr first; where that fails, the buffer stays as it is.
abbrev teed : Outcome (Unit {0}) → Bytes → List Bytes → Outcome ℕ × List Bytes
teed (ok _) data_ buf = (ok (length data_), buf ++ kept (lines (from_utf8_lossy data_)))
teed (err e) data_ buf = (err e, buf)
teed panic data_ buf = (panic, buf)

-- `TeeWriter::write`; `copied` is what `io::stderr().write_all(data)` comes to.
unfoldable pub tee_write : (copied : Outcome (Unit {0})) → Bytes → Act World ℕ
tee_write copied data_ w =
    let (r, buf) = teed copied data_ w.log_buf in (r, record w { log_buf = buf })

-- `JNI_OnLoad`, on the state of the process; `try_init` sets a subscriber up, with colours or without,
-- with a filter and with the writer above.
module _ {Process : Type 0}
    (try_init : (ansi : Bool) (filter : Bytes) → Act Process (Unit {0})) where
  unfoldable pub init_logging : Process → Process
  init_logging process = (try_init false (b'd' ∷ b'e' ∷ b'b' ∷ b'u' ∷ b'g' ∷ []) process).1

  -- `JNI_VERSION_1_6` is 0x00010006.
  unfoldable pub jni_on_load : Process → ℕ × Process
  jni_on_load process = (0x00010006, init_logging process)

-- What the bridge takes from elsewhere: what tracing_subscriber writes for an event, what becomes of a
-- write to stderr, and the strings of the JVM, which it may fail to make.
pub record Platform : Type 1 where
  pub rendered : Event → Bytes
  pub stderr : Bytes → Outcome (Unit {0})
  pub JString : Type 0
  pub new_string : Bytes → Option JString

-- What remains when one proxy has ended.
unfoldable pub without : ℕ → List ℕ → List ℕ
without n [] = []
without n (m ∷ ms) = let rest = without n ms in if m == n then rest else m ∷ rest

-- What `nativeStart` returns: -2, -1, or the port.
pub data StartResult : Type 0 where
  minus_two minus_one : StartResult
  port : ℕ → StartResult

module _ (platform : Platform) where
  open platform use {rendered, stderr}

  -- A failed write of a log line is of no consequence to the code that logs.
  unfoldable pub emit : Event → World → World
  emit e w = (tee_write (stderr (rendered e)) (rendered e) w).1

  -- The first part of `nativeStart`, to the thread that it spawns: the number of the start, or `none`
  -- for the early return of -2.
  abbrev pub check_by : (listen server : Bytes) → Option ℕ → World → Option ℕ × World
  check_by listen server (some n) w = (none, emit already_running w)
  check_by listen server none w = (
    some w.starts,
    emit (starting listen server) (record w { log_buf = []; starts = suc w.starts }),
  )

  unfoldable pub begin_start : (listen server : Bytes) → World → Option ℕ × World
  begin_start listen server w = check_by listen server w.state w

  -- The rest of it, by what arrived at `ready_rx`: the port that `client::run` bound, or nothing.
  unfoldable pub finish_start : (start : ℕ) → Option ℕ → World → StartResult × World
  finish_start n (some p) w =
      let w' = emit (bound_to p) w in
      (port p, record w' { state = some n; running = n ∷ w'.running })
  finish_start n none w = (minus_one, emit failed_to_bind w)

  -- A start that no other call of the bridge comes between.
  abbrev pub finish_by : Option ℕ → Option ℕ × World → StartResult × World
  finish_by bound (none, w) = (minus_two, w)
  finish_by bound (some n, w) = finish_start n bound w

  unfoldable pub native_start :
      (listen server : Bytes) → (bound : Option ℕ) → World → StartResult × World
  native_start listen server bound w = finish_by bound (begin_start listen server w)

  -- The thread of a proxy ends by itself: `client::run` has failed.
  unfoldable pub proxy_ends : (start : ℕ) → Error → World → World
  proxy_ends n e w = let w' = emit (proxy_error e) w in record w' { running = without n w'.running }

  -- `state.take()`; the token is cancelled and the thread joined.
  abbrev pub stop_by : Option ℕ → World → Bool × World
  stop_by (some n) w =
      let w' = emit stopping (record w { state = none }) in
      (true, emit stopped (record w' { running = without n w'.running }))
  stop_by none w = (false, emit not_running w)

  unfoldable pub native_stop : World → Bool × World
  native_stop w = stop_by w.state w

-- `lines.drain(..)` and `join("\n")`
unfoldable pub joined : List Bytes → Bytes
joined [] = []
joined (l ∷ []) = l
joined (l ∷ m ∷ ms) = l ++ 10 ∷ joined (m ∷ ms)

-- `none` is the null pointer: `new_string` has failed.
unfoldable pub native_poll_logs : (platform : Platform) → World → Option platform.JString × World
native_poll_logs platform w = (platform.new_string (joined w.log_buf), record w { log_buf = [] })
