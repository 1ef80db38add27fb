-- ===== src/Io.antt =====
-- What the source uses of tokio: reading and writing a byte stream. The operations are parameters;
-- `Wire` states what tokio documents of them.
pub mod Listening
pub mod Pipe
use vs_vpn.Prelude.{
  ℕ, zero, suc, ◌<◌, ◌≤◌, ◌≡◌, ◌≢◌, refl, [], ◌∷◌, ◌++◌, Bytes, Bool, true, false, length, take,
  drop, ltb, if◌then◌else◌, take-append, drop-append, le→ltb, lt→ltb, length-append, arith,
  take-append-drop,
}
use vs_vpn.Outcome.{Outcome, Message, ok, err, io, unexpected_eof, library}
use vs_vpn.Act.{Act}

pub record Io : Type 1 where
  pub Stream : Type 0
  -- `stream.read_exact(&mut buf[..n])`: the bytes that fill the buffer
  pub read_exact : ℕ → Act Stream Bytes
  -- `stream.read(&mut buf)` with a buffer of n bytes: what was read, nothing at the end
  pub read : ℕ → Act Stream Bytes
  -- `stream.write_all(bytes)`
  pub write_all : Bytes → Act Stream (Unit {0})
  -- one turn of `tokio::io::copy` from the first stream to the second: `true` where it is finished
  pub copy_turn : Act (Stream × Stream) Bool

-- The bytes that have arrived at a stream and are not read yet, those that were written to it,
-- whether the peer has closed its side, and whether the peer takes what is written.
pub record Wire (tokio : Io) : Type 0 where
  pub arrived : tokio.Stream → Bytes
  pub sent : tokio.Stream → Bytes
  pub closed : tokio.Stream → Bool
  pub accepting : tokio.Stream → Bool
  pub read_exact_arrived :
      (s : tokio.Stream) (bytes rest : Bytes)
      → arrived s ≡ bytes ++ rest
      → (s' : tokio.Stream) × (tokio.read_exact (length bytes) s ≡ (ok bytes, s'))
        × (arrived s' ≡ rest)
        × (sent s' ≡ sent s)
        × (closed s' ≡ closed s)
        × (accepting s' ≡ accepting s)
  pub read_exact_eof :
      (s : tokio.Stream) (n : ℕ)
      → closed s ≡ true
      → length (arrived s) < n
      → (s' : tokio.Stream) × (m : Message) × (tokio.read_exact n s
          ≡ (err (io unexpected_eof m), s'))
  pub read_arrived :
      (s : tokio.Stream) (n : ℕ)
      → 0 < n
      → arrived s ≢ []
      → (s' : tokio.Stream) × (chunk : Bytes) × (tokio.read n s ≡ (ok chunk, s'))
        × (arrived s ≡ chunk ++ arrived s')
        × (1 ≤ length chunk)
        × (length chunk ≤ n)
        × (closed s' ≡ closed s)
        × (sent s' ≡ sent s)
        × (accepting s' ≡ accepting s)
  pub read_eof :
      (s : tokio.Stream) (n : ℕ)
      → closed s ≡ true
      → arrived s ≡ []
      → (s' : tokio.Stream) × (tokio.read n s ≡ (ok [], s'))
        × (sent s' ≡ sent s)
        × (accepting s' ≡ accepting s)
  pub write_all_accepting :
      (s : tokio.Stream) (bytes : Bytes)
      → accepting s ≡ true
      → (s' : tokio.Stream) × (tokio.write_all bytes s ≡ (ok tt, s'))
        × (sent s' ≡ sent s ++ bytes)
        × (arrived s' ≡ arrived s)
        × (closed s' ≡ closed s)
        × (accepting s' ≡ true)
