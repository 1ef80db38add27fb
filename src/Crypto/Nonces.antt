-- ===== src/Crypto/Nonces.antt =====
-- The calls of the cipher behind the frames on the wire, and their nonces.
use vs_vpn.Prelude.{
  ℕ, ◌+◌, ◌%◌, ◌^◌, ◌≤◌, ◌<◌, ◌≡◌, ◌≢◌, ap, ◌∙◌, [], ◌∷◌, ◌++◌, arith, Bytes, List, some, length,
  length-append, All, All-map, Option-cases, inl, inr,
}
use vs_vpn.Outcome.{ok, err, ok_or, ok_or-ok, invalid_key, encryption_error}
use vs_vpn.Crypto.Primitives.{Suite}
use vs_vpn.Crypto.{io_err, full_nonce, seal}
use vs_vpn.Crypto.Frames.{framed, after}
use vs_vpn.Crypto.Counters.{full_nonce-injective}

-- `SealedFrames key n bytes nonces plain m`: the bytes are frames of what the cipher has answered for the
-- key, one nonce after the other, that of `n` first, to non-empty texts that are `plain` together; the
-- nonces are listed with the last one first, and `m` is the counter behind it.
pub data SealedFrames (crypto : Suite) (key : Bytes) (n : ℕ)
    : Bytes → List Bytes → Bytes → ℕ → Type 0 where
  no_frames : SealedFrames crypto key n [] [] [] n
  one_more :
      {bytes plain : Bytes} {nonces : List Bytes} {m : ℕ} (cipher : crypto.Cipher)
      (chunk ciphertext : Bytes)
      → crypto.new_from_slice key ≡ some cipher
      → crypto.encrypt cipher (full_nonce m) chunk ≡ some ciphertext
      → 1 ≤ length chunk
      → SealedFrames crypto key n bytes nonces plain m
      → SealedFrames crypto key n
          (bytes ++ framed ciphertext)
          (full_nonce m ∷ nonces)
          (plain ++ chunk)
          (after m)

abbrev pub AllDifferent : List Bytes → Type 0
AllDifferent [] = Unit
AllDifferent (x ∷ xs) = All (λ y. x ≢ y) xs × AllDifferent xs

-- What `seal` asks the cipher.
pub seal-encrypt :
    (crypto : Suite) (key : Bytes) (n : ℕ) (chunk ciphertext : Bytes)
    → seal crypto key n chunk ≡ ok ciphertext
    → (cipher : crypto.Cipher) × (crypto.new_from_slice key ≡ some cipher)
      × (crypto.encrypt cipher (full_nonce n) chunk ≡ some ciphertext)
unfolding seal
seal-encrypt crypto key n chunk ct h = elim (Option-cases (crypto.new_from_slice key)) [
  | inl e ↦ let h' : err (io_err invalid_key) ≡ ok ct = rw (e, seal) at h in absurd (cc)
  | inr (cipher, e) ↦
      let h' : ok_or (crypto.encrypt cipher (full_nonce n) chunk) (io_err (encryption_error n))
          ≡ ok ct =
        rw (e, seal) at h in
      (cipher, e, ok_or-ok (crypto.encrypt cipher (full_nonce n) chunk) _ h')
]

-- The nonce of one of the first `k` counters from `n` on
abbrev IsNonce : (n k : ℕ) (nonce : Bytes) → Type 0
IsNonce n k nonce = (j : ℕ) × (j < k) × (nonce ≡ full_nonce ((n + j) % 2 ^ 64))

record Counting (n m : ℕ) (nonces : List Bytes) (plain : Bytes) : Type 0 where
  last : m ≡ (n + length nonces) % 2 ^ 64
  few : length nonces ≤ length plain
  counted : All (IsNonce n (length nonces)) nonces
  different : AllDifferent nonces

module _ (crypto : Suite) (key : Bytes) (n : ℕ) (small : n < 2 ^ 64) where
  SealedFrames-Counting :
      {bytes plain : Bytes} {nonces : List Bytes} {m : ℕ}
      → length plain ≤ 2 ^ 64
      → SealedFrames crypto key n bytes nonces plain m
      → Counting n m nonces plain
  SealedFrames-Counting short no_frames = record {
    last = omega (arith, small);
    few = omega arith;
    counted = tt;
    different = tt;
  }
  SealedFrames-Counting short (one_more {plain} {nonces} {m} cipher chunk ct made sealed some_ fs) =
      let i : Counting n m nonces plain =
        SealedFrames-Counting (omega (arith, length-append plain chunk)) fs in
      let k : length nonces < 2 ^ 64 = omega (arith, i.few, length-append plain chunk) in
      record {
        last = omega (arith, i.last);
        few = omega (arith, i.few, length-append plain chunk);
        counted = (
          (length nonces, omega arith, ap full_nonce i.last),
          All-map (λ x (j, h, e). (j, omega (arith, h), e)) nonces i.counted,
        );
        different = (
          All-map {P = IsNonce n (length nonces)} {Q = λ y. full_nonce m ≢ y}
              (λ x (j, h, e) same.
                let e' : m ≡ (n + j) % 2 ^ 64 =
                  full_nonce-injective m ((n + j) % 2 ^ 64) (omega (arith, i.last)) (omega arith)
                    (same ∙ e) in
                omega (arith, e', i.last, h, k))
              nonces i.counted,
          i.different,
        );
      }

  -- With fewer than 2 ^ 64 bytes in them, frames have pairwise different nonces.
  pub SealedFrames-AllDifferent :
      {bytes plain : Bytes} {nonces : List Bytes} {m : ℕ}
      → length plain ≤ 2 ^ 64
      → SealedFrames crypto key n bytes nonces plain m
      → AllDifferent nonces
  SealedFrames-AllDifferent short fs = (SealedFrames-Counting short fs).different
