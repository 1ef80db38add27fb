-- ===== src/Crypto/Toy.antt =====
-- A stand-in for the cryptography, which meets what `IsAead` asks: the tag of a text is sixteen zeros.
use vs_vpn.Prelude.{
  ℕ, zero, suc, get_or, drop-append, ◌+◌, ◌%◌, drop, [], ◌∷◌, ◌-◌, ◌≡◌, refl, ap, ◌∙◌, ◌++◌, arith,
  Bytes, none, some, length, take, replicate, length-append, length-replicate, take-append, ◌==◌,
  if◌then◌else◌,
}
use vs_vpn.Std.Asserts.{equal_bytes, equal_bytes_refl}
use vs_vpn.Crypto.Primitives.{Suite, IsAead}

abbrev pub toy : Suite
toy = record {
  Cipher = Bytes;
  new_from_slice = λ key. if length key == 32 then some key else none;
  encrypt = λ key nonce plaintext. some (plaintext ++ replicate 16 0);
  decrypt = λ key nonce ciphertext. some (take (length ciphertext - 16) ciphertext);
  expand = λ psk info n. some (replicate n 7);
}

untagged :
    (plaintext : Bytes)
    → take (length (plaintext ++ replicate 16 0) - 16) (plaintext ++ replicate 16 0) ≡ plaintext
untagged plaintext =
    ap (λ (n : ℕ). take n (plaintext ++ replicate 16 0))
      (omega (arith, length-append plaintext (replicate 16 0)))
    ∙ take-append plaintext (replicate 16 0)

pub toy_laws : IsAead toy
toy_laws = record {
  new_from_slice_32 = λ key h. (key, rw h);
  encrypt_decrypt = λ key nonce plaintext _ _. (
    plaintext ++ replicate 16 0,
    refl,
    length-append plaintext (replicate 16 0),
    ap some (untagged plaintext),
  );
  expand_length = λ psk info n _. (replicate n 7, refl, length-replicate n 7);
}

-- The numbers from `n` on, as bytes
abbrev pub counting : ℕ → ℕ → Bytes
counting zero n = []
counting (suc k) n = (n % 256) ∷ counting k (n + 1)

abbrev tag : (key nonce : Bytes) → Bytes
tag key nonce = nonce ++ replicate 4 (get_or key 0 0)

-- A stand-in that looks at key and nonce, and meets `IsAead` too: the tag is the nonce and four times the
-- first byte of the key; keys are counted up from the number of bytes that they are derived from.
abbrev pub keyed : Suite
keyed = record {
  Cipher = Bytes;
  new_from_slice = λ key. if length key == 32 then some key else none;
  encrypt = λ key nonce plaintext. some (plaintext ++ tag key nonce);
  decrypt = λ key nonce ciphertext.
      if equal_bytes (drop (length ciphertext - 16) ciphertext) (tag key nonce)
      then some (take (length ciphertext - 16) ciphertext)
      else none;
  expand = λ psk info n. some (counting n (length psk + length info));
}

length-counting : (k n : ℕ) → length (counting k n) ≡ k
length-counting zero n = refl
length-counting (suc k) n = ap suc (length-counting k (n + 1))

length-tag : (key nonce : Bytes) → length nonce ≡ 12 → length (tag key nonce) ≡ 16
length-tag key nonce h = omega (arith, length-append nonce (replicate 4 (get_or key 0 0)))

opened_again :
    (key nonce plaintext : Bytes)
    → length nonce ≡ 12
    → keyed.decrypt key nonce (plaintext ++ tag key nonce) ≡ some plaintext
opened_again key nonce plaintext h =
    rw
      (
        cut_at,
        drop-append plaintext (tag key nonce),
        take-append plaintext (tag key nonce),
        equal_bytes_refl (tag key nonce),
      )
      refl
  where
    cut_at : length (plaintext ++ tag key nonce) - 16 ≡ length plaintext
    cut_at = omega (arith, length-append plaintext (tag key nonce), length-tag key nonce h)

pub keyed_laws : IsAead keyed
keyed_laws = record {
  new_from_slice_32 = λ key h. (key, rw h);
  encrypt_decrypt = λ key nonce plaintext h _. (
    plaintext ++ tag key nonce,
    refl,
    omega (arith, length-append plaintext (tag key nonce), length-tag key nonce h),
    opened_again key nonce plaintext h,
  );
  expand_length = λ psk info n _.
      (counting n (length psk + length info), refl, length-counting n (length psk + length info));
}
