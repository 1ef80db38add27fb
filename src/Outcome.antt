-- ===== src/Outcome.antt =====
-- What a call comes back with (a value, an error or a panic), and the actions that change a state.
-- `Error` joins `std::io::Error`, with its kind, and `Box<dyn Error>` made from a text.
use vs_vpn.Prelude.{ℕ, ◌≡◌, ◌⊎◌, inl, inr, refl, Bytes, Option, none, some}

-- The texts of the errors, without their wording. `library` is an error of code outside the source.
pub data Message : Type 0 where
  library : ℕ → Message
  operation_read : Message → Message
  operation_write : Message → Message
  hkdf_expand : Message
  invalid_key : Message
  plaintext_too_large : ℕ → Message
  encryption_error : ℕ → Message
  frame_too_short : ℕ → Message
  decryption_error : ℕ → Message
  empty_header : Message
  unsupported_address_type : ℕ → Message
  header_too_short_ipv4 : Message
  header_too_short_domain : Message
  header_too_short_ipv6 : Message
  no_authentication_unsupported : Message
  unsupported_command : Message
  server_closed : Message
  server_rejected : ℕ → Message
  client_closed : Message
  invalid_address : Bytes → Message
  invalid_port : Message
  unresolved : Bytes → Message
  endpoint_closed : Message
  invalid_quic_tls : Message → Message
  endpoint_creation : Message → Message
  connect_with : Message → Message
  handshake : Message → Message
  cert_generation : Message → Message
  no_certificate : Message
  no_private_key : Message
  invalid_socket_address : Message
  invalid_hex_key : Message
  key_length : ℕ → Message
  fingerprint_not_implemented : Message
  quic_requires_verification : Message

pub data ErrorKind : Type 0 where
  unexpected_eof : ErrorKind
  other : ErrorKind
  system : ℕ → ErrorKind

pub data Error : Type 0 where
  io : ErrorKind → Message → Error
  text : Message → Error

pub data Outcome {ℓ} (A : Type ℓ) : Type ℓ where
  ok : A → Outcome A
  err : Error → Outcome A
  panic : Outcome A

-- What `Display` prints of an error
abbrev pub message : Error → Message
message (io kind m) = m
message (text m) = m

abbrev pub IsOk {ℓ} : {A : Type ℓ} → Outcome A → Type 0
IsOk (ok a) = Unit
IsOk (err e) = ⊥
IsOk panic = ⊥

infixl 5 ◌>>=◌ ◌>>◌
abbrev pub ◌>>=◌ {ℓ κ} : {A : Type ℓ} {B : Type κ} → Outcome A → (A → Outcome B) → Outcome B
ok a >>= f = f a
err e >>= f = err e
panic >>= f = panic

abbrev pub ◌>>◌ {ℓ} : {B : Type ℓ} → Outcome (Unit {0}) → Outcome B → Outcome B
m >> k = m >>= λ _. k

-- `o.ok_or(e)?`
abbrev pub ok_or {ℓ} : {A : Type ℓ} → Option A → Error → Outcome A
ok_or none e = err e
ok_or (some a) e = ok a

pub Outcome-cases {ℓ} :
    {A : Type ℓ} (r : Outcome A)
    → ((a : A) × (r ≡ ok a)) ⊎ ((e : Error) × (r ≡ err e)) ⊎ (r ≡ panic)
Outcome-cases (ok a) = inl (a, refl)
Outcome-cases (err e) = inr (inl (e, refl))
Outcome-cases panic = inr (inr refl)

pub ok_injective {ℓ} : {A : Type ℓ} {a b : A} → ok a ≡ ok b → a ≡ b
ok_injective h = cc

-- What a chain that comes to a value has come through.
pub bind-ok {ℓ κ} :
    {A : Type ℓ} {B : Type κ} (m : Outcome A) (f : A → Outcome B) {b : B}
    → m >>= f ≡ ok b
    → (a : A) × (m ≡ ok a) × (f a ≡ ok b)
bind-ok (ok a) f h = (a, refl, h)
bind-ok (err e) f h = absurd (cc)
bind-ok panic f h = absurd (cc)

pub ok_or-ok {ℓ} : {A : Type ℓ} (o : Option A) (e : Error) {a : A} → ok_or o e ≡ ok a → o ≡ some a
ok_or-ok none e h = absurd (cc)
ok_or-ok (some a) e h = cc
