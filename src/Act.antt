-- ===== src/Act.antt =====
-- Actions on a mutable state that may fail: what was changed before a failure stays changed.
use vs_vpn.Prelude.{ℕ, zero, suc, ◌≡◌, Bool, true, false, Option, none, some}
use vs_vpn.Outcome.{Message, Error, io, text, Outcome, ok, err, panic}

abbrev pub Act {ℓ κ} : Type ℓ → Type κ → Type (ℓ ⊔ κ)
Act S A = S → Outcome A × S

module _ {ℓ κ} {S : Type ℓ} {A : Type κ} where
  abbrev pub pure : A → Act S A
  pure a s = (ok a, s)

  abbrev pub fail : Error → Act S A
  fail e s = (err e, s)

  abbrev pub crash : Act S A
  crash s = (panic, s)

  abbrev pub lift : Outcome A → Act S A
  lift r s = (r, s)

module _ {ℓ κ μ} {S : Type ℓ} {A : Type κ} {B : Type μ} where
  abbrev pub continue : (A → Act S B) → Outcome A → Act S B
  continue f (ok a) s = f a s
  continue f (err e) s = (err e, s)
  continue f panic s = (panic, s)

  infixl 5 ◌>>=◌
  abbrev pub ◌>>=◌ : Act S A → (A → Act S B) → Act S B
  ◌>>=◌ m f s = let (r, s') = m s in continue f r s'

infixl 5 ◌>>◌
abbrev pub ◌>>◌ {ℓ μ} : {S : Type ℓ} {B : Type μ} → Act S (Unit {0}) → Act S B → Act S B
m >> k = m >>= λ _. k

-- `r.map_err(f)`
abbrev pub map_err_outcome {κ} : {A : Type κ} → (Error → Error) → Outcome A → Outcome A
map_err_outcome f (ok a) = ok a
map_err_outcome f (err e) = err (f e)
map_err_outcome f panic = panic

pub map_err-ok {κ} :
    {A : Type κ} (f : Error → Error) (m : Outcome A) {a : A} → map_err_outcome f m ≡ ok a → m ≡ ok a
map_err-ok f (ok a) h = h
map_err-ok f (err e) h = absurd (cc)
map_err-ok f panic h = absurd (cc)

module _ {ℓ κ} {S : Type ℓ} {A : Type κ} where
  abbrev pub map_err : (Error → Error) → Act S A → Act S A
  map_err f m s = let (r, s') = m s in (map_err_outcome f r, s')

-- `r.expect("…")`
abbrev pub expect_outcome {κ} : {A : Type κ} → Outcome A → Outcome A
expect_outcome (ok a) = ok a
expect_outcome (err e) = panic
expect_outcome panic = panic

module _ {ℓ κ} {S : Type ℓ} {A : Type κ} where
  abbrev pub expect : Act S A → Act S A
  expect m s = let (r, s') = m s in (expect_outcome r, s')

-- `io::Error::new(e.kind(), format!("…: {e}"))`
abbrev pub relabel : (Message → Message) → Error → Error
relabel f (io kind m) = io kind (f m)
relabel f (text m) = text (f m)

-- Run an action on a part of the state.
module _ {ℓ κ μ} {S : Type ℓ} {T : Type μ} {A : Type κ} where
  abbrev pub on : (S → T) → (T → S → S) → Act T A → Act S A
  on get put m s = let (r, t) = m (get s) in (r, put t s)

-- `loop { … }` with a body that answers `true` where it breaks; `none` where the rounds ran out.
module _ {ℓ} {S : Type ℓ} where
  unfoldable pub repeat : ℕ → Act S Bool → Act S (Option (Unit {0}))
  repeat zero body = pure none
  repeat (suc rounds) body = do
    done ← body
    elim done [ true ↦ pure (some tt) | false ↦ repeat rounds body ]

  pub repeat-break :
      (rounds : ℕ) (body : Act S Bool) (s s' : S)
      → body s ≡ (ok true, s')
      → repeat (suc rounds) body s ≡ (ok (some tt), s')
  unfolding repeat
  repeat-break rounds body s s' h = rw h

  pub repeat_again :
      (rounds : ℕ) (body : Act S Bool) (s s' : S)
      → body s ≡ (ok false, s')
      → repeat (suc rounds) body s ≡ repeat rounds body s'
  unfolding repeat
  repeat_again rounds body s s' h = rw h
