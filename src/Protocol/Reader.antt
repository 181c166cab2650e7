-- ===== src/Protocol/Reader.antt =====
-- Readers of a byte span behind a moving offset: `input` stays, `std::size_t& offset` is the state.
use log_bridge.Base.{ℕ, ◌+◌, ◌≡◌, Exception, Result, ok, err, Bool}
use log_bridge.Base as Base
use log_bridge.Message.{Bytes}

abbrev pub Reader : Type 0 → Type 0
Reader A = Bytes → ℕ → Result (A × ℕ)

module _ {A : Type 0} where
  unfoldable pub pure : A → Reader A
  pure a input offset = ok (a, offset)

  unfoldable pub lift : Result A → Reader A
  lift (ok a) input offset = ok (a, offset)
  lift (err e) input offset = err e

module _ {A B : Type 0} where
  abbrev pub resume : Result (A × ℕ) → (A → Reader B) → Bytes → Result (B × ℕ)
  resume (ok (a, offset)) f input = f a input offset
  resume (err e) f input = err e

  infixl 5 ◌>>=◌
  unfoldable pub ◌>>=◌ : Reader A → (A → Reader B) → Reader B
  ◌>>=◌ m f input offset = resume (m input offset) f input

infixl 5 ◌>>◌
abbrev pub ◌>>◌ : {B : Type 0} → Reader (Unit {0}) → Reader B → Reader B
m >> k = m >>= λ _. k

abbrev pub throw_if : Bool → Exception → Reader (Unit {0})
throw_if test e = lift (Base.throw_if test e)
