-- ===== src/Exec.antt =====
-- Code with a state that may fail or answer early. What was done before a failure stays done, so
-- the state comes back beside the error. `E` is Go's `error`, or the response with which a handler
-- returns.
pub mod Keeps
pub mod Run
pub mod Yields
use mathlib.Core.Path.{◌≡◌, refl}
use mathlib.Core.Bool.{Bool, true, false}

pub data Result {ℓ} (E A : Type ℓ) : Type ℓ where
  ok : A → Result E A
  err : E → Result E A

abbrev pub Exec {ℓ} : Type ℓ → Type ℓ → Type ℓ → Type ℓ
Exec S E A = S → Result E A × S

module _ {ℓ} {S E A : Type ℓ} where
  unfoldable pub pure : A → Exec S E A
  pure a s = (ok a, s)

  unfoldable pub raise : E → Exec S E A
  raise e s = (err e, s)

  unfoldable pub lift : Result E A → Exec S E A
  lift r s = (r, s)

module _ {ℓ} {S E A B : Type ℓ} where
  abbrev pub go_on : Result E A → (A → Exec S E B) → Exec S E B
  go_on (ok a) f s = f a s
  go_on (err e) f s = (err e, s)

  infixl 10 ◌>>=◌ ◌>>◌
  -- Opening this opens `pure`, `raise` and `lift` too.
  unfoldable pub ◌>>=◌ : Exec S E A → (A → Exec S E B) → Exec S E B
  unfolding pure raise lift
  ◌>>=◌ m f s = let (r, s') = m s in go_on r f s'

  abbrev pub ◌>>◌ : Exec S E A → Exec S E B → Exec S E B
  m >> n = m >>= λ _. n

-- Return with `e` where the test holds.
abbrev pub stop_if {ℓ} : {S E : Type ℓ} → Bool → E → Exec S E (Unit {ℓ})
stop_if true e = raise e
stop_if false e = pure tt

-- `if err != nil { ... }` : the error, replaced or handled.
module _ {ℓ} {S E F A : Type ℓ} where
  abbrev pub handled : (E → Exec S F A) → Result E A → Exec S F A
  handled h (ok a) s = (ok a, s)
  handled h (err e) s = h e s

  unfoldable pub catch : Exec S E A → (E → Exec S F A) → Exec S F A
  catch m h s = let (r, s') = m s in handled h r s'

  -- `if err != nil { return f(err) }`
  unfoldable pub or_return : Exec S E A → (E → F) → Exec S F A
  unfolding catch raise
  or_return m f = catch m (λ e. raise (f e))

-- The outcome as a value: a caller that looks at the error itself.
unfoldable pub attempt {ℓ} : {S E A : Type ℓ} → Exec S E A → Exec S E (Result E A)
attempt m s = let (r, s') = m s in (ok r, s')

-- A handler's response, whichever way it returned.
abbrev pub answer {ℓ} : {E : Type ℓ} → Result E E → E
answer (ok r) = r
answer (err r) = r
