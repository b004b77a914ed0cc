-- ===== src/Exec/Keeps.antt =====
-- Invariants of actions, with a rule for each way to build one.
use meta_mcp.Prelude.{◌≡◌, refl, Bool, true, false, if◌then◌else◌}
use meta_mcp.Exec.{
  Result, ok, err, Exec, pure, raise, lift, go_on, ◌>>=◌, stop_if, handled, catch, or_return,
  attempt,
}

-- `m` leads from a state with `P` to a state with `P`, whether it returns or fails.
pub record Keeps {ℓ} {S E A : Type ℓ} (P : S → Type ℓ) (m : Exec S E A) : Type ℓ where
  pub at : (s : S) → P s → P (m s).1

module _ {ℓ} {S E A : Type ℓ} {P : S → Type ℓ} where
  pub Keeps-pure : (a : A) → Keeps P (pure {E = E} a)
  unfolding pure
  Keeps-pure a = record { at = λ s h. h }

  pub Keeps-raise : (e : E) → Keeps P (raise {A = A} e)
  unfolding raise
  Keeps-raise e = record { at = λ s h. h }

  pub Keeps-lift : (r : Result E A) → Keeps P (lift r)
  unfolding lift
  Keeps-lift r = record { at = λ s h. h }

  pub Keeps-if :
      (b : Bool) (m n : Exec S E A) → Keeps P m → Keeps P n → Keeps P (if b then m else n)
  Keeps-if true m n km kn = km
  Keeps-if false m n km kn = kn

  pub Keeps-attempt : (m : Exec S E A) → Keeps P m → Keeps P (attempt m)
  unfolding attempt
  Keeps-attempt m km = record { at = λ s h. km.at s h }

pub Keeps-stop_if {ℓ} :
    {S E : Type ℓ} {P : S → Type ℓ} (b : Bool) (e : E) → Keeps {S = S} P (stop_if b e)
Keeps-stop_if true e = Keeps-raise e
Keeps-stop_if false e = Keeps-pure tt

module _ {ℓ} {S E A B : Type ℓ} {P : S → Type ℓ} where
  go_on-keeps :
      (r : Result E A) (f : A → Exec S E B) (s : S)
      → ((a : A) → Keeps P (f a))
      → P s
      → P (go_on r f s).1
  go_on-keeps (ok a) f s kf h = (kf a).at s h
  go_on-keeps (err e) f s kf h = h

  pub Keeps-bind :
      (first : Exec S E A) (next : A → Exec S E B)
      → Keeps P first
      → ((a : A) → Keeps P (next a))
      → Keeps P (first >>= next)
  unfolding ◌>>=◌
  Keeps-bind first next kept each = record {
    at = λ before held.
        go_on-keeps (first before).0 next (first before).1 each (kept.at before held);
  }

module _ {ℓ} {S E A B : Type ℓ} {P : S → Type ℓ} where
  go_on-keeps_ok :
      (r : Result E A) (f : A → Exec S E B) (s : S)
      → ((a : A) → r ≡ ok a → Keeps P (f a))
      → P s
      → P (go_on r f s).1
  go_on-keeps_ok (ok a) f s kf h = (kf a refl).at s h
  go_on-keeps_ok (err e) f s kf h = h

  -- The rest is only for what the first action returned from some state.
  pub Keeps-bind_ok :
      (first : Exec S E A) (next : A → Exec S E B)
      → Keeps P first
      → ((s : S) (a : A) → (first s).0 ≡ ok a → Keeps P (next a))
      → Keeps P (first >>= next)
  unfolding ◌>>=◌
  Keeps-bind_ok first next kept each = record {
    at = λ before held.
        go_on-keeps_ok (first before).0 next (first before).1 (each before) (kept.at before held);
  }

module _ {ℓ} {S E F A : Type ℓ} {P : S → Type ℓ} where
  handled-keeps :
      (h : E → Exec S F A) (r : Result E A) (s : S)
      → ((e : E) → Keeps P (h e))
      → P s
      → P (handled h r s).1
  handled-keeps h (ok a) s kh p = p
  handled-keeps h (err e) s kh p = (kh e).at s p

  pub Keeps-catch :
      (m : Exec S E A) (h : E → Exec S F A)
      → Keeps P m
      → ((e : E) → Keeps P (h e))
      → Keeps P (catch m h)
  unfolding catch
  Keeps-catch m h km kh = record {
    at = λ s p. let (r, s') = m s in handled-keeps h r s' kh (km.at s p);
  }

  pub Keeps-or_return : (m : Exec S E A) (f : E → F) → Keeps P m → Keeps P (or_return m f)
  unfolding or_return
  Keeps-or_return m f km = Keeps-catch m (λ e. raise (f e)) km (λ e. Keeps-raise (f e))

pub ruleset keeps_rules = (
  Keeps-pure, Keeps-raise, Keeps-lift, Keeps-if, Keeps-attempt, Keeps-stop_if, Keeps-bind,
  Keeps-catch, Keeps-or_return,
)
