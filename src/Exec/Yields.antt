-- ===== src/Exec/Yields.antt =====
-- Actions that keep an invariant of the state and, where they return, give a value with a property.
use meta_mcp.Prelude.{◌≡◌, refl, Bool, true, false, if◌then◌else◌}
use meta_mcp.Exec.{
  Result, ok, err, Exec, pure, raise, lift, go_on, ◌>>=◌, stop_if, handled, or_return, attempt,
}

abbrev pub OnOk {ℓ} : {E A : Type ℓ} → (A → Type ℓ) → Result E A → Type ℓ
OnOk V (ok a) = V a
OnOk V (err e) = Unit

pub OnOk-any {ℓ} : {E A : Type ℓ} (r : Result E A) → OnOk (λ _. Unit {ℓ}) r
OnOk-any (ok a) = tt
OnOk-any (err e) = tt

pub record Yields {ℓ} {S E A : Type ℓ} (I : S → Type ℓ) (V : A → Type ℓ) (m : Exec S E A)
    : Type ℓ where
  pub at : (s : S) → I s → I (m s).1 × OnOk V (m s).0

module _ {ℓ} {S E A : Type ℓ} (I : S → Type ℓ) (V : A → Type ℓ) where
  pub Yields-pure : (a : A) → V a → Yields I V (pure {E = E} a)
  unfolding pure
  Yields-pure a v = record { at = λ s h. (h, v) }

  pub Yields-raise : (e : E) → Yields I V (raise {A = A} e)
  unfolding raise
  Yields-raise e = record { at = λ s h. (h, tt) }

  pub Yields-lift : (r : Result E A) → OnOk V r → Yields I V (lift r)
  unfolding lift
  Yields-lift r v = record { at = λ s h. (h, v) }

  pub Yields-if :
      (b : Bool) (m n : Exec S E A)
      → (b ≡ true → Yields I V m)
      → (b ≡ false → Yields I V n)
      → Yields I V (if b then m else n)
  Yields-if true m n km kn = km refl
  Yields-if false m n km kn = kn refl

module _ {S E : Type 0} (I : S → Type 0) where
  -- Behind the test it does not hold.
  pub Yields-stop_if : (b : Bool) (e : E) → Yields I (λ _. b ≡ false) (stop_if {S = S} b e)
  Yields-stop_if true e = Yields-raise I (λ _. true ≡ false) e
  Yields-stop_if false e = Yields-pure I (λ _. false ≡ false) tt refl

module _ {ℓ} {S E A B : Type ℓ} (I : S → Type ℓ) (V : A → Type ℓ) (U : B → Type ℓ) where
  go_on-Yields :
      (r : Result E A) (f : A → Exec S E B) (s : S)
      → ((a : A) → V a → Yields I U (f a))
      → I s
      → OnOk V r
      → I (go_on r f s).1 × OnOk U (go_on r f s).0
  go_on-Yields (ok a) f s kf h v = (kf a v).at s h
  go_on-Yields (err e) f s kf h v = (h, tt)

  pub Yields-bind :
      (m : Exec S E A) (f : A → Exec S E B)
      → Yields I V m
      → ((a : A) → V a → Yields I U (f a))
      → Yields I U (m >>= f)
  unfolding ◌>>=◌
  Yields-bind m f km kf = record {
    at = λ s h. let (r, s') = m s in let (h', v) = km.at s h in go_on-Yields r f s' kf h' v;
  }

module _ {ℓ} {S E F A : Type ℓ} (I : S → Type ℓ) (V : A → Type ℓ) where
  handled-Yields :
      (f : E → F) (r : Result E A) (s : S)
      → I s
      → OnOk V r
      → I (handled (λ e. raise (f e)) r s).1 × OnOk V (handled (λ e. raise (f e)) r s).0
  unfolding raise
  handled-Yields f (ok a) s h v = (h, v)
  handled-Yields f (err e) s h v = (h, tt)

  pub Yields-or_return : (m : Exec S E A) (f : E → F) → Yields I V m → Yields I V (or_return m f)
  unfolding or_return
  Yields-or_return m f km = record {
    at = λ s h. let (r, s') = m s in let (h', v) = km.at s h in handled-Yields f r s' h' v;
  }

module _ {ℓ} {S E A : Type ℓ} (I : S → Type ℓ) (V : A → Type ℓ) where
  pub Yields-attempt :
      (m : Exec S E A) → Yields I V m → Yields I (OnOk {E = E} V) (attempt {S = S} {E = E} m)
  unfolding attempt
  Yields-attempt m km = record { at = λ s h. km.at s h }

  pub Yields-weaken :
      (W : A → Type ℓ) (m : Exec S E A) → Yields I V m → ((a : A) → V a → W a) → Yields I W m
  Yields-weaken W m km imp = record {
    at = λ s h. let (h', v) = km.at s h in (h', weaken_ok (m s).0 v);
  }
    where
      weaken_ok : (r : Result E A) → OnOk V r → OnOk W r
      weaken_ok (ok a) v = imp a v
      weaken_ok (err e) v = tt
