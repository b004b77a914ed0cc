-- ===== src/Exec/Run.antt =====
-- Taking a finished run apart, for proofs in which the parts stay shut.
use meta_mcp.Prelude.{inr, inl, ◌⊎◌, ◌≡◌, refl, arith}
use meta_mcp.Exec.{Result, ok, err, Exec, go_on, ◌>>=◌}

module _ {ℓ} {S E A B : Type ℓ} where
  -- A run of `m >>= f` that returns is a run of `m` that returns, and a run of `f` that does.
  pub >>=-eq-ok :
      (m : Exec S E A) (f : A → Exec S E B) (s : S) {b : B}
      → ((m >>= f) s).0 ≡ ok b
      → (a : A) × ((m s).0 ≡ ok a) × ((f a (m s).1).0 ≡ ok b) × ((m >>= f) s ≡ f a (m s).1)
  unfolding ◌>>=◌
  >>=-eq-ok m f s h = let (r, s') = m s in go_on-eq-ok r s' h
    where
      go_on-eq-ok :
          (r : Result E A) (t : S) {b : B}
          → (go_on r f t).0 ≡ ok b
          → (a : A) × (r ≡ ok a) × ((f a t).0 ≡ ok b) × (go_on r f t ≡ f a t)
      go_on-eq-ok (ok a) t e = (a, refl, e, refl)
      go_on-eq-ok (err x) t e = ground arith

  -- A run continues from where `m` stopped.
  pub bind-run :
      (m : Exec S E A) (f : A → Exec S E B) (s : S) {a : A} {s' : S}
      → m s ≡ (ok a, s')
      → (m >>= f) s ≡ f a s'
  unfolding ◌>>=◌
  bind-run m f s h = ground arith

  pub bind-stop :
      (m : Exec S E A) (f : A → Exec S E B) (s : S) {e : E} {s' : S}
      → m s ≡ (err e, s')
      → (m >>= f) s ≡ (err e, s')
  unfolding ◌>>=◌
  bind-stop m f s h = ground arith

pub Result-cases {ℓ} :
    {E A : Type ℓ} (r : Result E A) → ((e : E) × (r ≡ err e)) ⊎ ((a : A) × (r ≡ ok a))
Result-cases (err e) = inl (e, refl)
Result-cases (ok a) = inr (a, refl)
