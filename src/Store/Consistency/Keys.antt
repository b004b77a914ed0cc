-- ===== src/Store/Consistency/Keys.antt =====
-- Keys that no two rows share, under the statements of a table.
use meta_mcp.Prelude.{
  ◌≡◌, refl, Bool, true, false, not, List, [], ◌∷◌, ◌++◌, any, All, keep, Bool-cases, inl, inr,
  arith,
}
use meta_mcp.Store.Tables.{delete_where, update_where}

module _ {A : Type 0} (same : A → A → Bool) where
  -- No row has the key of an earlier one.
  abbrev pub Distinct : List A → Type 0
  Distinct [] = Unit
  Distinct (x ∷ xs) = (any (λ y. same x y) xs ≡ false) × Distinct xs

  any-keep : (p q : A → Bool) (xs : List A) → any p xs ≡ false → any p (keep q xs) ≡ false
  unfolding keep
  any-keep p q [] h = refl
  any-keep p q (x ∷ xs) h = ground (arith, any-keep p q xs)

  pub Distinct-keep : (q : A → Bool) (xs : List A) → Distinct xs → Distinct (keep q xs)
  unfolding keep
  Distinct-keep q [] h = tt
  Distinct-keep q (x ∷ xs) (hx, h) = elim (Bool-cases (q x)) [
    | inl e ↦ rw (e, keep) (any-keep (λ y. same x y) q xs hx, Distinct-keep q xs h)
    | inr e ↦ rw (e, keep) (Distinct-keep q xs h)
  ]

  pub Distinct-delete_where :
      (p : A → Bool) (xs : List A) → Distinct xs → Distinct (delete_where p xs)
  unfolding delete_where
  Distinct-delete_where p xs h = Distinct-keep (λ r. not (p r)) xs h

  any-concat :
      (p : A → Bool) (xs : List A) (x : A)
      → any p xs ≡ false
      → p x ≡ false
      → any p (xs ++ x ∷ []) ≡ false
  any-concat p [] x h e = ground arith
  any-concat p (y ∷ xs) x h e = ground (arith, any-concat p xs x)

  -- A new row whose key no row has.
  pub Distinct-concat :
      (sym_same : (x y : A) → same x y ≡ true → same y x ≡ true) (xs : List A) (x : A)
      → Distinct xs
      → any (λ y. same y x) xs ≡ false
      → Distinct (xs ++ x ∷ [])
  Distinct-concat sym_same [] x h e = (refl, tt)
  Distinct-concat sym_same (y ∷ xs) x (hy, h) e = (
    any-concat (λ z. same y z) xs x hy (ground arith),
    Distinct-concat sym_same xs x h (ground arith),
  )

  -- An update that keeps the keys.
  module _ (p : A → Bool) (f : A → A) (keeps_key : (x y : A) → same x (f y) ≡ same x y)
      (keeps_key' : (x y : A) → same (f x) y ≡ same x y) where
    any-update_where :
        (x : A) (xs : List A) → any (λ y. same x y) (update_where p f xs) ≡ any (λ y. same x y) xs
    unfolding update_where
    any-update_where x [] = refl
    any-update_where x (y ∷ xs) = ground (arith, any-update_where x xs, keeps_key x y)

    any-update_key : (x : A) (xs : List A) → any (λ y. same (f x) y) xs ≡ any (λ y. same x y) xs
    any-update_key x [] = refl
    any-update_key x (y ∷ xs) = ground (arith, any-update_key x xs, keeps_key' x y)

    pub Distinct-update_where : (xs : List A) → Distinct xs → Distinct (update_where p f xs)
    unfolding update_where
    Distinct-update_where [] h = tt
    Distinct-update_where (x ∷ xs) (hx, h) = (
      ground (arith, any-update_where x xs, any-update_where (f x) xs, any-update_key x xs),
      Distinct-update_where xs h,
    )

module _ {A : Type 0} (q : A → Bool) where
  pub any-concat_old : (xs : List A) (x : A) → any q xs ≡ true → any q (xs ++ x ∷ []) ≡ true
  any-concat_old [] x h = ground arith
  any-concat_old (y ∷ xs) x h = ground (arith, any-concat_old xs x)

  pub any-update_same :
      (p : A → Bool) (f : A → A)
      → ((y : A) → q (f y) ≡ q y)
      → (xs : List A) → any q (update_where p f xs) ≡ any q xs
  unfolding update_where
  any-update_same p f e [] = refl
  any-update_same p f e (y ∷ xs) = ground (arith, e y, any-update_same p f e xs)

  pub any-delete_apart :
      (p : A → Bool)
      → ((y : A) → q y ≡ true → p y ≡ false)
      → (xs : List A) → any q (delete_where p xs) ≡ any q xs
  unfolding delete_where keep
  any-delete_apart p e [] = refl
  any-delete_apart p e (y ∷ xs) = ground (arith, e y, any-delete_apart p e xs)

module _ {A : Type 0} (P : A → Type 0) where
  pub All-concat : (xs : List A) (x : A) → All P xs → P x → All P (xs ++ x ∷ [])
  All-concat [] x h hx = (hx, tt)
  All-concat (y ∷ xs) x (hy, h) hx = (hy, All-concat xs x h hx)
