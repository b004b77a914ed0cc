-- ===== src/Store/Laws.antt =====
-- Laws of the tables' statements: what a deletion, an update or an insertion leaves of a query.
use meta_mcp.Prelude.{
  ◌≡◌, refl, Bool, true, false, List, [], ◌∷◌, ◌++◌, none, some, any, find, keep, Bool-cases, inl,
  inr, arith,
}
use meta_mcp.Store.Tables.{delete_where}

module _ {ℓ} {A : Type ℓ} where
  pub find-eq-some : (p : A → Bool) (rows : List A) {r : A} → find p rows ≡ some r → p r ≡ true
  unfolding find
  find-eq-some p [] h = ground arith
  find-eq-some p (x ∷ rows) {r} h = elim (Bool-cases (p x)) [
    | inl yes_x ↦ let e : x ≡ r = ground arith in rw (← e) yes_x
    | inr no_x ↦ find-eq-some p rows (rw (no_x, find) at h)
  ]

  pub find-delete_where : (p : A → Bool) (rows : List A) → find p (delete_where p rows) ≡ none
  unfolding find delete_where
  find-delete_where p [] = refl
  find-delete_where p (x ∷ rows) = ground (arith, find-delete_where p rows)

  -- A query that looks only at rows that stay finds what it found.
  module _ (p q : A → Bool) (apart : (x : A) → q x ≡ true → p x ≡ false) where
    pub find-delete_where_apart : (rows : List A) → find q (delete_where p rows) ≡ find q rows
    unfolding find delete_where
    find-delete_where_apart [] = refl
    find-delete_where_apart (x ∷ rows) = ground (arith, apart x, find-delete_where_apart rows)

    pub keep-delete_where_apart : (rows : List A) → keep q (delete_where p rows) ≡ keep q rows
    unfolding keep delete_where
    keep-delete_where_apart [] = refl
    keep-delete_where_apart (x ∷ rows) = ground (arith, apart x, keep-delete_where_apart rows)

  pub keep-concat_apart :
      (q : A → Bool) (rows : List A) (x : A) → q x ≡ false → keep q (rows ++ x ∷ []) ≡ keep q rows
  unfolding keep
  keep-concat_apart q [] x h = ground arith
  keep-concat_apart q (y ∷ rows) x h = ground (arith, keep-concat_apart q rows x h)

  -- A query narrower than a filter reads the filtered rows only.
  pub find-keep :
      (p q : A → Bool) (rows : List A)
      → ((x : A) → q x ≡ true → p x ≡ true)
      → find q (keep p rows) ≡ find q rows
  unfolding find keep
  find-keep p q [] within = refl
  find-keep p q (x ∷ rows) within = ground (arith, within x, find-keep p q rows within)

  pub find-concat_new :
      (p : A → Bool) (rows : List A) (x : A)
      → any p rows ≡ false
      → p x ≡ true
      → find p (rows ++ x ∷ []) ≡ some x
  unfolding find
  find-concat_new p [] x h e = ground arith
  find-concat_new p (y ∷ rows) x h e = ground (arith, find-concat_new p rows x)
