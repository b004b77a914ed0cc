-- ===== src/Store/Rows.antt =====
-- What holds of every row of a table holds of the rows that a query reads.
use mathlib.Core.List.{Memᴰ}
use meta_mcp.Prelude.{
  ◌≡◌, refl, Bool, true, List, [], ◌∷◌, some, All, keep, find, Bool-cases, inl, inr, arith,
}
use meta_mcp.Store.Tables.{insert_sorted, order_by}

module _ {ℓ κ} {A : Type ℓ} (P : A → Type κ) where
  pub All-keep : (p : A → Bool) (rows : List A) → All P rows → All P (keep p rows)
  unfolding keep
  All-keep p [] h = tt
  All-keep p (x ∷ rows) (hx, h) = elim (Bool-cases (p x)) [
    | inl e ↦ rw (e, keep) (hx, All-keep p rows h)
    | inr e ↦ rw (e, keep) (All-keep p rows h)
  ]

  All-insert_sorted :
      (le : A → A → Bool) (r : A) (rows : List A)
      → P r
      → All P rows
      → All P (insert_sorted le r rows)
  unfolding insert_sorted
  All-insert_sorted le r [] hr h = (hr, tt)
  All-insert_sorted le r (x ∷ rows) hr (hx, h) = elim (Bool-cases (le r x)) [
    | inl e ↦ rw (e, insert_sorted) (hr, (hx, h))
    | inr e ↦ rw (e, insert_sorted) (hx, All-insert_sorted le r rows hr h)
  ]

  pub All-order_by : (le : A → A → Bool) (rows : List A) → All P rows → All P (order_by le rows)
  unfolding order_by
  All-order_by le [] h = tt
  All-order_by le (r ∷ rows) (hr, h) =
      All-insert_sorted le r (order_by le rows) hr (All-order_by le rows h)

  pub find-All : (p : A → Bool) (rows : List A) {r : A} → find p rows ≡ some r → All P rows → P r
  unfolding find
  find-All p [] e h = absurd (ground arith)
  find-All p (x ∷ rows) {r} e (hx, h) = elim (Bool-cases (p x)) [
    | inl here ↦ let same : x ≡ r = ground arith in rw (← same) hx
    | inr later ↦ find-All p rows (rw (later, find) at e) h
  ]

module _ {ℓ κ μ} {A : Type ℓ} (P : A → Type κ) (Q : A → Type μ) where
  pub All-weaken : ((x : A) → P x → Q x) → (rows : List A) → All P rows → All Q rows
  All-weaken f [] h = tt
  All-weaken f (x ∷ rows) (hx, h) = (f x hx, All-weaken f rows h)

pub All-Mem {ℓ} : {A : Type ℓ} (rows : List A) → All (λ r. Memᴰ r rows) rows
All-Mem [] = tt
All-Mem (x ∷ rows) = (
  Memᴰ.head refl,
  All-weaken (λ r. Memᴰ r rows) (λ r. Memᴰ r (x ∷ rows)) (λ r m. Memᴰ.tail m) rows (All-Mem rows),
)

-- A row that the filter let through passes its test.
pub All-keep_test {ℓ} :
    {A : Type ℓ} (P : A → Type 0) (p : A → Bool) (rows : List A)
    → All P rows
    → All (λ r. P r × (p r ≡ true)) (keep p rows)
unfolding keep
All-keep_test P p [] h = tt
All-keep_test P p (x ∷ rows) (hx, h) = elim (Bool-cases (p x)) [
  | inl e ↦ rw (e, keep) ((hx, e), All-keep_test P p rows h)
  | inr e ↦ rw (e, keep) (All-keep_test P p rows h)
]

pub find-Mem {ℓ} :
    {A : Type ℓ} (p : A → Bool) (rows : List A) {r : A} → find p rows ≡ some r → Memᴰ r rows
unfolding find
find-Mem p [] h = absurd (ground arith)
find-Mem p (x ∷ rows) {r} h = elim (Bool-cases (p x)) [
  | inl yes_x ↦ Memᴰ.head (ground arith)
  | inr no_x ↦ Memᴰ.tail (find-Mem p rows (rw (no_x, find) at h))
]
