-- ===== src/Store/Tables.antt =====
-- What the SQL statements do to the rows of a table. A table is the list of its rows in the order of
-- insertion, which is the order in which SQLite scans it where nothing else is asked for.
use Prim.Native.String.{compare as compare_text}
use Prim.Native.Nat.{Ordering}
use meta_mcp.Prelude.{
  Bool, true, false, not, String, List, [], ◌∷◌, Option, none, some, ◌==◌, keep, if◌then◌else◌,
}
use meta_mcp.Domain.Errors.{Error, driver}

-- `NULL` for an empty text, and `NullString.String`.
unfoldable pub nullable : String → Option String
nullable s = if s == "" then none else some s

abbrev pub null_string : Option String → String
null_string none = ""
null_string (some s) = s

abbrev pub constraint : Error
constraint = driver "constraint failed"

-- The order of the BINARY collation.
abbrev pub text_le : String → String → Bool
text_le a b = elim (compare_text a b) [ Ordering.gt ↦ false | _ ↦ true ]

module _ {ℓ} {A : Type ℓ} where
  -- `DELETE ... WHERE p`
  unfoldable pub delete_where : (A → Bool) → List A → List A
  unfolding keep
  delete_where p rows = keep (λ r. not (p r)) rows

  -- `UPDATE ... SET f WHERE p`
  unfoldable pub update_where : (A → Bool) → (A → A) → List A → List A
  update_where p f [] = []
  update_where p f (r ∷ rows) = (if p r then f r else r) ∷ update_where p f rows

  -- `ORDER BY`, rows with equal keys in the order of the table
  unfoldable pub insert_sorted : (A → A → Bool) → A → List A → List A
  insert_sorted le r [] = r ∷ []
  insert_sorted le r (x ∷ xs) =
      let rest = insert_sorted le r xs in if le r x then r ∷ x ∷ xs else x ∷ rest

  unfoldable pub order_by : (A → A → Bool) → List A → List A
  unfolding insert_sorted
  order_by le [] = []
  order_by le (r ∷ rows) = insert_sorted le r (order_by le rows)
