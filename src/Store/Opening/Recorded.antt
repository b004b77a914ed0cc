-- ===== src/Store/Opening/Recorded.antt =====
-- Migrations that succeed are recorded.
use mathlib.Core.Path.{subst}
use meta_mcp.Prelude.{
  ◌∙◌, sym, ap, ◌≡◌, refl, ◌++◌, Bool, true, false, String, List, [], ◌∷◌, All, contains, inl, inr,
  eq_refl, arith,
}
use meta_mcp.Domain.Errors.{wrap}
use meta_mcp.Exec.{pure, ok, ◌>>=◌, or_return, lift}
use meta_mcp.Exec.Run.{Result-cases, >>=-eq-ok}
use meta_mcp.Exec.Keeps.{Keeps, Keeps-bind, keeps_rules}
use meta_mcp.Store.Opening.{
  ◌^^◌, Disk, Schema, executed, unchanged, with_body, with_name, migration_applied, recorded,
  in_transaction, apply_migration, migrate_one, migrate_all,
}

-- The migration is recorded.
record Has (name : String) (s : Schema) : Type 0 where
  there : contains s.names name ≡ true

contains-concat_old :
    (xs : List String) (x name : String)
    → contains xs name ≡ true
    → contains (xs ++ x ∷ []) name ≡ true
contains-concat_old [] x name h = ground arith
contains-concat_old (y ∷ xs) x name h = ground (arith, contains-concat_old xs x name)

contains-concat_new : (xs : List String) (x : String) → contains (xs ++ x ∷ []) x ≡ true
contains-concat_new [] x = ground (arith, eq_refl x)
contains-concat_new (y ∷ xs) x = ground (arith, contains-concat_new xs x)

module _ (disk : Disk) where
  executed-unchanged-Has : (name : String) → Keeps (Has name) (executed disk (unchanged disk))
  unfolding executed
  executed-unchanged-Has name = record {
    at = λ s h. let old = h.there in record { there = ground arith };
  }

  executed-with_body-Has :
      (name body : String) → Keeps (Has name) (executed disk (with_body disk body))
  unfolding executed
  executed-with_body-Has name body = record {
    at = λ s h. let old = h.there in record { there = ground arith };
  }

  executed-with_name-Has :
      (name other : String) → Keeps (Has name) (executed disk (with_name disk other))
  unfolding executed
  executed-with_name-Has name other = record {
    at = λ s h.
        let old = h.there in
        record { there = ground (arith, contains-concat_old s.names other name old) };
  }

  recorded-Has : (name other body : String) → Keeps (Has name) (recorded disk other body)
  unfolding recorded
  recorded-Has name other body =
      search (keeps_rules, executed-unchanged-Has, executed-with_body-Has, executed-with_name-Has)
        depth 8

  in_transaction-Has :
      (name other body : String) → Keeps (Has name) (in_transaction disk (recorded disk other body))
  unfolding in_transaction
  in_transaction-Has name other body = record {
    at = λ s h.
        let kept = (recorded-Has name other body).at s h in
        elim (Result-cases (recorded disk other body s).0) [
          | inr (u, fine) ↦ let there = kept.there in record { there = ground arith }
          | inl (e, bad) ↦ let there = h.there in record { there = ground arith }
        ];
  }

  migration_applied-Has : (name other : String) → Keeps (Has name) (migration_applied disk other)
  unfolding migration_applied
  migration_applied-Has name other = record {
    at = λ s h. let old = h.there in record { there = ground arith };
  }

  migrate_one-Has :
      (name other : String) (applied : Bool) → Keeps (Has name) (migrate_one disk other applied)
  unfolding migrate_one apply_migration
  migrate_one-Has name other applied =
      search (keeps_rules, executed-unchanged-Has, in_transaction-Has) depth 9

  migrate_all-Has :
      (name : String) (names : List String) → Keeps (Has name) (migrate_all disk names)
  unfolding migrate_all
  migrate_all-Has name [] = search keeps_rules
  migrate_all-Has name (other ∷ names) =
      Keeps-bind _ _ (migration_applied-Has name other) (λ applied.
        Keeps-bind _ _ (migrate_one-Has name other applied) (λ u. migrate_all-Has name names))

  -- A transaction that commits has recorded the migration.
  recorded-there :
      (name body : String) (s : Schema)
      → (recorded disk name body s).0 ≡ ok tt
      → contains (recorded disk name body s).1.names name ≡ true
  unfolding recorded executed or_return ◌>>=◌
  recorded-there name body s h = ground (arith, contains-concat_new s.names name)

  in_transaction-there :
      (name body : String) (s : Schema)
      → (in_transaction disk (recorded disk name body) s).0 ≡ ok tt
      → contains (in_transaction disk (recorded disk name body) s).1.names name ≡ true
  unfolding in_transaction
  in_transaction-there name body s h = elim (Result-cases (recorded disk name body s).0) [
    | inl (e, bad) ↦ absurd (ground arith)
    | inr (u, fine) ↦ let there = recorded-there name body s fine in ground arith
  ]

  apply_migration-there :
      (name body : String) (s : Schema)
      → (apply_migration disk name body s).0 ≡ ok tt
      → contains (apply_migration disk name body s).1.names name ≡ true
  unfolding apply_migration
  apply_migration-there name body s h =
      let (u, begun, went, same) = >>=-eq-ok _ _ s h in
      rw same (in_transaction-there name body _ went)

  already_there :
      (name : String) (s : Schema)
      → (migration_applied disk name s).0 ≡ ok true
      → contains (migration_applied disk name s).1.names name ≡ true
  unfolding migration_applied
  already_there name s h = ground arith

  migrate_one-there :
      (name : String) (applied : Bool) (s : Schema)
      → (applied ≡ true → contains s.names name ≡ true)
      → (migrate_one disk name applied s).0 ≡ ok tt
      → contains (migrate_one disk name applied s).1.names name ≡ true
  unfolding migrate_one pure
  migrate_one-there name true s there h = there refl
  migrate_one-there name false s there h =
      let (body, read, went, same) =
        >>=-eq-ok (or_return (lift (disk.read_file name)) (wrap ("read migration " ^^ name)))
          (apply_migration disk name) s h in
      rw same (apply_migration-there name body _ went)

  pub migrate_all-there :
      (names : List String) (s t : Schema)
      → migrate_all disk names s ≡ (ok tt, t)
      → All (λ name. contains t.names name ≡ true) names
  unfolding migrate_all
  migrate_all-there [] s t h = tt
  migrate_all-there (name ∷ names) s t h =
      let (applied, asked, rest, same) =
        >>=-eq-ok (migration_applied disk name)
          (λ applied. migrate_one disk name applied >>= λ u. migrate_all disk names) s
          (ap (λ r. r.0) h) in
      let (u, one, later, same') =
        >>=-eq-ok (migrate_one disk name applied) (λ _. migrate_all disk names)
          (migration_applied disk name s).1 rest in
      let mid = (migrate_one disk name applied (migration_applied disk name s).1).1 in
      let ends : migrate_all disk names mid ≡ (ok tt, t) = sym same' ∙ sym same ∙ h in
      let there =
        migrate_one-there name applied (migration_applied disk name s).1
          (λ e.
            already_there name s (subst (λ b. (migration_applied disk name s).0 ≡ ok b) e asked))
          one in
      let kept = (migrate_all-Has name names).at mid (record { there = there }) in
      (rw (ends) at kept.there, migrate_all-there names mid t ends)
