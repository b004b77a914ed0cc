-- ===== src/App/Refresh/Renewal.antt =====
-- What the renewal of one tenant's token does, and how a sweep is made of renewals.
use mathlib.Core.List.{Memᴰ}
use meta_mcp.Prelude.{
  ◌≡◌, refl, suc, ◌==◌, ◌++◌, true, String, List, [], ◌∷◌, any, Bool-cases, inl, inr, Option-cases,
  eq_iff, arith,
}
use meta_mcp.Domain.Time.{unix}
use meta_mcp.Domain.Errors.{Error}
use meta_mcp.Domain.Entities.{Tenant, LongLivedToken}
use meta_mcp.Crypto.{Bytes, encrypt}
use meta_mcp.Exec.{or_return, Result, ok, err, ◌>>=◌}
use meta_mcp.Exec.Run.{Result-cases}
use meta_mcp.World.{sql, request, ask, Env, World, Call}
use meta_mcp.Store.Db.{Db, TenantRow}
use meta_mcp.Store.Tables.{update_where}
use meta_mcp.Store.Tenants.{upsert_tenant, tenant_row, upsert_row, renew}
use meta_mcp.App.Refresh.{refresh_one, renewed}

-- The tenant's row holds the token that Meta gave for the tenant's token, sealed, and the time of the
-- renewal.
pub record IsRenewed (env : Env) (t : Tenant) (before after : World) : Type 0 where
  pub token : LongLivedToken
  pub sealed : Bytes
  pub row : TenantRow
  pub given :
      env.meta.exchange_long_lived_token before.step (Call.exchange_long_lived_token t.user_token)
      ≡ ok token
  pub encrypted : encrypt env.aead (env.nonce (suc (suc before.step))) token.token ≡ ok sealed
  pub stored : Memᴰ row after.db.tenants
  pub own : row.meta_user_id ≡ t.meta_user_id
  pub holds_token : row.user_token_enc ≡ sealed
  pub holds_time : row.updated_at ≡ unix (env.now (suc before.step))

-- The attempts of a sweep over a list of tenants, one after another: the tenants that were renewed, and
-- the ids of those whose attempt failed, which leaves the database as it was.
pub data Attempts (env : Env) : List Tenant → World → List Tenant → List String → Type 0 where
  over : {w : World} → Attempts env [] w [] []
  renewal :
      {t : Tenant} {ts done : List Tenant} {failed : List String} {w : World}
      → (refresh_one env t w).0 ≡ ok tt
      → IsRenewed env t w (refresh_one env t w).1
      → Attempts env ts (refresh_one env t w).1 done failed
      → Attempts env (t ∷ ts) w (t ∷ done) failed
  failure :
      {t : Tenant} {ts done : List Tenant} {failed : List String} {w : World} {e : Error}
      → (refresh_one env t w).0 ≡ err e
      → (refresh_one env t w).1.db ≡ w.db
      → Attempts env ts (refresh_one env t w).1 done failed
      → Attempts env (t ∷ ts) w done (t.id ∷ failed)

update_where-Mem :
    (new : TenantRow) (rows : List TenantRow)
    → any (λ r. r.meta_user_id == new.meta_user_id) rows ≡ true
    → (r : TenantRow) × Memᴰ r
        (update_where (λ r. r.meta_user_id == new.meta_user_id) (renew new) rows)
      × (r.meta_user_id ≡ new.meta_user_id)
      × (r.user_token_enc ≡ new.user_token_enc)
      × (r.updated_at ≡ new.updated_at)
unfolding update_where renew
update_where-Mem new [] h = absurd (ground arith)
update_where-Mem new (x ∷ rows) h = elim (Bool-cases (x.meta_user_id == new.meta_user_id)) [
  | inl same ↦ (
    renew new x,
    rw (same, update_where) (Memᴰ.head refl),
    (eq_iff x.meta_user_id new.meta_user_id).0 same,
    refl,
    refl,
  )
  | inr other ↦
      let (r, stored, own, token, time) = update_where-Mem new rows (ground arith) in
      (r, Memᴰ.tail stored, own, token, time)
]

concat-Mem : {A : Type 0} (xs : List A) (x : A) → Memᴰ x (xs ++ x ∷ [])
concat-Mem [] x = Memᴰ.head refl
concat-Mem (y ∷ xs) x = Memᴰ.tail (concat-Mem xs x)

-- An upsert that succeeds leaves a row with the new token.
upsert_row-Mem :
    (new : TenantRow) (db d : Db)
    → upsert_row new db ≡ ok (tt, d)
    → (r : TenantRow) × Memᴰ r d.tenants
      × (r.meta_user_id ≡ new.meta_user_id)
      × (r.user_token_enc ≡ new.user_token_enc)
      × (r.updated_at ≡ new.updated_at)
unfolding upsert_row
upsert_row-Mem new db d h =
    elim (Bool-cases (any (λ r. r.meta_user_id == new.meta_user_id) db.tenants)) [
      | inl known ↦
          let rows =
            update_where (λ r. r.meta_user_id == new.meta_user_id) (renew new) db.tenants in
          let same : d.tenants ≡ rows = ground arith in
          rw same (update_where-Mem new db.tenants known)
      | inr fresh ↦ elim (Bool-cases (any (λ r. r.id == new.id) db.tenants)) [
        | inl clash ↦ absurd (ground arith)
        | inr free ↦
            let same : d.tenants ≡ db.tenants ++ new ∷ [] = ground arith in
            (new, rw same (concat-Mem db.tenants new), refl, refl, refl)
      ]
    ]

module _ (env : Env) (t : Tenant) (w : World) where
  abbrev exchanged : Result Error LongLivedToken
  exchanged =
      env.meta.exchange_long_lived_token w.step (Call.exchange_long_lived_token t.user_token)

  abbrev new_row : LongLivedToken → Bytes → TenantRow
  new_row token sealed = tenant_row (renewed t token (env.now (suc w.step))) sealed

  abbrev sealing : LongLivedToken → Result Error Bytes
  sealing token = encrypt env.aead (env.nonce (suc (suc w.step))) token.token

  -- A renewal that returns went through the exchange, the sealing and the upsert.
  refresh_one-steps :
      (refresh_one env t w).0 ≡ ok tt
      → (token : LongLivedToken) × (sealed : Bytes) × (d : Db) × (exchanged ≡ ok token)
        × (sealing token ≡ ok sealed)
        × (upsert_row (new_row token sealed) w.db ≡ ok (tt, d))
        × ((refresh_one env t w).1.db ≡ d)
  unfolding refresh_one upsert_tenant ask request sql or_return ◌>>=◌ renewed
  refresh_one-steps h = elim (Result-cases exchanged) [
    | inl (e, bad) ↦ absurd (ground arith)
    | inr (token, given) ↦ elim (Result-cases (sealing token)) [
      | inl (e, bad) ↦ absurd (ground arith)
      | inr (sealed, closed) ↦ elim (Option-cases (env.fault (suc (suc (suc w.step))))) [
        | inr (e, bad) ↦ absurd (ground arith)
        | inl went ↦ elim (Result-cases (upsert_row (new_row token sealed) w.db)) [
          | inl (e, bad) ↦ absurd (ground arith)
          | inr ((u, d), put) ↦ (token, sealed, d, given, closed, put, ground arith)
        ]
      ]
    ]
  ]

  pub refresh_one-IsRenewed :
      (refresh_one env t w).0 ≡ ok tt → IsRenewed env t w (refresh_one env t w).1
  unfolding renewed tenant_row
  refresh_one-IsRenewed h =
      let (token, sealed, d, given, closed, put, left) = refresh_one-steps h in
      let (r, stored, own, holds, time) = upsert_row-Mem (new_row token sealed) w.db d put in
      record {
        token = token;
        sealed = sealed;
        row = r;
        given = given;
        encrypted = closed;
        stored = rw left stored;
        own = own;
        holds_token = holds;
        holds_time = time;
      }

  pub refresh_one-failed :
      {e : Error} → (refresh_one env t w).0 ≡ err e → (refresh_one env t w).1.db ≡ w.db
  unfolding refresh_one upsert_tenant ask request sql or_return ◌>>=◌ renewed
  refresh_one-failed {e} h = elim (Result-cases exchanged) [
    | inl (x, bad) ↦ ground arith
    | inr (token, given) ↦ elim (Result-cases (sealing token)) [
      | inl (x, bad) ↦ ground arith
      | inr (sealed, closed) ↦ elim (Option-cases (env.fault (suc (suc (suc w.step))))) [
        | inr (x, bad) ↦ ground arith
        | inl went ↦ elim (Result-cases (upsert_row (new_row token sealed) w.db)) [
          | inl (x, bad) ↦ ground arith
          | inr ((u, d), put) ↦ absurd (ground arith)
        ]
      ]
    ]
  ]
