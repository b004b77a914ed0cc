-- ===== src/Store/Rotation.antt =====
-- Refresh tokens: only a live one rotates, and it does so once.
use mathlib.Core.List.{Memᴰ}
use meta_mcp.Prelude.{
  true, not, ◌==◌, keep, Bool-cases, ℕ, ◌≤◌, ◌<◌, ◌≡◌, refl, false, String, List, [], ◌∷◌, none,
  some, eq_iff, find, Option-cases, inl, inr, arith,
}
use meta_mcp.Domain.Time.{Time, unix, of_unix}
use meta_mcp.Domain.Errors.{not_found, is_no_rows}
use meta_mcp.Domain.Entities.{RefreshToken}
use meta_mcp.Exec.{ok, err, ◌>>=◌, or_return}
use meta_mcp.World.{Env, World, sql}
use meta_mcp.Store.Db.{RefreshRow}
use meta_mcp.Store.Tables.{update_where}
use meta_mcp.Store.Laws.{find-eq-some}
use meta_mcp.Store.Rows.{find-Mem}
use meta_mcp.Store.Isolation.{at_step}
use meta_mcp.Store.Oauth.{is_live, revoke, rotated, rotate_refresh_token}

-- Once the rows that are live at `now` are revoked, none is live at `now` or later.
find-revoked :
    (hash : String) (now later : ℕ) (rows : List RefreshRow)
    → now ≤ later
    → find (is_live hash later) (update_where (is_live hash now) revoke rows) ≡ none
unfolding find update_where
find-revoked hash now later [] h = refl
find-revoked hash now later (r ∷ rows) h = ground (arith, find-revoked hash now later rows)

-- A revoked row keeps its place; rows under another hash are left as they are.
update_where-Mem :
    (hash : String) (now : ℕ) (rows : List RefreshRow) {r : RefreshRow}
    → find (is_live hash now) rows ≡ some r
    → Memᴰ (record r { revoked = true }) (update_where (is_live hash now) revoke rows)
unfolding find update_where
update_where-Mem hash now [] h = absurd (ground arith)
update_where-Mem hash now (x ∷ rows) {r} h = elim (Bool-cases (is_live hash now x)) [
  | inl live ↦ Memᴰ.head (ground arith)
  | inr dead ↦ Memᴰ.tail (update_where-Mem hash now rows (rw (dead, find) at h))
]

keep-update_where :
    (hash : String) (now : ℕ) (rows : List RefreshRow)
    → keep (λ r. not (r.token_hash == hash)) (update_where (is_live hash now) revoke rows)
      ≡ keep (λ r. not (r.token_hash == hash)) rows
unfolding keep update_where
keep-update_where hash now [] = refl
keep-update_where hash now (x ∷ rows) = ground (arith, keep-update_where hash now rows)

-- A presented token is accepted only where a stored row has its hash, is not revoked and has a
-- deadline after the current second. The answer has that row's hash, client and tenant, and its
-- deadline. Then the row is stored as revoked, no row is live under the hash, and the rows under any
-- other hash are those that were there.
pub rotate-live :
    (env : Env) (hash : String) (now : Time) (w : World) {t : RefreshToken}
    → (rotate_refresh_token env hash now w).0 ≡ ok t
    → (r : RefreshRow) × Memᴰ r w.db.refresh_tokens
      × (r.token_hash ≡ hash)
      × (r.revoked ≡ false)
      × (unix now < r.expires_at)
      × ((t.token_hash ≡ hash)
          × (t.client_id ≡ r.client_id)
          × (t.tenant_id ≡ r.tenant_id)
          × (t.expires_at ≡ of_unix r.expires_at))
      × Memᴰ (record r { revoked = true }) (rotate_refresh_token env hash now w).1.db.refresh_tokens
      × (find (is_live hash (unix now)) (rotate_refresh_token env hash now w).1.db.refresh_tokens
          ≡ none)
      × (keep
            (λ r. not (r.token_hash == hash))
            (rotate_refresh_token env hash now w).1.db.refresh_tokens
          ≡ keep (λ r. not (r.token_hash == hash)) w.db.refresh_tokens)
unfolding rotate_refresh_token sql or_return ◌>>=◌ is_no_rows rotated
rotate-live env hash now w {t} h =
    elim (Option-cases (find (is_live hash (unix now)) w.db.refresh_tokens)) [
      | inl missing ↦ absurd (ground arith)
      | inr (r, found) ↦
          let live = find-eq-some (is_live hash (unix now)) w.db.refresh_tokens found in
          let after : (rotate_refresh_token env hash now w).1.db.refresh_tokens
              ≡ update_where (is_live hash (unix now)) revoke w.db.refresh_tokens =
            ground arith in
          let own : r.token_hash ≡ hash = ground (arith, eq_iff r.token_hash hash) in
          (
            r,
            find-Mem (is_live hash (unix now)) w.db.refresh_tokens found,
            own,
            ground (arith, live),
            ground (arith, live),
            (ground (arith, own), ground arith, ground arith, ground arith),
            rw after (update_where-Mem hash (unix now) w.db.refresh_tokens found),
            rw after (find-revoked hash (unix now) (unix now) w.db.refresh_tokens (omega arith)),
            rw after (keep-update_where hash (unix now) w.db.refresh_tokens),
          )
    ]

-- Rotation is once only: after a success at `now`, the same token is refused at `later`, for any
-- later reading of the clock and any step where the database does not fail.
pub rotate_refresh_token-once :
    (env : Env) (hash : String) (now later : Time) (n : ℕ) (w : World) {t : RefreshToken}
    → (rotate_refresh_token env hash now w).0 ≡ ok t
    → now ≤ later
    → env.fault n ≡ none
    → (rotate_refresh_token env hash later (at_step n (rotate_refresh_token env hash now w).1)).0
      ≡ err not_found
unfolding rotate_refresh_token sql or_return ◌>>=◌ is_no_rows
rotate_refresh_token-once env hash now later n w h le went =
    let seconds : unix now ≤ unix later = omega arith in
    ground (arith, find-revoked hash (unix now) (unix later) w.db.refresh_tokens seconds)
