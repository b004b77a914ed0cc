-- ===== src/Store/Oauth.antt =====
-- internal/adapters/sqlite/store.go: OAuth clients, authorization codes, refresh tokens, login
-- states, and the purge.
use meta_mcp.Prelude.{
  ℕ, Bool, true, false, not, String, [], ◌∷◌, ◌++◌, none, some, ◌==◌, ◌&&◌, ltb, leb, any, find,
  if◌then◌else◌,
}
use meta_mcp.Domain.Time.{Time, unix, of_unix}
use meta_mcp.Domain.Errors.{Error, wrap, no_rows}
use meta_mcp.Domain.Entities.{OauthClient, AuthCode, RefreshToken, LoginState}
use meta_mcp.Exec.{ok, err, pure, ◌>>=◌, ◌>>◌, or_return}
use meta_mcp.World.{Env, Action, Statement, sql}
use meta_mcp.Store.Db.{ClientRow, CodeRow, RefreshRow, LoginRow}
use meta_mcp.Store.Tables.{constraint, nullable, null_string, delete_where, update_where}
use meta_mcp.Store.Tenants.{first_row, not_found_or_wrap, selecting}

unfoldable pub client_row : OauthClient → ClientRow
client_row c = record {
  client_id = c.client_id;
  client_name = c.client_name;
  redirect_uris = c.redirect_uris;
  created_at = unix c.created_at;
}

unfoldable pub insert_client : ClientRow → Statement (Unit {0})
insert_client row db =
    if any (λ r. r.client_id == row.client_id) db.clients
    then err constraint
    else ok (tt, record db { clients = db.clients ++ row ∷ [] })

unfoldable pub of_client_row : ClientRow → OauthClient
of_client_row r = record {
  client_id = r.client_id;
  client_name = r.client_name;
  redirect_uris = r.redirect_uris;
  created_at = of_unix r.created_at;
}

unfoldable pub code_row : AuthCode → CodeRow
unfolding nullable
code_row c = record {
  code = c.code;
  client_id = c.client_id;
  tenant_id = c.tenant_id;
  redirect_uri = c.redirect_uri;
  code_challenge = c.code_challenge;
  resource = nullable c.resource;
  expires_at = unix c.expires_at;
}

unfoldable pub insert_code : CodeRow → Statement (Unit {0})
insert_code row db =
    if any (λ r. r.code == row.code) db.codes
    then err constraint
    else ok (tt, record db { codes = db.codes ++ row ∷ [] })

unfoldable pub of_code_row : CodeRow → AuthCode
of_code_row r = record {
  code = r.code;
  client_id = r.client_id;
  tenant_id = r.tenant_id;
  redirect_uri = r.redirect_uri;
  code_challenge = r.code_challenge;
  resource = null_string r.resource;
  expires_at = of_unix r.expires_at;
}

-- `DELETE ... WHERE code = ? RETURNING ...`
unfoldable pub take_code : String → Statement CodeRow
unfolding delete_where
take_code code db = elim (find (λ r. r.code == code) db.codes) [
  | none ↦ err no_rows
  | some row ↦ ok (row, record db { codes = delete_where (λ r. r.code == code) db.codes })
]

unfoldable pub refresh_row : RefreshToken → RefreshRow
refresh_row t = record {
  token_hash = t.token_hash;
  client_id = t.client_id;
  tenant_id = t.tenant_id;
  expires_at = unix t.expires_at;
  revoked = false;
}

unfoldable pub insert_refresh : RefreshRow → Statement (Unit {0})
insert_refresh row db =
    if any (λ r. r.token_hash == row.token_hash) db.refresh_tokens
    then err constraint
    else ok (tt, record db { refresh_tokens = db.refresh_tokens ++ row ∷ [] })

abbrev pub revoke : RefreshRow → RefreshRow
revoke r = record r { revoked = true }

-- `WHERE token_hash = ? AND revoked = 0 AND expires_at > ?`
abbrev pub is_live : String → ℕ → RefreshRow → Bool
is_live token_hash now r = r.token_hash == token_hash && not r.revoked && ltb now r.expires_at

-- `UPDATE ... SET revoked = 1 WHERE ... RETURNING ...`
unfoldable pub rotate_row : String → ℕ → Statement RefreshRow
unfolding update_where
rotate_row token_hash now db = elim (find (is_live token_hash now) db.refresh_tokens) [
  | none ↦ err no_rows
  | some row ↦ ok (
    row,
    record db { refresh_tokens = update_where (is_live token_hash now) revoke db.refresh_tokens },
  )
]

unfoldable pub rotated : RefreshRow → RefreshToken
rotated r = record {
  token_hash = r.token_hash;
  client_id = r.client_id;
  tenant_id = r.tenant_id;
  expires_at = of_unix r.expires_at;
  revoked = true;
}

unfoldable pub login_row : LoginState → LoginRow
login_row s = record { state = s.state; oauth_request = s.request; expires_at = unix s.expires_at }

unfoldable pub insert_login : LoginRow → Statement (Unit {0})
insert_login row db =
    if any (λ r. r.state == row.state) db.login_states
    then err constraint
    else ok (tt, record db { login_states = db.login_states ++ row ∷ [] })

unfoldable pub of_login_row : LoginRow → LoginState
of_login_row r = record {
  state = r.state;
  request = r.oauth_request;
  expires_at = of_unix r.expires_at;
}

unfoldable pub take_login : String → Statement LoginRow
unfolding delete_where
take_login state db = elim (find (λ r. r.state == state) db.login_states) [
  | none ↦ err no_rows
  | some row ↦
      ok (row, record db { login_states = delete_where (λ r. r.state == state) db.login_states })
]

unfoldable pub revoke_all : String → Statement (Unit {0})
unfolding update_where
revoke_all tenant_id db = ok (
  tt,
  record db {
    refresh_tokens = update_where (λ r. r.tenant_id == tenant_id) revoke db.refresh_tokens;
  },
)

unfoldable pub purge_codes : ℕ → Statement (Unit {0})
unfolding delete_where
purge_codes now db =
    ok (tt, record db { codes = delete_where (λ r. leb r.expires_at now) db.codes })

unfoldable pub purge_login_states : ℕ → Statement (Unit {0})
unfolding delete_where
purge_login_states now db =
    ok (tt, record db { login_states = delete_where (λ r. leb r.expires_at now) db.login_states })

unfoldable pub purge_refresh_tokens : ℕ → Statement (Unit {0})
unfolding delete_where
purge_refresh_tokens now db =
    ok (
      tt,
      record db { refresh_tokens = delete_where (λ r. leb r.expires_at now) db.refresh_tokens },
    )

module _ (env : Env) where
  unfoldable pub register_client : OauthClient → Action Error (Unit {0})
  unfolding client_row insert_client
  register_client c =
      or_return (sql env (insert_client (client_row c))) (wrap "insert oauth client")

  unfoldable pub client_by_id : String → Action Error OauthClient
  unfolding of_client_row find
  client_by_id client_id = do
    row ←
        or_return
          (sql env (selecting (λ db. first_row (find (λ r. r.client_id == client_id) db.clients))))
          (not_found_or_wrap "select oauth client")
    pure (of_client_row row)

  unfoldable pub create_auth_code : AuthCode → Action Error (Unit {0})
  unfolding code_row insert_code
  create_auth_code c = or_return (sql env (insert_code (code_row c))) (wrap "insert auth code")

  unfoldable pub consume_auth_code : String → Action Error AuthCode
  unfolding take_code of_code_row
  consume_auth_code code = do
    row ← or_return (sql env (take_code code)) (not_found_or_wrap "consume auth code")
    pure (of_code_row row)

  unfoldable pub create_refresh_token : RefreshToken → Action Error (Unit {0})
  unfolding refresh_row insert_refresh
  create_refresh_token t =
      or_return (sql env (insert_refresh (refresh_row t))) (wrap "insert refresh token")

  unfoldable pub rotate_refresh_token : String → Time → Action Error RefreshToken
  unfolding rotate_row rotated
  rotate_refresh_token token_hash now = do
    row ←
        or_return (sql env (rotate_row token_hash (unix now)))
          (not_found_or_wrap "rotate refresh token")
    pure (rotated row)

  unfoldable pub revoke_tenant_refresh_tokens : String → Action Error (Unit {0})
  unfolding revoke_all
  revoke_tenant_refresh_tokens tenant_id =
      or_return (sql env (revoke_all tenant_id)) (wrap "revoke refresh tokens")

  unfoldable pub create_login_state : LoginState → Action Error (Unit {0})
  unfolding login_row insert_login
  create_login_state s =
      or_return (sql env (insert_login (login_row s))) (wrap "insert login state")

  unfoldable pub consume_login_state : String → Action Error LoginState
  unfolding take_login of_login_row
  consume_login_state state = do
    row ← or_return (sql env (take_login state)) (not_found_or_wrap "consume login state")
    pure (of_login_row row)

  -- Three statements, each on its own: a failing one ends the purge.
  unfoldable pub purge_expired : Time → Action Error (Unit {0})
  unfolding purge_codes purge_login_states purge_refresh_tokens
  purge_expired now = do
    or_return (sql env (purge_codes (unix now))) (wrap "purge expired")
    or_return (sql env (purge_login_states (unix now))) (wrap "purge expired")
    or_return (sql env (purge_refresh_tokens (unix now))) (wrap "purge expired")
