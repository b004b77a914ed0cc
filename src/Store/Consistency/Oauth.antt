-- ===== src/Store/Consistency/Oauth.antt =====
-- The statements on clients, codes, refresh tokens and login states keep the constraints.
use meta_mcp.Prelude.{
  [], ◌∷◌, leb, find, ◌==◌, ◌≡◌, Option-cases, Bool-cases, ℕ, String, arith, inl, inr, ◌++◌, any,
}
use meta_mcp.Store.Tenants.{clear_refresh_tokens, clear_codes}
use meta_mcp.Store.Oauth.{
  take_login, take_code, purge_refresh_tokens, purge_login_states, purge_codes, insert_refresh,
  insert_login, insert_code, insert_client,
}
use meta_mcp.Store.Db.{RefreshRow, LoginRow, CodeRow, ClientRow}
use meta_mcp.World.Keeps.{KeepsDb}
use meta_mcp.Store.Consistency.Schema.{
  eq_sym, with_clients, with_refresh_tokens, with_login_states, with_codes, IsConsistent,
}
use meta_mcp.Store.Tables.{delete_where}
use meta_mcp.Store.Consistency.Keys.{Distinct-concat, Distinct-delete_where}

pub insert_client-IsConsistent : (row : ClientRow) → KeepsDb IsConsistent (insert_client row)
unfolding insert_client
insert_client-IsConsistent row = record {
  at = λ db u d e h. elim (Bool-cases (any (λ r. r.client_id == row.client_id) db.clients)) [
    | inl clash ↦ absurd (ground arith)
    | inr free ↦
        let same : d ≡ record db { clients = db.clients ++ row ∷ [] } = ground arith in
        rw same (
          with_clients h _ (
            Distinct-concat (λ a b. a.client_id == b.client_id)
              (λ a b. eq_sym a.client_id b.client_id) db.clients row h.client_ids free))
  ];
}

pub insert_code-IsConsistent : (row : CodeRow) → KeepsDb IsConsistent (insert_code row)
unfolding insert_code
insert_code-IsConsistent row = record {
  at = λ db u d e h. elim (Bool-cases (any (λ r. r.code == row.code) db.codes)) [
    | inl clash ↦ absurd (ground arith)
    | inr free ↦
        let same : d ≡ record db { codes = db.codes ++ row ∷ [] } = ground arith in
        rw same (
          with_codes h _ (
            Distinct-concat (λ a b. a.code == b.code) (λ a b. eq_sym a.code b.code) db.codes row
              h.codes free))
  ];
}

pub insert_refresh-IsConsistent : (row : RefreshRow) → KeepsDb IsConsistent (insert_refresh row)
unfolding insert_refresh
insert_refresh-IsConsistent row = record {
  at = λ db u d e h.
      elim (Bool-cases (any (λ r. r.token_hash == row.token_hash) db.refresh_tokens)) [
        | inl clash ↦ absurd (ground arith)
        | inr free ↦
            let same : d ≡ record db { refresh_tokens = db.refresh_tokens ++ row ∷ [] } =
              ground arith in
            rw same (
              with_refresh_tokens h _ (
                Distinct-concat (λ a b. a.token_hash == b.token_hash)
                  (λ a b. eq_sym a.token_hash b.token_hash) db.refresh_tokens row h.token_hashes
                  free))
      ];
}

pub insert_login-IsConsistent : (row : LoginRow) → KeepsDb IsConsistent (insert_login row)
unfolding insert_login
insert_login-IsConsistent row = record {
  at = λ db u d e h. elim (Bool-cases (any (λ r. r.state == row.state) db.login_states)) [
    | inl clash ↦ absurd (ground arith)
    | inr free ↦
        let same : d ≡ record db { login_states = db.login_states ++ row ∷ [] } = ground arith in
        rw same (
          with_login_states h _ (
            Distinct-concat (λ a b. a.state == b.state) (λ a b. eq_sym a.state b.state)
              db.login_states row h.states free))
  ];
}

pub take_code-IsConsistent : (code : String) → KeepsDb IsConsistent (take_code code)
unfolding take_code
take_code-IsConsistent code = record {
  at = λ db u d e h. elim (Option-cases (find (λ r. r.code == code) db.codes)) [
    | inl missing ↦ absurd (ground arith)
    | inr (r, found) ↦
        let same : d ≡ record db { codes = delete_where (λ r. r.code == code) db.codes } =
          ground arith in
        rw same (with_codes h _ (Distinct-delete_where _ (λ r. r.code == code) db.codes h.codes))
  ];
}

pub take_login-IsConsistent : (state : String) → KeepsDb IsConsistent (take_login state)
unfolding take_login
take_login-IsConsistent state = record {
  at = λ db u d e h. elim (Option-cases (find (λ r. r.state == state) db.login_states)) [
    | inl missing ↦ absurd (ground arith)
    | inr (r, found) ↦
        let same : d
            ≡ record db { login_states = delete_where (λ r. r.state == state) db.login_states } =
          ground arith in
        rw same (
          with_login_states h _
            (Distinct-delete_where _ (λ r. r.state == state) db.login_states h.states))
  ];
}

pub clear_refresh_tokens-IsConsistent :
    (id : String) → KeepsDb IsConsistent (clear_refresh_tokens id)
unfolding clear_refresh_tokens
clear_refresh_tokens-IsConsistent id = record {
  at = λ db u d e h.
      let same : d
          ≡ record db { refresh_tokens = delete_where (λ r. r.tenant_id == id) db.refresh_tokens } =
        ground arith in
      rw same (
        with_refresh_tokens h _
          (Distinct-delete_where _ (λ r. r.tenant_id == id) db.refresh_tokens h.token_hashes));
}

pub clear_codes-IsConsistent : (id : String) → KeepsDb IsConsistent (clear_codes id)
unfolding clear_codes
clear_codes-IsConsistent id = record {
  at = λ db u d e h.
      let same : d ≡ record db { codes = delete_where (λ r. r.tenant_id == id) db.codes } =
        ground arith in
      rw same (with_codes h _ (Distinct-delete_where _ (λ r. r.tenant_id == id) db.codes h.codes));
}

pub purge_codes-IsConsistent : (now : ℕ) → KeepsDb IsConsistent (purge_codes now)
unfolding purge_codes
purge_codes-IsConsistent now = record {
  at = λ db u d e h.
      let same : d ≡ record db { codes = delete_where (λ r. leb r.expires_at now) db.codes } =
        ground arith in
      rw same
        (with_codes h _ (Distinct-delete_where _ (λ r. leb r.expires_at now) db.codes h.codes));
}

pub purge_login_states-IsConsistent : (now : ℕ) → KeepsDb IsConsistent (purge_login_states now)
unfolding purge_login_states
purge_login_states-IsConsistent now = record {
  at = λ db u d e h.
      let same : d
          ≡ record db { login_states = delete_where (λ r. leb r.expires_at now) db.login_states } =
        ground arith in
      rw same (
        with_login_states h _
          (Distinct-delete_where _ (λ r. leb r.expires_at now) db.login_states h.states));
}

pub purge_refresh_tokens-IsConsistent : (now : ℕ) → KeepsDb IsConsistent (purge_refresh_tokens now)
unfolding purge_refresh_tokens
purge_refresh_tokens-IsConsistent now = record {
  at = λ db u d e h.
      let same : d ≡ record db {
        refresh_tokens = delete_where (λ r. leb r.expires_at now) db.refresh_tokens;
      } =
        ground arith in
      rw same (
        with_refresh_tokens h _
          (Distinct-delete_where _ (λ r. leb r.expires_at now) db.refresh_tokens h.token_hashes));
}
