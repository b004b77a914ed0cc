-- ===== src/Store/Codes.antt =====
-- Authorization codes and login states: what is stored comes back once.
use mathlib.Core.List.{Memᴰ}
use meta_mcp.Prelude.{
  All, List, [], ◌∷◌, keep, refl, Bool-cases, ℕ, ◌≡◌, ◌≢◌, Bool, true, String, none, some, ◌==◌,
  eq_iff, eq_refl, find, Option-cases, inl, inr, arith,
}
use meta_mcp.Domain.Time.{unix, of_unix}
use meta_mcp.Domain.Errors.{not_found, is_no_rows}
use meta_mcp.Domain.Entities.{AuthCode, LoginState}
use meta_mcp.Exec.{ok, err, ◌>>=◌, or_return}
use meta_mcp.World.{Env, World, sql}
use meta_mcp.Store.Db.{CodeRow, LoginRow}
use meta_mcp.Store.Tables.{nullable, null_string, delete_where}
use meta_mcp.Store.Laws.{find-eq-some, find-concat_new}
use meta_mcp.Store.Rows.{find-Mem}
use meta_mcp.Store.Added.{Adds, run_ops-Rows}
use meta_mcp.Store.Consistency.{StoreOp, run_ops}
use meta_mcp.Store.Isolation.{at_step}
use meta_mcp.Store.Oauth.{
  of_login_row, of_code_row, code_row, create_auth_code, consume_auth_code, consume_login_state,
}

abbrev pub is_code : String → CodeRow → Bool
is_code code r = r.code == code

-- Where no statement fails, a code that is not stored is not found.
consume-missing :
    (env : Env) (code : String) (w : World)
    → env.fault w.step ≡ none
    → find (is_code code) w.db.codes ≡ none
    → (consume_auth_code env code w).0 ≡ err not_found
unfolding consume_auth_code sql or_return ◌>>=◌ is_no_rows
consume-missing env code w went missing = ground arith

-- A consumed code was stored, and is no longer.
pub consume-taken :
    (env : Env) (code : String) (w : World) {c : AuthCode}
    → (consume_auth_code env code w).0 ≡ ok c
    → (r : CodeRow) × (find (is_code code) w.db.codes ≡ some r)
      × (c ≡ of_code_row r)
      × ((consume_auth_code env code w).1.db.codes ≡ delete_where (is_code code) w.db.codes)
unfolding consume_auth_code sql or_return ◌>>=◌ is_no_rows
consume-taken env code w {c} h = elim (Option-cases (find (is_code code) w.db.codes)) [
  | inl missing ↦ absurd (ground arith)
  | inr (r, found) ↦ (r, found, ground arith, ground arith)
]

-- No row that a deletion by key leaves has the key.
All-delete_where :
    {A : Type 0} (key : A → String) (k : String) (rows : List A)
    → All (λ r. key r ≢ k) (delete_where (λ r. key r == k) rows)
unfolding delete_where keep
All-delete_where key k [] = tt
All-delete_where key k (x ∷ rows) = elim (Bool-cases (key x == k)) [
  | inl same ↦ rw (same, keep) (All-delete_where key k rows)
  | inr other ↦
      rw (other, keep) (λ e. ground (arith, eq_iff (key x) k), All-delete_where key k rows)
]

find-All_other :
    {A : Type 0} (key : A → String) (k : String) (rows : List A)
    → All (λ r. key r ≢ k) rows
    → find (λ r. key r == k) rows ≡ none
unfolding find
find-All_other key k [] h = refl
find-All_other key k (x ∷ rows) (hx, h) = elim (Bool-cases (key x == k)) [
  | inl same ↦ absurd (hx ((eq_iff (key x) k).0 same))
  | inr other ↦ ground (arith, find-All_other key k rows h)
]

All-any {ℓ} : {A : Type ℓ} (rows : List A) → All (λ _. Unit {0}) rows
All-any [] = tt
All-any (x ∷ rows) = (tt, All-any rows)

-- When a code is consumed, a row was stored under it, and the answer has the row's client, tenant,
-- redirect URI, challenge and deadline. After that and any sequence of store operations of which none
-- creates the code again, each succeeding or failing, consuming the code at a step where the database
-- does not fail answers `not_found`.
pub consume_auth_code-once :
    (env : Env) (code : String) (ops : List StoreOp) (n : ℕ) (w : World) {c : AuthCode}
    → (consume_auth_code env code w).0 ≡ ok c
    → All (Adds (λ r. r.code ≢ code) (λ s. Unit {0})) ops
    → env.fault n ≡ none
    → ((r : CodeRow) × Memᴰ r w.db.codes
        × (r.code ≡ code)
        × ((c.code ≡ code)
            × (c.client_id ≡ r.client_id)
            × (c.tenant_id ≡ r.tenant_id)
            × (c.redirect_uri ≡ r.redirect_uri)
            × (c.code_challenge ≡ r.code_challenge)
            × (c.expires_at ≡ of_unix r.expires_at)))
      × ((consume_auth_code env code
            (at_step n (run_ops env ops (consume_auth_code env code w).1))).0
          ≡ err not_found)
unfolding of_code_row
consume_auth_code-once env code ops n w h others went =
    let (r, found, same, left) = consume-taken env code w h in
    let own : r.code ≡ code =
      (eq_iff r.code code).0 (find-eq-some (is_code code) w.db.codes found) in
    let rows =
      run_ops-Rows (λ r. r.code ≢ code) (λ s. Unit {0}) env ops (consume_auth_code env code w).1
        others
        (record {
          codes = rw left (All-delete_where (λ (r : CodeRow). r.code) code w.db.codes);
          login_states = All-any (consume_auth_code env code w).1.db.login_states;
        }) in
    (
      (
        r,
        find-Mem (is_code code) w.db.codes found,
        own,
        (
          ground (arith, own, same),
          ground (arith, same),
          ground (arith, same),
          ground (arith, same),
          ground (arith, same),
          ground (arith, same),
        ),
      ),
      consume-missing env code (at_step n (run_ops env ops (consume_auth_code env code w).1)) went (
          find-All_other (λ (r : CodeRow). r.code) code
            (run_ops env ops (consume_auth_code env code w).1).db.codes rows.codes),
    )

null_string-nullable : (s : String) → null_string (nullable s) ≡ s
unfolding nullable
null_string-nullable s = ground (arith, eq_iff s "")

-- What a deadline becomes in a column of seconds.
abbrev pub to_the_second : AuthCode → AuthCode
to_the_second c = record c { expires_at = of_unix (unix c.expires_at) }

of_code_row-code_row : (c : AuthCode) → of_code_row (code_row c) ≡ to_the_second c
unfolding of_code_row code_row
of_code_row-code_row c = ground (arith, null_string-nullable c.resource)

-- A created code was new, and its row is appended.
created :
    (env : Env) (c : AuthCode) (w : World)
    → (create_auth_code env c w).0 ≡ ok tt
    → find (is_code c.code) (create_auth_code env c w).1.db.codes ≡ some (code_row c)
unfolding create_auth_code sql or_return
created env c w h =
    let own : is_code c.code (code_row c) ≡ true = unfold code_row in eq_refl c.code in
    ground (arith, find-concat_new (is_code c.code) w.db.codes (code_row c))

-- A code that was created without an error, and is consumed at a step where the database does not
-- fail, comes back with every field as it was given, its deadline cut to the second.
pub consume-create :
    (env : Env) (c : AuthCode) (n : ℕ) (w : World)
    → (create_auth_code env c w).0 ≡ ok tt
    → env.fault n ≡ none
    → (consume_auth_code env c.code (at_step n (create_auth_code env c w).1)).0
      ≡ ok (to_the_second c)
unfolding consume_auth_code sql or_return ◌>>=◌
consume-create env c n w h went =
    let found = created env c w h in ground (arith, of_code_row-code_row c)

abbrev pub is_login : String → LoginRow → Bool
is_login state r = r.state == state

login-missing :
    (env : Env) (state : String) (w : World)
    → env.fault w.step ≡ none
    → find (is_login state) w.db.login_states ≡ none
    → (consume_login_state env state w).0 ≡ err not_found
unfolding consume_login_state sql or_return ◌>>=◌ is_no_rows
login-missing env state w went missing = ground arith

login-taken :
    (env : Env) (state : String) (w : World) {l : LoginState}
    → (consume_login_state env state w).0 ≡ ok l
    → (r : LoginRow) × (find (is_login state) w.db.login_states ≡ some r)
      × (l ≡ of_login_row r)
      × ((consume_login_state env state w).1.db.login_states
          ≡ delete_where (is_login state) w.db.login_states)
unfolding consume_login_state sql or_return ◌>>=◌ is_no_rows
login-taken env state w {l} h = elim (Option-cases (find (is_login state) w.db.login_states)) [
  | inl missing ↦ absurd (ground arith)
  | inr (r, found) ↦ (r, found, ground arith, ground arith)
]

-- When a login state is consumed, a row was stored under it, and the answer has the row's request and
-- deadline. After that and any sequence of store operations of which none creates the state again,
-- each succeeding or failing, consuming it at a step where the database does not fail answers
-- `not_found`.
pub consume_login_state-once :
    (env : Env) (state : String) (ops : List StoreOp) (n : ℕ) (w : World) {l : LoginState}
    → (consume_login_state env state w).0 ≡ ok l
    → All (Adds (λ r. Unit {0}) (λ s. s.state ≢ state)) ops
    → env.fault n ≡ none
    → ((r : LoginRow) × Memᴰ r w.db.login_states
        × (r.state ≡ state)
        × ((l.state ≡ state)
            × (l.request ≡ r.oauth_request)
            × (l.expires_at ≡ of_unix r.expires_at)))
      × ((consume_login_state env state
            (at_step n (run_ops env ops (consume_login_state env state w).1))).0
          ≡ err not_found)
unfolding of_login_row
consume_login_state-once env state ops n w h others went =
    let (r, found, same, left) = login-taken env state w h in
    let own : r.state ≡ state =
      (eq_iff r.state state).0 (find-eq-some (is_login state) w.db.login_states found) in
    let rows =
      run_ops-Rows (λ r. Unit {0}) (λ s. s.state ≢ state) env ops
        (consume_login_state env state w).1 others
        (record {
          codes = All-any (consume_login_state env state w).1.db.codes;
          login_states =
              rw left (All-delete_where (λ (s : LoginRow). s.state) state w.db.login_states);
        }) in
    (
      (
        r,
        find-Mem (is_login state) w.db.login_states found,
        own,
        (ground (arith, own, same), ground (arith, same), ground (arith, same)),
      ),
      login-missing env state (at_step n (run_ops env ops (consume_login_state env state w).1)) went
          (find-All_other (λ (s : LoginRow). s.state) state
            (run_ops env ops (consume_login_state env state w).1).db.login_states
            rows.login_states),
    )
