-- ===== src/Tests/Storing.antt =====
-- The theorems on the store and the cipher at concrete inputs.
use mathlib.Core.List.{Memᴰ}
use meta_mcp.Exec.{ok, err, ◌>>=◌, or_return}
use meta_mcp.Prelude.{
  eqb, if◌then◌else◌, All, ◌==◌, not, keep, none, true, ◌<◌, ◌+◌, String, find, List, [], ◌∷◌, some,
  false, refl, eq_iff, arith, ◌≡◌, ◌≢◌, ◌⊎◌,
}
use meta_mcp.Store.Opening.{Disk, Schema}
use meta_mcp.World.{sql}
use meta_mcp.Store.Isolation.{
  page_by_id-replace_pages_other, page_by_id-owned, page_by_id-delete_tenant_other, at_step,
  Answers,
}
use meta_mcp.Domain.Entities.{no_request, LoginState, AuthCode}
use meta_mcp.Store.Consistency.Schema.{IsConsistent}
use meta_mcp.Store.Db.{LoginRow, CodeRow, RefreshRow, PageRow}
use meta_mcp.Store.Oauth.{
  login_row, code_row, rotated, of_login_row, of_code_row, is_live, rotate_refresh_token,
  create_auth_code, consume_login_state, consume_auth_code,
}
use meta_mcp.Crypto.{encrypt, decrypt}
use meta_mcp.Store.Tenants.{delete_tenant}
use meta_mcp.Store.Pages.{scan_page, replace_pages, same_page, page_by_id}
use meta_mcp.Store.Consistency.{
  create_login, create_code, purge, delete, run_ops-IsConsistent, rotate, consume_code, run_ops,
  StoreOp,
}
use meta_mcp.Tests.Fixtures.{
  refresh_1, noon, login_1, code_1, front_page, running, stored, shift_cipher, quiet_env,
}
use meta_mcp.Crypto.RoundTrip.{decrypt-encrypt}
use meta_mcp.Store.Erasure.{delete_tenant-IsErased, IsErased}
use meta_mcp.Domain.Errors.{Error, not_found}
use meta_mcp.Store.Codes.{
  consume_auth_code-once, consume_login_state-once, consume-create, to_the_second,
}
use meta_mcp.Domain.Time.{of_unix, day, unix}
use meta_mcp.Auth.Server.{auth_code_ttl}
use meta_mcp.Store.Rotation.{rotate-live, rotate_refresh_token-once}
use meta_mcp.Store.Added.{Adds}

-- Concrete texts that differ.
t2-ne-t1 : (◌≢◌ {A = String} "t2" "t1")
t2-ne-t1 e = ground (arith, eq_iff "t2" "t1")

stored-IsConsistent : IsConsistent stored
stored-IsConsistent = record {
  tenant_ids = (refl, (refl, tt));
  meta_users = (refl, (refl, tt));
  page_keys = (refl, (refl, tt));
  page_tenants = (refl, (refl, tt));
  client_ids = (refl, tt);
  codes = (refl, tt);
  token_hashes = (refl, tt);
  states = (refl, tt);
}

abbrev a_day : List StoreOp
a_day = consume_code "k1" ∷ rotate "h1" noon ∷ delete "t1" ∷ purge (noon + day) ∷ []

run_ops-IsConsistent_example : IsConsistent (run_ops quiet_env a_day running).db
run_ops-IsConsistent_example = run_ops-IsConsistent quiet_env a_day running stored-IsConsistent

consume-went : (consume_auth_code quiet_env "k1" running).0 ≡ ok (of_code_row code_1)
unfolding consume_auth_code sql or_return ◌>>=◌ find
consume-went = refl

abbrev new_code : AuthCode
new_code = record {
  code = "k3";
  client_id = "c1";
  tenant_id = "t2";
  redirect_uri = "https://desk.example/cb";
  code_challenge = "b";
  resource = "";
  expires_at = noon + auth_code_ttl;
}

abbrev new_login : LoginState
new_login = record { state = "s2"; request = no_request; expires_at = noon }

-- Another code and another login state are created in between.
abbrev between : List StoreOp
between = create_code new_code ∷ create_login new_login ∷ a_day

k3-ne-k1 : (◌≢◌ {A = String} "k3" "k1")
k3-ne-k1 e = ground (arith, eq_iff "k3" "k1")

s2-ne-s1 : (◌≢◌ {A = String} "s2" "s1")
s2-ne-s1 e = ground (arith, eq_iff "s2" "s1")

other_codes : All (Adds (λ r. r.code ≢ "k1") (λ s. Unit {0})) between
unfolding code_row
other_codes = (k3-ne-k1, (tt, (tt, (tt, (tt, (tt, tt))))))

other_logins : All (Adds (λ r. Unit {0}) (λ s. s.state ≢ "s1")) between
unfolding login_row
other_logins = (tt, (s2-ne-s1, (tt, (tt, (tt, (tt, tt))))))

consume_auth_code-once_example :
    ((r : CodeRow) × Memᴰ r running.db.codes
      × (r.code ≡ "k1")
      × (((of_code_row code_1).code ≡ "k1")
          × ((of_code_row code_1).client_id ≡ r.client_id)
          × ((of_code_row code_1).tenant_id ≡ r.tenant_id)
          × ((of_code_row code_1).redirect_uri ≡ r.redirect_uri)
          × ((of_code_row code_1).code_challenge ≡ r.code_challenge)
          × ((of_code_row code_1).expires_at ≡ of_unix r.expires_at)))
    × ((consume_auth_code quiet_env "k1"
          (at_step 1 (run_ops quiet_env between (consume_auth_code quiet_env "k1" running).1))).0
        ≡ err not_found)
consume_auth_code-once_example =
    consume_auth_code-once quiet_env "k1" between 1 running consume-went other_codes refl

create-went : (create_auth_code quiet_env new_code running).0 ≡ ok tt
unfolding create_auth_code sql or_return
create-went = refl

consume-create_example :
    (consume_auth_code quiet_env "k3" (at_step 1 (create_auth_code quiet_env new_code running).1)).0
    ≡ ok (to_the_second new_code)
consume-create_example = consume-create quiet_env new_code 1 running create-went refl

login-went : (consume_login_state quiet_env "s1" running).0 ≡ ok (of_login_row login_1)
unfolding consume_login_state sql or_return ◌>>=◌ find
login-went = refl

consume_login_state-once_example :
    ((r : LoginRow) × Memᴰ r running.db.login_states
      × (r.state ≡ "s1")
      × (((of_login_row login_1).state ≡ "s1")
          × ((of_login_row login_1).request ≡ r.oauth_request)
          × ((of_login_row login_1).expires_at ≡ of_unix r.expires_at)))
    × ((consume_login_state quiet_env "s1"
          (at_step 1 (run_ops quiet_env between (consume_login_state quiet_env "s1" running).1))).0
        ≡ err not_found)
consume_login_state-once_example =
    consume_login_state-once quiet_env "s1" between 1 running login-went other_logins refl

rotate-went : (rotate_refresh_token quiet_env "h1" noon running).0 ≡ ok (rotated refresh_1)
unfolding rotate_refresh_token sql or_return ◌>>=◌ find
rotate-went = refl

rotate-live_example :
    (r : RefreshRow) × Memᴰ r running.db.refresh_tokens
    × (r.token_hash ≡ "h1")
    × (r.revoked ≡ false)
    × (unix noon < r.expires_at)
    × (((rotated refresh_1).token_hash ≡ "h1")
        × ((rotated refresh_1).client_id ≡ r.client_id)
        × ((rotated refresh_1).tenant_id ≡ r.tenant_id)
        × ((rotated refresh_1).expires_at ≡ of_unix r.expires_at))
    × Memᴰ
        (record r { revoked = true })
        (rotate_refresh_token quiet_env "h1" noon running).1.db.refresh_tokens
    × (find
          (is_live "h1" (unix noon))
          (rotate_refresh_token quiet_env "h1" noon running).1.db.refresh_tokens
        ≡ none)
    × (keep
          (λ r. not (r.token_hash == "h1"))
          (rotate_refresh_token quiet_env "h1" noon running).1.db.refresh_tokens
        ≡ keep (λ r. not (r.token_hash == "h1")) running.db.refresh_tokens)
rotate-live_example = rotate-live quiet_env "h1" noon running rotate-went

rotate_refresh_token-once_example :
    (rotate_refresh_token quiet_env "h1"
      (noon + day)
      (at_step 1 (rotate_refresh_token quiet_env "h1" noon running).1)).0
    ≡ err not_found
rotate_refresh_token-once_example =
    rotate_refresh_token-once quiet_env "h1" noon (noon + day) 1 running rotate-went (omega arith)
      refl

page-went : (page_by_id quiet_env "t1" "p1" running).0 ≡ ok front_page
unfolding page_by_id decrypt sql or_return ◌>>=◌ find
page-went = refl

page_by_id-owned_example :
    (r : PageRow) × (find (same_page "t1" "p1") running.db.pages ≡ some r)
    × (r.tenant_id ≡ "t1")
    × (r.page_id ≡ "p1")
    × (scan_page quiet_env "t1" r ≡ ok front_page)
    × (front_page.tenant_id ≡ "t1")
    × (front_page.page_id ≡ "p1")
page_by_id-owned_example = page_by_id-owned quiet_env "t1" "p1" running page-went

page_by_id-replace_pages_other_example :
    Answers quiet_env "t1" "p1"
      (at_step 9 (replace_pages quiet_env "t2" (front_page ∷ []) running).1)
    ≡ Answers quiet_env "t1" "p1" (at_step 9 running)
page_by_id-replace_pages_other_example =
    page_by_id-replace_pages_other quiet_env "t2" "t1" "p1" (front_page ∷ []) 9 running t2-ne-t1

page_by_id-delete_tenant_other_example :
    Answers quiet_env "t1" "p1" (at_step 9 (delete_tenant quiet_env "t2" running).1)
    ≡ Answers quiet_env "t1" "p1" (at_step 9 running)
page_by_id-delete_tenant_other_example =
    page_by_id-delete_tenant_other quiet_env "t2" "t1" "p1" 9 running t2-ne-t1

delete_tenant-IsErased_example :
    (((delete_tenant quiet_env "t1" running).0 ≡ ok tt)
      × IsErased "t1" (delete_tenant quiet_env "t1" running).1.db)
    ⊎ ((e : Error) × ((delete_tenant quiet_env "t1" running).0 ≡ err e)
        × ((delete_tenant quiet_env "t1" running).1.db ≡ stored))
delete_tenant-IsErased_example = delete_tenant-IsErased quiet_env "t1" running

encrypt-went : encrypt shift_cipher (ok (5 ∷ [])) "ab" ≡ ok (5 ∷ 7 ∷ 97 ∷ 98 ∷ [])
unfolding encrypt
encrypt-went = refl

decrypt-encrypt_example : decrypt shift_cipher (5 ∷ 7 ∷ 97 ∷ 98 ∷ []) ≡ ok "ab"
decrypt-encrypt_example =
    decrypt-encrypt shift_cipher (5 ∷ []) (5 ∷ 7 ∷ 97 ∷ 98 ∷ []) "ab"
      (record { opens = refl; grows = omega arith }) refl encrypt-went

-- Two migrations, listed out of order.
abbrev two_migrations : Disk
two_migrations = record {
  dir = λ s. "";
  quote = λ s. s;
  mkdir_all = λ s. ok tt;
  open_file = λ s. ok tt;
  glob = ok ("2" ∷ "1" ∷ []);
  read_file = λ s. ok s;
  fault = λ n. none;
}

-- The question for the first migration finds no row, though there is one.
abbrev forgetful : Disk
forgetful = record two_migrations { fault = λ n. if eqb n 12 then some Error.no_rows else none }

abbrev empty_schema : Schema
empty_schema = record { names = []; bodies = []; step = 0 }
