-- ===== src/Tests/Granting.antt =====
-- The theorems on the authorization server at concrete inputs.
use mathlib.Core.List.{Memᴰ}
use text.Mathlib.TextLemmas.{cons-ne-nil}
use meta_mcp.Exec.{answer, ok, ◌>>=◌, or_return}
use meta_mcp.Prelude.{
  Bool-cases, trim_space, keep, ◌*◌, length, ◌+◌, cut, All, ℕ, zero, suc, String, inl, inr, [], ◌∷◌,
  some, false, refl, eq_iff, arith, ◌≡◌, ◌≤◌, ◌==◌, if◌then◌else◌, find,
}
use meta_mcp.World.{sql, ask}
use meta_mcp.Crypto.{Bytes}
use meta_mcp.Store.Db.{ClientRow, CodeRow}
use meta_mcp.Auth.Server.{
  registered, redirect, redirect_error, tokens, Response, RegistrationResponse, Location, Form,
}
use meta_mcp.Auth.Verify.{
  verify_access_token-mint, verify_access_token-IsGenuine, IsGenuine, IsCodec,
}
use meta_mcp.Prelude.Split.{Lacks}
use meta_mcp.Domain.Entities.{allows_redirect_uri}
use meta_mcp.Auth.Register.{register_handler, RegisterInput}
use meta_mcp.Domain.Time.{second, Time}
use meta_mcp.Auth.Authorize.{authorize_handler}
use meta_mcp.Auth.Token.{issue_tokens, grant_authorization_code}
use meta_mcp.Auth.Jwt.{
  hash_token, verify_pkce, verify_access_token, minted_claims, mint_access_token,
}
use meta_mcp.Auth.Registration.{register_handler-IsAllowed, IsAllowed}
use meta_mcp.Store.Oauth.{
  create_refresh_token, consume_auth_code, of_code_row, register_client, client_by_id,
}
use meta_mcp.Tests.Fixtures.{
  running, stored, quiet_env, opts, claims_1, verifier, unary, times_a, of_unary, noon, codec,
}
use meta_mcp.Store.Codes.{is_code}
use meta_mcp.Prelude.Int.{units_between, pos}
use meta_mcp.Auth.Grants.{grant_authorization_code-IsExchangeable, IsExchangeable}
use meta_mcp.Auth.Redirects.{authorize_handler-allows}

-- The codec of the tests meets the documented promises for the claims that it reads.
of_unary-times_a :
    (n : ℕ) (s : String) {bs : Bytes}
    → of_unary s ≡ some bs
    → of_unary (times_a n s) ≡ some (n ∷ bs)
of_unary-times_a zero s h = ground arith
of_unary-times_a (suc n) s {bs} h = ground (arith, of_unary-times_a n s {bs = bs} h)

of_unary-unary : (b : Bytes) → of_unary (unary b) ≡ some b
of_unary-unary [] = refl
of_unary-unary (b ∷ bs) = of_unary-times_a b (unary bs) (of_unary-unary bs)

Lacks-times_a : (n : ℕ) (s : String) → Lacks b'.' s → Lacks b'.' (times_a n s)
Lacks-times_a zero s h = (λ e. ground arith, h)
Lacks-times_a (suc n) s h = (λ e. ground arith, Lacks-times_a n s h)

Lacks-unary : (b : Bytes) → Lacks b'.' (unary b)
Lacks-unary [] = tt
Lacks-unary (b ∷ bs) = Lacks-times_a b (unary bs) (Lacks-unary bs)

ne_empty : (s : String) → (String.◌∷◌ "a" s == "") ≡ false
ne_empty s = elim (Bool-cases (String.◌∷◌ "a" s == "")) [
  | inl same ↦ absurd (cons-ne-nil "a" s ((eq_iff (String.◌∷◌ "a" s) "").0 same))
  | inr apart ↦ apart
]

codec-IsCodec : IsCodec codec claims_1
codec-IsCodec = record {
  unbase64-base64 = of_unary-unary;
  base64-Lacks = Lacks-unary;
  base64-ne_header = refl;
  base64-ne_claims = refl;
  base64-ne_hmac = λ k s. ne_empty (times_a 1 (unary k));
  read_header-json = refl;
  read_claims-json = refl;
}

abbrev pub token_1 : String
token_1 = "b.ab.aabab"

verified : (verify_access_token codec opts quiet_env token_1 running).0 ≡ ok claims_1
unfolding verify_access_token ask ◌>>=◌ cut
verified = refl

verify_access_token-IsGenuine_example : IsGenuine codec opts quiet_env noon token_1 claims_1
verify_access_token-IsGenuine_example =
    verify_access_token-IsGenuine codec opts quiet_env token_1 running verified

abbrev expiry_1 : Time
expiry_1 = noon + 3601 * second

minted : (mint_access_token codec opts quiet_env "t1" "c1" running).0 ≡ ok (token_1, expiry_1)
unfolding mint_access_token ask ◌>>=◌ or_return
minted = refl

minted_claims_1 : minted_claims codec opts quiet_env "t1" "c1" (noon + second) "secret" ≡ claims_1
unfolding minted_claims
minted_claims_1 = refl

verify_access_token-mint_example :
    (verify_access_token codec opts quiet_env token_1 running).0
    ≡ ok (minted_claims codec opts quiet_env "t1" "c1" (noon + second) "secret")
verify_access_token-mint_example =
    verify_access_token-mint codec opts quiet_env "t1" "c1" "secret" running running refl
      (rw minted_claims_1 codec-IsCodec) minted (λ e. ground (arith, eq_iff "t1" ""))
      (λ e. omega arith) (omega arith)

abbrev exchange : Form
exchange key =
    if key == "code"
    then "k1"
    else if key == "code_verifier"
    then verifier
    else if key == "client_id"
    then "c1"
    else if key == "redirect_uri"
    then "https://desk.example/cb"
    else ""

abbrev exchanged : Response
exchanged = tokens (record {
  access_token = token_1;
  token_type = "Bearer";
  expires_in = pos 3596;
  refresh_token = "secret";
})

granted : (grant_authorization_code codec opts quiet_env exchange running).0 ≡ ok exchanged
unfolding grant_authorization_code ask ◌>>=◌ or_return consume_auth_code sql find verify_pkce
    issue_tokens mint_access_token create_refresh_token hash_token units_between
granted = refl

grant_authorization_code-IsExchangeable_example :
    (row : CodeRow) × (find (is_code "k1") running.db.codes ≡ some row)
    × IsExchangeable codec opts quiet_env (noon + second) exchange (of_code_row row)
grant_authorization_code-IsExchangeable_example =
    grant_authorization_code-IsExchangeable codec opts quiet_env exchange running granted

-- A request for a response type that the server does not support.
abbrev implicit_flow : Form
implicit_flow key =
    if key == "client_id"
    then "c1"
    else if key == "redirect_uri"
    then "https://desk.example/cb"
    else if key == "response_type"
    then "token"
    else ""

abbrev unsupported : Location
unsupported = record {
  uri = "https://desk.example/cb";
  params =
      ("error", "invalid_request")
      ∷ ("error_description", "seul response_type=code est supporté")
      ∷ [];
}

refused :
    answer (authorize_handler codec opts quiet_env implicit_flow running).0 ≡ redirect unsupported
unfolding authorize_handler client_by_id redirect_error sql ◌>>=◌ or_return allows_redirect_uri keep
refused = refl

authorize_handler-allows_example :
    (r : ClientRow) × Memᴰ r stored.clients
    × (r.client_id ≡ "c1")
    × Memᴰ "https://desk.example/cb" r.redirect_uris
authorize_handler-allows_example =
    authorize_handler-allows codec opts quiet_env implicit_flow running refused

abbrev registration : RegisterInput
registration = record {
  method = "POST";
  body = some (record {
    client_name = "Desk";
    redirect_uris = "https://desk.example/cb" ∷ "http://localhost:8080/cb" ∷ [];
  });
}

abbrev desk : RegistrationResponse
desk = record {
  client_id = "secret";
  client_id_issued_at = 63_900_000_001;
  client_name = "Desk";
  redirect_uris = "https://desk.example/cb" ∷ "http://localhost:8080/cb" ∷ [];
  grant_types = "authorization_code" ∷ "refresh_token" ∷ [];
  response_types = "code" ∷ [];
  token_endpoint_auth_method = "none";
}

accepted : answer (register_handler codec quiet_env registration running).0 ≡ registered desk
unfolding register_handler register_client ask sql ◌>>=◌ or_return cut trim_space
accepted = refl

register_handler-IsAllowed_example :
    All (IsAllowed codec) desk.redirect_uris
    × (1 ≤ length desk.redirect_uris)
    × (length desk.redirect_uris ≤ 10)
register_handler-IsAllowed_example =
    register_handler-IsAllowed codec quiet_env registration running accepted
