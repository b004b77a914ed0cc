-- ===== src/Auth/Grants.antt =====
-- When the token endpoint issues tokens.
use Prim.Native.String.{len}
use meta_mcp.Prelude.{String, arith, eq_iff, find, inl, inr, some, suc, ◌<◌, ◌≡◌, ◌≤◌}
use meta_mcp.Auth.Server.{Response, Form, Options, Codec}
use meta_mcp.World.{sql, World, ask, Env}
use meta_mcp.Domain.Time.{Time}
use meta_mcp.Auth.Token.{max_verifier_len, min_verifier_len, grant_authorization_code, check_code}
use meta_mcp.Exec.{ok, ◌>>=◌, or_return}
use meta_mcp.Auth.Jwt.{verify_pkce}
use meta_mcp.Domain.Entities.{AuthCode}
use meta_mcp.Store.Db.{CodeRow}
use meta_mcp.Store.Codes.{consume-taken, is_code}
use meta_mcp.Store.Oauth.{consume_auth_code, of_code_row}
use meta_mcp.Exec.Run.{Result-cases}

-- What the exchange of a code for tokens requires of the code `c` stored for it, at time `now`.
pub record IsExchangeable (codec : Codec) (opts : Options) (env : Env) (now : Time) (f : Form)
    (c : AuthCode) : Type 0 where
  pub unexpired : now < c.expires_at
  pub same_client : c.client_id ≡ f "client_id"
  pub same_redirect : f "redirect_uri" ≡ c.redirect_uri
  pub proves : codec.base64 (codec.sha256 (f "code_verifier")) ≡ c.code_challenge
  pub long_enough : min_verifier_len ≤ len (f "code_verifier")
  pub short_enough : len (f "code_verifier") ≤ max_verifier_len

module _ (codec : Codec) (opts : Options) (env : Env) where
  check_code-eq-ok :
      (f : Form) (c : AuthCode) (w : World) {r : Response}
      → (check_code codec opts env f c w).0 ≡ ok r
      → (env.now w.step < c.expires_at)
        × (c.client_id ≡ f "client_id")
        × (f "redirect_uri" ≡ c.redirect_uri)
        × (codec.base64 (codec.sha256 (f "code_verifier")) ≡ c.code_challenge)
  unfolding check_code verify_pkce ask ◌>>=◌
  check_code-eq-ok f c w h = ground (
    arith,
    eq_iff c.client_id (f "client_id"),
    eq_iff (f "redirect_uri") c.redirect_uri,
    eq_iff (codec.base64 (codec.sha256 (f "code_verifier"))) c.code_challenge,
  )

  consume-step : (code : String) (w : World) → (consume_auth_code env code w).1.step ≡ suc w.step
  unfolding consume_auth_code sql or_return ◌>>=◌
  consume-step code w = ground arith

  -- The authorization code grant returns without an error only for a code that is stored, that has
  -- not expired, that was issued to this client for this redirect URI, and whose PKCE challenge is met
  -- by the verifier, of 43 to 128 bytes.
  pub grant_authorization_code-IsExchangeable :
      (f : Form) (w : World) {r : Response}
      → (grant_authorization_code codec opts env f w).0 ≡ ok r
      → (row : CodeRow) × (find (is_code (f "code")) w.db.codes ≡ some row)
        × IsExchangeable codec opts env (env.now (suc w.step)) f (of_code_row row)
  unfolding grant_authorization_code or_return ◌>>=◌
  grant_authorization_code-IsExchangeable f w {r} h =
      elim (Result-cases (consume_auth_code env (f "code") w).0) [
        | inl (e, bad) ↦ absurd (ground arith)
        | inr (c, good) ↦
            let (row, found, same, left) = consume-taken env (f "code") w good in
            let checked : (check_code codec opts env f c (consume_auth_code env (f "code") w).1).0
                ≡ ok r =
              ground arith in
            let (fresh, client, uri, proof) =
              check_code-eq-ok f c (consume_auth_code env (f "code") w).1 checked in
            (
              row,
              found,
              rw (← same) (record {
                unexpired = rw (← consume-step (f "code") w) fresh;
                same_client = client;
                same_redirect = uri;
                proves = proof;
                long_enough = ground arith;
                short_enough = ground arith;
              }),
            )
      ]
