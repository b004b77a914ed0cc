-- ===== src/Meta/Handlers/Callback.antt =====
-- Where the callback sends a browser, and what a callback without a login changes.
use meta_mcp.Prelude.{◌≡◌, ◌≢◌, inl, inr, Bool, String, ◌==◌, eq_iff, arith, Bool-cases}
use meta_mcp.Domain.Entities.{LoginState}
use meta_mcp.Exec.{ok, answer, ◌>>=◌, or_return}
use meta_mcp.Exec.Run.{Result-cases}
use meta_mcp.World.{Env, World, ask}
use meta_mcp.Auth.Server.{Form, Location, issue_auth_code, redirect_with_params}
use meta_mcp.App.Login.{LoginResult, complete, consume_state}
use meta_mcp.Meta.Handlers.{
  HandlerOptions, Pages, to_client, callback_handler, logged_in, welcomed, declined,
  redirect_to_client, login_error, state_error,
}

module _ (pages : Pages) (o : HandlerOptions) (env : Env) (allow : String → Bool) where
  declined-uri :
      (login : LoginState) {loc : Location}
      → declined pages login ≡ to_client loc
      → (loc.uri ≡ login.request.redirect_uri) × (login.request.client_id ≢ "")
  unfolding declined redirect_to_client
  declined-uri login h = ground (arith, eq_iff login.request.client_id "")

  issue_auth_code-uri :
      (login : LoginState) (tenant : String) (w : World) {loc : Location}
      → (issue_auth_code pages.codec env login.request tenant w).0 ≡ ok loc
      → loc.uri ≡ login.request.redirect_uri
  unfolding issue_auth_code redirect_with_params ask ◌>>=◌
  issue_auth_code-uri login tenant w h = ground arith

  welcomed-uri :
      (login : LoginState) (result : LoginResult) (w : World) {loc : Location}
      → answer (welcomed pages o env allow login result w).0 ≡ to_client loc
      → (loc.uri ≡ login.request.redirect_uri) × (login.request.client_id ≢ "")
  unfolding welcomed or_return ◌>>=◌
  welcomed-uri login result w {loc} h = elim (Bool-cases (login.request.client_id == "")) [
    | inl again ↦ absurd (ground arith)
    | inr client ↦
        elim (Result-cases (issue_auth_code pages.codec env login.request result.tenant_id w).0) [
          | inl (e, bad) ↦ absurd (ground arith)
          | inr (target, made) ↦ (
            ground (arith, issue_auth_code-uri login result.tenant_id w made),
            ground (arith, eq_iff login.request.client_id ""),
          )
        ]
  ]

  logged_in-uri :
      (q : Form) (login : LoginState) (w : World) {loc : Location}
      → answer (logged_in pages o env allow q login w).0 ≡ to_client loc
      → (loc.uri ≡ login.request.redirect_uri) × (login.request.client_id ≢ "")
  unfolding logged_in or_return ◌>>=◌ login_error
  logged_in-uri q login w {loc} h = elim (Bool-cases (q "error" == "")) [
    | inr failed ↦ declined-uri login {loc = loc} (ground arith)
    | inl none_e ↦ elim (Bool-cases (q "code" == "")) [
      | inl missing ↦ absurd (ground arith)
      | inr given ↦ elim (Result-cases (complete env allow (q "code") o.redirect_uri w).0) [
        | inl (e, bad) ↦ absurd (ground arith)
        | inr (result, good) ↦
            welcomed-uri login result (complete env allow (q "code") o.redirect_uri w).1 {loc = loc}
              (ground arith)
      ]
    ]
  ]

  -- The callback sends a browser to an MCP client only for a login state that it has just consumed,
  -- which a client began, and only to the redirect URI stored with that state.
  pub callback_handler-uri :
      (q : Form) (w : World) {loc : Location}
      → answer (callback_handler pages o env allow q w).0 ≡ to_client loc
      → (login : LoginState) × ((consume_state env (q "state") w).0 ≡ ok login)
        × (loc.uri ≡ login.request.redirect_uri)
        × (login.request.client_id ≢ "")
  unfolding callback_handler or_return ◌>>=◌ state_error
  callback_handler-uri q w {loc} h = elim (Bool-cases (q "state" == "")) [
    | inl missing ↦ absurd (ground arith)
    | inr given ↦ elim (Result-cases (consume_state env (q "state") w).0) [
      | inl (e, bad) ↦ absurd (ground arith)
      | inr (login, good) ↦
          let (uri, client) =
            logged_in-uri q login (consume_state env (q "state") w).1 {loc = loc} (ground arith) in
          (login, good, uri, client)
    ]
  ]
