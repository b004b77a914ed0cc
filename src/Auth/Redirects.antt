-- ===== src/Auth/Redirects.antt =====
-- Where the authorization endpoint may send a browser.
use mathlib.Core.List.{Memᴰ}
use meta_mcp.Prelude.{
  arith, inl, inr, true, ◌≡◌, ◌==◌, String, List, [], ◌∷◌, any, find, eq_iff, Bool-cases,
  Option-cases,
}
use meta_mcp.Domain.Errors.{is_no_rows}
use meta_mcp.Store.Db.{ClientRow}
use meta_mcp.Store.Laws.{find-eq-some}
use meta_mcp.Store.Rows.{find-Mem}
use meta_mcp.Auth.Server.{
  redirect, Location, Form, redirect_with_params, redirect_error, Options, Codec,
}
use meta_mcp.World.{World, ask, Env, sql}
use meta_mcp.Auth.Authorize.{client_error, authorize_trusted, authorize_handler}
use meta_mcp.Exec.{ok, answer, ◌>>=◌, or_return}
use meta_mcp.Domain.Entities.{allows_redirect_uri, OauthClient}
use meta_mcp.Store.Oauth.{client_by_id, of_client_row}
use meta_mcp.Exec.Run.{Result-cases}

any-Mem : (uri : String) (uris : List String) → any (λ u. u == uri) uris ≡ true → Memᴰ uri uris
any-Mem uri [] h = absurd (ground arith)
any-Mem uri (u ∷ uris) h = elim (Bool-cases (u == uri)) [
  | inl same ↦ Memᴰ.head (ground (arith, eq_iff u uri))
  | inr other ↦ Memᴰ.tail (any-Mem uri uris (ground arith))
]

allows_redirect_uri-Mem :
    (c : OauthClient) (uri : String) → allows_redirect_uri c uri ≡ true → Memᴰ uri c.redirect_uris
unfolding allows_redirect_uri
allows_redirect_uri-Mem c uri h = any-Mem uri c.redirect_uris h

-- A client that is answered is a stored row.
client_by_id-row :
    (env : Env) (id : String) (w : World) {c : OauthClient}
    → (client_by_id env id w).0 ≡ ok c
    → (r : ClientRow) × Memᴰ r w.db.clients
      × (r.client_id ≡ id)
      × (c.redirect_uris ≡ r.redirect_uris)
unfolding client_by_id sql or_return ◌>>=◌ is_no_rows of_client_row
client_by_id-row env id w {c} h = elim (Option-cases (find (λ r. r.client_id == id) w.db.clients)) [
  | inl missing ↦ absurd (ground arith)
  | inr (r, found) ↦ (
    r,
    find-Mem (λ r. r.client_id == id) w.db.clients found,
    ground (
      arith,
      find-eq-some (λ (r : ClientRow). r.client_id == id) w.db.clients found,
      eq_iff r.client_id id,
    ),
    ground arith,
  )
]

module _ (codec : Codec) (opts : Options) (env : Env) where
  trusted-uri :
      (q : Form) (w : World) {loc : Location}
      → answer (authorize_trusted codec opts env q w).0 ≡ redirect loc
      → loc.uri ≡ q "redirect_uri"
  unfolding authorize_trusted redirect_error redirect_with_params ask or_return ◌>>=◌
  trusted-uri q w h = ground arith

  -- The authorization endpoint redirects to a URI only where a row of the table of clients has the id
  -- that the request names, and that URI is one of the row's redirect URIs.
  pub authorize_handler-allows :
      (q : Form) (w : World) {loc : Location}
      → answer (authorize_handler codec opts env q w).0 ≡ redirect loc
      → (r : ClientRow) × Memᴰ r w.db.clients
        × (r.client_id ≡ q "client_id")
        × Memᴰ loc.uri r.redirect_uris
  unfolding authorize_handler client_error or_return ◌>>=◌
  authorize_handler-allows q w {loc} h =
      elim (Result-cases (client_by_id env (q "client_id") w).0) [
        | inl (e, bad) ↦ absurd (ground arith)
        | inr (c, good) ↦
            let trusted : answer
                  (authorize_trusted codec opts env q (client_by_id env (q "client_id") w).1).0
                ≡ redirect loc =
              ground arith in
            let allowed : allows_redirect_uri c loc.uri ≡ true =
              ground (arith, trusted-uri q (client_by_id env (q "client_id") w).1 trusted) in
            let (r, stored, same, uris) = client_by_id-row env (q "client_id") w good in
            (r, stored, same, rw (← uris) (allows_redirect_uri-Mem c loc.uri allowed))
      ]
