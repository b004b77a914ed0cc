-- ===== src/App/Status.antt =====
-- internal/app: connection_status.go and reconnect_url.go.
use Prim.Native.String
use meta_mcp.Prelude.{
  ◌*◌, ℕ, ◌+◌, Bool, false, not, ◌&&◌, String, List, [], ◌==◌, eqb, ltb, length, keep, contains,
  units_between, ℤ, pos, negsuc, decimal, if◌then◌else◌,
}
use meta_mcp.Domain.Time.{Time, minute, day, is_zero}
use meta_mcp.Domain.Errors.{Error, wrap}
use meta_mcp.Domain.Entities.{Tenant, Page, TokenStatus, no_request, has_instagram}
use meta_mcp.Exec.{Result, ok, err, pure, ◌>>=◌, ◌>>◌, or_return, attempt}
use meta_mcp.World.{Env, Action, Call, ask, reading, request}
use meta_mcp.Store.Tenants.{tenant_by_id}
use meta_mcp.Store.Pages.{list_pages}
use meta_mcp.Store.Oauth.{create_login_state}
use meta_mcp.App.Service.{Service}

infixr 65 ◌^^◌
abbrev ◌^^◌ : String → String → String
a ^^ b = String.◌++◌ a b

pub record ConnectionStatus : Type 0 where
  pub display_name : String
  pub healthy : Bool
  pub summary : String
  pub token_valid : Bool
  pub token_expires_at : String
  pub days_remaining : ℤ
  pub token_reason : String
  pub pages : ℕ
  pub pages_with_ig : ℕ
  pub missing_scopes : List String
  pub reconnection_url : String

unfoldable pub missing : List String → List String → List String
missing granted required =
    keep (λ scope. ltb 0 (length granted) && not (contains granted scope)) required

show_int : ℤ → String
show_int (pos n) = decimal n
show_int (negsuc n) = "-" ^^ decimal (n + 1)

summary_of : ConnectionStatus → String
unfolding show_int
summary_of c =
    if not c.token_valid
    then "L'autorisation Facebook n'est plus valide, une reconnexion est nécessaire."
    else if ltb 0 (length c.missing_scopes)
    then "Connexion active mais "
      ^^ decimal (length c.missing_scopes)
      ^^ " permission(s) manquante(s) : certaines fonctions échoueront."
    else if eqb c.pages 0
    then "Connexion valide, mais aucune page n'est synchronisée. Utilisez sync_pages."
    else if c.token_expires_at == ""
    then "Connexion valide, " ^^ decimal c.pages ^^ " page(s), sans date d'expiration connue."
    else "Connexion valide, "
      ^^ decimal c.pages
      ^^ " page(s), jeton valable encore "
      ^^ show_int c.days_remaining
      ^^ " jour(s)."

abbrev pub reconnect_state_ttl : ℕ
reconnect_state_ttl = 10 * minute

module _ (s : Service) where
  dated : Time → Time → ConnectionStatus → ConnectionStatus
  dated now expiry c = if is_zero expiry then c else record c {
    token_expires_at = s.formats.format_rfc3339 expiry;
    days_remaining = units_between day expiry now;
  }

  judged : List String → ConnectionStatus → ConnectionStatus
  unfolding missing
  judged granted c =
      let lacking = missing granted s.required_scopes in
      record c { missing_scopes = lacking; healthy = c.token_valid && eqb (length lacking) 0 }

  -- `fill` on a status with no missing scope yet.
  unfoldable pub fill : Time → Time → List String → ConnectionStatus → ConnectionStatus
  unfolding dated judged summary_of
  fill now expiry granted c =
      let filled = judged granted (dated now expiry c) in
      record filled { summary = summary_of filled }

  module _ (env : Env) where
    unfoldable pub reconnect_url : Action Error String
    reconnect_url = do
      state ← or_return (ask env.secret) (wrap "génération du state de reconnexion")
      now ← ask (reading env.now)
      or_return
          (create_login_state env (record {
            state = state;
            request = no_request;
            expires_at = now + reconnect_state_ttl;
          }))
          (wrap "enregistrement du state de reconnexion")
      pure (s.public_url ^^ "/meta/login?state=" ^^ s.formats.query_escape state)

    -- A link that could not be minted is left out.
    with_link : ConnectionStatus → Result Error String → ConnectionStatus
    with_link c (ok link) = record c { reconnection_url = link }
    with_link c (err e) = c

    unfoldable pub attach_reconnect_link : ConnectionStatus → Action Error ConnectionStatus
    unfolding reconnect_url with_link
    attach_reconnect_link c =
        if c.healthy then pure c else do link ← attempt reconnect_url; pure (with_link c link)

    start_status : Tenant → List Page → ConnectionStatus
    start_status tenant pages = record {
      display_name = tenant.display_name;
      healthy = false;
      summary = "";
      token_valid = false;
      token_expires_at = "";
      days_remaining = pos 0;
      token_reason = "";
      pages = length pages;
      pages_with_ig = length (keep has_instagram pages);
      missing_scopes = [];
      reconnection_url = "";
    }

    -- What Meta said of the token, or that it could not be reached.
    with_token : Tenant → ConnectionStatus → Result Error TokenStatus → Time → ConnectionStatus
    unfolding fill
    with_token tenant c (err e) now = fill now tenant.user_token_expires_at [] (record c {
      token_valid = false;
      token_reason = "impossible de joindre Meta pour vérifier le jeton";
    })
    with_token tenant c (ok token) now =
        fill now
          (if is_zero token.expires_at then tenant.user_token_expires_at else token.expires_at)
          token.scopes (record c { token_valid = token.valid; token_reason = token.reason })

    unfoldable pub connection_status : String → Action Error ConnectionStatus
    unfolding attach_reconnect_link start_status with_token
    connection_status tenant_id = do
      tenant ← tenant_by_id env tenant_id
      pages ← or_return (list_pages env tenant_id) (wrap "liste des pages")
      token ← attempt (request env.meta.debug_token (Call.debug_token tenant.user_token))
      now ← ask (reading env.now)
      attach_reconnect_link (with_token tenant (start_status tenant pages) token now)
