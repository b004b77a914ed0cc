-- ===== src/Meta/Identity.antt =====
-- internal/adapters/meta/oauth.go: tokens, the user and the pages that the user administers.
use Prim.Native.String
use meta_mcp.Prelude.{suc, ℕ, ◌+◌, ◌||◌, String, List, [], ◌∷◌, ◌==◌, ltb, if◌then◌else◌}
use meta_mcp.Domain.Time.{Time, zero_time, epoch, of_unix}
use meta_mcp.Domain.Errors.{text, wrap}
use meta_mcp.Domain.Entities.{Page, MetaUser, LongLivedToken, TokenStatus}
use meta_mcp.Exec.{ok, pure, lift, stop_if, ◌>>=◌, ◌>>◌, or_return}
use meta_mcp.Meta.Wire.{NetEnv, Talk}
use meta_mcp.Meta.Client.{Wire, Client, get, collect, seconds_int64}
use meta_mcp.Meta.Items.{Decoders, AccountItem, DebugBody, decode_all}

-- The dialog's address, and the parameters that `net/url` encodes into it.
pub record Dialog : Type 0 where
  pub url : String
  pub params : List (String × String)

infixr 65 ◌^^◌
abbrev ◌^^◌ : String → String → String
a ^^ b = String.◌++◌ a b

unfoldable pub authorize_url : Client → String → String → Dialog
authorize_url c redirect_uri state = record {
  url = c.dialog_base ^^ "/" ^^ c.version ^^ "/dialog/oauth?";
  params =
      ("client_id", c.app_id)
      ∷ ("redirect_uri", redirect_uri)
      ∷ ("state", state)
      ∷ ("scope", c.scopes)
      ∷ ("response_type", "code")
      ∷ [];
}

-- A time that Meta gives in Unix seconds; 0 is none.
abbrev pub unix_time : ℕ → Time
unix_time secs = if ltb 0 secs then of_unix (secs + epoch) else zero_time

token_status : DebugBody → TokenStatus
token_status b = record {
  valid = b.is_valid;
  expires_at = unix_time b.expires_at;
  data_access_expires_at = unix_time b.data_access;
  scopes = b.scopes;
  reason = b.error_message;
}

module _ (w : Wire) (d : Decoders) (c : Client) (env : NetEnv) where
  unfoldable pub exchange_code : String → String → Talk String
  exchange_code code redirect_uri = do
    body ←
        or_return
          (get w c env "" "oauth/access_token"
            (("client_id", c.app_id)
              ∷ ("client_secret", c.app_secret)
              ∷ ("redirect_uri", redirect_uri)
              ∷ ("code", code)
              ∷ [])
            d.token_body)
          (wrap "échange du code Meta")
    stop_if (body.access_token == "")
        (text "échange du code Meta: aucun access_token dans la réponse")
    pure body.access_token

  unfoldable pub exchange_long_lived_token : String → Talk LongLivedToken
  exchange_long_lived_token token = do
    body ←
        or_return
          (get w c env "" "oauth/access_token"
            (("grant_type", "fb_exchange_token")
              ∷ ("client_id", c.app_id)
              ∷ ("client_secret", c.app_secret)
              ∷ ("fb_exchange_token", token)
              ∷ [])
            d.token_body)
          (wrap "obtention du jeton longue durée")
    stop_if (body.access_token == "")
        (text "obtention du jeton longue durée: aucun access_token dans la réponse")
    pure (record { token = body.access_token; expires_in = seconds_int64 body.expires_in })

  unfoldable pub debug_token : String → Talk TokenStatus
  unfolding token_status
  debug_token token = do
    body ←
        or_return
          (get w c env "" "debug_token"
            (("input_token", token) ∷ ("access_token", c.app_id ^^ "|" ^^ c.app_secret) ∷ [])
            d.debug_body)
          (wrap "diagnostic du jeton")
    pure (token_status body)

  unfoldable pub me : String → Talk MetaUser
  me user_token = do
    user ←
        or_return (get w c env user_token "me" (("fields", "id,name") ∷ []) d.meta_user)
          (wrap "lecture du profil Meta")
    stop_if (user.id == "") (text "lecture du profil Meta: identifiant absent")
    pure user

  account_page : Time → AccountItem → Page
  account_page now i = record {
    tenant_id = "";
    page_id = i.id;
    name = i.name;
    ig_user_id = i.instagram_id;
    ig_username = i.instagram_username;
    page_token = i.access_token;
    synced_at = now;
  }

  -- Accounts without an id or a token are left out.
  unfoldable pub account_pages : Time → List AccountItem → List Page
  unfolding account_page
  account_pages now [] = []
  account_pages now (i ∷ is_list) =
      let rest = account_pages now is_list in
      if i.id == "" || i.access_token == "" then rest else account_page now i ∷ rest

  -- `time.Now()`
  unfoldable pub time_now : Talk Time
  time_now n = (ok (env.now n.step), record n { step = suc n.step })

  unfoldable pub accounts : String → Talk (List Page)
  accounts user_token = do
    items ←
        or_return
          (collect w c env user_token "me/accounts"
            (("fields", "id,name,access_token,instagram_business_account{id,username}")
              ∷ ("limit", "100")
              ∷ [])
            0)
          (wrap "lecture des pages Meta")
    now ← time_now
    decoded ← lift (decode_all "décodage d'une page Meta" d.account_item items)
    pure (account_pages now decoded)
