-- ===== src/Meta/Handlers.antt =====
-- internal/adapters/meta/handlers.go: the login page, the callback of the Facebook dialog, the
-- request for deletion that Meta signs, and the two static pages.
pub mod Deletion
pub mod Callback
use Prim.Native.String
use meta_mcp.Prelude.{
  ℕ, Bool, not, ◌&&◌, ◌||◌, String, List, [], ◌∷◌, ◌++◌, Option, none, some, ◌==◌, cut, is_some,
  to_upper, trim_right_char, if◌then◌else◌,
}
use meta_mcp.Crypto.{Bytes}
use meta_mcp.Domain.Errors.{
  Error, text, as_graph_error, user_message, is_not_found, is_forbidden_user,
}
use meta_mcp.Domain.Entities.{OauthRequest, LoginState}
use meta_mcp.Exec.{Result, ok, err, pure, raise, lift, stop_if, ◌>>=◌, ◌>>◌, or_return}
use meta_mcp.World.{Env, Action, ask, reading}
use meta_mcp.Auth.Server.{Codec, Form, Location, issue_auth_code}
use meta_mcp.App.Login.{LoginResult, complete, consume_state, delete_by_meta_user_id}
use meta_mcp.Meta.Client.{Client}
use meta_mcp.Meta.Identity.{Dialog, authorize_url}
use meta_mcp.Prelude.Split.{bytes_eq}

infixr 65 ◌^^◌
abbrev ◌^^◌ : String → String → String
a ^^ b = String.◌++◌ a b

-- `HandlerOptions`, with the bytes of the secret
pub record HandlerOptions : Type 0 where
  pub public_url : String
  pub redirect_uri : String
  pub app_secret : Bytes

-- The JSON that Meta signs; `issued_at` is not read.
pub record SignedPayload : Type 0 where
  pub algorithm : String
  pub user_id : String

-- What the standard library does for the handlers beside `Codec`.
pub record Pages : Type 0 where
  pub codec : Codec
  pub read_payload : Bytes → Option SignedPayload
  pub query_escape : String → String
  -- 8 random bytes in hexadecimal
  pub confirmation : ℕ → String

pub data Reply : Type 0 where
  -- the error page: its status, title, message and detail
  error_page : ℕ → String → String → String → Reply
  -- 302 to the dialog, and to the MCP client
  to_dialog : Dialog → Reply
  to_client : Location → Reply
  -- the pages with the name and the number of pages, the privacy policy, and the confirmation code
  reconnected : String → ℕ → Reply
  privacy : Reply
  deauthorized : String → Reply
  -- `http.Error`
  plain_error : ℕ → String → Reply
  -- the JSON with the address and the confirmation code
  deletion : String → String → Reply

abbrev pub Page : Type 0
Page = Action Reply Reply

unfoldable pub login_handler : Client → HandlerOptions → Form → Reply
login_handler c o q =
    if q "state" == ""
    then error_page 400 "Lien incomplet" "Cette adresse doit être ouverte depuis votre client MCP."
        ""
    else to_dialog (authorize_url c o.redirect_uri (q "state"))

unfoldable pub privacy_handler : Reply
privacy_handler = privacy

unfoldable pub deauthorize_handler : Form → Reply
deauthorize_handler q = deauthorized (q "code")

-- A sentence for the user where Meta refused, else nothing.
unfoldable pub user_detail : Error → String
user_detail e = elim (as_graph_error e) [ none ↦ "" | some ge ↦ user_message ge ]

unfoldable pub state_error : Error → Reply
state_error e =
    if is_not_found e
    then error_page 400 "Session expirée" "La demande de connexion a expiré ou a déjà été utilisée."
        "Relancez la connexion depuis votre client MCP."
    else error_page 500 "Erreur interne" "Impossible de retrouver votre demande de connexion." ""

unfoldable pub login_error : Error → Reply
login_error e =
    if is_forbidden_user e
    then error_page 403 "Compte non autorisé" "ce compte Facebook n'est pas autorisé sur ce serveur"
        "Demandez à l'administrateur d'ajouter votre compte."
    else error_page 502 "Connexion impossible" "Meta a refusé la demande de connexion."
        (user_detail e)

module _ (pages : Pages) where
  -- `redirectToClient` with the two parameters of a refusal
  unfoldable pub redirect_to_client : OauthRequest → List (String × String) → Reply
  redirect_to_client req params =
      if is_some (pages.codec.parse_url req.redirect_uri)
      then to_client (record {
        uri = req.redirect_uri;
        params =
            params ++ (if req.client_state == "" then [] else ("state", req.client_state) ∷ []);
      })
      else error_page 400 "Connexion impossible" "L'adresse de retour du client MCP est invalide."
          ""

  -- The user declined the dialog.
  unfoldable pub declined : LoginState → Reply
  declined login =
      if login.request.client_id == ""
      then error_page 200 "Autorisation refusée"
          "Vous avez refusé l'accès à Facebook, rien n'a été modifié." ""
      else redirect_to_client login.request
          (("error", "access_denied") ∷ ("error_description", "autorisation Facebook refusée") ∷ [])

  module _ (o : HandlerOptions) (env : Env) (allow : String → Bool) where
    -- After the login: the end of a reconnection, or a code for the client that began the flow.
    unfoldable pub welcomed : LoginState → LoginResult → Page
    welcomed login result =
        if login.request.client_id == ""
        then pure (reconnected result.display_name result.pages)
        else do
          target ←
              or_return (issue_auth_code pages.codec env login.request result.tenant_id)
                (λ _. error_page 500 "Erreur interne" "Impossible de finaliser l'autorisation." "")
          pure (to_client target)

    unfoldable pub logged_in : Form → LoginState → Page
    logged_in q login = if not (q "error" == "") then pure (declined login) else do
      stop_if (q "code" == "") (
          error_page 400 "Connexion impossible" "Facebook n'a renvoyé aucun code d'autorisation."
            "")
      result ← or_return (complete env allow (q "code") o.redirect_uri) login_error
      welcomed login result

    unfoldable pub callback_handler : Form → Page
    callback_handler q = do
      stop_if (q "state" == "")
          (error_page 400 "Connexion impossible" "Le paramètre state est absent." "")
      login ← or_return (consume_state env (q "state")) state_error
      logged_in q login

  module _ (o : HandlerOptions) where
    abbrev pub readable : String → Option Bytes → Result Error Bytes
    readable message none = err (text message)
    readable message (some bytes) = ok bytes

    -- `strings.EqualFold`, against a text in upper case
    abbrev pub unsupported : SignedPayload → Bool
    unsupported p = not (p.algorithm == "") && not (to_upper p.algorithm == "HMAC-SHA256")

    -- The payload, once its signature is checked.
    abbrev pub payload_of : Option SignedPayload → Result Error SignedPayload
    payload_of none = err (text "payload JSON invalide")
    payload_of (some p) = if unsupported p then err (text "algorithme non supporté") else ok p

    abbrev pub halves : String → Option (String × String)
    halves raw = elim (cut raw b'.') [
      | none ↦ none
      | some p ↦ if p.0 == "" || p.1 == "" then none else some p
    ]

    abbrev pub expected_halves : Option (String × String) → Result Error (String × String)
    expected_halves none = err (text "format attendu: signature.payload")
    expected_halves (some p) = ok p

    unfoldable pub parse_signed_request : String → Action Error SignedPayload
    parse_signed_request raw = do
      parts ← lift (expected_halves (halves raw))
      sig ←
          lift
            (readable "signature illisible" (pages.codec.unbase64 (trim_right_char b'=' parts.0)))
      raw_payload ←
          lift (readable "payload illisible" (pages.codec.unbase64 (trim_right_char b'=' parts.1)))
      stop_if (not (bytes_eq sig (pages.codec.hmac o.app_secret parts.1)))
          (text "signature invalide")
      lift (payload_of (pages.read_payload raw_payload))

    unfoldable pub data_deletion_handler : Env → Bool → String → Page
    data_deletion_handler env parsed signed_request = do
      stop_if (not parsed) (plain_error 400 "requête illisible")
      payload ←
          or_return (parse_signed_request signed_request)
            (λ _. plain_error 400 "signed_request invalide")
      stop_if (payload.user_id == "") (plain_error 400 "signed_request sans user_id")
      or_return (delete_by_meta_user_id env payload.user_id)
          (λ _. plain_error 500 "suppression impossible")
      code ← ask (reading pages.confirmation)
      pure (deletion (o.public_url ^^ "/meta/deauthorize?code=" ^^ pages.query_escape code) code)
