-- ===== src/Config.antt =====
-- internal/config/config.go: the configuration, read from the environment and checked.
pub mod Valid
use Prim.Native.String
use meta_mcp.Prelude.{
  ◌*◌, ℕ, zero, suc, Bool, true, false, not, ◌&&◌, ◌||◌, String, List, [], ◌∷◌, map, Option, none,
  some, ◌==◌, eqb, ltb, leb, length, keep, contains, decimal, trim_space, trim_right_char,
  split_all, has_prefix, if◌then◌else◌, ℤ, pos, negsuc,
}
use meta_mcp.Crypto.{Bytes}
use meta_mcp.Domain.Time.{Duration, hour}
use meta_mcp.Domain.Errors.{Error, text, wrap}
use meta_mcp.Exec.{Result, ok, err}

infixr 65 ◌^^◌
abbrev ◌^^◌ : String → String → String
a ^^ b = String.◌++◌ a b

-- What `net/url` finds in the address of the server.
pub record PublicUrl : Type 0 where
  pub scheme : String
  pub host : String
  pub raw_query : String
  pub fragment : String

-- The environment variables, and what the standard library does to their values.
pub record Variables : Type 0 where
  -- `os.Getenv`: "" for an unset variable
  pub getenv : String → String
  pub std_encoding : String → Result Error Bytes
  pub raw_std_encoding : String → Result Error Bytes
  pub url_encoding : String → Result Error Bytes
  pub raw_url_encoding : String → Result Error Bytes
  pub parse_duration : String → Result Error ℤ
  pub parse_url : String → Result Error PublicUrl
  pub atoi : String → Option ℤ
  -- the verb %q
  pub quote : String → String

pub record Config : Type 0 where
  pub public_url : String
  pub listen_addr : String
  pub db_path : String
  pub token_cipher_key : Bytes
  pub jwt_signing_key : Bytes
  pub meta_app_id : String
  pub meta_app_secret : String
  pub graph_version : String
  pub meta_scopes : String
  pub access_token_ttl : Duration
  pub refresh_token_ttl : Duration
  pub log_format : String
  pub graph_base_url : String
  pub dialog_base_url : String
  pub relay_port : ℕ
  -- the keys of the set
  pub allowed_meta_user_ids : List String

abbrev pub default_access_token_ttl : Duration
default_access_token_ttl = hour

abbrev pub default_refresh_token_ttl : Duration
default_refresh_token_ttl = 720 * hour

abbrev pub default_meta_scopes : String
default_meta_scopes =
    "pages_show_list,pages_read_engagement,pages_manage_posts,pages_read_user_content,pages_manage_engagement,read_insights,instagram_basic,instagram_manage_insights,instagram_content_publish,instagram_manage_comments,business_management"

abbrev pub cipher_key_len : ℕ
cipher_key_len = 32

abbrev pub min_signing_key_len : ℕ
min_signing_key_len = 32

-- `MCPResourceURL`, `MetaRedirectURI` and `ResourceMetadataURL`
unfoldable pub mcp_resource_url : Config → String
mcp_resource_url c = c.public_url ^^ "/mcp"

unfoldable pub meta_redirect_uri : Config → String
meta_redirect_uri c = c.public_url ^^ "/meta/callback"

unfoldable pub resource_metadata_url : Config → String
resource_metadata_url c = c.public_url ^^ "/.well-known/oauth-protected-resource"

-- The trimmed parts that are not empty.
unfoldable pub listed : String → List String
listed raw = keep (λ p. not (p == "")) (map trim_space (split_all b',' raw))

unfoldable pub scope_list : Config → List String
scope_list c = listed c.meta_scopes

unfoldable pub is_meta_user_allowed : Config → String → Bool
is_meta_user_allowed c id =
    eqb (length c.allowed_meta_user_ids) 0 || contains c.allowed_meta_user_ids id

-- `parseCSVSet`, as the list of its keys
unfoldable pub parse_csv_set : String → List String
parse_csv_set raw = listed raw

infixl 10 ◌>>=◌ ◌>>◌
unfoldable pub ◌>>=◌ : {A B : Type 0} → Result Error A → (A → Result Error B) → Result Error B
ok a >>= f = f a
err e >>= f = err e

abbrev pub ◌>>◌ : {A B : Type 0} → Result Error A → Result Error B → Result Error B
m >> n = m >>= λ _. n

module _ (v : Variables) where
  -- `env`
  unfoldable pub env_or : String → String → String
  env_or name default =
      let value = trim_space (v.getenv name) in if value == "" then default else value

  -- The first of the four encodings that reads it; the error is that of the last.
  unfoldable pub decode_base64 : String → Result Error Bytes
  decode_base64 raw = elim (v.std_encoding raw) [
    | ok key ↦ ok key
    | err _ ↦ elim (v.raw_std_encoding raw) [
      | ok key ↦ ok key
      | err _ ↦ elim (v.url_encoding raw) [ ok key ↦ ok key | err _ ↦ v.raw_url_encoding raw ]
    ]
  ]

  abbrev pub sized : String → ℕ → Bool → Result Error Bytes → Result Error Bytes
  sized name size exact (err e) = err (wrap (name ^^ " doit être encodé en base64") e)
  sized name size exact (ok key) =
      if exact && not (eqb (length key) size)
      then err (
          text (
            name
            ^^ " doit faire exactement "
            ^^ decimal size
            ^^ " octets, pas "
            ^^ decimal (length key)))
      else if not exact && ltb (length key) size
      then err (
          text (
            name
            ^^ " doit faire au moins "
            ^^ decimal size
            ^^ " octets, pas "
            ^^ decimal (length key)))
      else ok key

  unfoldable pub decode_key : String → ℕ → Bool → Result Error Bytes
  decode_key name size exact =
      if trim_space (v.getenv name) == ""
      then err (text (name ^^ " est obligatoire"))
      else sized name size exact (decode_base64 (trim_space (v.getenv name)))

  abbrev pub positive : String → Result Error ℤ → Result Error Duration
  positive name (err e) = err (wrap (name ^^ " invalide") e)
  positive name (ok (pos (suc d))) = ok (suc d)
  positive name (ok (pos zero)) = err (text (name ^^ " doit être strictement positif"))
  positive name (ok (negsuc d)) = err (text (name ^^ " doit être strictement positif"))

  unfoldable pub parse_duration : String → Duration → Result Error Duration
  parse_duration name default =
      if trim_space (v.getenv name) == ""
      then ok default
      else positive name (v.parse_duration (trim_space (v.getenv name)))

  abbrev pub public : String → Result Error PublicUrl → Result Error String
  public raw (err e) = err (wrap "PUBLIC_URL invalide" e)
  public raw (ok u) =
      if not (u.scheme == "https")
      then err (text ("PUBLIC_URL doit être en https://, pas " ^^ v.quote u.scheme))
      else if u.host == ""
      then err (text "PUBLIC_URL doit contenir un hôte")
      else if not (u.raw_query == "") || not (u.fragment == "")
      then err (text "PUBLIC_URL ne doit contenir ni query ni fragment")
      else ok raw

  unfoldable pub parse_public_url : String → Result Error String
  parse_public_url given =
      let raw = trim_right_char b'/' (trim_space given) in
      if trim_space given == ""
      then err (text "PUBLIC_URL est obligatoire")
      else public raw (v.parse_url raw)

  abbrev pub bad_port : Error
  bad_port = text "LOOPBACK_RELAY_PORT doit être un port entre 1 et 65535"

  abbrev pub port_from : Option ℤ → Result Error ℕ
  port_from (some (pos port)) = if ltb port 1 || ltb 65535 port then err bad_port else ok port
  port_from (some (negsuc n)) = err bad_port
  port_from none = err bad_port

  unfoldable pub relay_port : Result Error ℕ
  relay_port =
      let raw = trim_space (v.getenv "LOOPBACK_RELAY_PORT") in
      if raw == "" then ok 0 else port_from (v.atoi raw)

  -- `Load`'s last two checks.
  unfoldable pub checked_texts : String → String → Result Error (Unit {0})
  checked_texts log_format graph_version =
      if not (log_format == "json" || log_format == "text")
      then err (text ("LOG_FORMAT doit valoir json ou text, pas " ^^ v.quote log_format))
      else if not (has_prefix graph_version "v")
      then err (text ("META_GRAPH_VERSION doit ressembler à v26.0, pas " ^^ v.quote graph_version))
      else ok tt

  abbrev pub required : String → Result Error String
  required name =
      let value = trim_space (v.getenv name) in
      if value == "" then err (text (name ^^ " est obligatoire")) else ok value

  unfoldable pub load : Result Error Config
  load = do
    public_url ← parse_public_url (v.getenv "PUBLIC_URL")
    app_id ← required "META_APP_ID"
    app_secret ← required "META_APP_SECRET"
    cipher_key ← decode_key "TOKEN_CIPHER_KEY" cipher_key_len true
    signing_key ← decode_key "JWT_SIGNING_KEY" min_signing_key_len false
    port ← relay_port
    access_ttl ← parse_duration "ACCESS_TOKEN_TTL" default_access_token_ttl
    refresh_ttl ← parse_duration "REFRESH_TOKEN_TTL" default_refresh_token_ttl
    checked_texts (env_or "LOG_FORMAT" "json") (env_or "META_GRAPH_VERSION" "v26.0")
    ok (record {
      public_url = public_url;
      listen_addr = env_or "LISTEN_ADDR" ":8080";
      db_path = env_or "DB_PATH" "/data/metasocial.db";
      token_cipher_key = cipher_key;
      jwt_signing_key = signing_key;
      meta_app_id = app_id;
      meta_app_secret = app_secret;
      graph_version = env_or "META_GRAPH_VERSION" "v26.0";
      meta_scopes = env_or "META_SCOPES" default_meta_scopes;
      access_token_ttl = access_ttl;
      refresh_token_ttl = refresh_ttl;
      log_format = env_or "LOG_FORMAT" "json";
      graph_base_url = trim_right_char b'/' (v.getenv "META_GRAPH_BASE_URL");
      dialog_base_url = trim_right_char b'/' (v.getenv "META_DIALOG_BASE_URL");
      relay_port = port;
      allowed_meta_user_ids = parse_csv_set (v.getenv "ALLOWED_META_USER_IDS");
    })
