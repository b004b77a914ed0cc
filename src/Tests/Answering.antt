-- ===== src/Tests/Answering.antt =====
-- The theorems on the endpoints, the tools as a client calls them, and the configuration, at concrete
-- inputs.
use meta_mcp.Prelude.{
  ◌*◌, find, ◌+◌, ◌≤◌, ◌≡◌, ◌≢◌, ◌⊎◌, inl, refl, Bool, true, String, [], ◌∷◌, none, some, keep,
  ◌==◌, if◌then◌else◌, cut, pos, trim_space, trim_right_char, split_all, has_prefix, decimal,
}
use meta_mcp.Crypto.{Bytes, Aead, new_cipher}
use meta_mcp.Domain.Errors.{Error}
use meta_mcp.Domain.Entities.{OauthRequest, LoginState, no_request}
use meta_mcp.Domain.Time.{hour}
use meta_mcp.Startup.{start}
use meta_mcp.Store.Opening.{Disk, Schema, new_store, make_dir}
use meta_mcp.Startup.Ready.{start-error}
use meta_mcp.Exec.{Result, ok, err, answer, ◌>>=◌, or_return}
use meta_mcp.World.{tick, World, ask, sql}
use meta_mcp.Store.Oauth.{consume_login_state, purge_expired}
use meta_mcp.Auth.Server.{Form, Location, Claims}
use meta_mcp.Auth.Jwt.{verify_access_token}
use meta_mcp.Auth.Verify.{IsGenuine}
use meta_mcp.App.Login.{consume_state, delete_by_meta_user_id}
use meta_mcp.Config.{
  Config, Variables, load, default_meta_scopes, parse_public_url, decode_key, decode_base64,
  relay_port, parse_duration, checked_texts, env_or, parse_csv_set, listed,
}
use meta_mcp.Config.Valid.{load-IsValid, IsValid}
use meta_mcp.Http.{◌^^◌, Target, relay_handler, loopback_relay_handler}
use meta_mcp.Http.Relay.{relay_handler-loopback}
use meta_mcp.Meta.Handlers.{
  Pages, HandlerOptions, SignedPayload, to_client, callback_handler, logged_in, declined,
  redirect_to_client, data_deletion_handler,
}
use meta_mcp.Meta.Handlers.Deletion.{data_deletion_handler-IsSigned, IsSigned}
use meta_mcp.Meta.Handlers.Callback.{callback_handler-uri}
use meta_mcp.Mcp.Server.{
  read_only, TokenInfo, verifier, resolve, tenant_id, session_unauthenticated,
}
use meta_mcp.Mcp.Writing.{IgPublishArgs}
use meta_mcp.Mcp.Tools
use meta_mcp.Mcp.Tools.{ToolCall, WriteCall, ModerationCall, run_tool, writes}
use meta_mcp.Mcp.Effects.{writes_at_meta}
use meta_mcp.Mcp.Effects.Leave.{run_tool-reads}
use meta_mcp.Mcp.Bearer.{run_tool-stop, run_tool-IsScoped, IsScoped}
use meta_mcp.Tests.Fixtures.{shift_cipher, running, stored, quiet_env, opts, codec, noon}
use meta_mcp.Tests.Serving.{tools}
use meta_mcp.Tests.Granting.{token_1}

abbrev session_1 : TokenInfo
session_1 = record { user_id = "t1"; expiration = noon + 3601 * 1_000_000_000 }

abbrev photo_args : IgPublishArgs
photo_args = record {
  page_id = "p1";
  media_type = "image";
  image_url = "https://desk.example/cb";
  video_url = "";
  children = [];
  caption = "";
  confirm = true;
}

abbrev publication : WriteCall
publication = Tools.ig_publish photo_args

accepted : (verifier codec opts quiet_env token_1 running).0 ≡ ok session_1
unfolding verifier resolve verify_access_token ask ◌>>=◌ cut or_return
accepted = refl

run_tool-IsScoped_example :
    (claims : Claims) × IsGenuine codec opts quiet_env noon token_1 claims
    × IsScoped tools quiet_env claims.subject running
        (run_tool tools quiet_env (some session_1) (writes publication) running).1
run_tool-IsScoped_example =
    run_tool-IsScoped codec opts tools quiet_env token_1 running running (inl publication) accepted
      refl

run_tool-reads_example :
    keep writes_at_meta
      (run_tool tools quiet_env
        (some session_1)
        (ToolCall.reading Tools.sync_pages)
        running).1.calls
    ≡ []
unfolding keep Tools.read_tool read_only
run_tool-reads_example =
    run_tool-reads tools quiet_env (some session_1) (ToolCall.reading Tools.sync_pages) running refl

run_tool-stop_example :
    run_tool tools quiet_env none (writes publication) running
    ≡ (err session_unauthenticated, running)
unfolding tenant_id
run_tool-stop_example = run_tool-stop tools quiet_env none (writes publication) running refl

abbrev pages : Pages
pages = record {
  codec = codec;
  read_payload = λ b. some (record { algorithm = ""; user_id = "u1" });
  query_escape = λ s. s;
  confirmation = λ n. "c0de";
}

abbrev options : HandlerOptions
options = record {
  public_url = "https://mcp.example";
  redirect_uri = "https://mcp.example/meta/callback";
  app_secret = [];
}

data_deletion_handler-IsSigned_example :
    ((data_deletion_handler pages options quiet_env true "aab.ab" running).1.db ≡ stored)
    ⊎ ((p : SignedPayload) × IsSigned pages options "aab.ab" p
        × (p.user_id ≢ "")
        × ((data_deletion_handler pages options quiet_env true "aab.ab" running).1.db
            ≡ (delete_by_meta_user_id quiet_env p.user_id running).1.db))
data_deletion_handler-IsSigned_example =
    data_deletion_handler-IsSigned pages options quiet_env true "aab.ab" running

-- A client waits for its user at the dialog.
abbrev desk_request : OauthRequest
desk_request = record no_request {
  client_id = "c1";
  redirect_uri = "https://desk.example/cb";
  client_state = "x";
}

abbrev waiting : World
waiting = record running {
  db = record stored {
    login_states =
        record { state = "s2"; oauth_request = desk_request; expires_at = 63_900_000_600 } ∷ [];
  };
}

-- The user declines.
abbrev declining : Form
declining key = if key == "state" then "s2" else if key == "error" then "access_denied" else ""

abbrev back : Location
back = record {
  uri = "https://desk.example/cb";
  params =
      ("error", "access_denied")
      ∷ ("error_description", "autorisation Facebook refusée")
      ∷ ("state", "x")
      ∷ [];
}

abbrev anyone : String → Bool
anyone id = true

sent_back :
    answer (callback_handler pages options quiet_env anyone declining waiting).0 ≡ to_client back
unfolding callback_handler ◌>>=◌ or_return consume_state consume_login_state sql find ask logged_in
    declined redirect_to_client
sent_back = refl

callback_handler-uri_example :
    (login : LoginState) × ((consume_state quiet_env "s2" waiting).0 ≡ ok login)
    × (back.uri ≡ login.request.redirect_uri)
    × (login.request.client_id ≢ "")
callback_handler-uri_example =
    callback_handler-uri pages options quiet_env anyone declining waiting sent_back

abbrev key_bytes : Bytes
key_bytes =
    1 ∷ 2 ∷ 3 ∷ 4 ∷ 5 ∷ 6 ∷ 7 ∷ 8 ∷ 9 ∷ 10 ∷ 11 ∷ 12 ∷ 13 ∷ 14 ∷ 15 ∷ 16 ∷ 17 ∷ 18 ∷ 19 ∷ 20 ∷ 21
    ∷ 22 ∷ 23 ∷ 24 ∷ 25 ∷ 26 ∷ 27 ∷ 28 ∷ 29 ∷ 30 ∷ 31 ∷ 32 ∷ []

abbrev variable : String → String
variable name =
    if name == "PUBLIC_URL"
    then " https://mcp.example/ "
    else if name == "META_APP_ID"
    then "app"
    else if name == "META_APP_SECRET"
    then "secret"
    else if name == "TOKEN_CIPHER_KEY"
    then "key"
    else if name == "JWT_SIGNING_KEY"
    then "key"
    else if name == "LOOPBACK_RELAY_PORT"
    then "8123"
    else ""

abbrev variables : Variables
variables = record {
  getenv = variable;
  std_encoding = λ s. ok key_bytes;
  raw_std_encoding = λ s. err Error.no_rows;
  url_encoding = λ s. err Error.no_rows;
  raw_url_encoding = λ s. err Error.no_rows;
  parse_duration = λ s. err Error.no_rows;
  parse_url =
      λ s. ok (record { scheme = "https"; host = "mcp.example"; raw_query = ""; fragment = "" });
  atoi = λ s. some (pos 8123);
  quote = λ s. s;
}

abbrev loaded_config : Config
loaded_config = record {
  public_url = "https://mcp.example";
  listen_addr = ":8080";
  db_path = "/data/metasocial.db";
  token_cipher_key = key_bytes;
  jwt_signing_key = key_bytes;
  meta_app_id = "app";
  meta_app_secret = "secret";
  graph_version = "v26.0";
  meta_scopes = default_meta_scopes;
  access_token_ttl = hour;
  refresh_token_ttl = 720 * hour;
  log_format = "json";
  graph_base_url = "";
  dialog_base_url = "";
  relay_port = 8123;
  allowed_meta_user_ids = [];
}

loaded : load variables ≡ ok loaded_config
unfolding load meta_mcp.Config.◌>>=◌ parse_public_url trim_space decode_key decode_base64 relay_port
    parse_duration checked_texts env_or has_prefix trim_right_char parse_csv_set listed keep
    split_all
loaded = refl

load-IsValid_example : IsValid variables loaded_config
load-IsValid_example = load-IsValid variables loaded

abbrev relay : String → Target
relay = loopback_relay_handler (record { port = 8123; path = "/callback" })

mounted : relay_handler loaded_config ≡ some relay
unfolding relay_handler
mounted = refl

relay_handler-loopback_example :
    (1 ≤ loaded_config.relay_port)
    × (loaded_config.relay_port ≤ 65535)
    × (relay "code=1" ≡ record {
      scheme = "http";
      host = "127.0.0.1:" ^^ decimal 8123;
      path = "/callback";
      raw_query = "code=1";
    })
relay_handler-loopback_example = relay_handler-loopback variables "code=1" loaded mounted

abbrev gcm : Bytes → Result Error Aead
gcm key = ok shift_cipher

-- The directory of the database cannot be made.
abbrev read_only_disk : Disk
read_only_disk = record {
  dir = λ s. "/data";
  quote = λ s. s;
  mkdir_all = λ s. err (Error.text "read-only file system");
  open_file = λ s. ok tt;
  glob = ok [];
  read_file = λ s. ok "";
  fault = λ n. none;
}

abbrev no_schema : Schema
no_schema = record { names = []; bodies = []; step = 0 }

abbrev unmade : Error
unmade = Error.wrap "create db directory /data" (Error.text "read-only file system")

stopped : (start variables gcm read_only_disk no_schema quiet_env running).0 ≡ err unmade
unfolding start ◌>>=◌ new_cipher load meta_mcp.Config.◌>>=◌ parse_public_url trim_space decode_key
    decode_base64 relay_port parse_duration checked_texts env_or has_prefix trim_right_char
    parse_csv_set listed keep split_all new_store make_dir or_return
stopped = refl

start-error_example :
    (load variables ≡ err unmade)
    ⊎ ((cfg : Config) × (load variables ≡ ok cfg)
        × ((gcm cfg.token_cipher_key ≡ err unmade)
            ⊎ ((new_store read_only_disk cfg.db_path no_schema).0 ≡ err unmade)
            ⊎ (((new_store read_only_disk cfg.db_path no_schema).0 ≡ ok tt)
                × ((x : Error) × ((purge_expired quiet_env noon (tick running)).0 ≡ err x)
                    × (unmade ≡ Error.wrap "purge au démarrage" x)))))
start-error_example = start-error variables gcm quiet_env read_only_disk no_schema running stopped
