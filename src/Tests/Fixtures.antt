-- ===== src/Tests/Fixtures.antt =====
-- A small deployment: an environment, a codec, a database with two tenants, and what they store.
use Prim.Native.Char.{code}
use Prim.Native.String
use meta_mcp.Prelude.{
  zero, suc, suc, ◌==◌, ℕ, ◌+◌, ◌*◌, false, String, [], ◌∷◌, Option, none, some, eqb, if◌then◌else◌,
}
use meta_mcp.Exec.{ok, err}
use meta_mcp.Crypto.{Bytes, Aead}
use meta_mcp.Auth.Server.{Url, Options, Codec, Claims}
use meta_mcp.Store.Db.{TenantRow, RefreshRow, PageRow, LoginRow, Db, CodeRow, ClientRow}
use meta_mcp.World.{World, GraphClient, Env}
use meta_mcp.Domain.Errors.{text, Error}
use meta_mcp.Domain.Entities.{no_request, Page, MetaUser}
use meta_mcp.Domain.Time.{second, minute, day, Time}

-- A cipher for texts of the letters a, b and p, which keeps the nonce with the text.
abbrev pub codes : String → Bytes
codes String.[] = []
codes (String.◌∷◌ c s) = code c ∷ codes s

abbrev pub letter : ℕ → Option String
letter n =
    if eqb n 97
    then some "a"
    else if eqb n 98
    then some "b"
    else if eqb n 112
    then some "p"
    else none

abbrev pub joined : Option String → Option String → Option String
joined (some a) (some b) = some (String.◌++◌ a b)
joined _ _ = none

abbrev pub letters : Bytes → Option String
letters [] = some ""
letters (b ∷ bs) = joined (letter b) (letters bs)

abbrev pub tail_bytes : Bytes → Bytes
tail_bytes [] = []
tail_bytes (b ∷ bs) = bs

abbrev pub shift_cipher : Aead
shift_cipher = record {
  nonce_size = 1;
  overhead = 1;
  seal = λ nonce s. 7 ∷ codes s;
  open_sealed = λ nonce sealed. letters (tail_bytes sealed);
}

abbrev pub noon : Time
noon = 63_900_000_000 * second

abbrev pub anna : MetaUser
anna = record { id = "u1"; name = "Anna" }

abbrev pub front_page : Page
front_page = record {
  tenant_id = "t1";
  page_id = "p1";
  name = "Front";
  ig_user_id = "ig1";
  ig_username = "front";
  page_token = "pa";
  synced_at = noon;
}

abbrev pub down : Error
down = text "down"

-- Meta answers a login, and nothing else.
abbrev pub login_only : GraphClient
login_only = record {
  exchange_code = λ n c. ok "a";
  exchange_long_lived_token = λ n c. ok (record { token = "ab"; expires_in = 60 * day });
  me = λ n c. ok anna;
  accounts = λ n c. ok (front_page ∷ []);
  debug_token = λ n c. err down;
  insights = λ n c. err down;
  posts = λ n c. err down;
  comments = λ n c. err down;
  scheduled_posts = λ n c. err down;
  ratings = λ n c. err down;
  demographics = λ n c. err down;
  media = λ n c. err down;
  created_id = λ n c. ok "new";
  done = λ n c. ok tt;
}

-- The clock advances by a second with each step.
abbrev pub quiet_env : Env
quiet_env = record {
  now = λ n. noon + n * second;
  secret = λ n. ok "secret";
  uuid = λ n. "t1";
  nonce = λ n. ok (n ∷ []);
  fault = λ n. none;
  cancelled = λ n. none;
  aead = shift_cipher;
  meta = login_only;
}

abbrev pub tenant_1 : TenantRow
tenant_1 = record {
  id = "t1";
  meta_user_id = "u1";
  display_name = "Anna";
  user_token_enc = 0 ∷ 7 ∷ 97 ∷ [];
  created_at = 63_800_000_000;
  updated_at = 63_800_000_000;
  user_token_expires_at = 63_900_500_000;
}

abbrev pub tenant_2 : TenantRow
tenant_2 = record {
  id = "t2";
  meta_user_id = "u2";
  display_name = "Bob";
  user_token_enc = 0 ∷ 7 ∷ 98 ∷ [];
  created_at = 63_800_000_000;
  updated_at = 63_800_000_000;
  user_token_expires_at = 63_990_000_000;
}

abbrev pub page_1 : PageRow
page_1 = record {
  tenant_id = "t1";
  page_id = "p1";
  name = "Front";
  ig_user_id = some "ig1";
  ig_username = some "front";
  page_token_enc = 0 ∷ 7 ∷ 112 ∷ 97 ∷ [];
  synced_at = 63_900_000_000;
}

abbrev pub page_2 : PageRow
page_2 = record {
  tenant_id = "t2";
  page_id = "p2";
  name = "Back";
  ig_user_id = none;
  ig_username = none;
  page_token_enc = 0 ∷ 7 ∷ 112 ∷ 98 ∷ [];
  synced_at = 63_900_000_000;
}

abbrev pub client_1 : ClientRow
client_1 = record {
  client_id = "c1";
  client_name = "Desk";
  redirect_uris = "https://desk.example/cb" ∷ [];
  created_at = 63_800_000_000;
}

abbrev pub verifier : String
verifier = "aaaaaaaaaaaaaaaaaaaaaaaaaaaaaaaaaaaaaaaaaaaaaaaa"

abbrev pub code_1 : CodeRow
code_1 = record {
  code = "k1";
  client_id = "c1";
  tenant_id = "t1";
  redirect_uri = "https://desk.example/cb";
  code_challenge = "b";
  resource = none;
  expires_at = 63_900_000_300;
}

abbrev pub refresh_1 : RefreshRow
refresh_1 = record {
  token_hash = "h1";
  client_id = "c1";
  tenant_id = "t1";
  expires_at = 63_901_000_000;
  revoked = false;
}

abbrev pub login_1 : LoginRow
login_1 = record { state = "s1"; oauth_request = no_request; expires_at = 63_900_000_600 }

abbrev pub stored : Db
stored = record {
  tenants = tenant_1 ∷ tenant_2 ∷ [];
  pages = page_1 ∷ page_2 ∷ [];
  clients = client_1 ∷ [];
  codes = code_1 ∷ [];
  refresh_tokens = refresh_1 ∷ [];
  login_states = login_1 ∷ [];
}

abbrev pub running : World
running = record { db = stored; calls = []; step = 0 }

-- base64 as a unary code: a byte is as many `a` as its value, then a `b`.
abbrev pub times_a : ℕ → String → String
times_a zero s = String.◌∷◌ "b" s
times_a (suc n) s = String.◌∷◌ "a" (times_a n s)

abbrev pub unary : Bytes → String
unary [] = ""
unary (b ∷ bs) = times_a b (unary bs)

-- `n` letters `a` have been read.
abbrev pub one_more : Option Bytes → Option Bytes
one_more none = none
one_more (some []) = none
one_more (some (b ∷ bs)) = some (suc b ∷ bs)

abbrev pub ended_byte : Option Bytes → Option Bytes
ended_byte none = none
ended_byte (some bs) = some (0 ∷ bs)

abbrev pub of_unary : String → Option Bytes
of_unary String.[] = some []
of_unary (String.◌∷◌ c s) =
    if eqb (code c) 97 then one_more (of_unary s) else ended_byte (of_unary s)

abbrev pub opts : Options
opts = record {
  issuer = "https://mcp.example";
  resource = "https://mcp.example/mcp";
  signing_key = 1 ∷ [];
  login_path = "/login";
  access_token_ttl = 60 * minute;
  refresh_token_ttl = 30 * day;
}

-- The claims of the token minted for `t1` at step 1.
abbrev pub claims_1 : Claims
claims_1 = record {
  issuer = "https://mcp.example";
  subject = "t1";
  audience = "https://mcp.example/mcp";
  client_id = "c1";
  issued_at = 63_900_000_001;
  expires_at = 63_900_003_601;
  jti = "secret";
}

-- The URLs of the tests; nothing else parses.
abbrev pub parse_test_url : String → Option Url
parse_test_url s =
    if s == "https://desk.example/cb"
    then some (record {
      scheme = "https";
      host = "desk.example";
      hostname = "desk.example";
      fragment = "";
    })
    else if s == "http://localhost:8080/cb"
    then some
        (record { scheme = "http"; host = "localhost:8080"; hostname = "localhost"; fragment = "" })
    else none

abbrev pub codec : Codec
codec = record {
  hmac = λ k s. 2 ∷ k;
  sha256 = λ s. 0 ∷ [];
  base64 = unary;
  unbase64 = of_unary;
  header_json = λ h. 0 ∷ [];
  read_header = λ b. some (record { alg = "HS256"; typ = "JWT" });
  claims_json = λ p. 1 ∷ [];
  read_claims = λ b. some claims_1;
  parse_url = parse_test_url;
}
