-- ===== src/Config/Valid.antt =====
-- A configuration that is accepted is one the server can run with.
use meta_mcp.Prelude.{
  ℕ, zero, suc, ◌≡◌, ◌≢◌, refl, ◌≤◌, ◌<◌, ◌⊎◌, inl, inr, Bool, true, false, ◌&&◌, String, Option,
  none, some, ◌==◌, eqb, length, eq_iff, arith, has_prefix, trim_space, trim_right_char, Bool-cases,
  ℤ, pos, negsuc,
}
use mathlib.Core.Path.{subst}
use Prim.Native.Char.{code}
use meta_mcp.Crypto.{Bytes}
use meta_mcp.Domain.Errors.{Error}
use meta_mcp.Exec.{Result, ok, err}
use meta_mcp.Exec.Run.{Result-cases}
use meta_mcp.Config.{
  decode_base64, PublicUrl, Variables, Config, parse_public_url, public, decode_key, sized,
  relay_port, port_from, parse_duration, positive, checked_texts, required, load, ◌>>=◌,
}

ok-injective : {A : Type 0} {a b : A} → (let x : Result Error A = ok a in x) ≡ ok b → a ≡ b
ok-injective h = ground arith

>>=-ok :
    {A B : Type 0} {m : Result Error A} {f : A → Result Error B} {b : B}
    → (m >>= f) ≡ ok b
    → (a : A) × (m ≡ ok a) × (f a ≡ ok b)
unfolding ◌>>=◌
>>=-ok {m = ok a} h = (a, refl, h)
>>=-ok {m = err e} h = absurd (ground arith)

-- What the other parts rely on.
pub record IsValid (v : Variables) (c : Config) : Type 0 where
  pub parsed :
      (u : PublicUrl) × (v.parse_url c.public_url ≡ ok u)
      × (u.scheme ≡ "https")
      × (u.host ≢ "")
      × (u.raw_query ≡ "")
      × (u.fragment ≡ "")
  pub no_slash : trim_right_char b'/' c.public_url ≡ c.public_url
  pub app_id : c.meta_app_id ≢ ""
  pub app_secret : c.meta_app_secret ≢ ""
  pub cipher_key : length c.token_cipher_key ≡ 32
  pub signing_key : 32 ≤ length c.jwt_signing_key
  pub relay : (c.relay_port ≡ 0) ⊎ ((1 ≤ c.relay_port) × (c.relay_port ≤ 65535))
  pub access_ttl : 0 < c.access_token_ttl
  pub refresh_ttl : 0 < c.refresh_token_ttl
  pub log : (c.log_format ≡ "json") ⊎ (c.log_format ≡ "text")
  pub version : has_prefix c.graph_version "v" ≡ true

trim_right_char_again :
    (n : ℕ) (s : String) → trim_right_char n (trim_right_char n s) ≡ trim_right_char n s
unfolding trim_right_char
trim_right_char_again n String.[] = refl
trim_right_char_again n (String.◌∷◌ c s) =
    elim (Bool-cases (eqb (code c) n && trim_right_char n s == "")) [
      | inl stripped ↦ rw stripped refl
      | inr stays ↦ rw (stays, trim_right_char_again n s, stays) refl
    ]

module _ (v : Variables) where
  required-ok : (name : String) {value : String} → required v name ≡ ok value → value ≢ ""
  required-ok name {value} h empty = ground (arith, eq_iff (trim_space (v.getenv name)) "")

  public-ok :
      (raw : String) {u : PublicUrl} {url : String}
      → public v raw (ok u) ≡ ok url
      → (url ≡ raw) × (u.scheme ≡ "https") × (u.host ≢ "") × (u.raw_query ≡ "") × (u.fragment ≡ "")
  public-ok raw {u} {url} h = ground (
    arith,
    eq_iff u.scheme "https",
    eq_iff u.host "",
    eq_iff u.raw_query "",
    eq_iff u.fragment "",
  )

  sized-ok :
      (name : String) {size : ℕ} {key : Bytes} (exact : Bool) (r : Result Error Bytes)
      → sized v name size exact r ≡ ok key
      → (size ≤ length key) × (exact ≡ true → length key ≡ size)
  sized-ok name exact (err e) h = absurd (ground arith)
  sized-ok name {size} {key} exact (ok read) h =
      let same : read ≡ key = ground arith in
      (rw (← same) ground arith, λ e. rw (← same) ground arith)

  decode_key-ok :
      (name : String) {size : ℕ} {key : Bytes} (exact : Bool)
      → decode_key v name size exact ≡ ok key
      → (size ≤ length key) × (exact ≡ true → length key ≡ size)
  unfolding decode_key
  decode_key-ok name exact h = elim (Bool-cases (trim_space (v.getenv name) == "")) [
    | inl empty ↦ absurd (ground arith)
    | inr given ↦ sized-ok name exact (decode_base64 v (trim_space (v.getenv name))) (ground arith)
  ]

  parse_public_url-ok :
      (given : String) {url : String}
      → parse_public_url v given ≡ ok url
      → ((u : PublicUrl) × (v.parse_url url ≡ ok u)
          × (u.scheme ≡ "https")
          × (u.host ≢ "")
          × (u.raw_query ≡ "")
          × (u.fragment ≡ ""))
        × (trim_right_char b'/' url ≡ url)
  unfolding parse_public_url
  parse_public_url-ok given {url} h =
      let raw = trim_right_char b'/' (trim_space given) in
      elim (Result-cases (v.parse_url raw)) [
        | inl (e, bad) ↦ absurd (ground arith)
        | inr (u, read) ↦
            let (same, https, host, query, fragment) =
              public-ok raw {u = u} {url = url} (ground arith) in
            (
              (u, rw same read, https, host, query, fragment),
              rw same (trim_right_char_again b'/' (trim_space given)),
            )
      ]

  port_from-ok : (r : Option ℤ) {port : ℕ} → port_from v r ≡ ok port → (1 ≤ port) × (port ≤ 65535)
  port_from-ok none h = absurd (ground arith)
  port_from-ok (some (negsuc n)) h = absurd (ground arith)
  port_from-ok (some (pos n)) h = ground arith

  relay_port-ok : {port : ℕ} → relay_port v ≡ ok port → (port ≡ 0) ⊎ ((1 ≤ port) × (port ≤ 65535))
  unfolding relay_port
  relay_port-ok {port} h = elim (Bool-cases (trim_space (v.getenv "LOOPBACK_RELAY_PORT") == "")) [
    | inl unset ↦ inl (ground arith)
    | inr given ↦
        inr (port_from-ok (v.atoi (trim_space (v.getenv "LOOPBACK_RELAY_PORT"))) (ground arith))
  ]

  positive-ok : (name : String) (r : Result Error ℤ) {d : ℕ} → positive v name r ≡ ok d → 0 < d
  positive-ok name (err e) h = absurd (ground arith)
  positive-ok name (ok (pos zero)) h = absurd (ground arith)
  positive-ok name (ok (pos (suc d))) h = ground arith
  positive-ok name (ok (negsuc d)) h = absurd (ground arith)

  parse_duration-ok :
      (name : String) {default d : ℕ} → 0 < default → parse_duration v name default ≡ ok d → 0 < d
  unfolding parse_duration
  parse_duration-ok name {default} {d} lower h =
      elim (Bool-cases (trim_space (v.getenv name) == "")) [
        | inl unset ↦ ground arith
        | inr given ↦
            positive-ok name (v.parse_duration (trim_space (v.getenv name))) (ground arith)
      ]

  checked_texts-ok :
      (log version : String) {u : Unit {0}}
      → checked_texts v log version ≡ ok u
      → ((log ≡ "json") ⊎ (log ≡ "text")) × (has_prefix version "v" ≡ true)
  unfolding checked_texts
  checked_texts-ok log version h = ground (arith, eq_iff log "json", eq_iff log "text")

  -- A configuration that `load` returns has an https address with a host, no query, no fragment and
  -- no final slash, the id and the secret of the app, a cipher key of 32 bytes, a signing key of at
  -- least 32 bytes, a relay port that is 0 or one of 1 to 65535, positive lifetimes, json or text as
  -- log format and a Graph version that begins with v.
  pub load-IsValid : {c : Config} → load v ≡ ok c → IsValid v c
  unfolding load
  load-IsValid {c} h =
      let (public_url, url_ok, h1) = >>=-ok h in
      let (app_id, id_ok, h2) = >>=-ok h1 in
      let (app_secret, secret_ok, h3) = >>=-ok h2 in
      let (cipher_key, cipher_ok, h4) = >>=-ok h3 in
      let (signing_key, signing_ok, h5) = >>=-ok h4 in
      let (port, port_ok, h6) = >>=-ok h5 in
      let (access_ttl, access_ok, h7) = >>=-ok h6 in
      let (refresh_ttl, refresh_ok, h8) = >>=-ok h7 in
      let (u, texts_ok, h9) = >>=-ok h8 in
      subst (IsValid v) (ok-injective h9) (record {
        parsed = (parse_public_url-ok _ url_ok).0;
        no_slash = (parse_public_url-ok _ url_ok).1;
        app_id = required-ok _ id_ok;
        app_secret = required-ok _ secret_ok;
        cipher_key = (decode_key-ok _ true cipher_ok).1 refl;
        signing_key = (decode_key-ok _ false signing_ok).0;
        relay = relay_port-ok port_ok;
        access_ttl = parse_duration-ok _ (omega arith) access_ok;
        refresh_ttl = parse_duration-ok _ (omega arith) refresh_ok;
        log = (checked_texts-ok _ _ texts_ok).0;
        version = (checked_texts-ok _ _ texts_ok).1;
      })
