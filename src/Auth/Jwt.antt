-- ===== src/Auth/Jwt.antt =====
-- internal/adapters/authserver/jwt.go: access tokens.
use Prim.Native.String
use meta_mcp.Prelude.{
  ◌+◌, Bool, not, ◌&&◌, ◌||◌, String, Option, none, some, ◌==◌, eqb, ltb, cut, is_some, bytes_eq,
  if◌then◌else◌,
}
use meta_mcp.Domain.Time.{Time, epoch, unix, of_unix}
use meta_mcp.Domain.Errors.{Error, text, wrap}
use meta_mcp.Exec.{err, pure, lift, stop_if, ◌>>=◌, ◌>>◌, or_return}
use meta_mcp.Crypto.{Bytes}
use meta_mcp.World.{Env, Action, ask, reading}
use meta_mcp.Auth.Server.{Codec, Options, JwtHeader, Claims}

infixr 65 ◌^^◌
-- `a + b` on texts
abbrev pub ◌^^◌ : String → String → String
a ^^ b = String.◌++◌ a b

abbrev pub err_invalid_token : Error
err_invalid_token = text "jeton d'accès invalide"

abbrev pub hs256_header : JwtHeader
hs256_header = record { alg = "HS256"; typ = "JWT" }

abbrev pub Segments : Type 0
Segments = String × String × String

-- The three segments, none empty, with no further dot in the signature.
checked_segments : String → String → String → Option Segments
checked_segments header payload signature =
    if header == "" || payload == "" || signature == "" || is_some (cut signature b'.')
    then none
    else some (header, payload, signature)

split_rest : String → Option (String × String) → Option Segments
unfolding checked_segments
split_rest header none = none
split_rest header (some (payload, signature)) = checked_segments header payload signature

split_first : Option (String × String) → Option Segments
unfolding split_rest
split_first none = none
split_first (some (header, rest)) = split_rest header (cut rest b'.')

unfoldable pub split_token : String → Option Segments
unfolding split_first
split_token token = split_first (cut token b'.')

-- `if err != nil { return nil, ErrInvalidToken }` for a decoder
abbrev pub or_invalid : {A : Type 0} → Option A → Action Error A
or_invalid none = lift (err err_invalid_token)
or_invalid (some a) = pure a

abbrev pub decoded : {A : Type 0} → (Bytes → Option A) → Option Bytes → Option A
decoded f none = none
decoded f (some b) = f b

module _ (codec : Codec) (opts : Options) (env : Env) where
  unfoldable pub sign : String → Bytes
  sign input = codec.hmac opts.signing_key input

  unfoldable pub encode : Claims → String
  unfolding sign
  encode claims =
      let input : String =
        codec.base64 (codec.header_json hs256_header)
        ^^ "."
        ^^ codec.base64 (codec.claims_json claims) in
      input ^^ "." ^^ codec.base64 (sign input)

  unfoldable pub minted_claims : String → String → Time → String → Claims
  minted_claims tenant_id client_id now jti = record {
    issuer = opts.issuer;
    subject = tenant_id;
    audience = opts.resource;
    client_id = client_id;
    issued_at = unix now;
    expires_at = unix (now + opts.access_token_ttl);
    jti = jti;
  }

  -- The token and its expiry.
  unfoldable pub mint_access_token : String → String → Action Error (String × Time)
  unfolding encode minted_claims
  mint_access_token tenant_id client_id = do
    jti ← or_return (ask env.secret) (wrap "jti")
    now ← ask (reading env.now)
    pure (encode (minted_claims tenant_id client_id now jti), now + opts.access_token_ttl)

  unfoldable pub is_our_header : JwtHeader → Bool
  is_our_header h = h.alg == "HS256" && (h.typ == "" || h.typ == "JWT")

  unfoldable pub is_signed : String → String → Bytes → Bool
  unfolding sign
  is_signed header payload signature = bytes_eq signature (sign (header ^^ "." ^^ payload))

  -- The clock is read only where the token has an expiry.
  unfoldable pub check_expiry : Claims → Action Error Claims
  check_expiry claims = if eqb claims.expires_at epoch then lift (err err_invalid_token) else do
    now ← ask (reading env.now)
    if ltb now (of_unix claims.expires_at) then pure claims else lift (err err_invalid_token)

  unfoldable pub check_claims : Claims → Action Error Claims
  unfolding check_expiry
  check_claims claims =
      if not (claims.issuer == opts.issuer) || not (claims.audience == opts.resource)
      then lift (err err_invalid_token)
      else if claims.subject == ""
      then lift (err err_invalid_token)
      else check_expiry claims

  unfoldable pub verify_access_token : String → Action Error Claims
  unfolding split_token is_our_header is_signed check_claims
  verify_access_token token = do
    segments ← or_invalid (split_token token)
    header ← or_invalid (decoded codec.read_header (codec.unbase64 segments.0))
    stop_if (not (is_our_header header)) err_invalid_token
    signature ← or_invalid (codec.unbase64 segments.2)
    stop_if (not (is_signed segments.0 segments.1 signature)) err_invalid_token
    claims ← or_invalid (decoded codec.read_claims (codec.unbase64 segments.1))
    check_claims claims

  -- `hashToken`
  unfoldable pub hash_token : String → String
  hash_token token = codec.base64 (codec.sha256 token)

  -- `verifyPKCE`
  unfoldable pub verify_pkce : String → String → Bool
  verify_pkce verifier challenge = codec.base64 (codec.sha256 verifier) == challenge
