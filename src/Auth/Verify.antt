-- ===== src/Auth/Verify.antt =====
-- What an accepted access token is, and which tokens are accepted.
use Prim.Native.Char.{Char}
use text.Mathlib.TextLemmas.{append_assoc, cons-append, nil-append}
use meta_mcp.Prelude.{
  cut, ◌+◌, suc, ◌∙◌, eq_iff, ◌<◌, ◌≡◌, ◌≢◌, refl, ap, true, false, String, some, Option-cases, inl,
  inr, arith, ◌==◌,
}
use meta_mcp.Crypto.{Bytes}
use meta_mcp.Auth.Server.{JwtHeader, Claims, Options, Codec}
use meta_mcp.World.{World, ask, Env}
use meta_mcp.Domain.Time.{epoch, unix, of_unix, Time}
use meta_mcp.Auth.Jwt.{
  minted_claims, hs256_header, mint_access_token, encode, is_signed, is_our_header, ◌^^◌, sign,
  decoded, split_token, Segments, check_expiry, verify_access_token, check_claims,
}
use meta_mcp.Exec.{or_return, ok, ◌>>=◌}
use meta_mcp.Prelude.Split.{cut-none, cut-join, bytes_eq_refl, Lacks, eq_of_bytes_eq}

-- What makes `token` a token of this server that carries these claims at time `now`.
pub record IsGenuine (codec : Codec) (opts : Options) (env : Env) (now : Time) (token : String)
    (claims : Claims) : Type 0 where
  pub segments : Segments
  pub header : JwtHeader
  pub split : split_token token ≡ some segments
  pub header_read : decoded codec.read_header (codec.unbase64 segments.0) ≡ some header
  pub claims_read : decoded codec.read_claims (codec.unbase64 segments.1) ≡ some claims
  pub is_hs256 : header.alg ≡ "HS256"
  pub signed :
      codec.unbase64 segments.2 ≡ some (sign codec opts env (segments.0 ^^ "." ^^ segments.1))
  pub our_issuer : claims.issuer ≡ opts.issuer
  pub our_audience : claims.audience ≡ opts.resource
  pub has_subject : claims.subject ≢ ""
  pub unexpired : now < of_unix claims.expires_at

module _ (codec : Codec) (opts : Options) (env : Env) where
  check_claims-eq-ok :
      (p : Claims) (w : World) {claims : Claims}
      → (check_claims codec opts env p w).0 ≡ ok claims
      → (p ≡ claims)
        × (claims.issuer ≡ opts.issuer)
        × (claims.audience ≡ opts.resource)
        × ((claims.subject == "") ≡ false)
        × (env.now w.step < of_unix claims.expires_at)
  unfolding check_claims check_expiry ask ◌>>=◌
  check_claims-eq-ok p w {claims} h =
      let e : p ≡ claims = ground arith in
      rw (← e) (ground (arith, eq_iff p.issuer opts.issuer, eq_iff p.audience opts.resource))

  is_our_header-alg : (h : JwtHeader) → is_our_header codec opts env h ≡ true → h.alg ≡ "HS256"
  unfolding is_our_header
  is_our_header-alg h e = ground (arith, eq_iff h.alg "HS256")

  is_signed-eq :
      (header payload : String) (signature : Bytes)
      → is_signed codec opts env header payload signature ≡ true
      → signature ≡ sign codec opts env (header ^^ "." ^^ payload)
  unfolding is_signed
  is_signed-eq header payload signature e = eq_of_bytes_eq signature _ e

  -- An accepted token is genuine: its three segments decode, the header says HS256, the signature is
  -- the HMAC of the first two segments under the server's key, and the claims have the server's issuer
  -- and audience, a subject, and an expiry that is still ahead.
  pub verify_access_token-IsGenuine :
      (token : String) (w : World) {claims : Claims}
      → (verify_access_token codec opts env token w).0 ≡ ok claims
      → IsGenuine codec opts env (env.now w.step) token claims
  unfolding verify_access_token ◌>>=◌
  verify_access_token-IsGenuine token w {claims} h = elim (Option-cases (split_token token)) [
    | inl bad ↦ absurd (ground arith)
    | inr (s, split) ↦ elim (Option-cases (decoded codec.read_header (codec.unbase64 s.0))) [
      | inl bad ↦ absurd (ground arith)
      | inr (header, header_read) ↦ elim (Option-cases (codec.unbase64 s.2)) [
        | inl bad ↦ absurd (ground arith)
        | inr (signature, sig_read) ↦
            elim (Option-cases (decoded codec.read_claims (codec.unbase64 s.1))) [
              | inl bad ↦ absurd (ground arith)
              | inr (p, claims_read) ↦
                  let ours : is_our_header codec opts env header ≡ true = ground arith in
                  let signed : is_signed codec opts env s.0 s.1 signature ≡ true = ground arith in
                  let checked : (check_claims codec opts env p w).0 ≡ ok claims = ground arith in
                  let (same, issuer, audience, subject, expiry) = check_claims-eq-ok p w checked in
                  record {
                    segments = s;
                    header = header;
                    split = split;
                    header_read = header_read;
                    claims_read = claims_read ∙ ap (λ x. some x) same;
                    is_hs256 = is_our_header-alg header ours;
                    signed = sig_read ∙ ap (λ x. some x) (is_signed-eq s.0 s.1 signature signed);
                    our_issuer = issuer;
                    our_audience = audience;
                    has_subject = λ e. ground (arith, eq_iff claims.subject "");
                    unexpired = expiry;
                  }
            ]
      ]
    ]
  ]

-- What the standard library documents: decoding undoes encoding, for all bytes, for the header, and
-- for these claims; base64url uses no dot, and writes something for each of the three segments.
pub record IsCodec (c : Codec) (p : Claims) : Type 0 where
  pub unbase64-base64 : (b : Bytes) → c.unbase64 (c.base64 b) ≡ some b
  pub base64-Lacks : (b : Bytes) → Lacks b'.' (c.base64 b)
  pub base64-ne_header : (c.base64 (c.header_json hs256_header) == "") ≡ false
  pub base64-ne_claims : (c.base64 (c.claims_json p) == "") ≡ false
  pub base64-ne_hmac : (k : Bytes) (s : String) → (c.base64 (c.hmac k s) == "") ≡ false
  pub read_header-json : c.read_header (c.header_json hs256_header) ≡ some hs256_header
  pub read_claims-json : c.read_claims (c.claims_json p) ≡ some p

-- Tokens that this server mints.
abbrev dot : Char
dot = "."

dot-append : (s : String) → "." ^^ s ≡ String.◌∷◌ dot s
dot-append s = cons-append dot "" s ∙ ap (λ t. String.◌∷◌ dot t) (nil-append s)

module _ (codec : Codec) (opts : Options) (env : Env) where
  split_token-join :
      (h p s : String)
      → Lacks b'.' h
      → Lacks b'.' p
      → Lacks b'.' s
      → (h == "") ≡ false
      → (p == "") ≡ false
      → (s == "") ≡ false
      → split_token ((h ^^ "." ^^ p) ^^ "." ^^ s) ≡ some (h, p, s)
  unfolding split_token
  split_token-join h p s lh lp ls nh np ns =
      let regroup : (h ^^ "." ^^ p) ^^ "." ^^ s ≡ h ^^ (String.◌∷◌ dot (p ^^ String.◌∷◌ dot s)) =
        rw (append_assoc, append_assoc)
          (ap (λ t. h ^^ t)
            (dot-append (p ^^ "." ^^ s) ∙ ap (λ t. String.◌∷◌ dot (p ^^ t)) (dot-append s))) in
      let first : cut (h ^^ (String.◌∷◌ dot (p ^^ String.◌∷◌ dot s))) b'.'
          ≡ some (h, p ^^ String.◌∷◌ dot s) =
        cut-join h _ dot lh in
      let second : cut (p ^^ String.◌∷◌ dot s) b'.' ≡ some (p, s) = cut-join p s dot lp in
      rw regroup (ground (arith, cut-none s b'.' ls))

  split_token-encode :
      (claims : Claims)
      → IsCodec codec claims
      → split_token (encode codec opts env claims)
        ≡ some (
          codec.base64 (codec.header_json hs256_header),
          codec.base64 (codec.claims_json claims),
          codec.base64 (
              sign codec opts env (
                codec.base64 (codec.header_json hs256_header)
                ^^ "."
                ^^ codec.base64 (codec.claims_json claims))),
        )
  unfolding encode sign
  split_token-encode claims law =
      split_token-join _ _ _ (law.base64-Lacks _) (law.base64-Lacks _) (law.base64-Lacks _)
        law.base64-ne_header law.base64-ne_claims (law.base64-ne_hmac _ _)

  accepts :
      (p : Claims) (w : World)
      → IsCodec codec p
      → p.issuer ≡ opts.issuer
      → p.audience ≡ opts.resource
      → p.subject ≢ ""
      → p.expires_at ≢ epoch
      → env.now w.step < of_unix p.expires_at
      → (verify_access_token codec opts env (encode codec opts env p) w).0 ≡ ok p
  unfolding verify_access_token is_our_header is_signed check_claims check_expiry sign ask ◌>>=◌
  accepts p w law issuer audience subject ends early = rw (split_token-encode p law) (
      ground (
        arith,
        law.unbase64-base64 (codec.header_json hs256_header),
        law.unbase64-base64 (codec.claims_json p),
        law.unbase64-base64 (
            sign codec opts env (
              codec.base64 (codec.header_json hs256_header)
              ^^ "."
              ^^ codec.base64 (codec.claims_json p))),
        law.read_header-json,
        law.read_claims-json,
        eq_iff p.subject "",
        eq_iff p.issuer opts.issuer,
        eq_iff p.audience opts.resource,
        bytes_eq_refl (
            sign codec opts env (
              codec.base64 (codec.header_json hs256_header)
              ^^ "."
              ^^ codec.base64 (codec.claims_json p))),
      ))

  -- A token minted for a named tenant, whose expiry is not second 0 of the Unix clock, is accepted
  -- with the claims it was minted with, at any step before the second in which it expires, where the
  -- encodings keep their documented promises for these claims.
  pub verify_access_token-mint :
      (tenant_id client_id jti : String) (w w' : World) {token : String} {expiry : Time}
      → env.secret w.step ≡ ok jti
      → IsCodec codec (minted_claims codec opts env tenant_id client_id (env.now (suc w.step)) jti)
      → (mint_access_token codec opts env tenant_id client_id w).0 ≡ ok (token, expiry)
      → tenant_id ≢ ""
      → unix expiry ≢ epoch
      → env.now w'.step < of_unix (unix expiry)
      → (verify_access_token codec opts env token w').0
        ≡ ok (minted_claims codec opts env tenant_id client_id (env.now (suc w.step)) jti)
  unfolding mint_access_token minted_claims ask ◌>>=◌ or_return
  verify_access_token-mint tenant_id client_id jti w w' {token} {expiry} drawn law h named ends
        early =
      let p = minted_claims codec opts env tenant_id client_id (env.now (suc w.step)) jti in
      let made : encode codec opts env p ≡ token = ground arith in
      let until : env.now (suc w.step) + opts.access_token_ttl ≡ expiry = ground arith in
      rw (← made) (accepts p w' law refl refl named (rw until ends) (rw until early))
