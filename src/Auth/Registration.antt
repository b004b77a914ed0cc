-- ===== src/Auth/Registration.antt =====
-- Which redirect URIs a client may register.
use meta_mcp.Prelude.{
  ◌==◌, All, Bool-cases, List, Option-cases, String, [], arith, cut, eq_iff, inl, inr, length, none,
  some, true, ◌∷◌, ◌≡◌, ◌≢◌, ◌≤◌, ◌⊎◌,
}
use meta_mcp.Auth.Server.{registered, RegistrationResponse, Url, Codec}
use meta_mcp.World.{ask, World, Env}
use meta_mcp.Auth.Register.{
  checked_url, is_loopback, RegistrationRequest, register_valid, RegisterInput, register_request,
  register_handler, validate_redirect_uri, first_refusal,
}
use meta_mcp.Exec.{◌>>=◌, answer, or_return}

-- A URI that may be registered: it parses, has no fragment, and is https with a host, or http on the
-- local machine: localhost, 127.0.0.1 or ::1.
pub record IsAllowed (codec : Codec) (raw : String) : Type 0 where
  pub url : Url
  pub parses : codec.parse_url raw ≡ some url
  pub no_fragment : url.fragment ≡ ""
  pub no_hash : cut raw b'#' ≡ none
  pub secure_or_local :
      ((url.scheme ≡ "https") × (url.host ≢ ""))
      ⊎ ((url.scheme ≡ "http")
          × ((url.hostname ≡ "localhost") ⊎ (url.hostname ≡ "127.0.0.1") ⊎ (url.hostname ≡ "::1")))

local_machine :
    (host : String)
    → is_loopback host ≡ true
    → (host ≡ "localhost") ⊎ (host ≡ "127.0.0.1") ⊎ (host ≡ "::1")
unfolding is_loopback
local_machine host h = elim (Bool-cases (host == "localhost")) [
  | inl one ↦ inl (ground (arith, eq_iff host "localhost"))
  | inr e ↦ elim (Bool-cases (host == "127.0.0.1")) [
    | inl two ↦ inr (inl (ground (arith, eq_iff host "127.0.0.1")))
    | inr e' ↦ inr (inr (ground (arith, eq_iff host "::1")))
  ]
]

module _ (codec : Codec) where
  validate_redirect_uri-IsAllowed :
      (raw : String) → validate_redirect_uri codec raw ≡ none → IsAllowed codec raw
  unfolding validate_redirect_uri checked_url
  validate_redirect_uri-IsAllowed raw h = elim (Option-cases (codec.parse_url raw)) [
    | inl bad ↦ absurd (ground arith)
    | inr (u, parses) ↦ record {
      url = u;
      parses = parses;
      no_fragment = ground (arith, eq_iff u.fragment "");
      no_hash = elim (Option-cases (cut raw b'#')) [
        | inl fine ↦ fine
        | inr (p, bad) ↦ absurd (ground arith)
      ];
      secure_or_local = elim (Bool-cases (u.scheme == "https")) [
        | inl https ↦
            inl (ground (arith, eq_iff u.scheme "https"), λ e. ground (arith, eq_iff u.host ""))
        | inr other ↦
            inr (ground (arith, eq_iff u.scheme "http"), local_machine u.hostname (ground arith))
      ];
    }
  ]

  first_refusal-All :
      (uris : List String) → first_refusal codec uris ≡ none → All (IsAllowed codec) uris
  unfolding first_refusal
  first_refusal-All [] h = tt
  first_refusal-All (uri ∷ uris) h = elim (Option-cases (validate_redirect_uri codec uri)) [
    | inl fine ↦ (validate_redirect_uri-IsAllowed uri fine, first_refusal-All uris (ground arith))
    | inr (m, bad) ↦ absurd (ground arith)
  ]

  module _ (env : Env) where
    registered-uris :
        (req : RegistrationRequest) (w : World) {resp : RegistrationResponse}
        → answer (register_request codec env req w).0 ≡ registered resp
        → (first_refusal codec req.redirect_uris ≡ none)
          × (resp.redirect_uris ≡ req.redirect_uris)
          × (1 ≤ length req.redirect_uris)
          × (length req.redirect_uris ≤ 10)
    unfolding register_request register_valid ask or_return ◌>>=◌
    registered-uris req w h = elim (Option-cases (first_refusal codec req.redirect_uris)) [
      | inl fine ↦ ground arith
      | inr (m, bad) ↦ absurd (ground arith)
    ]

    -- Registration succeeds only with one to ten redirect URIs, each of which may be registered:
    -- it parses, has no fragment, and is https with a host, or http on localhost, 127.0.0.1 or ::1.
    pub register_handler-IsAllowed :
        (r : RegisterInput) (w : World) {resp : RegistrationResponse}
        → answer (register_handler codec env r w).0 ≡ registered resp
        → All (IsAllowed codec) resp.redirect_uris
          × (1 ≤ length resp.redirect_uris)
          × (length resp.redirect_uris ≤ 10)
    unfolding register_handler ◌>>=◌
    register_handler-IsAllowed r w {resp} h = elim (Option-cases r.body) [
      | inl bad ↦ absurd (ground arith)
      | inr (req, good) ↦
          let (fine, same, low, high) = registered-uris req w {resp = resp} (ground arith) in
          rw same (first_refusal-All req.redirect_uris fine, low, high)
    ]
