-- ===== src/Domain/Classify.antt =====
-- How a Graph error is classified and shown.
use meta_mcp.Prelude.{◌≡◌, ◌↔◌, ◌⊎◌, true, arith}
use meta_mcp.Domain.Errors.{GraphError, is_auth, is_rate_limit}

-- The codes that Meta gives to tokens, sessions and permissions; the HTTP status 401.
abbrev pub IsAuth : GraphError → Type 0
IsAuth e = (e.code ≡ 190) ⊎ (e.code ≡ 102) ⊎ (e.code ≡ 10) ⊎ (e.code ≡ 200) ⊎ (e.http_status ≡ 401)

abbrev pub IsThrottle : GraphError → Type 0
IsThrottle e = (e.code ≡ 4) ⊎ (e.code ≡ 17) ⊎ (e.code ≡ 32) ⊎ (e.code ≡ 613) ⊎ (e.http_status ≡ 429)

is_auth_iff : (e : GraphError) → (is_auth e ≡ true) ↔ IsAuth e
unfolding is_auth
is_auth_iff e = ground arith

is_rate_limit_iff : (e : GraphError) → (is_rate_limit e ≡ true) ↔ IsThrottle e
unfolding is_rate_limit
is_rate_limit_iff e = ground arith
