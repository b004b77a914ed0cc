-- ===== src/App/Refresh.antt =====
-- internal/app/refresh_tokens.go: the sweep that renews the user tokens.
pub mod Counts
pub mod Renewal
use meta_mcp.Prelude.{
  ℕ, suc, ◌+◌, ◌-◌, ◌*◌, Bool, true, false, String, List, [], ◌∷◌, ◌++◌, Option, none, some, eqb,
  length, if◌then◌else◌,
}
use meta_mcp.Domain.Time.{Time, Duration, day}
use meta_mcp.Domain.Errors.{
  Error, GraphError, reauthorize, wrap, as_graph_error, is_auth, is_reauthorize,
}
use meta_mcp.Domain.Entities.{Tenant, LongLivedToken}
use meta_mcp.Exec.{Result, ok, err, pure, raise, lift, ◌>>=◌, ◌>>◌, or_return, attempt}
use meta_mcp.World.{Env, World, Action, Call, ask, reading, request}
use meta_mcp.Store.Tenants.{upsert_tenant, tenants_due_for_token_refresh}
use meta_mcp.App.Login.{expiry_from}

abbrev pub default_refresh_window : Duration
default_refresh_window = 14 * day

abbrev pub recheck_interval : Duration
recheck_interval = 7 * day

pub record RefreshReport : Type 0 where
  pub checked : ℕ
  pub refreshed : ℕ
  pub expired : List String

auth_as_reauthorize : Error → Option GraphError → Error
auth_as_reauthorize e none = e
auth_as_reauthorize e (some ge) = if is_auth ge then reauthorize else e

exchange_error : Error → Error
unfolding auth_as_reauthorize
exchange_error e = auth_as_reauthorize e (as_graph_error e)

unfoldable pub renewed : Tenant → LongLivedToken → Time → Tenant
unfolding expiry_from
renewed t token now = record t {
  user_token = token.token;
  updated_at = now;
  user_token_expires_at = expiry_from now token.expires_in;
}

-- The three cases of the `switch`: the last two do the same.
unfoldable pub counted : RefreshReport → Tenant → Result Error (Unit {0}) → RefreshReport
counted report t (ok u) = record report { refreshed = report.refreshed + 1 }
counted report t (err e) =
    if is_reauthorize e
    then record report { expired = report.expired ++ t.id ∷ [] }
    else record report { expired = report.expired ++ t.id ∷ [] }

module _ (env : Env) where
  unfoldable pub refresh_one : Tenant → Action Error (Unit {0})
  unfolding renewed exchange_error
  refresh_one t = do
    token ←
        or_return
          (request env.meta.exchange_long_lived_token (Call.exchange_long_lived_token t.user_token))
          exchange_error
    now ← ask (reading env.now)
    or_return (upsert_tenant env (renewed t token now)) (wrap "enregistrement du jeton renouvelé")

  -- A cancelled context ends the sweep with what it has done so far, and its error.
  unfoldable pub sweep :
      RefreshReport → List Tenant → World → (RefreshReport × Option Error) × World
  unfolding counted refresh_one
  sweep report [] w = ((report, none), w)
  sweep report (t ∷ ts) w =
      let (outcome, w') = refresh_one t w in
      let rest = sweep (counted report t outcome) ts w' in
      elim (env.cancelled w.step) [ some e ↦ ((report, some e), w) | none ↦ rest ]

  abbrev pub window_or_default : Duration → Duration
  window_or_default window = if eqb window 0 then default_refresh_window else window

  unfoldable pub swept : Result Error (List Tenant) × World → (RefreshReport × Option Error) × World
  unfolding sweep
  swept (err e, w) = (
    (
      record { checked = 0; refreshed = 0; expired = [] },
      some (wrap "liste des jetons à renouveler" e),
    ),
    w,
  )
  swept (ok ts, w) = sweep (record { checked = length ts; refreshed = 0; expired = [] }) ts w

  unfoldable pub refresh_expiring_tokens : Duration → World → (RefreshReport × Option Error) × World
  unfolding swept
  refresh_expiring_tokens window w = swept (
      (do
        now ← ask (reading env.now)
        tenants_due_for_token_refresh env (now + window_or_default window) (now - recheck_interval))
        w)
