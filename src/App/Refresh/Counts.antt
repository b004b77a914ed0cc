-- ===== src/App/Refresh/Counts.antt =====
-- The report of a sweep is what its attempts came to.
use mathlib.Core.List.{append_assoc, append-nil}
use meta_mcp.Prelude.{
  ◌≡◌, ◌+◌, ◌-◌, ◌++◌, ap, ◌∙◌, String, List, [], ◌∷◌, length, none, Option-cases, inl, inr, arith,
}
use meta_mcp.Domain.Time.{Duration}
use meta_mcp.Domain.Entities.{Tenant}
use meta_mcp.Exec.{ok, ◌>>=◌}
use meta_mcp.Exec.Run.{Result-cases}
use meta_mcp.World.{tick, World, Env, ask}
use meta_mcp.Store.Tenants.{tenants_due_for_token_refresh}
use meta_mcp.App.Refresh.{
  recheck_interval, window_or_default, refresh_one, swept, sweep, refresh_expiring_tokens, counted,
  RefreshReport,
}
use meta_mcp.App.Refresh.Renewal.{
  Attempts, over, renewal, failure, refresh_one-IsRenewed, refresh_one-failed,
}

-- What the attempts of a sweep add to a report.
record Reports (env : Env) (ts : List Tenant) (w : World) (r out : RefreshReport) : Type 0 where
  done : List Tenant
  failed : List String
  attempts : Attempts env ts w done failed
  checked : out.checked ≡ r.checked
  refreshed : out.refreshed ≡ r.refreshed + length done
  expired : out.expired ≡ r.expired ++ failed

sweep-Reports :
    (env : Env) (ts : List Tenant) (r : RefreshReport) (w : World) {out : RefreshReport}
    → (sweep env r ts w).0 ≡ (out, none)
    → Reports env ts w r out
unfolding sweep counted
sweep-Reports env [] r w {out} h = record {
  done = [];
  failed = [];
  attempts = over;
  checked = ground arith;
  refreshed = ground arith;
  expired = ground (arith, append-nil r.expired);
}
sweep-Reports env (t ∷ ts) r w {out} h = elim (Option-cases (env.cancelled w.step)) [
  | inr (e, stopped) ↦ absurd (ground arith)
  | inl quiet ↦
      let tried = refresh_one env t w in
      let rest = sweep-Reports env ts (counted r t tried.0) tried.1 {out = out} (ground arith) in
      elim (Result-cases tried.0) [
        | inr (u, fine) ↦ record {
          done = t ∷ rest.done;
          failed = rest.failed;
          attempts = renewal fine (refresh_one-IsRenewed env t w fine) rest.attempts;
          checked = ground (arith, rest.checked);
          refreshed = ground (arith, rest.refreshed);
          expired = ground (arith, rest.expired);
        }
        | inl (e, bad) ↦
            let one : (counted r t tried.0).expired ≡ r.expired ++ t.id ∷ [] = ground arith in
            record {
              done = rest.done;
              failed = t.id ∷ rest.failed;
              attempts = failure bad (refresh_one-failed env t w bad) rest.attempts;
              checked = ground (arith, rest.checked);
              refreshed = ground (arith, rest.refreshed);
              expired =
                  rest.expired
                  ∙ ap (λ (xs : List String). xs ++ rest.failed) one
                  ∙ append_assoc r.expired (t.id ∷ []) rest.failed;
            }
      ]
]

-- A sweep that ends without an error has tried each tenant that is due, one after another. Those that
-- it counts as refreshed are renewed: Meta gave a token for the tenant's token, and a row of the tenant
-- stores the new token, sealed. `expired` has the ids of exactly the tenants whose attempt failed, for
-- whatever reason, and such an attempt leaves the database as it was.
pub refresh_expiring_tokens-settled :
    (env : Env) (window : Duration) (w : World) {out : RefreshReport}
    → (refresh_expiring_tokens env window w).0 ≡ (out, none)
    → (ts : List Tenant) × (before : World) × (done : List Tenant) × (tenants_due_for_token_refresh
          env
          (env.now w.step + window_or_default env window)
          (env.now w.step - recheck_interval)
          (tick w)
        ≡ (ok ts, before))
      × Attempts env ts before done out.expired
      × (out.checked ≡ length ts)
      × (out.refreshed ≡ length done)
unfolding refresh_expiring_tokens swept ask ◌>>=◌
refresh_expiring_tokens-settled env window w {out} h =
    let found =
      tenants_due_for_token_refresh env (env.now w.step + window_or_default env window)
        (env.now w.step - recheck_interval) (tick w) in
    elim (Result-cases found.0) [
      | inl (e, bad) ↦ absurd (ground arith)
      | inr (ts, good) ↦
          let all =
            sweep-Reports env ts (record { checked = length ts; refreshed = 0; expired = [] })
              found.1 {out = out} (ground arith) in
          let same : out.expired ≡ all.failed = all.expired in
          (
            ts,
            found.1,
            all.done,
            ground (arith, good),
            rw same all.attempts,
            all.checked,
            ground (arith, all.refreshed),
          )
    ]
