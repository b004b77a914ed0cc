-- ===== src/App/Login/Allowed.antt =====
-- The allow-list of the login.
use meta_mcp.World.{Call, World, Env, request}
use meta_mcp.Exec.{◌>>=◌, ok}
use meta_mcp.Prelude.{Bool-cases, suc, Bool, ◌≡◌, ◌⊎◌, inl, inr, true, String, arith}
use meta_mcp.App.Login.{complete}
use meta_mcp.Domain.Entities.{MetaUser}
use meta_mcp.Exec.Run.{Result-cases}

-- A login changes the database only where Meta answers its third step, the call of `me`, with a user
-- that `allow` accepts.
pub complete-allowed :
    (env : Env) (allow : String → Bool) (code uri : String) (w : World)
    → ((complete env allow code uri w).1.db ≡ w.db)
      ⊎ ((u : MetaUser) × (c : Call) × (env.meta.me (suc (suc w.step)) c ≡ ok u)
          × (allow u.id ≡ true))
unfolding complete request ◌>>=◌
complete-allowed env allow code uri w =
    elim (Result-cases (env.meta.exchange_code w.step (Call.exchange_code code uri))) [
      | inl (e, bad) ↦ inl (ground arith)
      | inr (short, e1) ↦
          elim (Result-cases (
            env.meta.exchange_long_lived_token (suc w.step)
              (Call.exchange_long_lived_token short))) [
                | inl (e, bad) ↦ inl (ground arith)
                | inr (long, e2) ↦
                    elim (Result-cases (env.meta.me (suc (suc w.step)) (Call.me long.token))) [
                      | inl (e, bad) ↦ inl (ground arith)
                      | inr (user, e3) ↦ elim (Bool-cases (allow user.id)) [
                        | inl yes_user ↦ inr (user, Call.me long.token, e3, yes_user)
                        | inr no_user ↦ inl (ground arith)
                      ]
                    ]
              ]
    ]
