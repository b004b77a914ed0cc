-- ===== src/World/Yields.antt =====
-- Actions that read the database, leave it as it is, and log only allowed calls.
use meta_mcp.Prelude.{ℕ, ◌≡◌, List, ◌∷◌, Option, none, some}
use meta_mcp.Domain.Errors.{Error}
use meta_mcp.Exec.{Result, ok, err}
use meta_mcp.Exec.Yields.{OnOk, OnOk-any, Yields}
use meta_mcp.World.{Env, World, Call, ask, request, applied, sql}
use meta_mcp.Store.Db.{Db}
use meta_mcp.Store.Tenants.{selecting}

module _ (db : Db) (Log : List Call → Type 0) where
  -- The database is `db`, and the log satisfies `Log`.
  pub record Reads (w : World) : Type 0 where
    pub same_db : w.db ≡ db
    pub log : Log w.calls

  pub Yields-ask :
      {E A : Type 0} (V : A → Type 0) (f : ℕ → Result E A)
      → ((n : ℕ) → OnOk V (f n))
      → Yields Reads V (ask f)
  unfolding ask
  Yields-ask V f v = record { at = λ w h. (record { same_db = h.same_db; log = h.log }, v w.step) }

  pub Yields-request :
      {A : Type 0} (f : ℕ → Call → Result Error A) (c : Call)
      → ((cs : List Call) → Log cs → Log (c ∷ cs))
      → Yields Reads (λ _. Unit {0}) (request f c)
  unfolding request
  Yields-request f c k = record {
    at = λ w h. (record { same_db = h.same_db; log = k w.calls h.log }, OnOk-any (f w.step c));
  }

  select_went :
      {A : Type 0} (V : A → Type 0) (r : Result Error A) (w : World)
      → OnOk V r
      → Reads w
      → Reads (applied none (elim r [ ok a ↦ ok (a, w.db) | err e ↦ err e ]) w).1
        × OnOk V (applied none (elim r [ ok a ↦ ok (a, w.db) | err e ↦ err e ]) w).0
  unfolding applied
  select_went V (ok a) w v h = (record { same_db = h.same_db; log = h.log }, v)
  select_went V (err e) w v h = (record { same_db = h.same_db; log = h.log }, tt)

  applied-Yields :
      {A : Type 0} (V : A → Type 0) (q : Db → Result Error A) (fault : Option Error) (w : World)
      → OnOk V (q db)
      → Reads w
      → Reads (applied fault (selecting q w.db) w).1 × OnOk V (applied fault (selecting q w.db) w).0
  unfolding applied
  applied-Yields V q (some e) w v h = (record { same_db = h.same_db; log = h.log }, tt)
  applied-Yields V q none w v h = select_went V (q w.db) w (rw h.same_db v) h

  pub Yields-select :
      {A : Type 0} (V : A → Type 0) (env : Env) (q : Db → Result Error A)
      → OnOk V (q db)
      → Yields Reads V (sql env (selecting q))
  unfolding sql
  Yields-select V env q v = record { at = λ w h. applied-Yields V q (env.fault w.step) w v h }
