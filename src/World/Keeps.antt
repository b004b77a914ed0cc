-- ===== src/World/Keeps.antt =====
-- Invariants of actions that depend on the database alone, or on the calls to Meta alone.
use meta_mcp.Prelude.{
  ℕ, ◌≡◌, refl, inl, inr, List, ◌∷◌, Option, none, some, String, Option-cases, arith,
}
use meta_mcp.Domain.Errors.{Error}
use meta_mcp.Exec.{Result, ok, err}
use meta_mcp.Exec.Keeps.{Keeps}
use meta_mcp.Store.Db.{Db}
use meta_mcp.World.{
  Env, World, Action, Call, Statement, tick, ask, request, applied, sql, ended, transaction,
}

pub record OnDb (Q : Db → Type 0) (w : World) : Type 0 where
  pub holds : Q w.db

pub record OnCalls (Q : List Call → Type 0) (w : World) : Type 0 where
  pub holds : Q w.calls

-- A statement that keeps `Q` wherever it succeeds.
pub record KeepsDb {A : Type 0} (Q : Db → Type 0) (f : Statement A) : Type 0 where
  pub at : (db : Db) (a : A) (d : Db) → f db ≡ ok (a, d) → Q db → Q d

module _ {A : Type 0} where
  pub Keeps-ask : {Q : Db → Type 0} {E : Type 0} (f : ℕ → Result E A) → Keeps (OnDb Q) (ask f)
  unfolding ask
  Keeps-ask f = record { at = λ w h. record { holds = h.holds } }

  pub Keeps-request :
      {Q : Db → Type 0} (f : ℕ → Call → Result Error A) (c : Call) → Keeps (OnDb Q) (request f c)
  unfolding request
  Keeps-request f c = record { at = λ w h. record { holds = h.holds } }

  applied-keeps :
      (Q : Db → Type 0) (f : Option Error) (r : Result Error (A × Db)) (w : World)
      → ((a : A) (d : Db) → r ≡ ok (a, d) → Q d)
      → Q w.db
      → Q (applied f r w).1.db
  unfolding applied
  applied-keeps Q (some e) r w k h = h
  applied-keeps Q none (err e) w k h = h
  applied-keeps Q none (ok (a, d)) w k h = k a d refl

  pub Keeps-sql :
      {Q : Db → Type 0} (env : Env) (f : Statement A) → KeepsDb Q f → Keeps (OnDb Q) (sql env f)
  unfolding sql
  Keeps-sql {Q} env f kf = record {
    at = λ w h. record {
      holds =
          applied-keeps Q (env.fault w.step) (f w.db) w (λ a d e. kf.at w.db a d e h.holds) h.holds;
    };
  }

  ended-keeps :
      (Q : Db → Type 0) (env : Env) (commit : String) (before : Db) (r : Result Error A) (w : World)
      → Q before
      → Q w.db
      → Q (ended env commit before (r, w)).1.db
  unfolding ended
  ended-keeps Q env commit before (err e) w hb h = hb
  ended-keeps Q env commit before (ok a) w hb h = elim (Option-cases (env.fault w.step)) [
    | inl none_e ↦ rw (none_e, ended) h
    | inr (e, some_e) ↦ rw (some_e, ended) hb
  ]

  pub Keeps-transaction :
      {Q : Db → Type 0} (env : Env) (begin commit : String) (m : Action Error A)
      → Keeps (OnDb Q) m
      → Keeps (OnDb Q) (transaction env begin commit m)
  unfolding transaction
  Keeps-transaction {Q} env begin commit m km = record {
    at = λ w h. elim (Option-cases (env.fault w.step)) [
      | inr (e, failed) ↦ rw (failed, transaction) (record { holds = h.holds })
      | inl went ↦
          rw (went, transaction)
            (let (r, w') = m (tick w) in
              let kept = km.at (tick w) (record { holds = h.holds }) in
              record { holds = ended-keeps Q env commit w.db r w' h.holds kept.holds })
    ];
  }

pub ruleset db_rules = (Keeps-ask, Keeps-request, Keeps-sql, Keeps-transaction)

module _ {A : Type 0} where
  pub Calls-ask :
      {Q : List Call → Type 0} {E : Type 0} (f : ℕ → Result E A) → Keeps (OnCalls Q) (ask f)
  unfolding ask
  Calls-ask f = record { at = λ w h. record { holds = h.holds } }

  pub Calls-request :
      {Q : List Call → Type 0} (f : ℕ → Call → Result Error A) (c : Call)
      → ((cs : List Call) → Q cs → Q (c ∷ cs))
      → Keeps (OnCalls Q) (request f c)
  unfolding request
  Calls-request f c k = record { at = λ w h. record { holds = k w.calls h.holds } }

  applied-calls :
      (f : Option Error) (r : Result Error (A × Db)) (w : World) → (applied f r w).1.calls ≡ w.calls
  unfolding applied
  applied-calls (some e) r w = refl
  applied-calls none (err e) w = refl
  applied-calls none (ok (a, d)) w = refl

  pub Calls-sql :
      {Q : List Call → Type 0} (env : Env) (f : Statement A) → Keeps (OnCalls Q) (sql env f)
  unfolding sql
  Calls-sql env f = record {
    at = λ w h. record { holds = rw (applied-calls (env.fault w.step) (f w.db) w) h.holds };
  }

  ended-calls :
      (env : Env) (commit : String) (before : Db) (r : Result Error A) (w : World)
      → (ended env commit before (r, w)).1.calls ≡ w.calls
  unfolding ended
  ended-calls env commit before (err e) w = refl
  ended-calls env commit before (ok a) w = ground arith

  pub Calls-transaction :
      {Q : List Call → Type 0} (env : Env) (begin commit : String) (m : Action Error A)
      → Keeps (OnCalls Q) m
      → Keeps (OnCalls Q) (transaction env begin commit m)
  unfolding transaction
  Calls-transaction env begin commit m km = record {
    at = λ w h. elim (Option-cases (env.fault w.step)) [
      | inr (e, failed) ↦ rw (failed, transaction) (record { holds = h.holds })
      | inl went ↦
          rw (went, transaction)
            (let (r, w') = m (tick w) in
              let kept = km.at (tick w) (record { holds = h.holds }) in
              record { holds = rw (ended-calls env commit w.db r w') kept.holds })
    ];
  }

pub ruleset calls_rules = (Calls-ask, Calls-request, Calls-sql, Calls-transaction)
