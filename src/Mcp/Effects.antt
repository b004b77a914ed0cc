-- ===== src/Mcp/Effects.antt =====
-- What a tool may do, by its annotations and its caller.
pub mod Reads
pub mod Leave
use meta_mcp.Prelude.{
  ℕ, ◌≡◌, refl, ◌⊎◌, inl, inr, Bool, true, false, not, ◌&&◌, String, List, [], ◌∷◌, keep, Option,
  none, some, arith, if◌then◌else◌,
}
use meta_mcp.Domain.Errors.{Error}
use meta_mcp.Exec.{Result, ok, err, pure, lift, ◌>>=◌, or_return}
use meta_mcp.Exec.Keeps.{Keeps, keeps_rules, Keeps-bind, Keeps-or_return, Keeps-lift}
use meta_mcp.World.{Env, World, Action, Call, request}
use meta_mcp.World.Keeps.{
  OnCalls, Calls-ask, Calls-request, Calls-sql, Calls-transaction, calls_rules,
}
use meta_mcp.App.Service.{Service}
use meta_mcp.App.Service.Calls.{page_calls}
use meta_mcp.App.Tools.{WriteTool, run_write, confirmed}
use meta_mcp.App.Tools.Gate.{run_write-gate}
use meta_mcp.Mcp.Server.{Session, answering, tenant_id}

-- The calls of the port that create, hide or delete something at Meta.
abbrev pub writes_at_meta : Call → Bool
writes_at_meta (Call.publish_post token page_id req) = true
writes_at_meta (Call.reply_to_comment token id message) = true
writes_at_meta (Call.ig_reply_to_comment token id message) = true
writes_at_meta (Call.set_comment_hidden token id hidden instagram) = true
writes_at_meta (Call.delete_object token id) = true
writes_at_meta (Call.ig_publish token id req) = true
writes_at_meta _ = false

-- The log has these writing calls, among others.
abbrev pub Writes : List Call → List Call → Type 0
Writes ws cs = keep writes_at_meta cs ≡ ws

module _ {ws : List Call} where
  pub answering-Writes :
      {A : Type 0} (session : Session) (use_case : String → Action Error A)
      → ((t : String) → Keeps (OnCalls (Writes ws)) (use_case t))
      → Keeps (OnCalls (Writes ws)) (answering session use_case)
  unfolding answering
  answering-Writes session use_case each = search (keeps_rules, each)

  -- A request that only reads.
  pub request-reads :
      {A : Type 0} (f : ℕ → Call → Result Error A) (c : Call)
      → writes_at_meta c ≡ false
      → Keeps (OnCalls (Writes ws)) (request f c)
  unfolding keep
  request-reads f c e = Calls-request f c (λ cs h. rw e h)
