-- ===== src/World.antt =====
-- What the code runs in: the database, the log of the calls to Meta, and an environment that answers
-- each interaction. Every reading of the clock or of the random source, every SQL statement and every
-- call to Meta takes one step, and the environment's answer may differ at each step.
pub mod Keeps
pub mod Yields
use meta_mcp.Prelude.{ℕ, suc, String, List, [], ◌∷◌, Bool, Option, none, some}
use meta_mcp.Domain.Time.{Time}
use meta_mcp.Domain.Errors.{Error, wrap}
use meta_mcp.Domain.Entities.{
  MetaUser, Page, LongLivedToken, TokenStatus, PublishPostRequest, IgPublishRequest,
}
use meta_mcp.Domain.Metrics.{
  InsightSet, Post, Comment, ScheduledPost, PageRatings, Media, Breakdown,
}
use meta_mcp.Crypto.{Bytes, Aead}
use meta_mcp.Exec.{Result, ok, err, Exec}
use meta_mcp.Store.Db.{Db, empty_db}

-- A call of `domain.GraphClient`, with its arguments.
pub data Call : Type 0 where
  exchange_code : (code redirect_uri : String) → Call
  exchange_long_lived_token : (token : String) → Call
  me accounts debug_token : (token : String) → Call
  page_insights ig_account_insights :
      (page_token id : String) (metrics : List String) (since until : Time) → Call
  page_posts ig_media : (page_token id : String) (since : Time) (limit : ℕ) → Call
  post_comments scheduled_posts page_ratings ig_media_comments :
      (page_token id : String) (limit : ℕ) → Call
  post_insights ig_media_insights : (page_token id : String) (metrics : List String) → Call
  ig_follower_demographics : (page_token id breakdown : String) → Call
  ig_stories : (page_token id : String) → Call
  publish_post : (page_token page_id : String) (req : PublishPostRequest) → Call
  reply_to_comment ig_reply_to_comment : (page_token comment_id message : String) → Call
  set_comment_hidden : (page_token comment_id : String) (hidden instagram : Bool) → Call
  delete_object : (page_token object_id : String) → Call
  ig_publish : (page_token ig_user_id : String) (req : IgPublishRequest) → Call

-- The port `domain.GraphClient`: what each call answers, at a step and for its arguments.
pub record GraphClient : Type 0 where
  pub exchange_code : ℕ → Call → Result Error String
  pub exchange_long_lived_token : ℕ → Call → Result Error LongLivedToken
  pub me : ℕ → Call → Result Error MetaUser
  pub accounts : ℕ → Call → Result Error (List Page)
  pub debug_token : ℕ → Call → Result Error TokenStatus
  pub insights : ℕ → Call → Result Error InsightSet
  pub posts : ℕ → Call → Result Error (List Post)
  pub comments : ℕ → Call → Result Error (List Comment)
  pub scheduled_posts : ℕ → Call → Result Error (List ScheduledPost)
  pub ratings : ℕ → Call → Result Error PageRatings
  pub demographics : ℕ → Call → Result Error (List Breakdown)
  pub media : ℕ → Call → Result Error (List Media)
  -- the calls that answer with the id of a new object, and those that answer with nothing
  pub created_id : ℕ → Call → Result Error String
  pub done : ℕ → Call → Result Error (Unit {0})

pub record Env : Type 0 where
  -- `domain.Clock`
  pub now : ℕ → Time
  -- 32 random bytes in base64url, and a random UUID
  pub secret : ℕ → Result Error String
  pub uuid : ℕ → String
  pub nonce : ℕ → Result Error Bytes
  -- `some e` where the statement, or the begin or commit, of this step fails with `e`
  pub fault : ℕ → Option Error
  -- `ctx.Err()`
  pub cancelled : ℕ → Option Error
  pub aead : Aead
  pub meta : GraphClient

pub record World : Type 0 where
  pub db : Db
  pub calls : List Call
  pub step : ℕ

abbrev pub fresh : World
fresh = record { db = empty_db; calls = []; step = 0 }

abbrev pub Action : Type 0 → Type 0 → Type 0
Action E A = Exec World E A

abbrev pub tick : World → World
tick w = record w { step = suc w.step }

-- What the environment answers at this step.
unfoldable pub ask : {E A : Type 0} → (ℕ → Result E A) → Action E A
ask f w = (f w.step, tick w)

abbrev pub reading : {E A : Type 0} → (ℕ → A) → ℕ → Result E A
reading f n = ok (f n)

unfoldable pub request : {A : Type 0} → (ℕ → Call → Result Error A) → Call → Action Error A
request f c w = (f w.step c, record w { calls = c ∷ w.calls; step = suc w.step })

-- A statement either fails and leaves the database as it is, or gives a value and a new database.
abbrev pub Statement : Type 0 → Type 0
Statement A = Db → Result Error (A × Db)

unfoldable pub applied :
    {A : Type 0} → Option Error → Result Error (A × Db) → World → Result Error A × World
applied (some e) r w = (err e, tick w)
applied none (err e) w = (err e, tick w)
applied none (ok (a, d)) w = (ok a, record w { db = d; step = suc w.step })

module _ (env : Env) where
  unfoldable pub sql : {A : Type 0} → Statement A → Action Error A
  unfolding applied
  sql f w = applied (env.fault w.step) (f w.db) w

  -- `BeginTx`, the statements, `Commit`; `defer tx.Rollback()` restores the database on an error.
  unfoldable pub ended :
      {A : Type 0} → String → Db → Result Error A × World → Result Error A × World
  ended commit before (err e, w) = (err e, record w { db = before })
  ended commit before (ok a, w) = elim (env.fault w.step) [
    | none ↦ (ok a, tick w)
    | some e ↦ (err (wrap commit e), record w { db = before; step = suc w.step })
  ]

  unfoldable pub transaction : {A : Type 0} → String → String → Action Error A → Action Error A
  unfolding ended
  transaction begin commit m w = elim (env.fault w.step) [
    | some e ↦ (err (wrap begin e), tick w)
    | none ↦ ended commit w.db (m (tick w))
  ]
