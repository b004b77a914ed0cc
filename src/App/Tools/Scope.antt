-- ===== src/App/Tools/Scope.antt =====
-- Every call that a tool makes to Meta carries the token of a page of the calling tenant, and the
-- writing tools leave the database as it is.
use meta_mcp.Prelude.{
  ◌==◌, ℕ, ◌≡◌, refl, Bool, true, false, not, String, List, [], Option, none, some, All,
  if◌then◌else◌,
}
use meta_mcp.Domain.Errors.{Error}
use meta_mcp.Domain.Entities.{PublishPostRequest, Page}
use meta_mcp.Exec.{pure, Result, ◌>>=◌, stop_if}
use meta_mcp.Exec.Yields.{
  OnOk-any, Yields, Yields-pure, Yields-raise, Yields-lift, Yields-if, Yields-stop_if, Yields-bind,
  Yields-weaken,
}
use meta_mcp.World.{Env, World, Action, Call, request}
use meta_mcp.World.Yields.{Reads, Yields-ask, Yields-request}
use meta_mcp.Store.Db.{Db}
use meta_mcp.App.Service.{Service}
use meta_mcp.App.Service.Owned.{
  IsOwn, Own, IsOwnIg, page-Own, ig_page-Own, owner_page-Own, owner_ig_page-Own,
}
use meta_mcp.App.Publish.{
  PublishPostInput, publish_post, build_publish_request, schedule_request, stop_with,
}
use meta_mcp.App.IgPublish.{IgPublishInput, ig_publish}
use meta_mcp.App.Comments.{
  ReplyCommentInput, ModerateCommentInput, moderation_call, reply_to_comment, ig_reply_to_comment,
  moderate, moderate_comment, ig_moderate_comment,
}
use meta_mcp.App.Removal.{RemovalInput, page_delete_post, page_cancel_scheduled_post}
use meta_mcp.App.Tools.{
  WriteTool, page_publish_post, ig_publish_tool, page_reply_comment, ig_reply_comment,
  page_moderate_comment, ig_moderate_comment_tool, delete_post, cancel_scheduled_post, run_write,
}

-- The call is made for the page `p`: with its token, and on its own id where it names a page.
abbrev pub OnPage : Page → Call → Type 0
OnPage p (Call.publish_post token page_id req) = (token ≡ p.page_token) × (page_id ≡ p.page_id)
OnPage p (Call.ig_publish token ig_id req) = (token ≡ p.page_token) × (ig_id ≡ p.ig_user_id)
OnPage p (Call.reply_to_comment token id message) = token ≡ p.page_token
OnPage p (Call.ig_reply_to_comment token id message) = token ≡ p.page_token
OnPage p (Call.set_comment_hidden token id hidden instagram) = token ≡ p.page_token
OnPage p (Call.delete_object token id) = token ≡ p.page_token
OnPage p (Call.page_insights token id metrics since until) =
    (token ≡ p.page_token) × (id ≡ p.page_id)
OnPage p (Call.ig_account_insights token id metrics since until) =
    (token ≡ p.page_token) × (id ≡ p.ig_user_id)
OnPage p (Call.page_posts token id since limit) = (token ≡ p.page_token) × (id ≡ p.page_id)
OnPage p (Call.ig_media token id since limit) = (token ≡ p.page_token) × (id ≡ p.ig_user_id)
OnPage p (Call.scheduled_posts token id limit) = (token ≡ p.page_token) × (id ≡ p.page_id)
OnPage p (Call.page_ratings token id limit) = (token ≡ p.page_token) × (id ≡ p.page_id)
OnPage p (Call.post_comments token id limit) = token ≡ p.page_token
OnPage p (Call.ig_media_comments token id limit) = token ≡ p.page_token
OnPage p (Call.post_insights token id metrics) = token ≡ p.page_token
OnPage p (Call.ig_media_insights token id metrics) = token ≡ p.page_token
OnPage p (Call.ig_stories token id) = (token ≡ p.page_token) × (id ≡ p.ig_user_id)
OnPage p (Call.ig_follower_demographics token id breakdown) =
    (token ≡ p.page_token) × (id ≡ p.ig_user_id)
OnPage p (Call.exchange_code code uri) = ⊥
OnPage p (Call.exchange_long_lived_token token) = ⊥
OnPage p (Call.me token) = ⊥
OnPage p (Call.accounts token) = ⊥
OnPage p (Call.debug_token token) = ⊥

-- A call for one of the pages that `db` stores for the tenant `t`.
abbrev pub IsOwnCall : Env → String → Db → Call → Type 0
IsOwnCall env t db c = (p : Page) × IsOwn env t db p × OnPage p c

module _ (s : Service) (env : Env) (t : String) (db : Db) where
  abbrev OwnLog : List Call → Type 0
  OwnLog cs = All (IsOwnCall env t db) cs

  abbrev I : World → Type 0
  I = Reads db OwnLog

  abbrev Any : {A : Type 0} → A → Type 0
  Any _ = Unit {0}

  own_request :
      {A : Type 0} (f : ℕ → Call → Result Error A) (c : Call) (p : Page)
      → IsOwn env t db p
      → OnPage p c
      → Yields I Any (request f c)
  own_request f c p own on = Yields-request db OwnLog f c (λ cs h. ((p, own, on), h))

  -- A preview, or one call and an answer built from its result.
  gated :
      {A B : Type 0} (confirm : Bool) (preview : B) (f : ℕ → Call → Result Error A) (c : Call)
      (k : A → B) (p : Page)
      → IsOwn env t db p
      → OnPage p c
      → Yields I Any (if not confirm then pure preview else (request f c >>= λ a. pure (k a)))
  gated confirm preview f c k p own on =
      Yields-if I Any (not confirm) _ _ (λ _. Yields-pure I Any preview tt)
        (λ _.
          Yields-bind I Any Any _ _ (own_request f c p own on) (λ a _. Yields-pure I Any (k a) tt))

  stop_with-Yields : (o : Option Error) → Yields I Any (stop_with o)
  stop_with-Yields none = Yields-pure I Any tt tt
  stop_with-Yields (some e) = Yields-raise I Any e

  stopped : (b : Bool) (e : Error) → Yields I Any (stop_if b e)
  stopped b e = Yields-weaken I (λ _. b ≡ false) Any _ (Yields-stop_if I b e) (λ _ _. tt)

  schedule_request-Yields :
      (req : PublishPostRequest) (at : String) → Yields I Any (schedule_request s env req at)
  unfolding schedule_request
  schedule_request-Yields req at =
      Yields-if I Any (at == "") _ _ (λ _. Yields-pure I Any req tt)
        (λ _. Yields-bind I Any Any _ _ (Yields-ask db OwnLog Any _ (λ n. tt)) (λ now _.
          Yields-bind I Any Any _ _ (Yields-lift I Any _ (OnOk-any _))
            (λ when _. Yields-pure I Any _ tt)))

  build_publish_request-Yields :
      (i : PublishPostInput) → Yields I Any (build_publish_request s env i)
  unfolding build_publish_request
  build_publish_request-Yields i = Yields-bind I Any Any _ _ (stopped _ _) (λ _ _.
      Yields-bind I Any Any _ _ (stopped _ _) (λ _ _.
        Yields-bind I Any Any _ _ (stop_with-Yields _) (λ _ _.
          Yields-bind I Any Any _ _ (stop_with-Yields _) (λ _ _. schedule_request-Yields _ _))))

  publish_post-Yields : (i : PublishPostInput) → Yields I Any (publish_post s env t i)
  unfolding publish_post
  publish_post-Yields i =
      Yields-bind I (Own env t db OwnLog) Any _ _ (page-Own env t db OwnLog i.page_id) (λ p own.
        Yields-bind I Any Any _ _ (build_publish_request-Yields i)
          (λ req _. gated i.confirm _ _ _ _ p own (refl, refl)))

  ig_publish-Yields : (i : IgPublishInput) → Yields I Any (ig_publish s env t i)
  unfolding ig_publish
  ig_publish-Yields i =
      Yields-bind I (IsOwnIg env t db OwnLog) Any _ _ (ig_page-Own env t db OwnLog i.page_id)
        (λ p own.
          Yields-bind I Any Any _ _ (Yields-lift I Any _ (OnOk-any _))
            (λ req _. gated i.confirm _ _ _ _ p own.0 (refl, refl)))

  reply-Yields : (i : ReplyCommentInput) → Yields I Any (reply_to_comment env t i)
  unfolding reply_to_comment
  reply-Yields i = Yields-bind I Any Any _ _ (stopped _ _) (λ _ _.
      Yields-bind I (Own env t db OwnLog) Any _ _
        (owner_page-Own env t db OwnLog i.page_id i.comment_id)
        (λ p own. gated i.confirm _ _ _ _ p own refl))

  ig_reply-Yields : (i : ReplyCommentInput) → Yields I Any (ig_reply_to_comment env t i)
  unfolding ig_reply_to_comment
  ig_reply-Yields i = Yields-bind I Any Any _ _ (stopped _ _) (λ _ _.
      Yields-bind I (IsOwnIg env t db OwnLog) Any _ _
        (owner_ig_page-Own env t db OwnLog i.page_id i.comment_id)
        (λ p own. gated i.confirm _ _ _ _ p own.0 refl))

  moderation_call-Yields :
      (p : Page) (comment_id action : String) (instagram : Bool)
      → IsOwn env t db p
      → Yields I Any (moderation_call env p comment_id action instagram)
  unfolding moderation_call
  moderation_call-Yields p comment_id action instagram own =
      Yields-if I Any (action == "delete") _ _ (λ _. own_request _ _ p own refl)
        (λ _. own_request _ _ p own refl)

  moderate-Yields :
      (p : Page) (i : ModerateCommentInput) (instagram : Bool)
      → IsOwn env t db p
      → Yields I Any (moderate env p i instagram)
  unfolding moderate
  moderate-Yields p i instagram own = Yields-bind I Any Any _ _ (stopped _ _) (λ _ _.
      Yields-bind I Any Any _ _ (stopped _ _) (λ _ _.
        Yields-if I Any (not i.confirm) _ _ (λ _. Yields-pure I Any _ tt)
          (λ _.
            Yields-bind I Any Any _ _ (moderation_call-Yields p _ _ instagram own)
              (λ _ _. Yields-pure I Any _ tt))))

  moderate_comment-Yields : (i : ModerateCommentInput) → Yields I Any (moderate_comment env t i)
  unfolding moderate_comment
  moderate_comment-Yields i =
      Yields-bind I (Own env t db OwnLog) Any _ _
        (owner_page-Own env t db OwnLog i.page_id i.comment_id)
        (λ p own. moderate-Yields p i false own)

  ig_moderate_comment-Yields :
      (i : ModerateCommentInput) → Yields I Any (ig_moderate_comment env t i)
  unfolding ig_moderate_comment
  ig_moderate_comment-Yields i =
      Yields-bind I (IsOwnIg env t db OwnLog) Any _ _
        (owner_ig_page-Own env t db OwnLog i.page_id i.comment_id)
        (λ p own. moderate-Yields p i true own.0)

  delete_post-Yields : (i : RemovalInput) → Yields I Any (page_delete_post env t i)
  unfolding page_delete_post
  delete_post-Yields i = Yields-bind I Any Any _ _ (stopped _ _) (λ _ _.
      Yields-bind I (Own env t db OwnLog) Any _ _
        (owner_page-Own env t db OwnLog i.page_id i.post_id)
        (λ p own. gated i.confirm _ _ _ _ p own refl))

  cancel-Yields : (i : RemovalInput) → Yields I Any (page_cancel_scheduled_post env t i)
  unfolding page_cancel_scheduled_post
  cancel-Yields i = Yields-bind I Any Any _ _ (stopped _ _) (λ _ _.
      Yields-bind I (Own env t db OwnLog) Any _ _
        (owner_page-Own env t db OwnLog i.page_id i.post_id)
        (λ p own. gated i.confirm _ _ _ _ p own refl))

  done :
      {A B : Type 0} (k : A → B) (m : Action Error A)
      → Yields I Any m
      → Yields I Any (m >>= λ a. pure (k a))
  done k m y = Yields-bind I Any Any _ _ y (λ a _. Yields-pure I Any (k a) tt)

  run_write-Yields : (x : WriteTool) → Yields I Any (run_write s env t x)
  unfolding run_write
  run_write-Yields (page_publish_post i) = done _ _ (publish_post-Yields i)
  run_write-Yields (ig_publish_tool i) = done _ _ (ig_publish-Yields i)
  run_write-Yields (page_reply_comment i) = done _ _ (reply-Yields i)
  run_write-Yields (ig_reply_comment i) = done _ _ (ig_reply-Yields i)
  run_write-Yields (page_moderate_comment i) = done _ _ (moderate_comment-Yields i)
  run_write-Yields (ig_moderate_comment_tool i) = done _ _ (ig_moderate_comment-Yields i)
  run_write-Yields (delete_post i) = done _ _ (delete_post-Yields i)
  run_write-Yields (cancel_scheduled_post i) = done _ _ (cancel-Yields i)

-- For any tenant, input and environment, a writing tool that starts with an empty log leaves the
-- database as it is, and each call that it made carries the token of a page that the database stores
-- for that tenant, and that page's id or Instagram id where the call names one.
pub run_write-own_calls :
    (s : Service) (env : Env) (t : String) (x : WriteTool) (w : World)
    → w.calls ≡ []
    → ((run_write s env t x w).1.db ≡ w.db)
      × All (IsOwnCall env t w.db) (run_write s env t x w).1.calls
run_write-own_calls s env t x w e =
    let (kept, _) =
      (run_write-Yields s env t w.db x).at w (record { same_db = refl; log = rw e tt }) in
    (kept.same_db, kept.log)
