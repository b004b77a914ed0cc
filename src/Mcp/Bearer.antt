-- ===== src/Mcp/Bearer.antt =====
-- A tool is called on behalf of the tenant that the token names, or not at all.
use meta_mcp.Prelude.{◌≡◌, refl, ◌⊎◌, inl, inr, String, [], ◌==◌, All, some, arith, Bool-cases}
use meta_mcp.Domain.Errors.{Error}
use meta_mcp.Exec.{ok, err, ◌>>=◌, or_return}
use meta_mcp.Exec.Run.{Result-cases}
use meta_mcp.World.{Env, World, Action}
use meta_mcp.Auth.Server.{Codec, Options, Claims}
use meta_mcp.Auth.Jwt.{verify_access_token}
use meta_mcp.Auth.Verify.{IsGenuine, verify_access_token-IsGenuine}
use meta_mcp.App.Service.{Service}
use meta_mcp.App.Tools.{WriteTool, run_write}
use meta_mcp.App.Tools.Scope.{run_write-own_calls, IsOwnCall}
use meta_mcp.Mcp.Server.{Session, TokenInfo, answering, tenant_id, verifier, resolve}
use meta_mcp.Mcp.Reading.{
  tool_list_pages, tool_sync_pages, tool_page_insights, tool_page_insights_metadata,
  tool_page_posts, tool_page_post_comments, tool_page_ratings, tool_ig_account_insights,
  tool_ig_follower_demographics, tool_ig_media, tool_ig_media_comments, tool_reconnect_url,
  tool_connection_status, tool_page_post_insights, tool_ig_media_insights, tool_ig_stories,
  tool_page_scheduled_posts,
}
use meta_mcp.Mcp.Writing.{
  tool_page_publish_post, tool_page_reply_comment, tool_ig_publish, tool_ig_reply_comment,
  tool_page_moderate_comment, tool_ig_moderate_comment, tool_page_delete_post,
  tool_page_cancel_scheduled_post, answering_write,
}
use meta_mcp.Mcp.Tools
use meta_mcp.Mcp.Tools.{
  ToolCall, ReadCall, DetailCall, WriteCall, ModerationCall, Output, reading, detail, writes,
  moderates, json_result, run_tool, run_read, run_detail, run_write_call, run_moderation,
}

module _ {A : Type 0} (f : A → Output) (m : Action Error A) (w : World) where
  json_result-state : (json_result f m w).1 ≡ (m w).1
  unfolding ◌>>=◌
  json_result-state = ground arith

  json_result-stop : {e : Error} {w' : World} → m w ≡ (err e, w') → json_result f m w ≡ (err e, w')
  unfolding ◌>>=◌
  json_result-stop h = ground arith

answering-stop :
    {A : Type 0} (session : Session) (use_case : String → Action Error A) (w : World) {e : Error}
    → tenant_id session ≡ err e
    → answering session use_case w ≡ (err e, w)
unfolding answering ◌>>=◌
answering-stop session use_case w e = ground arith

answering-state :
    {A : Type 0} (info : TokenInfo) (use_case : String → Action Error A) (w : World)
    → ((answering (some info) use_case w).1 ≡ w)
      ⊎ ((answering (some info) use_case w).1 ≡ (use_case info.user_id w).1)
unfolding answering tenant_id or_return ◌>>=◌
answering-state info use_case w = elim (Bool-cases (info.user_id == "")) [
  | inl unnamed ↦ inl (ground arith)
  | inr named ↦ inr (ground arith)
]

module _ (s : Service) (env : Env) where
  run_read-stop :
      (session : Session) (x : ReadCall) (w : World) {e : Error}
      → tenant_id session ≡ err e
      → run_read s env session x w ≡ (err e, w)
  unfolding tool_list_pages tool_sync_pages tool_page_insights tool_page_insights_metadata
      tool_page_posts tool_page_post_comments tool_page_ratings tool_ig_account_insights
      tool_ig_follower_demographics tool_ig_media tool_ig_media_comments tool_reconnect_url
  run_read-stop session Tools.list_pages w e = json_result-stop _ _ w (answering-stop session _ w e)
  run_read-stop session Tools.sync_pages w e = json_result-stop _ _ w (answering-stop session _ w e)
  run_read-stop session (Tools.page_insights args) w e =
      json_result-stop _ _ w (answering-stop session _ w e)
  run_read-stop session (Tools.page_insights_metadata args) w e =
      json_result-stop _ _ w (answering-stop session _ w e)
  run_read-stop session (Tools.page_posts args) w e =
      json_result-stop _ _ w (answering-stop session _ w e)
  run_read-stop session (Tools.page_post_comments args) w e =
      json_result-stop _ _ w (answering-stop session _ w e)
  run_read-stop session (Tools.page_ratings args) w e =
      json_result-stop _ _ w (answering-stop session _ w e)
  run_read-stop session (Tools.ig_account_insights args) w e =
      json_result-stop _ _ w (answering-stop session _ w e)
  run_read-stop session (Tools.ig_follower_demographics args) w e =
      json_result-stop _ _ w (answering-stop session _ w e)
  run_read-stop session (Tools.ig_media args) w e =
      json_result-stop _ _ w (answering-stop session _ w e)
  run_read-stop session (Tools.ig_media_comments args) w e =
      json_result-stop _ _ w (answering-stop session _ w e)
  run_read-stop session Tools.reconnect_url w e =
      json_result-stop _ _ w (answering-stop session _ w e)

  run_detail-stop :
      (session : Session) (x : DetailCall) (w : World) {e : Error}
      → tenant_id session ≡ err e
      → run_detail s env session x w ≡ (err e, w)
  unfolding tool_connection_status tool_page_post_insights tool_ig_media_insights tool_ig_stories
      tool_page_scheduled_posts
  run_detail-stop session Tools.connection_status w e =
      json_result-stop _ _ w (answering-stop session _ w e)
  run_detail-stop session (Tools.page_post_insights args) w e =
      json_result-stop _ _ w (answering-stop session _ w e)
  run_detail-stop session (Tools.ig_media_insights args) w e =
      json_result-stop _ _ w (answering-stop session _ w e)
  run_detail-stop session (Tools.ig_stories args) w e =
      json_result-stop _ _ w (answering-stop session _ w e)
  run_detail-stop session (Tools.page_scheduled_posts args) w e =
      json_result-stop _ _ w (answering-stop session _ w e)

  run_write_call-stop :
      (session : Session) (x : WriteCall) (w : World) {e : Error}
      → tenant_id session ≡ err e
      → run_write_call s env session x w ≡ (err e, w)
  unfolding tool_page_publish_post tool_page_reply_comment tool_ig_publish tool_ig_reply_comment
  run_write_call-stop session (Tools.page_publish_post args) w e =
      json_result-stop _ _ w (answering-stop session _ w e)
  run_write_call-stop session (Tools.page_reply_comment args) w e =
      json_result-stop _ _ w (answering-stop session _ w e)
  run_write_call-stop session (Tools.ig_publish args) w e =
      json_result-stop _ _ w (answering-stop session _ w e)
  run_write_call-stop session (Tools.ig_reply_comment args) w e =
      json_result-stop _ _ w (answering-stop session _ w e)

  run_moderation-stop :
      (session : Session) (x : ModerationCall) (w : World) {e : Error}
      → tenant_id session ≡ err e
      → run_moderation s env session x w ≡ (err e, w)
  unfolding tool_page_moderate_comment tool_ig_moderate_comment tool_page_delete_post
      tool_page_cancel_scheduled_post
  run_moderation-stop session (Tools.page_moderate_comment args) w e =
      json_result-stop _ _ w (answering-stop session _ w e)
  run_moderation-stop session (Tools.ig_moderate_comment args) w e =
      json_result-stop _ _ w (answering-stop session _ w e)
  run_moderation-stop session (Tools.page_delete_post args) w e =
      json_result-stop _ _ w (answering-stop session _ w e)
  run_moderation-stop session (Tools.page_cancel_scheduled_post args) w e =
      json_result-stop _ _ w (answering-stop session _ w e)

  -- A tool that is called without a verified tenant answers with the error of the session, and does
  -- nothing: no statement, no call, no reading of the clock.
  pub run_tool-stop :
      (session : Session) (x : ToolCall) (w : World) {e : Error}
      → tenant_id session ≡ err e
      → run_tool s env session x w ≡ (err e, w)
  run_tool-stop session (reading x) w e = run_read-stop session x w e
  run_tool-stop session (detail x) w e = run_detail-stop session x w e
  run_tool-stop session (writes x) w e = run_write_call-stop session x w e
  run_tool-stop session (moderates x) w e = run_moderation-stop session x w e

  -- The run left the database as it was, and its calls are for pages of this tenant.
  pub record IsScoped (t : String) (before after : World) : Type 0 where
    pub same_db : after.db ≡ before.db
    pub own : All (IsOwnCall env t before.db) after.calls

  answering_write-IsScoped :
      (info : TokenInfo) (x : WriteTool) (w : World)
      → w.calls ≡ []
      → IsScoped info.user_id w (answering_write s env (some info) x w).1
  answering_write-IsScoped info x w e = elim (answering_state info x w) [
    | inl same ↦ record { same_db = rw same refl; own = rw (same, e) tt }
    | inr ran ↦
        let (same, own) = run_write-own_calls s env info.user_id x w e in
        record { same_db = rw ran same; own = rw ran own }
  ]
    where
      answering_state :
          (info : TokenInfo) (x : WriteTool) (w : World)
          → ((answering_write s env (some info) x w).1 ≡ w)
            ⊎ ((answering_write s env (some info) x w).1 ≡ (run_write s env info.user_id x w).1)
      answering_state info x w = answering-state info _ w

  run_write_call-IsScoped :
      (info : TokenInfo) (x : WriteCall) (w : World)
      → w.calls ≡ []
      → IsScoped info.user_id w (run_write_call s env (some info) x w).1
  unfolding tool_page_publish_post tool_page_reply_comment tool_ig_publish tool_ig_reply_comment
  run_write_call-IsScoped info (Tools.page_publish_post args) w e =
      rw (json_result-state Tools.written (answering_write s env (some info) _) w)
        (answering_write-IsScoped info _ w e)
  run_write_call-IsScoped info (Tools.page_reply_comment args) w e =
      rw (json_result-state Tools.written (answering_write s env (some info) _) w)
        (answering_write-IsScoped info _ w e)
  run_write_call-IsScoped info (Tools.ig_publish args) w e =
      rw (json_result-state Tools.written (answering_write s env (some info) _) w)
        (answering_write-IsScoped info _ w e)
  run_write_call-IsScoped info (Tools.ig_reply_comment args) w e =
      rw (json_result-state Tools.written (answering_write s env (some info) _) w)
        (answering_write-IsScoped info _ w e)

  run_moderation-IsScoped :
      (info : TokenInfo) (x : ModerationCall) (w : World)
      → w.calls ≡ []
      → IsScoped info.user_id w (run_moderation s env (some info) x w).1
  unfolding tool_page_moderate_comment tool_ig_moderate_comment tool_page_delete_post
      tool_page_cancel_scheduled_post
  run_moderation-IsScoped info (Tools.page_moderate_comment args) w e =
      rw (json_result-state Tools.written (answering_write s env (some info) _) w)
        (answering_write-IsScoped info _ w e)
  run_moderation-IsScoped info (Tools.ig_moderate_comment args) w e =
      rw (json_result-state Tools.written (answering_write s env (some info) _) w)
        (answering_write-IsScoped info _ w e)
  run_moderation-IsScoped info (Tools.page_delete_post args) w e =
      rw (json_result-state Tools.written (answering_write s env (some info) _) w)
        (answering_write-IsScoped info _ w e)
  run_moderation-IsScoped info (Tools.page_cancel_scheduled_post args) w e =
      rw (json_result-state Tools.written (answering_write s env (some info) _) w)
        (answering_write-IsScoped info _ w e)

-- A call of a tool that is not annotated as reading.
abbrev pub write_call : WriteCall ⊎ ModerationCall → ToolCall
write_call (inl x) = writes x
write_call (inr x) = moderates x

module _ (codec : Codec) (opts : Options) (s : Service) (env : Env) where
  -- The claims behind the session that the verifier returns.
  verifier-claims :
      (token : String) (w : World) {info : TokenInfo}
      → (verifier codec opts env token w).0 ≡ ok info
      → (claims : Claims) × ((verify_access_token codec opts env token w).0 ≡ ok claims)
        × (claims.subject ≡ info.user_id)
  unfolding verifier resolve or_return ◌>>=◌
  verifier-claims token w {info} h =
      elim (Result-cases (verify_access_token codec opts env token w).0) [
        | inl (e, bad) ↦ absurd (ground arith)
        | inr (claims, good) ↦ (claims, good, ground arith)
      ]

  -- A publishing or replying tool, or one that moderates, called with the session of a bearer token
  -- that the verifier accepts, acts for the tenant that the token names: the token is genuine, and,
  -- from an empty log, the tool leaves the database as it is and calls Meta only with tokens of pages
  -- that the database stores for the subject of the token.
  pub run_tool-IsScoped :
      (token : String) (before w : World) {info : TokenInfo} (x : WriteCall ⊎ ModerationCall)
      → (verifier codec opts env token before).0 ≡ ok info
      → w.calls ≡ []
      → (claims : Claims) × IsGenuine codec opts env (env.now before.step) token claims
        × IsScoped s env claims.subject w (run_tool s env (some info) (write_call x) w).1
  run_tool-IsScoped token before w {info} x accepted e =
      let (claims, verified, same) = verifier-claims token before accepted in
      (
        claims,
        verify_access_token-IsGenuine codec opts env token before verified,
        rw same (scoped x),
      )
    where
      scoped :
          (x : WriteCall ⊎ ModerationCall)
          → IsScoped s env info.user_id w (run_tool s env (some info) (write_call x) w).1
      scoped (inl x) = run_write_call-IsScoped s env info x w e
      scoped (inr x) = run_moderation-IsScoped s env info x w e
