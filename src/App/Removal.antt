-- ===== src/App/Removal.antt =====
-- internal/app: page_delete_post.go and page_cancel_scheduled_post.go.
use Prim.Native.String
use meta_mcp.Prelude.{Bool, true, false, not, String, is_blank, if◌then◌else◌}
use meta_mcp.Domain.Errors.{Error, text}
use meta_mcp.Domain.Entities.{Page}
use meta_mcp.Exec.{pure, stop_if, ◌>>=◌, ◌>>◌}
use meta_mcp.World.{Env, Action, Call, request}
use meta_mcp.App.Service.{owner_page}
use meta_mcp.App.Publish.{preview_notice}

pub record RemovalInput : Type 0 where
  pub post_id : String
  pub page_id : String
  pub confirm : Bool

-- `removed` is `Deleted` of one tool and `Canceled` of the other.
pub record RemovalOutput : Type 0 where
  pub preview : Bool
  pub removed : Bool
  pub post_id : String
  pub page_id : String
  pub page_name : String
  pub notice : String

abbrev pub delete_notice : String
delete_notice =
    String.◌++◌ preview_notice
      " La suppression est définitive : la publication, ses réactions et ses commentaires disparaissent."

abbrev pub cancel_notice : String
cancel_notice =
    String.◌++◌ preview_notice
      " L'annulation est définitive : la publication programmée sera supprimée, pas mise en pause."

removal_output : RemovalInput → Page → RemovalOutput
removal_output i p = record {
  preview = false;
  removed = false;
  post_id = i.post_id;
  page_id = p.page_id;
  page_name = p.name;
  notice = "";
}

module _ (env : Env) where
  unfoldable pub page_delete_post : String → RemovalInput → Action Error RemovalOutput
  unfolding removal_output
  page_delete_post tenant_id i = do
    stop_if (is_blank i.post_id) (text "post_id est obligatoire")
    p ← owner_page env tenant_id i.page_id i.post_id
    let out = removal_output i p
    if not i.confirm then pure (record out { preview = true; notice = delete_notice }) else do
      request env.meta.done (Call.delete_object p.page_token i.post_id)
      pure (record out { removed = true })

  unfoldable pub page_cancel_scheduled_post : String → RemovalInput → Action Error RemovalOutput
  unfolding removal_output
  page_cancel_scheduled_post tenant_id i = do
    stop_if (is_blank i.post_id) (text "post_id est obligatoire")
    p ← owner_page env tenant_id i.page_id i.post_id
    let out = removal_output i p
    if not i.confirm then pure (record out { preview = true; notice = cancel_notice }) else do
      request env.meta.done (Call.delete_object p.page_token i.post_id)
      pure (record out { removed = true })
