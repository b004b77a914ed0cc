-- ===== src/Mcp/Resources.antt =====
-- internal/adapters/mcpserver/resources.go: the two resources, read for the tenant of the session.
use meta_mcp.Prelude.{String, List, none, some, ◌==◌, if◌then◌else◌}
use meta_mcp.Domain.Errors.{Error}
use meta_mcp.Exec.{Result, ok, err, pure, lift, ◌>>=◌, or_return}
use meta_mcp.World.{Env, Action}
use meta_mcp.App.Service.{Service, PageView}
use meta_mcp.App.Read
use meta_mcp.App.Status.{ConnectionStatus, connection_status}
use meta_mcp.Mcp.Server.{Session, session_unauthenticated, tool_error}

abbrev pub uri_pages : String
uri_pages = "metasocial://pages"

abbrev pub uri_connection : String
uri_connection = "metasocial://connection"

unfoldable pub resource_tenant_id : Session → Result Error String
resource_tenant_id none = err session_unauthenticated
resource_tenant_id (some info) =
    if info.user_id == "" then err session_unauthenticated else ok info.user_id

-- A resource: its address, and the value that is written out as JSON.
pub record Contents (A : Type 0) : Type 0 where
  pub uri : String
  pub value : A

module _ (s : Service) (env : Env) (session : Session) where
  unfoldable pub read_pages : Action Error (Contents (List PageView))
  read_pages = do
    tenant ← lift (resource_tenant_id session)
    pages ← or_return (Read.list_pages_tool s env tenant) tool_error
    pure (record { uri = uri_pages; value = pages })

  unfoldable pub read_connection : Action Error (Contents ConnectionStatus)
  read_connection = do
    tenant ← lift (resource_tenant_id session)
    status ← or_return (connection_status s env tenant) tool_error
    pure (record { uri = uri_connection; value = status })
