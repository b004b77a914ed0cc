-- ===== src/Mcp/Tools.antt =====
-- The registration of the tools, in tools_read.go, tools_insights.go and tools_write.go of
-- internal/adapters/mcpserver, and the call of a registered tool.
use Prim.Native.String
use meta_mcp.Prelude.{Bool, false, String, List}
use meta_mcp.Domain.Errors.{Error}
use meta_mcp.Domain.Metrics.{
  InsightSet, Post, Comment, ScheduledPost, PageRatings, Media, Breakdown,
}
use meta_mcp.Exec.{pure, ◌>>=◌}
use meta_mcp.World.{Env, Action}
use meta_mcp.App.Service.{Service, PageView}
use meta_mcp.App.Status.{ConnectionStatus}
use meta_mcp.App.Metadata.{InsightMeta}
use meta_mcp.App.Tools.{WriteOutput}
use meta_mcp.Mcp.Server.{Session, Tool, read_only, writing, moderating}
use meta_mcp.Mcp.Reading.{
  IgDemographicsArgs, IgInsightsArgs, IgMediaArgs, IgMediaCommentsArgs, MediaInsightsArgs, PageArgs,
  PageInsightsArgs, PagePostCommentsArgs, PagePostsArgs, PageRatingsArgs, PostInsightsArgs,
  ScheduledPostsArgs, tool_list_pages, tool_sync_pages, tool_page_insights,
  tool_page_insights_metadata, tool_page_posts, tool_page_post_comments, tool_page_ratings,
  tool_ig_account_insights, tool_ig_follower_demographics, tool_ig_media, tool_ig_media_comments,
  tool_reconnect_url, tool_connection_status, tool_page_post_insights, tool_ig_media_insights,
  tool_ig_stories, tool_page_scheduled_posts,
}
use meta_mcp.Mcp.Writing.{
  CancelScheduledPostArgs, DeletePostArgs, IgPublishArgs, ModerateCommentArgs, PublishPostArgs,
  ReplyCommentArgs, tool_page_publish_post, tool_page_reply_comment, tool_ig_publish,
  tool_ig_reply_comment, tool_page_moderate_comment, tool_ig_moderate_comment,
  tool_page_delete_post, tool_page_cancel_scheduled_post,
}

infixr 65 ◌^^◌
abbrev ◌^^◌ : String → String → String
a ^^ b = String.◌++◌ a b

abbrev pub confirm_doc : String
confirm_doc =
    " ÉCRITURE : sans confirm=true, l'outil renvoie seulement un aperçu et n'écrit rien chez Meta. Montrez l'aperçu à l'utilisateur, obtenez son accord explicite, puis rappelez l'outil avec confirm=true."

-- The value that a tool writes out as JSON.
pub data Output : Type 0 where
  pages : List PageView → Output
  insights : InsightSet → Output
  metrics : List InsightMeta → Output
  posts : List Post → Output
  comments : List Comment → Output
  ratings : PageRatings → Output
  breakdowns : List Breakdown → Output
  media : List Media → Output
  scheduled : List ScheduledPost → Output
  status : ConnectionStatus → Output
  link : String → Output
  written : WriteOutput → Output

-- `registerReadTools`
pub data ReadCall : Type 0 where
  list_pages : ReadCall
  sync_pages : ReadCall
  page_insights : PageInsightsArgs → ReadCall
  page_insights_metadata : PageArgs → ReadCall
  page_posts : PagePostsArgs → ReadCall
  page_post_comments : PagePostCommentsArgs → ReadCall
  page_ratings : PageRatingsArgs → ReadCall
  ig_account_insights : IgInsightsArgs → ReadCall
  ig_follower_demographics : IgDemographicsArgs → ReadCall
  ig_media : IgMediaArgs → ReadCall
  ig_media_comments : IgMediaCommentsArgs → ReadCall
  reconnect_url : ReadCall

unfoldable pub read_tool : ReadCall → Tool
read_tool list_pages = record {
  name = "list_pages";
  title = "Lister les pages";
  description =
      "Liste les Pages Facebook du compte connecté, avec le compte Instagram professionnel lié quand il y en a un. Lecture locale, sans appel à Meta. À appeler en premier : les autres outils ont besoin de page_id.";
  annotations = read_only;
}
read_tool sync_pages = record {
  name = "sync_pages";
  title = "Resynchroniser les pages";
  description =
      "Relit la liste des pages depuis Meta et remplace celle stockée. À utiliser après la création d'une page, la liaison d'un compte Instagram, ou un changement de rôle.";
  annotations = read_only;
}
read_tool (page_insights args) = record {
  name = "page_insights";
  title = "Statistiques d'une page";
  description =
      "Statistiques organiques quotidiennes d'une Page Facebook sur une période. Par défaut : engagements, nouveaux abonnés, abonnés et vues de la page sur les 28 derniers jours. Les métriques que Meta refuse sont listées dans le champ rejected au lieu de faire échouer l'appel.";
  annotations = read_only;
}
read_tool (page_insights_metadata args) = record {
  name = "page_insights_metadata";
  title = "Métriques disponibles";
  description =
      "Catalogue des métriques que ce serveur sait demander, avec leur période et leur surface (page ou instagram). C'est une liste de départ maintenue dans le code, pas une capacité lue chez Meta : seul page_insights dit vraiment ce qui passe, via son champ rejected.";
  annotations = read_only;
}
read_tool (page_posts args) = record {
  name = "page_posts";
  title = "Publications d'une page";
  description =
      "Publications récentes d'une Page Facebook avec leurs impressions uniques, clics et réactions.";
  annotations = read_only;
}
read_tool (page_post_comments args) = record {
  name = "page_post_comments";
  title = "Commentaires d'une publication";
  description = "Commentaires laissés sur une publication de Page Facebook.";
  annotations = read_only;
}
read_tool (page_ratings args) = record {
  name = "page_ratings";
  title = "Avis d'une page";
  description =
      "Note moyenne (1 à 5), nombre d'avis publics et derniers avis d'une Page Facebook : recommandation positive ou négative, texte, date. Les avis Facebook récents n'ont pas d'étoiles, seulement un sens (positive/negative) ; rating_count ne compte que les avis publics et peut valoir 0 alors que des avis sont listés. Si Meta retire la liste, le champ recommendations_unavailable l'explique et la note reste lisible.";
  annotations = read_only;
}
read_tool (ig_account_insights args) = record {
  name = "ig_account_insights";
  title = "Statistiques Instagram";
  description =
      "Statistiques du compte Instagram professionnel lié à une page : couverture, vues, visites de profil, comptes engagés, interactions et abonnés. Les métriques que Meta refuse sont listées dans le champ rejected au lieu de faire échouer l'appel.";
  annotations = read_only;
}
read_tool (ig_follower_demographics args) = record {
  name = "ig_follower_demographics";
  title = "Démographie des abonnés";
  description =
      "Répartition des abonnés Instagram selon une dimension : city, country, age ou gender.";
  annotations = read_only;
}
read_tool (ig_media args) = record {
  name = "ig_media";
  title = "Publications Instagram";
  description =
      "Publications Instagram récentes avec leurs statistiques : couverture, vues, enregistrements, partages et interactions.";
  annotations = read_only;
}
read_tool (ig_media_comments args) = record {
  name = "ig_media_comments";
  title = "Commentaires Instagram";
  description = "Commentaires laissés sur une publication Instagram.";
  annotations = read_only;
}
read_tool reconnect_url = record {
  name = "reconnect_url";
  title = "Lien de reconnexion";
  description =
      "Adresse à ouvrir pour réautoriser l'accès à Facebook quand un outil répond « autorisation expirée ».";
  annotations = read_only;
}

-- `registerDetailTools`
pub data DetailCall : Type 0 where
  connection_status : DetailCall
  page_post_insights : PostInsightsArgs → DetailCall
  ig_media_insights : MediaInsightsArgs → DetailCall
  ig_stories : PageArgs → DetailCall
  page_scheduled_posts : ScheduledPostsArgs → DetailCall

unfoldable pub detail_tool : DetailCall → Tool
detail_tool connection_status = record {
  name = "connection_status";
  title = "État de la connexion";
  description =
      "Vérifie auprès de Meta que l'autorisation Facebook est toujours valide : validité du jeton, date d'expiration, permissions réellement accordées, pages synchronisées. À appeler quand un outil échoue, ou pour savoir combien de temps la connexion tiendra encore.";
  annotations = read_only;
}
detail_tool (page_post_insights args) = record {
  name = "page_post_insights";
  title = "Statistiques d'une publication";
  description =
      "Statistiques détaillées d'une publication de Page Facebook : impressions, impressions uniques, clics, réactions par type, vues vidéo. Plus complet que les trois chiffres agrégés de page_posts.";
  annotations = read_only;
}
detail_tool (ig_media_insights args) = record {
  name = "ig_media_insights";
  title = "Statistiques d'une publication Instagram";
  description =
      "Statistiques détaillées d'une publication Instagram : couverture, vues, J'aime, commentaires, enregistrements, partages, interactions.";
  annotations = read_only;
}
detail_tool (ig_stories args) = record {
  name = "ig_stories";
  title = "Stories en ligne";
  description =
      "Stories Instagram actuellement visibles. Meta les retire de cette liste au bout de 24 h : une liste vide signifie qu'aucune story n'est en ligne, pas qu'il y a une erreur.";
  annotations = read_only;
}
detail_tool (page_scheduled_posts args) = record {
  name = "page_scheduled_posts";
  title = "Publications programmées";
  description =
      "Liste les publications que Meta garde en attente pour une date future, avec leur date de publication prévue. C'est le pendant de scheduled_at dans page_publish_post.";
  annotations = read_only;
}

-- `registerWriteTools`
pub data WriteCall : Type 0 where
  page_publish_post : PublishPostArgs → WriteCall
  page_reply_comment : ReplyCommentArgs → WriteCall
  ig_publish : IgPublishArgs → WriteCall
  ig_reply_comment : ReplyCommentArgs → WriteCall

unfoldable pub write_tool : WriteCall → Tool
write_tool (page_publish_post args) = record {
  name = "page_publish_post";
  title = "Publier sur une page";
  description =
      "Publie un message, un lien ou une photo sur une Page Facebook, immédiatement ou à une date programmée."
      ^^ confirm_doc;
  annotations = writing;
}
write_tool (page_reply_comment args) = record {
  name = "page_reply_comment";
  title = "Répondre à un commentaire Facebook";
  description =
      "Répond à un commentaire laissé sur une publication de Page Facebook." ^^ confirm_doc;
  annotations = writing;
}
write_tool (ig_publish args) = record {
  name = "ig_publish";
  title = "Publier sur Instagram";
  description =
      "Publie une image, un reel, un carrousel ou une story sur le compte Instagram professionnel lié à une page. Les médias doivent être accessibles publiquement en https. Une story ne porte pas de légende."
      ^^ confirm_doc;
  annotations = writing;
}
write_tool (ig_reply_comment args) = record {
  name = "ig_reply_comment";
  title = "Répondre à un commentaire Instagram";
  description = "Répond à un commentaire laissé sur une publication Instagram." ^^ confirm_doc;
  annotations = writing;
}

-- `registerModerationTools`
pub data ModerationCall : Type 0 where
  page_moderate_comment : ModerateCommentArgs → ModerationCall
  ig_moderate_comment : ModerateCommentArgs → ModerationCall
  page_delete_post : DeletePostArgs → ModerationCall
  page_cancel_scheduled_post : CancelScheduledPostArgs → ModerationCall

unfoldable pub moderation_tool : ModerationCall → Tool
moderation_tool (page_moderate_comment args) = record {
  name = "page_moderate_comment";
  title = "Modérer un commentaire Facebook";
  description =
      "Masque, réaffiche ou supprime un commentaire sur une publication de Page." ^^ confirm_doc;
  annotations = moderating;
}
moderation_tool (ig_moderate_comment args) = record {
  name = "ig_moderate_comment";
  title = "Modérer un commentaire Instagram";
  description =
      "Masque, réaffiche ou supprime un commentaire sur une publication Instagram." ^^ confirm_doc;
  annotations = moderating;
}
moderation_tool (page_delete_post args) = record {
  name = "page_delete_post";
  title = "Supprimer une publication";
  description =
      "Supprime définitivement une publication déjà en ligne sur une Page. La publication, ses réactions et ses commentaires disparaissent, et rien ne les restaure. Pour une publication encore programmée, utilisez plutôt page_cancel_scheduled_post."
      ^^ confirm_doc;
  annotations = moderating;
}
moderation_tool (page_cancel_scheduled_post args) = record {
  name = "page_cancel_scheduled_post";
  title = "Annuler une publication programmée";
  description =
      "Supprime une publication que Meta gardait en attente. L'annulation est définitive : la publication est supprimée, pas mise en pause. Utilisez page_scheduled_posts pour obtenir post_id."
      ^^ confirm_doc;
  annotations = moderating;
}

-- A call of a registered tool, with its arguments.
pub data ToolCall : Type 0 where
  reading : ReadCall → ToolCall
  detail : DetailCall → ToolCall
  writes : WriteCall → ToolCall
  moderates : ModerationCall → ToolCall

abbrev pub tool_of : ToolCall → Tool
tool_of (reading x) = read_tool x
tool_of (detail x) = detail_tool x
tool_of (writes x) = write_tool x
tool_of (moderates x) = moderation_tool x

-- Whether the caller passed `confirm=true`; false for a tool that has no such argument.
abbrev pub confirms : ToolCall → Bool
confirms (writes (page_publish_post args)) = args.confirm
confirms (writes (page_reply_comment args)) = args.confirm
confirms (writes (ig_publish args)) = args.confirm
confirms (writes (ig_reply_comment args)) = args.confirm
confirms (moderates (page_moderate_comment args)) = args.confirm
confirms (moderates (ig_moderate_comment args)) = args.confirm
confirms (moderates (page_delete_post args)) = args.confirm
confirms (moderates (page_cancel_scheduled_post args)) = args.confirm
confirms (reading x) = false
confirms (detail x) = false

-- The result of a handler, as `jsonResult` gets it.
abbrev pub json_result : {A : Type 0} → (A → Output) → Action Error A → Action Error Output
json_result f handler = do out ← handler; pure (f out)

module _ (s : Service) (env : Env) (session : Session) where
  abbrev pub run_read : ReadCall → Action Error Output
  run_read list_pages = json_result pages (tool_list_pages s env session)
  run_read sync_pages = json_result pages (tool_sync_pages s env session)
  run_read (page_insights args) = json_result insights (tool_page_insights s env session args)
  run_read (page_insights_metadata args) =
      json_result metrics (tool_page_insights_metadata s env session args)
  run_read (page_posts args) = json_result posts (tool_page_posts s env session args)
  run_read (page_post_comments args) =
      json_result comments (tool_page_post_comments s env session args)
  run_read (page_ratings args) = json_result ratings (tool_page_ratings s env session args)
  run_read (ig_account_insights args) =
      json_result insights (tool_ig_account_insights s env session args)
  run_read (ig_follower_demographics args) =
      json_result breakdowns (tool_ig_follower_demographics s env session args)
  run_read (ig_media args) = json_result media (tool_ig_media s env session args)
  run_read (ig_media_comments args) =
      json_result comments (tool_ig_media_comments s env session args)
  run_read reconnect_url = json_result link (tool_reconnect_url s env session)

  abbrev pub run_detail : DetailCall → Action Error Output
  run_detail connection_status = json_result status (tool_connection_status s env session)
  run_detail (page_post_insights args) =
      json_result insights (tool_page_post_insights s env session args)
  run_detail (ig_media_insights args) =
      json_result insights (tool_ig_media_insights s env session args)
  run_detail (ig_stories args) = json_result media (tool_ig_stories s env session args)
  run_detail (page_scheduled_posts args) =
      json_result scheduled (tool_page_scheduled_posts s env session args)

  abbrev pub run_write_call : WriteCall → Action Error Output
  run_write_call (page_publish_post args) =
      json_result written (tool_page_publish_post s env session args)
  run_write_call (page_reply_comment args) =
      json_result written (tool_page_reply_comment s env session args)
  run_write_call (ig_publish args) = json_result written (tool_ig_publish s env session args)
  run_write_call (ig_reply_comment args) =
      json_result written (tool_ig_reply_comment s env session args)

  abbrev pub run_moderation : ModerationCall → Action Error Output
  run_moderation (page_moderate_comment args) =
      json_result written (tool_page_moderate_comment s env session args)
  run_moderation (ig_moderate_comment args) =
      json_result written (tool_ig_moderate_comment s env session args)
  run_moderation (page_delete_post args) =
      json_result written (tool_page_delete_post s env session args)
  run_moderation (page_cancel_scheduled_post args) =
      json_result written (tool_page_cancel_scheduled_post s env session args)

  abbrev pub run_tool : ToolCall → Action Error Output
  run_tool (reading x) = run_read x
  run_tool (detail x) = run_detail x
  run_tool (writes x) = run_write_call x
  run_tool (moderates x) = run_moderation x
