-- ===== src/App/Metadata.antt =====
-- internal/app/page_insights_metadata.go: the catalogue of metrics.
use meta_mcp.Prelude.{Bool, not, ◌&&◌, String, List, [], ◌∷◌, ◌==◌, keep}
use meta_mcp.Domain.Errors.{Error}
use meta_mcp.Domain.Entities.{Page, has_instagram}
use meta_mcp.Exec.{pure, ◌>>=◌}
use meta_mcp.World.{Env, Action}
use meta_mcp.App.Service.{page}

pub record InsightMeta : Type 0 where
  pub name : String
  pub period : String
  pub description : String
  pub surface : String

abbrev daily : String → String → String → InsightMeta
daily surface name description = record {
  name = name;
  period = "day";
  description = description;
  surface = surface;
}

abbrev pub known_metrics : List InsightMeta
known_metrics =
    daily "page" "page_post_engagements" "Interactions avec les publications de la Page."
    ∷ daily "page" "page_daily_follows" "Nouveaux abonnés dans la journée."
    ∷ daily "page" "page_daily_unfollows" "Désabonnements dans la journée."
    ∷ daily "page" "page_follows" "Nombre total d'abonnés."
    ∷ daily "page" "page_views_total" "Vues de la Page."
    ∷ daily "page" "page_video_views" "Vues des vidéos de la Page."
    ∷ daily "instagram" "reach" "Comptes uniques ayant vu le contenu."
    ∷ daily "instagram" "views" "Vues du contenu."
    ∷ daily "instagram" "profile_views" "Visites du profil."
    ∷ daily "instagram" "accounts_engaged" "Comptes ayant interagi."
    ∷ daily "instagram" "total_interactions" "J'aime, commentaires, enregistrements et partages."
    ∷ daily "instagram" "likes" "Mentions J'aime."
    ∷ daily "instagram" "comments" "Commentaires."
    ∷ daily "instagram" "saves" "Enregistrements."
    ∷ daily "instagram" "shares" "Partages."
    ∷ daily "instagram" "follower_count"
        "Nouveaux abonnés par jour. Refusée avec metric_type=total_value, le serveur la demande donc à part."
    ∷ []

-- A page without an Instagram account is not asked for Instagram metrics.
abbrev pub askable : Page → InsightMeta → Bool
askable p m = not (m.surface == "instagram" && not (has_instagram p))

unfoldable pub page_insights_metadata : Env → String → String → Action Error (List InsightMeta)
page_insights_metadata env tenant_id page_id = do
  p ← page env tenant_id page_id
  pure (keep (askable p) known_metrics)
