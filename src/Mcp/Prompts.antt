-- ===== src/Mcp/Prompts.antt =====
-- internal/adapters/mcpserver/prompts.go: the two prompts.
use Prim.Native.String
use meta_mcp.Prelude.{String, Option, none, some, ◌==◌, if◌then◌else◌}

infixr 65 ◌^^◌
abbrev ◌^^◌ : String → String → String
a ^^ b = String.◌++◌ a b

-- The arguments of a request, with "" for a missing one; `none` where it has none.
abbrev pub Arguments : Type 0
Arguments = Option (String → String)

pub record PromptResult : Type 0 where
  pub description : String
  -- the text of the one message, of the role user
  pub body : String

unfoldable pub arg_or : Arguments → String → String → String
arg_or none name fallback = fallback
arg_or (some arguments) name fallback = if arguments name == "" then fallback else arguments name

abbrev pub prompt_result : String → String → PromptResult
prompt_result description body = record { description = description; body = body }

unfoldable pub prompt_monthly_report : Arguments → PromptResult
prompt_monthly_report req =
    let page = arg_or req "page_id" "à déterminer avec list_pages" in
    let month = arg_or req "mois" "le mois écoulé" in
    prompt_result "Bilan mensuel" (
      "Tu prépares le bilan organique de la page " ^^ page ^^ " pour " ^^ month
      ^^ ".\n\nMarche à suivre :\n1. list_pages pour confirmer le page_id et savoir si un compte Instagram est lié.\n2. page_insights sur le mois demandé, puis sur le mois précédent, pour pouvoir comparer.\n   Si le champ \"rejected\" est non vide, dis-le : ces métriques n'ont pas pu être lues.\n3. page_posts sur la période, puis page_post_insights sur les trois publications\n   les plus vues pour expliquer ce qui a marché.\n4. page_ratings pour la note moyenne et les avis reçus sur le mois : signale\n   chaque avis négatif, il appelle une réponse.\n5. Si un compte Instagram est lié : ig_account_insights, ig_media, et\n   ig_follower_demographics avec breakdown=city pour situer l'audience.\n6. Rédige le bilan en français : évolution chiffrée par rapport au mois précédent,\n   ce qui a le mieux fonctionné et pourquoi, ce qui a décroché, et deux ou trois\n   recommandations concrètes.\n\nNe publie rien. Ce bilan est une lecture seule : n'appelle aucun outil d'écriture.\nNe compare que des périodes de même longueur, et dis-le si les données manquent\npour un mois.")

unfoldable pub prompt_comment_review : Arguments → PromptResult
prompt_comment_review req =
    let page = arg_or req "page_id" "à déterminer avec list_pages" in
    prompt_result "Revue des commentaires" (
      "Tu passes en revue les commentaires récents de la page " ^^ page
      ^^ ".\n\nMarche à suivre :\n1. list_pages, puis page_posts pour les publications récentes.\n2. page_post_comments sur les publications qui en ont, et si un compte Instagram\n   est lié, ig_media puis ig_media_comments.\n3. Classe les commentaires : ceux qui appellent une réponse, ceux qui n'en\n   demandent pas, et ceux qui posent un problème (insultes, spam, hors sujet).\n4. Pour chaque commentaire à traiter, propose le texte de la réponse à l'utilisateur\n   et attends son accord.\n\nRègles :\n- N'écris rien sans confirmation. page_reply_comment, ig_reply_comment,\n  page_moderate_comment et ig_moderate_comment renvoient un aperçu tant que\n  confirm=true est absent : montre cet aperçu, obtiens un accord explicite,\n  puis seulement rappelle l'outil avec confirm=true.\n- Ne propose jamais action=delete de toi-même. Masquer est réversible, supprimer\n  ne l'est pas : suggère hide, et laisse l'utilisateur demander la suppression.\n- Réponds dans la langue du commentaire.")
