-- ===== src/Meta/Publish/Budget.antt =====
-- How many requests a publication on Instagram sends at most.
use meta_mcp.Prelude.{ℕ, zero, suc, ◌+◌, ◌*◌, String, List, [], ◌∷◌, ◌==◌, eqb, length, arith}
use meta_mcp.Domain.Errors.{Error}
use meta_mcp.Domain.Entities.{IgPublishRequest}
use meta_mcp.Exec.{raise}
use meta_mcp.Meta.Wire.{Params, NetEnv}
use meta_mcp.Meta.Client.{Wire, Client}
use meta_mcp.Meta.Client.Budget.{
  Spends, Spends-weaken, Spends-pure, none_sent, Spends-raise, Spends-if, Spends-or_return,
  Spends-stop_if, Spends-bind, wait-Spends, get-Spends, post-Spends,
}
use meta_mcp.Meta.Items.{Decoders}
use meta_mcp.Meta.Publish.{
  created, create_carousel_items, container_params, create_ig_container, poll, poll_delay,
  wait_for_ig_container, ig_publish,
}

fails : {A : Type 0} {k : ℕ} (e : Error) → Spends k (raise {A = A} e)
fails {k = k} e = Spends-weaken 0 k _ (omega arith) (Spends-raise e)

module _ (w : Wire) (d : Decoders) (c : Client) (env : NetEnv) where
  created-Spends :
      (token path what : String) (ps : Params) (nothing : String)
      → Spends 2 (created w d c env token path what ps nothing)
  unfolding created
  created-Spends token path what ps nothing =
      Spends-bind 2 0 _ _ (Spends-or_return 2 _ _ (post-Spends w c env _ _ _ _))
        (λ body. Spends-bind 0 0 _ _ (Spends-stop_if _ _) (λ u. Spends-pure _))

  create_carousel_items-Spends :
      (token id : String) (i : ℕ) (urls : List String)
      → Spends (2 * length urls) (create_carousel_items w d c env token id i urls)
  unfolding create_carousel_items
  create_carousel_items-Spends token id i [] = Spends-pure []
  create_carousel_items-Spends token id i (url ∷ urls) =
      Spends-weaken (2 + (2 * length urls + 0)) (2 * suc (length urls)) _ (omega arith) (
        Spends-bind 2 (2 * length urls + 0) _ _ (created-Spends _ _ _ _ _) (λ made.
          Spends-bind (2 * length urls) 0 _ _ (create_carousel_items-Spends token id (i + 1) urls)
            (λ ids. Spends-pure _)))

  container_params-Spends :
      (token id : String) (req : IgPublishRequest)
      → Spends (2 * length req.children) (container_params w d c env token id req)
  unfolding container_params
  container_params-Spends token id req =
      Spends-if _ (req.media_type == "STORIES") _ _ (none_sent _) (
        Spends-if _ (req.media_type == "REELS") _ _ (none_sent _) (
          Spends-if _ (req.media_type == "CAROUSEL") _ _
            (Spends-weaken (2 * length req.children + 0) (2 * length req.children) _ (omega arith) (
              Spends-bind (2 * length req.children) 0 _ _
                (create_carousel_items-Spends token id 0 req.children) (λ ids. Spends-pure _)))
            (none_sent _)))

  poll-Spends :
      (token id : String) (rounds : ℕ) → Spends (2 * rounds) (poll w d c env token id rounds)
  unfolding poll
  poll-Spends token id zero = Spends-raise _
  poll-Spends token id (suc rounds) =
      Spends-weaken (2 + 2 * rounds) (2 * suc rounds) _ (omega arith) (
        Spends-bind 2 (2 * rounds) _ _ (Spends-or_return 2 _ _ (get-Spends w c env _ _ _ _)) (λ s.
          Spends-if (2 * rounds) (s.status_code == "FINISHED") _ _ (none_sent tt) (
            Spends-if (2 * rounds) (s.status_code == "ERROR") _ _ (fails _) (
              Spends-if (2 * rounds) (s.status_code == "EXPIRED") _ _ (fails _) (
                Spends-if (2 * rounds) (eqb rounds 0) _ _ (fails _) (
                  Spends-weaken (0 + 2 * rounds) (2 * rounds) _ (omega arith) (
                    Spends-bind 0 (2 * rounds) _ _ (wait-Spends w c env (poll_delay w d c env))
                      (λ u. poll-Spends token id rounds))))))))

  -- A publication on Instagram ends after at most 64 requests and two for each slide of a carousel,
  -- however Meta answers: two for the container, 60 for its status, two for the publication.
  pub ig_publish-Spends :
      (token id : String) (req : IgPublishRequest)
      → Spends (2 * length req.children + 64) (ig_publish w d c env token id req)
  unfolding ig_publish wait_for_ig_container create_ig_container
  ig_publish-Spends token id req =
      Spends-weaken ((2 * length req.children + 2) + (60 + 2)) (2 * length req.children + 64) _
        (omega arith)
        (Spends-bind (2 * length req.children + 2) (60 + 2) _ _
          (Spends-bind (2 * length req.children) 2 _ _ (container_params-Spends token id req)
            (λ ps. created-Spends _ _ _ ps _))
          (λ container_id.
            Spends-bind 60 2 _ _ (poll-Spends token container_id 30)
              (λ u. created-Spends _ _ _ _ _)))
