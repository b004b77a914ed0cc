-- ===== src/Meta/Sent/Writes.antt =====
-- The requests of the writing methods.
use meta_mcp.Prelude.{
  ℕ, zero, suc, Bool, String, List, [], ◌∷◌, ◌==◌, Bool-cases, eqb, inl, inr, ◌+◌,
}
use meta_mcp.Crypto.{Bytes}
use meta_mcp.Domain.Errors.{Error}
use meta_mcp.Domain.Entities.{PublishPostRequest, IgPublishRequest}
use meta_mcp.Exec.{Result, ◌>>◌}
use meta_mcp.Exec.Keeps.{Keeps, Keeps-bind, Keeps-pure, Keeps-raise, keeps_rules}
use meta_mcp.Meta.Wire.{Method, get_method, post_method, Params, Sent, NetEnv}
use meta_mcp.Meta.Client.{Wire, Client, built, endpoint, get, post, wait}
use meta_mcp.Meta.Items.{Decoders}
use meta_mcp.Meta.Publish
use meta_mcp.Meta.Publish.{
  created, create_carousel_items, container_params, create_ig_container, poll,
  wait_for_ig_container,
}
use meta_mcp.Meta.Sent.{Sends, call-Sends, decoding-Sends, wait-Sends}

module _ (w : Wire) (d : Decoders) (c : Client) (env : NetEnv) {P : Sent → Type 0}
    (home : (m : Method) (path token : String) (ps : Params)
      → P (built w c env m (endpoint w c env path) token ps)) where
  get-Sends :
      {A : Type 0} (token path : String) (ps : Params) (decode : Bytes → Result Error A)
      → Keeps (Sends P) (get w c env token path ps decode)
  unfolding get
  get-Sends token path ps decode = search (
    keeps_rules,
    call-Sends w c env {P = P} get_method (endpoint w c env path) token ps
        (home get_method path token ps),
    decoding-Sends,
  )

  post-Sends :
      {A : Type 0} (token path : String) (ps : Params) (decode : Bytes → Result Error A)
      → Keeps (Sends P) (post w c env token path ps decode)
  unfolding post
  post-Sends token path ps decode = search (
    keeps_rules,
    call-Sends w c env {P = P} post_method (endpoint w c env path) token ps
        (home post_method path token ps),
    decoding-Sends,
  )

  created-Sends :
      (token path what : String) (ps : Params) (nothing : String)
      → Keeps (Sends P) (created w d c env token path what ps nothing)
  unfolding created
  created-Sends token path what ps nothing = search (keeps_rules, post-Sends)

  create_carousel_items-Sends :
      (token id : String) (i : ℕ) (urls : List String)
      → Keeps (Sends P) (create_carousel_items w d c env token id i urls)
  unfolding create_carousel_items
  create_carousel_items-Sends token id i [] = search keeps_rules
  create_carousel_items-Sends token id i (url ∷ urls) =
      Keeps-bind _ _ (created-Sends _ _ _ _ _) (λ made.
        Keeps-bind _ _ (create_carousel_items-Sends token id (i + 1) urls) (λ ids. Keeps-pure _))

  container_params-Sends :
      (token id : String) (req : IgPublishRequest)
      → Keeps (Sends P) (container_params w d c env token id req)
  unfolding container_params
  container_params-Sends token id req = search (keeps_rules, create_carousel_items-Sends)

  create_ig_container-Sends :
      (token id : String) (req : IgPublishRequest)
      → Keeps (Sends P) (create_ig_container w d c env token id req)
  unfolding create_ig_container
  create_ig_container-Sends token id req =
      search (keeps_rules, container_params-Sends, created-Sends)

  waiting-Sends :
      (token id : String) (rounds : ℕ)
      → Keeps (Sends P) (poll w d c env token id rounds)
      → Keeps
          (Sends P)
          (wait w c env (Publish.poll_delay w d c env) >> poll w d c env token id rounds)
  waiting-Sends token id rounds kept =
      Keeps-bind _ _
        (wait-Sends w c env {P = P} get_method (endpoint w c env id) token []
          (home get_method id token []) _)
        (λ u. kept)

  poll-Sends : (token id : String) (rounds : ℕ) → Keeps (Sends P) (poll w d c env token id rounds)
  unfolding poll
  poll-Sends token id zero = search keeps_rules
  poll-Sends token id (suc rounds) =
      let later = waiting-Sends token id rounds (poll-Sends token id rounds) in
      Keeps-bind _ _ (search (keeps_rules, get-Sends)) (λ s.
        elim (Bool-cases (s.status_code == "FINISHED")) [
          | inl e ↦ rw e (Keeps-pure tt)
          | inr e ↦ rw e (elim (Bool-cases (s.status_code == "ERROR")) [
            | inl e ↦ rw e (Keeps-raise _)
            | inr e ↦ rw e (elim (Bool-cases (s.status_code == "EXPIRED")) [
              | inl e ↦ rw e (Keeps-raise _)
              | inr e ↦ rw e (elim (Bool-cases (eqb rounds 0)) [
                | inl e ↦ rw e (Keeps-raise _)
                | inr e ↦ rw e later
              ])
            ])
          ])
        ])

  wait_for_ig_container-Sends :
      (token id : String) → Keeps (Sends P) (wait_for_ig_container w d c env token id)
  unfolding wait_for_ig_container
  wait_for_ig_container-Sends token id = poll-Sends token id 30

  pub publish_post-Sends :
      (token id : String) (req : PublishPostRequest)
      → Keeps (Sends P) (Publish.publish_post w d c env token id req)
  unfolding Publish.publish_post
  publish_post-Sends token id req = search (keeps_rules, post-Sends)

  pub reply_to_comment-Sends :
      (token id message : String)
      → Keeps (Sends P) (Publish.reply_to_comment w d c env token id message)
  unfolding Publish.reply_to_comment
  reply_to_comment-Sends token id message = search (keeps_rules, created-Sends)

  pub ig_reply_to_comment-Sends :
      (token id message : String)
      → Keeps (Sends P) (Publish.ig_reply_to_comment w d c env token id message)
  unfolding Publish.ig_reply_to_comment
  ig_reply_to_comment-Sends token id message = search (keeps_rules, created-Sends)

  pub ig_publish-Sends :
      (token id : String) (req : IgPublishRequest)
      → Keeps (Sends P) (Publish.ig_publish w d c env token id req)
  unfolding Publish.ig_publish
  ig_publish-Sends token id req =
      search (keeps_rules, create_ig_container-Sends, wait_for_ig_container-Sends, created-Sends)

  pub set_comment_hidden-Sends :
      (token id : String) (hidden instagram : Bool)
      → Keeps (Sends P) (Publish.set_comment_hidden w d c env token id hidden instagram)
  unfolding Publish.set_comment_hidden
  set_comment_hidden-Sends token id hidden instagram = search (keeps_rules, post-Sends)

  pub delete_object-Sends :
      (token id : String) → Keeps (Sends P) (Publish.delete_object w d c env token id)
  unfolding Publish.delete_object
  delete_object-Sends token id = search (keeps_rules, post-Sends)
