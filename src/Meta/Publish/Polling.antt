-- ===== src/Meta/Publish/Polling.antt =====
-- A media is published only once Meta has finished with it.
use Prim.Native.String
use meta_mcp.Prelude.{
  ℕ, zero, suc, ◌≡◌, true, false, String, ◌≢◌, sym, ap, ◌∙◌, [], ◌∷◌, inl, inr, Bool-cases, arith,
  eq_iff, ◌==◌,
}
use meta_mcp.Exec.{Result, ok, err, ◌>>=◌, or_return, raise}
use meta_mcp.Meta.Wire.{Net, NetEnv, Talk}
use meta_mcp.Meta.Client.{wait, get, Client, Wire}
use meta_mcp.Domain.Errors.{Error}
use meta_mcp.Domain.Entities.{IgPublishRequest}
use meta_mcp.Meta.Items.{ContainerStatus, Decoders}
use meta_mcp.Meta.Publish.{
  poll_delay, created, poll, ig_publish, create_ig_container, wait_for_ig_container,
  max_poll_attempts,
}
use meta_mcp.Exec.Run.{Result-cases}

module _ (w : Wire) (d : Decoders) (c : Client) (env : NetEnv) where
  -- The request for the status of a container.
  abbrev pub asked_status : String → String → Talk ContainerStatus
  asked_status token container_id =
      get w c env token container_id (("fields", "status_code,status") ∷ []) d.container_status

  -- The request that publishes a container.
  abbrev pub publish_container : String → String → String → Talk String
  publish_container token ig_user_id container_id =
      created w d c env token (String.◌++◌ ig_user_id "/media_publish") "publication Instagram"
        (("creation_id", container_id) ∷ [])
        "publication Instagram: Meta n'a renvoyé aucun identifiant"

  abbrev slept : String → String → Net → Result Error (Unit {0}) × Net
  slept token container_id n =
      wait w c env (poll_delay w d c env) (asked_status token container_id n).1

  -- A further attempt is made only where the answer was not a last one, after the wait.
  poll-step :
      (token container_id : String) (rounds : ℕ) (n : Net) {s : ContainerStatus}
      → (poll w d c env token container_id (suc rounds) n).0 ≡ ok tt
      → (asked_status token container_id n).0 ≡ ok s
      → (s.status_code == "FINISHED") ≡ false
      → poll w d c env token container_id (suc rounds) n
        ≡ poll w d c env token container_id rounds (slept token container_id n).1
  unfolding poll or_return ◌>>=◌
  poll-step token container_id rounds n {s} h answered not_yet =
      elim (Result-cases (slept token container_id n).0) [
        | inl (e, over) ↦ absurd (ground arith)
        | inr (u, went) ↦ ground arith
      ]

  poll-answered :
      (token container_id : String) (rounds : ℕ) (n : Net) {e : Error}
      → (asked_status token container_id n).0 ≡ err e
      → (poll w d c env token container_id (suc rounds) n).0 ≢ ok tt
  unfolding poll or_return ◌>>=◌
  poll-answered token container_id rounds n bad h = ground arith

  poll-last :
      (token container_id : String) (rounds : ℕ) (n : Net) {s : ContainerStatus}
      → (asked_status token container_id n).0 ≡ ok s
      → (s.status_code == "FINISHED") ≡ true
      → (poll w d c env token container_id (suc rounds) n).1 ≡ (asked_status token container_id n).1
  unfolding poll or_return ◌>>=◌
  poll-last token container_id rounds n answered finished = ground arith

  poll-finished :
      (token container_id : String) (rounds : ℕ) (n : Net)
      → (poll w d c env token container_id rounds n).0 ≡ ok tt
      → (m : Net) × (s : ContainerStatus) × ((asked_status token container_id m).0 ≡ ok s)
        × (s.status_code ≡ "FINISHED")
        × ((poll w d c env token container_id rounds n).1 ≡ (asked_status token container_id m).1)
  unfolding poll raise
  poll-finished token container_id zero n h = absurd (ground arith)
  poll-finished token container_id (suc rounds) n h =
      elim (Result-cases (asked_status token container_id n).0) [
        | inl (e, bad) ↦ absurd (poll-answered token container_id rounds n bad h)
        | inr (s, good) ↦ elim (Bool-cases (s.status_code == "FINISHED")) [
          | inl finished ↦ (
            n,
            s,
            good,
            ground (arith, eq_iff s.status_code "FINISHED"),
            poll-last token container_id rounds n good finished,
          )
          | inr not_yet ↦
              let same = poll-step token container_id rounds n h good not_yet in
              let next = (slept token container_id n).1 in
              let (m, t, answered, finished, end) =
                poll-finished token container_id rounds next (ap (λ r. r.0) (sym same) ∙ h) in
              (m, t, answered, finished, ap (λ r. r.1) same ∙ end)
        ]
      ]

  -- An Instagram publication that returns an id has made a container, polled it until Meta answered
  -- FINISHED, and only then sent the publishing request, which is what the rest of the run consists of.
  pub ig_publish-finished :
      (token ig_user_id : String) (req : IgPublishRequest) (n : Net) {id : String}
      → (ig_publish w d c env token ig_user_id req n).0 ≡ ok id
      → (container_id : String) × (m : Net) × (s : ContainerStatus) × ((create_ig_container w d c
            env token ig_user_id req n).0
          ≡ ok container_id)
        × ((asked_status token container_id m).0 ≡ ok s)
        × (s.status_code ≡ "FINISHED")
        × (ig_publish w d c env token ig_user_id req n
            ≡ publish_container token ig_user_id container_id (asked_status token container_id m).1)
  unfolding ig_publish wait_for_ig_container ◌>>=◌
  ig_publish-finished token ig_user_id req n {id} h =
      elim (Result-cases (create_ig_container w d c env token ig_user_id req n).0) [
        | inl (e, bad) ↦ absurd (ground arith)
        | inr (container_id, made) ↦
            let next = (create_ig_container w d c env token ig_user_id req n).1 in
            elim (Result-cases (poll w d c env token container_id max_poll_attempts next).0) [
              | inl (e, bad) ↦ absurd (ground arith)
              | inr (u, polled) ↦
                  let (m, s, answered, finished, same) =
                    poll-finished token container_id max_poll_attempts next polled in
                  (container_id, m, s, made, answered, finished, ground (arith, same))
            ]
      ]
