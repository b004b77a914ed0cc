-- ===== src/Meta/Sent.antt =====
-- The requests that a call of the port sends: what each of them satisfies, given what a single request
-- to Meta's address, or to the address of a next page, satisfies.
pub mod Reads
pub mod Writes
pub mod Home
use meta_mcp.Prelude.{
  Bool-cases, arith, ℕ, suc, ◌≡◌, refl, Bool, true, false, String, List, [], ◌∷◌, Option, none,
  some, All, Option-cases, inl, inr, if◌then◌else◌,
}
use meta_mcp.Crypto.{Bytes}
use meta_mcp.Domain.Errors.{Error, GraphError, as_graph_error, is_rate_limit}
use meta_mcp.Domain.Time.{Duration}
use meta_mcp.Exec.{Result, ok, err, attempt, ◌>>=◌, ◌>>◌}
use meta_mcp.Exec.Run.{Result-cases}
use meta_mcp.Meta.Client.Retry.{waited}
use meta_mcp.Exec.Keeps.{Keeps, keeps_rules}
use meta_mcp.Meta.Wire.{
  Answer, Method, get_method, Params, Sent, Exchange, unbuilt, unanswered, unread, answered, Net,
  NetEnv, Raw,
}
use meta_mcp.Meta.Client.{
  is_success, delay_of, Wire, Client, built, received, call_once, wait, again, settled, call,
  decoding, endpoint, get, post, fetch_page, collect_from, collect,
}

-- Every request that was sent satisfies `P`.
pub record Sends (P : Sent → Type 0) (n : Net) : Type 0 where
  pub holds : All P n.sent

module _ (w : Wire) (c : Client) (env : NetEnv) {P : Sent → Type 0} where
  received-Sends :
      (q : Sent) (x : Exchange) (n : Net) → P q → Sends P n → Sends P (received w c env q x n).1
  unfolding received
  received-Sends q (unbuilt e) n good all = record { holds = all.holds }
  received-Sends q (unanswered e) n good all = record { holds = (good, all.holds) }
  received-Sends q (unread e) n good all = record { holds = (good, all.holds) }
  received-Sends q (answered a) n good all = record { holds = (good, all.holds) }

  module _ (m : Method) (url token : String) (ps : Params)
      (good : P (built w c env m url token ps)) where
    call_once-Sends : Keeps (Sends P) (call_once w c env m url token ps)
    unfolding call_once
    call_once-Sends = record {
      at = λ n all.
          received-Sends (built w c env m url token ps)
            (env.wire n.step (built w c env m url token ps)) n good all;
    }

    pub wait-Sends : (d : Duration) → Keeps (Sends P) (wait w c env d)
    unfolding wait
    wait-Sends d = record {
      at = λ n all. elim (Option-cases (env.done n.step)) [
        | inl none_e ↦ rw (none_e, wait) (record { holds = all.holds })
        | inr (e, over) ↦ rw (over, wait) (record { holds = all.holds })
      ];
    }

    again-Sends :
        (e : Error) (o : Option GraphError) → Keeps (Sends P) (again w c env m url token ps e o)
    unfolding again
    again-Sends e none = search keeps_rules
    again-Sends e (some ge) = search (keeps_rules, wait-Sends, call_once-Sends)

    settled-Sends : (r : Result Error Bytes) → Keeps (Sends P) (settled w c env m url token ps r)
    unfolding settled
    settled-Sends (ok body) = search keeps_rules
    settled-Sends (err e) = again-Sends e (as_graph_error e)

    pub call-Sends : Keeps (Sends P) (call w c env m url token ps)
    unfolding call
    call-Sends = search (keeps_rules, call_once-Sends, settled-Sends)

  pub decoding-Sends :
      {A : Type 0} (what : String) (r : Result Error A) → Keeps (Sends P) (decoding w c env what r)
  decoding-Sends what (ok a) = search keeps_rules
  decoding-Sends what (err e) = search keeps_rules

module _ (w : Wire) (c : Client) (env : NetEnv) (P : Sent → Type 0) where
  -- The body of an answer to a request with `P`.
  pub record Came (body : Bytes) : Type 0 where
    pub asked : Sent
    pub good : P asked
    pub at : ℕ
    pub answer : Answer
    pub got : env.wire at asked ≡ answered answer
    pub same : answer.body ≡ body

  received-Came :
      (q : Sent) (x : Exchange) (n : Net) {body : Bytes}
      → env.wire n.step q ≡ x
      → P q
      → (received w c env q x n).0 ≡ ok body
      → Came body
  unfolding received
  received-Came q (unbuilt e) n got good h = absurd (ground arith)
  received-Came q (unanswered e) n got good h = absurd (ground arith)
  received-Came q (unread e) n got good h = absurd (ground arith)
  received-Came q (answered a) n got good h = record {
    asked = q;
    good = good;
    at = n.step;
    answer = a;
    got = got;
    same = elim (Bool-cases (is_success w c env a.status)) [
      | inl fine ↦ ground arith
      | inr other ↦ absurd (ground arith)
    ];
  }

  module _ (m : Method) (url token : String) (ps : Params)
      (good : P (built w c env m url token ps)) where
    call_once-Came :
        (n : Net) {body : Bytes} → (call_once w c env m url token ps n).0 ≡ ok body → Came body
    unfolding call_once
    call_once-Came n h =
        received-Came (built w c env m url token ps)
          (env.wire n.step (built w c env m url token ps)) n refl good h

    again-Came :
        (e : Error) (o : Option GraphError) (n : Net) {body : Bytes}
        → (again w c env m url token ps e o n).0 ≡ ok body
        → Came body
    unfolding again wait ◌>>=◌
    again-Came e none n h = absurd (ground arith)
    again-Came e (some ge) n {body} h = elim (Bool-cases (is_rate_limit ge)) [
      | inr no_limit ↦ absurd (ground arith)
      | inl limit ↦ elim (Option-cases (env.done n.step)) [
        | inr (x, over) ↦ absurd (ground arith)
        | inl free ↦ call_once-Came (waited (delay_of w c env ge) n) {body = body} (ground arith)
      ]
    ]

    pub call-Came :
        (n : Net) {body : Bytes} → (call w c env m url token ps n).0 ≡ ok body → Came body
    unfolding call settled attempt ◌>>=◌
    call-Came n {body} h = elim (Result-cases (call_once w c env m url token ps n).0) [
      | inr (b, fine) ↦ call_once-Came n {body = body} (ground arith)
      | inl (e, bad) ↦
          again-Came e (as_graph_error e) (call_once w c env m url token ps n).1 {body = body}
            (ground arith)
    ]

pub decoding-ok :
    (w : Wire) (c : Client) (env : NetEnv) {A : Type 0} (what : String) (r : Result Error A)
    (n : Net) {a : A}
    → (decoding w c env what r n).0 ≡ ok a
    → r ≡ ok a
unfolding ◌>>=◌
decoding-ok w c env what (ok b) n h = h
decoding-ok w c env what (err e) n h = absurd (ground arith)
