-- ===== src/Meta/Client/Budget.antt =====
-- How many requests a use of the client sends at most.
use meta_mcp.Prelude.{
  ◌==◌, take, leb, ◌&&◌, ltb, ◌++◌, ℕ, zero, suc, ◌+◌, ◌*◌, ◌≤◌, Bool, true, false, String, List,
  [], length, Option, none, some, arith, if◌then◌else◌,
}
use meta_mcp.Domain.Errors.{GraphError, Error, as_graph_error, is_rate_limit}
use meta_mcp.Exec.{
  Result, ok, err, pure, raise, lift, go_on, ◌>>=◌, stop_if, handled, catch, or_return, attempt,
}
use meta_mcp.Meta.Wire.{
  get_method, unbuilt, unanswered, unread, answered, Raw, Params, Method, Net, NetEnv, Talk,
}
use meta_mcp.Meta.Client.{
  delay_of, built, received, wait, settled, post, get, fetch_page, decoding, collect_from, collect,
  call_once, call, again, Client, Wire,
}
use meta_mcp.Domain.Time.{Duration}
use meta_mcp.Crypto.{Bytes}

-- `m` sends at most `k` requests, whether it returns or fails.
pub record Spends {A : Type 0} (k : ℕ) (m : Talk A) : Type 0 where
  pub at : (n : Net) → length (m n).1.sent ≤ length n.sent + k

module _ {A : Type 0} where
  pub Spends-weaken : (j k : ℕ) (m : Talk A) → j ≤ k → Spends j m → Spends k m
  Spends-weaken j k m le s = record { at = λ n. omega (arith, s.at n) }

  pub Spends-pure : (a : A) → Spends 0 (pure a)
  unfolding pure
  Spends-pure a = record { at = λ n. omega arith }

  pub none_sent : {k : ℕ} (a : A) → Spends k (pure a)
  unfolding pure
  none_sent a = record { at = λ n. omega arith }

  pub Spends-raise : (e : Error) → Spends 0 (raise {A = A} e)
  unfolding raise
  Spends-raise e = record { at = λ n. omega arith }

  pub Spends-lift : (r : Result Error A) → Spends 0 (lift r)
  unfolding lift
  Spends-lift r = record { at = λ n. omega arith }

  pub Spends-if :
      (k : ℕ) (b : Bool) (m n : Talk A) → Spends k m → Spends k n → Spends k (if b then m else n)
  Spends-if k true m n sm sn = sm
  Spends-if k false m n sm sn = sn

  pub Spends-attempt : (k : ℕ) (m : Talk A) → Spends k m → Spends k (attempt m)
  unfolding attempt
  Spends-attempt k m s = record { at = λ n. s.at n }

  handled_lem :
      (f : Error → Error) (r : Result Error A) (n : Net)
      → length (handled (λ e. raise (f e)) r n).1.sent ≤ length n.sent
  unfolding raise
  handled_lem f (ok a) n = omega arith
  handled_lem f (err e) n = omega arith

  pub Spends-or_return :
      (k : ℕ) (m : Talk A) (f : Error → Error) → Spends k m → Spends k (or_return m f)
  unfolding or_return catch
  Spends-or_return k m f s = record {
    at = λ n. omega (arith, s.at n, handled_lem f (m n).0 (m n).1);
  }

pub Spends-stop_if : (b : Bool) (e : Error) → Spends 0 (stop_if b e)
Spends-stop_if true e = Spends-raise e
Spends-stop_if false e = Spends-pure tt

module _ {A B : Type 0} where
  go_on_lem :
      (k : ℕ) (r : Result Error A) (f : A → Talk B) (n : Net)
      → ((a : A) → Spends k (f a))
      → length (go_on r f n).1.sent ≤ length n.sent + k
  go_on_lem k (ok a) f n s = (s a).at n
  go_on_lem k (err e) f n s = omega arith

  pub Spends-bind :
      (j k : ℕ) (m : Talk A) (f : A → Talk B)
      → Spends j m
      → ((a : A) → Spends k (f a))
      → Spends (j + k) (m >>= f)
  unfolding ◌>>=◌
  Spends-bind j k m f sm sf = record {
    at = λ n. omega (arith, sm.at n, go_on_lem k (m n).0 f (m n).1 sf);
  }

module _ (w : Wire) (c : Client) (env : NetEnv) where
  call_once-Spends :
      (m : Method) (url token : String) (ps : Params) → Spends 1 (call_once w c env m url token ps)
  unfolding call_once received
  call_once-Spends m url token ps = record {
    at = λ n.
        elim (env.wire n.step (built w c env m url token ps))
          as (λ x.
            length (received w c env (built w c env m url token ps) x n).1.sent
            ≤ length n.sent + 1) [
              | unbuilt e ↦ omega arith
              | unanswered e ↦ omega arith
              | unread e ↦ omega arith
              | answered a ↦ omega arith
            ];
  }

  pub wait-Spends : (d : Duration) → Spends 0 (wait w c env d)
  unfolding wait
  wait-Spends d = record { at = λ n. ground arith }

  again-Spends :
      (m : Method) (url token : String) (ps : Params) (e : Error) (ge : Option GraphError)
      → Spends 1 (again w c env m url token ps e ge)
  unfolding again
  again-Spends m url token ps e none = Spends-weaken 0 1 _ (omega arith) (Spends-raise e)
  again-Spends m url token ps e (some ge) =
      Spends-if 1 (is_rate_limit ge) _ _
        (Spends-bind 0 1 _ _ (wait-Spends (delay_of w c env ge))
          (λ _. call_once-Spends m url token ps))
        (Spends-weaken 0 1 _ (omega arith) (Spends-raise e))

  settled-Spends :
      (m : Method) (url token : String) (ps : Params) (r : Result Error Bytes)
      → Spends 1 (settled w c env m url token ps r)
  unfolding settled
  settled-Spends m url token ps (ok body) = Spends-weaken 0 1 _ (omega arith) (Spends-pure body)
  settled-Spends m url token ps (err e) = again-Spends m url token ps e (as_graph_error e)

  -- A call sends at most two requests.
  pub call-Spends :
      (m : Method) (url token : String) (ps : Params) → Spends 2 (call w c env m url token ps)
  unfolding call
  call-Spends m url token ps =
      Spends-bind 1 1 _ _ (Spends-attempt 1 _ (call_once-Spends m url token ps))
        (settled-Spends m url token ps)

  pub decoding-Spends :
      {A : Type 0} (what : String) (r : Result Error A) → Spends 0 (decoding w c env what r)
  decoding-Spends what (ok a) = Spends-pure a
  decoding-Spends what (err e) = Spends-raise _

  pub get-Spends :
      {A : Type 0} (token path : String) (ps : Params) (decode : Bytes → Result Error A)
      → Spends 2 (get w c env token path ps decode)
  unfolding get
  get-Spends token path ps decode =
      Spends-bind 2 0 _ _ (call-Spends _ _ _ _) (λ body. decoding-Spends _ (decode body))

  pub post-Spends :
      {A : Type 0} (token path : String) (ps : Params) (decode : Bytes → Result Error A)
      → Spends 2 (post w c env token path ps decode)
  unfolding post
  post-Spends token path ps decode =
      Spends-bind 2 0 _ _ (call-Spends _ _ _ _) (λ body. decoding-Spends _ (decode body))

  pub fetch_page-Spends :
      (token path : String) (ps : Params) → Spends 2 (fetch_page w c env token path ps)
  unfolding fetch_page
  fetch_page-Spends token path ps =
      Spends-bind 2 0 _ _ (call-Spends _ _ _ _)
        (λ body. Spends-bind 0 0 _ _ (decoding-Spends _ _) (λ page. Spends-pure page.items))

  collect_from-Spends :
      (limit rounds page : ℕ) (items : List Raw) (body : Bytes)
      → Spends (2 * rounds) (collect_from w c env limit rounds page items body)
  unfolding collect_from
  collect_from-Spends limit zero page items body = Spends-pure items
  collect_from-Spends limit (suc rounds) page items body =
      Spends-weaken (0 + 2 * suc rounds) (2 * suc rounds) _ (omega arith) (
        Spends-bind 0 (2 * suc rounds) _ _ (decoding-Spends _ _) λ read.
          let more = items ++ read.items in
          Spends-if (2 * suc rounds) (ltb 0 limit && leb limit (length more)) _ _
            (none_sent (take limit more))
            (Spends-if (2 * suc rounds) (read.next == "") _ _ (none_sent more) (
              Spends-weaken (2 + 2 * rounds) (2 * suc rounds) _ (omega arith) (
                Spends-bind 2 (2 * rounds) _ _ (call-Spends get_method read.next "" [])
                  (λ next. collect_from-Spends limit rounds (page + 1) more next)))))

  -- Reading a list sends at most 102 requests: 51 pages, each asked for twice where Meta limits the rate.
  pub collect-Spends :
      (token path : String) (ps : Params) (limit : ℕ)
      → Spends 102 (collect w c env token path ps limit)
  unfolding collect
  collect-Spends token path ps limit =
      Spends-bind 2 100 _ _ (call-Spends _ _ _ _) (collect_from-Spends limit 50 0 [])
