-- ===== src/Meta/Client/Retry.antt =====
-- When a call is repeated.
use meta_mcp.Prelude.{
  suc, true, false, ◌≡◌, ◌≢◌, ◌⊎◌, inl, inr, String, ◌∷◌, none, some, Option-cases, Bool-cases,
  arith,
}
use meta_mcp.Exec.{ok, err, ◌>>=◌, attempt}
use meta_mcp.Meta.Wire.{Params, Method, Net, NetEnv}
use meta_mcp.Domain.Time.{Duration}
use meta_mcp.Domain.Errors.{as_graph_error, is_rate_limit, GraphError, Error}
use meta_mcp.Meta.Client.{delay_of, call_once, wait, again, settled, call, Client, Wire}
use meta_mcp.Crypto.{Bytes}
use meta_mcp.Exec.Run.{Result-cases}

-- What limits the rate: one of four codes, or the status 429.
abbrev pub IsLimited : Error → GraphError → Type 0
IsLimited e ge =
    (as_graph_error e ≡ some ge)
    × ((ge.code ≡ 4) ⊎ (ge.code ≡ 17) ⊎ (ge.code ≡ 32) ⊎ (ge.code ≡ 613) ⊎ (ge.http_status ≡ 429))

-- The network after the first request and the wait.
abbrev pub waited : Duration → Net → Net
waited d n = record n { waits = d ∷ n.waits; step = suc n.step }

-- How long the client waits: as long as the error says, or else `delay`.
abbrev pub WaitsFor : Duration → GraphError → Duration → Type 0
WaitsFor delay ge d =
    ((ge.retry_after ≡ 0) × (d ≡ delay)) ⊎ ((ge.retry_after ≢ 0) × (d ≡ ge.retry_after))

is_rate_limit-or :
    (ge : GraphError)
    → is_rate_limit ge ≡ true
    → (ge.code ≡ 4) ⊎ (ge.code ≡ 17) ⊎ (ge.code ≡ 32) ⊎ (ge.code ≡ 613) ⊎ (ge.http_status ≡ 429)
unfolding is_rate_limit
is_rate_limit-or ge h = ground arith

is_rate_limit-none :
    (ge : GraphError)
    → is_rate_limit ge ≡ false
    → ((ge.code ≡ 4) ⊎ (ge.code ≡ 17) ⊎ (ge.code ≡ 32) ⊎ (ge.code ≡ 613) ⊎ (ge.http_status ≡ 429))
    → ⊥
unfolding is_rate_limit
is_rate_limit-none ge h one = ground arith

module _ (w : Wire) (c : Client) (env : NetEnv) where
  delay_of-WaitsFor : (ge : GraphError) → WaitsFor c.retry_delay ge (delay_of w c env ge)
  delay_of-WaitsFor ge = ground arith

  -- Where the first request is answered, or fails with an error other than a limit of the rate, the
  -- call is that request. Where it fails with such a limit, which is a Graph error with the code 4, 17,
  -- 32 or 613 or the status 429, the call waits once: for the `retry_after` of the error, or, where that
  -- is 0, for the delay of the client. Then it repeats the request, and its outcome is the call's; or
  -- the call ends with the context's error where the context is done before the wait ends.
  pub call-retry :
      (m : Method) (url token : String) (ps : Params) (n : Net)
      → ((call w c env m url token ps n ≡ call_once w c env m url token ps n)
          × (((body : Bytes) × ((call_once w c env m url token ps n).0 ≡ ok body))
              ⊎ ((e : Error) × ((call_once w c env m url token ps n).0 ≡ err e)
                  × ((ge : GraphError) → ¬ IsLimited e ge))))
        ⊎ ((e : Error) × (ge : GraphError) × (d : Duration) × ((call_once w c env m url token ps
                n).0
              ≡ err e)
            × IsLimited e ge
            × WaitsFor c.retry_delay ge d
            × (((x : Error) × (env.done (call_once w c env m url token ps n).1.step ≡ some x)
                  × ((call w c env m url token ps n).0 ≡ err x))
                ⊎ ((env.done (call_once w c env m url token ps n).1.step ≡ none)
                    × (call w c env m url token ps n
                        ≡ call_once w c env m url token ps
                            (waited d (call_once w c env m url token ps n).1)))))
  unfolding call settled again wait attempt ◌>>=◌
  call-retry m url token ps n = elim (Result-cases (call_once w c env m url token ps n).0) [
    | inr (body, good) ↦ inl (ground arith, inl (body, good))
    | inl (e, bad) ↦ elim (Option-cases (as_graph_error e)) [
      | inl other ↦ inl (ground arith, inr (e, bad, λ ge both. absurd (ground (arith, both.0))))
      | inr (ge, found) ↦ elim (Bool-cases (is_rate_limit ge)) [
        | inr no_limit ↦ inl (
          ground arith,
          inr (
            e,
            bad,
            λ x both.
                let same : ge ≡ x = ground (arith, both.0) in
                is_rate_limit-none x (rw (← same) no_limit) both.1,
          ),
        )
        | inl limit ↦
            let why : IsLimited e ge = (found, is_rate_limit-or ge limit) in
            let long = delay_of-WaitsFor ge in
            elim (Option-cases (env.done (call_once w c env m url token ps n).1.step)) [
              | inl free ↦
                  inr (e, ge, delay_of w c env ge, bad, why, long, inr (free, ground arith))
              | inr (x, over) ↦
                  inr (e, ge, delay_of w c env ge, bad, why, long, inl (x, over, ground arith))
            ]
      ]
    ]
  ]
