-- ===== src/Meta/Client/Paging.antt =====
-- Reading a list to its end, against the list that the pages hold together.
use meta_mcp.Prelude.{
  ℕ, zero, suc, ◌+◌, ◌≤◌, ◌≡◌, ◌≢◌, refl, ap, String, List, [], ◌∷◌, ◌++◌, arith, eq_iff, length,
  take, eqb, if◌then◌else◌,
}
use mathlib.Core.List.{append_assoc}
use meta_mcp.Exec.{ok, ◌>>=◌}
use meta_mcp.Meta.Wire.{Params, ListBody, Raw, Net, NetEnv, get_method}
use meta_mcp.Meta.Client.{max_pages, endpoint, collect_from, collect, call, Client, Wire}
use meta_mcp.Crypto.{Bytes}

-- No limit at 0.
abbrev pub limit_to : ℕ → List Raw → List Raw
limit_to limit xs = if eqb limit 0 then xs else take limit xs

take-append_of_le :
    (limit : ℕ) (xs ys : List Raw) → limit ≤ length xs → take limit (xs ++ ys) ≡ take limit xs
take-append_of_le zero xs ys h = refl
take-append_of_le (suc limit) [] ys h = absurd (omega arith)
take-append_of_le (suc limit) (x ∷ xs) ys h =
    ap (λ r. x ∷ r) (take-append_of_le limit xs ys (omega arith))

take_all : (limit : ℕ) (xs : List Raw) → length xs ≤ limit → take limit xs ≡ xs
take_all zero [] h = refl
take_all zero (x ∷ xs) h = absurd (omega arith)
take_all (suc limit) [] h = refl
take_all (suc limit) (x ∷ xs) h = ap (λ r. x ∷ r) (take_all limit xs (omega arith))

module _ (w : Wire) (c : Client) (env : NetEnv) where
  -- A GET of this address without a token is answered with this body, at every step.
  abbrev pub Answers : String → Bytes → Type 0
  Answers url body =
      (n : Net) → (net : Net) × (call w c env get_method url "" [] n ≡ (ok body, net))

  -- `Pages body all k`: the list that begins with this page has `k` pages, which hold `all`.
  pub data Pages : Bytes → List Raw → ℕ → Type 0 where
    last :
        {body : Bytes} (page : ListBody)
        → w.list_body body ≡ ok page
        → page.next ≡ ""
        → Pages body page.items 1
    more :
        {body next_body : Bytes} {all rest : List Raw} {k : ℕ} (page : ListBody)
        → w.list_body body ≡ ok page
        → page.next ≢ ""
        → Answers page.next next_body
        → Pages next_body rest k
        → all ≡ page.items ++ rest
        → Pages body all (suc k)

  collect_from_lem :
      {body : Bytes} {all : List Raw} {k : ℕ} (pages : Pages body all k) (limit rounds page : ℕ)
      (items : List Raw) (n : Net)
      → k ≤ rounds
      → (collect_from w c env limit rounds page items body n).0 ≡ ok (limit_to limit (items ++ all))
  unfolding collect_from ◌>>=◌
  collect_from_lem (last p read end) limit zero page items n enough = absurd (omega arith)
  collect_from_lem (last p read end) limit (suc rounds) page items n enough =
      ground (arith, eq_iff p.next "", take_all limit (items ++ p.items))
  collect_from_lem (more p read unfinished next rest split) limit zero page items n enough =
      absurd (omega arith)
  collect_from_lem (more {rest = rest_items} p read unfinished next rest split) limit (suc rounds)
        page items n enough =
      let (net, went) = next n in
      let tail =
        collect_from_lem rest limit rounds (page + 1) (items ++ p.items) net (omega arith) in
      ground (
        arith,
        eq_iff p.next "",
        take-append_of_le limit (items ++ p.items) rest_items,
        append_assoc items p.items rest_items,
      )

  -- Where Meta answers each of at most 50 pages, `collect` returns the items of all pages in order,
  -- cut to the limit where there is one.
  pub collect-limit_to :
      (token path : String) (ps : Params) (limit : ℕ) (n : Net) {body : Bytes} {net : Net}
      {all : List Raw} {k : ℕ}
      → call w c env get_method (endpoint w c env path) token ps n ≡ (ok body, net)
      → Pages body all k
      → k ≤ max_pages
      → (collect w c env token path ps limit n).0 ≡ ok (limit_to limit all)
  unfolding collect ◌>>=◌
  collect-limit_to token path ps limit n {body} {net} {all} {k} first pages enough =
      ground (arith, collect_from_lem pages limit max_pages 0 [] net enough)
