-- ===== src/Meta/Handlers/Deletion.antt =====
-- Only Meta can have the data of a user deleted.
use meta_mcp.Prelude.{
  ◌≡◌, ◌≢◌, refl, ap, ◌∙◌, ◌⊎◌, inl, inr, Bool, true, false, not, ◌||◌, String, Option, none, some,
  ◌==◌, cut, trim_right_char, eq_iff, arith, Bool-cases, Option-cases,
}
use meta_mcp.Prelude.Split.{eq_of_bytes_eq}
use meta_mcp.Exec.{raise, ok, ◌>>=◌, or_return, lift, stop_if}
use meta_mcp.Exec.Keeps.{Keeps, keeps_rules}
use meta_mcp.Exec.Run.{Result-cases, >>=-eq-ok}
use meta_mcp.World.{Env, World, ask}
use meta_mcp.App.Login.{delete_by_meta_user_id}
use meta_mcp.Meta.Handlers.{
  HandlerOptions, SignedPayload, Pages, parse_signed_request, data_deletion_handler, halves,
  expected_halves, readable, payload_of,
}
use meta_mcp.Crypto.{Bytes}

stop_if-ok :
    {S E : Type 0} (b : Bool) (e : E) (s : S) {u : Unit {0}} → (stop_if b e s).0 ≡ ok u → b ≡ false
unfolding raise
stop_if-ok true e s h = absurd (ground arith)
stop_if-ok false e s h = refl

not-true : {b : Bool} → not b ≡ false → b ≡ true
not-true {b = true} h = refl
not-true {b = false} h = absurd (ground arith)

module _ (pages : Pages) (o : HandlerOptions) where
  -- The request names this user under a signature made with the app's secret.
  pub record IsSigned (raw : String) (p : SignedPayload) : Type 0 where
    pub signature : String
    pub payload : String
    pub bytes : Bytes
    pub split : cut raw b'.' ≡ some (signature, payload)
    pub signed :
        pages.codec.unbase64 (trim_right_char b'=' signature)
        ≡ some (pages.codec.hmac o.app_secret payload)
    pub decoded : pages.codec.unbase64 (trim_right_char b'=' payload) ≡ some bytes
    pub read : pages.read_payload bytes ≡ some p

  readable-ok :
      (message : String) (r : Option Bytes) {b : Bytes}
      → readable pages o message r ≡ ok b
      → r ≡ some b
  readable-ok message none h = absurd (ground arith)
  readable-ok message (some b) h = ground arith

  halves-ok :
      (raw : String) {p : String × String}
      → expected_halves pages o (halves pages o raw) ≡ ok p
      → cut raw b'.' ≡ some p
  halves-ok raw {p} h = elim (Option-cases (cut raw b'.')) [
    | inl none_e ↦ absurd (ground arith)
    | inr (q, some_e) ↦ elim (Bool-cases (q.0 == "" || q.1 == "")) [
      | inl empty ↦ absurd (ground arith)
      | inr full ↦ ground arith
    ]
  ]

  payload_of-ok :
      (r : Option SignedPayload) {p : SignedPayload} → payload_of pages o r ≡ ok p → r ≡ some p
  payload_of-ok none h = absurd (ground arith)
  payload_of-ok (some p) h = ground arith

  parse_signed_request-IsSigned :
      (raw : String) (w : World) {p : SignedPayload}
      → (parse_signed_request pages o raw w).0 ≡ ok p
      → IsSigned raw p
  unfolding parse_signed_request lift
  parse_signed_request-IsSigned raw w h =
      let (parts, split, h1, at1) = >>=-eq-ok _ _ w h in
      let (sig, read_sig, h2, at2) = >>=-eq-ok _ _ _ h1 in
      let (bytes, read_payload, h3, at3) = >>=-eq-ok _ _ _ h2 in
      let (u, matched, h4, at4) = >>=-eq-ok _ _ _ h3 in
      record {
        signature = parts.0;
        payload = parts.1;
        bytes = bytes;
        split = halves-ok raw split;
        signed =
            readable-ok _ _ read_sig
            ∙ ap (λ b. some b) (eq_of_bytes_eq sig _ (not-true (stop_if-ok _ _ _ matched)));
        decoded = readable-ok _ _ read_payload;
        read = payload_of-ok _ h4;
      }

  parse_signed_request-same :
      (raw : String) (w : World) → (parse_signed_request pages o raw w).1 ≡ w
  unfolding parse_signed_request
  parse_signed_request-same raw w =
      let kept : Keeps (λ x. x ≡ w) (parse_signed_request pages o raw) = search keeps_rules in
      kept.at w refl

  -- A deletion request leaves the database as it is, unless it is signed: it splits at its first dot
  -- into a signature and a payload, the signature decodes to the HMAC of the payload under the secret
  -- of the app, and the payload decodes to the name of a user. Then the database is the one that the
  -- deletion of this user leaves.
  pub data_deletion_handler-IsSigned :
      (env : Env) (parsed : Bool) (raw : String) (w : World)
      → ((data_deletion_handler pages o env parsed raw w).1.db ≡ w.db)
        ⊎ ((p : SignedPayload) × IsSigned raw p
            × (p.user_id ≢ "")
            × ((data_deletion_handler pages o env parsed raw w).1.db
                ≡ (delete_by_meta_user_id env p.user_id w).1.db))
  unfolding data_deletion_handler ◌>>=◌ or_return ask
  data_deletion_handler-IsSigned env false raw w = inl refl
  data_deletion_handler-IsSigned env true raw w =
      let still = parse_signed_request-same raw w in
      elim (Result-cases (parse_signed_request pages o raw w).0) [
        | inl (e, bad) ↦ inl (ground arith)
        | inr (p, good) ↦ elim (Bool-cases (p.user_id == "")) [
          | inl unnamed ↦ inl (ground arith)
          | inr named ↦ inr (
            p,
            parse_signed_request-IsSigned raw w good,
            ground (arith, eq_iff p.user_id ""),
            ground arith,
          )
        ]
      ]
