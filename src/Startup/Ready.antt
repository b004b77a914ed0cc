-- ===== src/Startup/Ready.antt =====
-- Why a start fails.
use meta_mcp.Prelude.{◌≡◌, ◌⊎◌, inl, inr, arith}
use meta_mcp.Domain.Errors.{Error, wrap}
use meta_mcp.Exec.{Result, ok, err, ◌>>=◌, or_return}
use meta_mcp.Exec.Run.{Result-cases}
use meta_mcp.World.{Env, World, ask, tick}
use meta_mcp.Crypto.{Bytes, Aead, new_cipher}
use meta_mcp.Store.Opening.{Disk, Schema, new_store}
use meta_mcp.Store.Oauth.{purge_expired}
use meta_mcp.Config.{Config, Variables, load}
use meta_mcp.Config.Valid.{load-IsValid}
use meta_mcp.Startup.{start}

module _ (v : Variables) (gcm : Bytes → Result Error Aead) (env : Env) where
  new_cipher-loaded :
      {cfg : Config}
      → load v ≡ ok cfg
      → new_cipher gcm cfg.token_cipher_key ≡ gcm cfg.token_cipher_key
  unfolding new_cipher
  new_cipher-loaded {cfg} loaded = ground (arith, (load-IsValid v loaded).cipher_key)

  -- A start fails only with the error of the configuration; or, with a configuration, with the error
  -- of AES-GCM for its key; or with the error of opening its database; or, with the database open,
  -- with the wrapped error of the purge. The check of the key's size in the cipher never refuses a
  -- key that the configuration accepted.
  pub start-error :
      (disk : Disk) (schema : Schema) (w : World) {e : Error}
      → (start v gcm disk schema env w).0 ≡ err e
      → (load v ≡ err e)
        ⊎ ((cfg : Config) × (load v ≡ ok cfg)
            × ((gcm cfg.token_cipher_key ≡ err e)
                ⊎ ((new_store disk cfg.db_path schema).0 ≡ err e)
                ⊎ (((new_store disk cfg.db_path schema).0 ≡ ok tt)
                    × ((x : Error) × ((purge_expired env (env.now w.step) (tick w)).0 ≡ err x)
                        × (e ≡ wrap "purge au démarrage" x)))))
  unfolding start ask or_return ◌>>=◌
  start-error disk schema w {e} h = elim (Result-cases (load v)) [
    | inl (x, bad) ↦ inl (ground arith)
    | inr (cfg, loaded) ↦
        let same = new_cipher-loaded loaded in
        elim (Result-cases (gcm cfg.token_cipher_key)) [
          | inl (x, bad) ↦ inr (cfg, loaded, inl (ground arith))
          | inr (aead, made) ↦ elim (Result-cases (new_store disk cfg.db_path schema).0) [
            | inl (x, shut) ↦ inr (cfg, loaded, inr (inl (ground arith)))
            | inr (u, open_db) ↦
                elim (Result-cases (purge_expired env (env.now w.step) (tick w)).0) [
                  | inl (x, failed) ↦
                      inr (cfg, loaded, inr (inr (open_db, (x, failed, ground arith))))
                  | inr (v, purged) ↦ absurd (ground arith)
                ]
          ]
        ]
  ]
