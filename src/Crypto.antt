-- ===== src/Crypto.antt =====
-- internal/adapters/crypto/cipher.go: tokens sealed as nonce||ciphertext. AES-GCM itself is the
-- parameter `Aead`; a Go string and its bytes are one text here.
pub mod RoundTrip
use Prim.Native.String
use mathlib.Core.List.{◌++◌}
use meta_mcp.Prelude.{
  take, drop, ℕ, zero, suc, ◌+◌, ◌≤◌, ◌≡◌, String, List, [], ◌∷◌, Option, none, some, length, ltb,
  eqb, not, decimal, if◌then◌else◌,
}
use meta_mcp.Domain.Errors.{Error, text}
use meta_mcp.Exec.{Result, ok, err}

abbrev pub Bytes : Type 0
Bytes = List ℕ

-- `cipher.AEAD` under one key. `open_sealed` gives `none` where `Open` fails.
pub record Aead : Type 0 where
  pub nonce_size : ℕ
  pub overhead : ℕ
  pub seal : Bytes → String → Bytes
  pub open_sealed : Bytes → Bytes → Option String

-- What the documentation of `cipher.AEAD` promises of a text sealed under a nonce.
pub record IsAead (a : Aead) (nonce : Bytes) (s : String) : Type 0 where
  pub opens : a.open_sealed nonce (a.seal nonce s) ≡ some s
  pub grows : a.overhead ≤ length (a.seal nonce s)

-- `nonce` is what `rand.Read` filled in, or its error.
unfoldable pub encrypt : Aead → Result Error Bytes → String → Result Error Bytes
encrypt a (ok nonce) s = ok (nonce ++ a.seal nonce s)
encrypt a (err e) s = err (Error.wrap "nonce" e)

abbrev pub err_ciphertext : Error
err_ciphertext = text "jeton stocké illisible"

opened : Option String → Result Error String
opened (some s) = ok s
opened none = err err_ciphertext

unfoldable pub decrypt : Aead → Bytes → Result Error String
unfolding opened
decrypt a sealed =
    if ltb (length sealed) (a.nonce_size + a.overhead)
    then err err_ciphertext
    else opened (a.open_sealed (take a.nonce_size sealed) (drop a.nonce_size sealed))

abbrev pub key_size : ℕ
key_size = 32

-- `New`: the key's size is checked, and `aes.NewCipher` and `cipher.NewGCM` do the rest.
unfoldable pub new_cipher : (Bytes → Result Error Aead) → Bytes → Result Error Aead
new_cipher gcm key =
    if not (eqb (length key) key_size)
    then err (
        text
          (String.◌++◌ "la clé de chiffrement doit faire 32 octets, pas " (decimal (length key))))
    else gcm key
