-- ===== src/Crypto/RoundTrip.antt =====
-- Decryption undoes encryption, and refuses what is too short.
use meta_mcp.Prelude.{
  take, drop, ℕ, zero, suc, ◌+◌, ◌≡◌, refl, ap, String, [], ◌∷◌, ◌++◌, length, arith,
}
use meta_mcp.Exec.{ok}
use meta_mcp.Crypto.{Bytes, Aead, IsAead, encrypt, decrypt}

take-append : (xs ys : Bytes) (n : ℕ) → length xs ≡ n → take n (xs ++ ys) ≡ xs
take-append [] ys zero h = refl
take-append [] ys (suc n) h = ground arith
take-append (x ∷ xs) ys zero h = ground arith
take-append (x ∷ xs) ys (suc n) h = ap (λ r. x ∷ r) (take-append xs ys n (omega arith))

drop-append : (xs ys : Bytes) (n : ℕ) → length xs ≡ n → drop n (xs ++ ys) ≡ ys
drop-append [] ys zero h = refl
drop-append [] ys (suc n) h = ground arith
drop-append (x ∷ xs) ys zero h = ground arith
drop-append (x ∷ xs) ys (suc n) h = drop-append xs ys n (omega arith)

length-append : (xs ys : Bytes) → length (xs ++ ys) ≡ length xs + length ys
length-append [] ys = omega arith
length-append (x ∷ xs) ys = omega (arith, length-append xs ys)

-- Under a cipher that keeps its documented promises for a nonce, of the cipher's size, and a text,
-- what `encrypt` returns for them is opened by `decrypt` to that text.
pub decrypt-encrypt :
    (a : Aead) (nonce sealed : Bytes) (s : String)
    → IsAead a nonce s
    → length nonce ≡ a.nonce_size
    → encrypt a (ok nonce) s ≡ ok sealed
    → decrypt a sealed ≡ ok s
unfolding encrypt decrypt
decrypt-encrypt a nonce sealed s law size e =
    let joined : nonce ++ a.seal nonce s ≡ sealed = cc in
    rw (← joined) (
      ground (
        arith,
        take-append nonce (a.seal nonce s) a.nonce_size size,
        drop-append nonce (a.seal nonce s) a.nonce_size size,
        length-append nonce (a.seal nonce s),
        law.opens,
        law.grows,
      ))
