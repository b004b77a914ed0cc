-- ===== src/Prelude/Split.antt =====
-- `strings.Cut` and the texts that it joins; equality of byte sequences.
use Prim.Native.Char.{Char, code}
use Prim.Native.Nat.{ℕ}
use Prim.Native.String.{String}
use Prim.Native.String
use mathlib.Core.Path.{◌≡◌, refl}
use mathlib.Core.Bool.{Bool, true, false, ◌&&◌}
use mathlib.Core.Logic.{◌≢◌}
use mathlib.Core.Option.{none, some}
use mathlib.Core.List.{List, [], ◌∷◌}
use native.Mathlib.Omega.{arith}
use text.Mathlib.TextLemmas.{nil-append, cons-append}
use meta_mcp.Prelude.Tests.{eqb}
use meta_mcp.Prelude.Texts.{cut}

-- The text holds no character with this code.
abbrev pub Lacks : ℕ → String → Type 0
Lacks n String.[] = Unit
Lacks n (String.◌∷◌ c s) = (code c ≢ n) × Lacks n s

abbrev pub one_char : Char → String
one_char c = String.◌∷◌ c ""

-- What is cut at its first separator is joined from a part without the separator and the rest.
pub cut-join :
    (a b : String) (c : Char)
    → Lacks (code c) a
    → cut (String.◌++◌ a (String.◌∷◌ c b)) (code c) ≡ some (a, b)
unfolding cut
cut-join String.[] b c h = rw nil-append (ground arith)
cut-join (String.◌∷◌ d a) b c (ne, h) = rw (cons-append, cut) (ground (arith, cut-join a b c h))

pub cut-none : (s : String) (n : ℕ) → Lacks n s → cut s n ≡ none
unfolding cut
cut-none String.[] n h = refl
cut-none (String.◌∷◌ d s) n (ne, h) = ground (arith, cut-none s n h)

abbrev pub bytes_eq : List ℕ → List ℕ → Bool
bytes_eq [] [] = true
bytes_eq [] (y ∷ ys) = false
bytes_eq (x ∷ xs) [] = false
bytes_eq (x ∷ xs) (y ∷ ys) = eqb x y && bytes_eq xs ys

pub bytes_eq_refl : (xs : List ℕ) → bytes_eq xs xs ≡ true
bytes_eq_refl [] = refl
bytes_eq_refl (x ∷ xs) = ground (arith, bytes_eq_refl xs)

pub eq_of_bytes_eq : (xs ys : List ℕ) → bytes_eq xs ys ≡ true → xs ≡ ys
eq_of_bytes_eq [] [] h = refl
eq_of_bytes_eq [] (y ∷ ys) h = ground arith
eq_of_bytes_eq (x ∷ xs) [] h = ground arith
eq_of_bytes_eq (x ∷ xs) (y ∷ ys) h = ground (arith, eq_of_bytes_eq xs ys)
