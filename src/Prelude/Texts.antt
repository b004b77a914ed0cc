-- ===== src/Prelude/Texts.antt =====
-- What the program uses of Go's `strings` and `fmt`, over the native texts.
use Prim.Native.Char.{Char, code}
use Prim.Native.Nat.{ℕ, zero, suc, ◌+◌, ◌/◌, ◌%◌}
use Prim.Native.String.{String}
use Prim.Native.String
use mathlib.Core.List.{List, [], ◌∷◌}
use mathlib.Core.Bool.{Bool, true, false, ◌&&◌, ◌||◌}
use mathlib.Core.Path.{◌≡◌, refl}
use mathlib.Core.Option.{Option, none, some}
use text.Mathlib.Text.{◌==◌}
use meta_mcp.Prelude.Tests.{eqb, leb, ltb, if◌then◌else◌}

-- `unicode.IsSpace`
abbrev pub is_space : ℕ → Bool
is_space c =
    (leb 9 c && leb c 13)
    || eqb c 32
    || eqb c 0x85
    || eqb c 0xa0
    || eqb c 0x1680
    || (leb 0x2000 c && leb c 0x200a)
    || eqb c 0x2028
    || eqb c 0x2029
    || eqb c 0x202f
    || eqb c 0x205f
    || eqb c 0x3000

unfoldable pub trim_left : String → String
trim_left String.[] = ""
trim_left (String.◌∷◌ c s) =
    let rest = trim_left s in if is_space (code c) then rest else String.◌∷◌ c s

unfoldable pub trim_right : String → String
trim_right String.[] = ""
trim_right (String.◌∷◌ c s) =
    let rest = trim_right s in if is_space (code c) && rest == "" then "" else String.◌∷◌ c rest

-- `strings.TrimLeft` and `strings.TrimRight` for a set of one character
unfoldable pub trim_left_char : ℕ → String → String
trim_left_char n String.[] = ""
trim_left_char n (String.◌∷◌ c s) =
    let rest = trim_left_char n s in if eqb (code c) n then rest else String.◌∷◌ c s

unfoldable pub trim_right_char : ℕ → String → String
trim_right_char n String.[] = ""
trim_right_char n (String.◌∷◌ c s) =
    let rest = trim_right_char n s in if eqb (code c) n && rest == "" then "" else String.◌∷◌ c rest

-- `strings.HasPrefix`
unfoldable pub has_prefix : String → String → Bool
has_prefix s String.[] = true
has_prefix String.[] (String.◌∷◌ p ps) = false
has_prefix (String.◌∷◌ c s) (String.◌∷◌ p ps) = eqb (code c) (code p) && has_prefix s ps

-- The parts of `strings.Split(s, sep)` for a separator of one character: at least one.
abbrev pub onto_first : Char → List String → List String
onto_first c [] = []
onto_first c (part ∷ parts) = (String.◌∷◌ c part) ∷ parts

unfoldable pub split_all : ℕ → String → List String
split_all sep String.[] = "" ∷ []
split_all sep (String.◌∷◌ c s) =
    let rest = split_all sep s in if eqb (code c) sep then "" ∷ rest else onto_first c rest

-- `strings.Join`
unfoldable pub join : String → List String → String
join sep [] = ""
join sep (part ∷ []) = part
join sep (part ∷ next ∷ parts) = String.◌++◌ part (String.◌++◌ sep (join sep (next ∷ parts)))

-- `strings.TrimSpace`
unfoldable pub trim_space : String → String
unfolding trim_left trim_right
trim_space s = trim_right (trim_left s)

abbrev pub is_blank : String → Bool
is_blank s = trim_space s == ""

abbrev pub after_first : Char → Option (String × String) → Option (String × String)
after_first d none = none
after_first d (some (a, b)) = some (String.◌∷◌ d a, b)

-- `strings.Cut(s, sep)` for a separator of one character: the text before its first occurrence and
-- the text after it, or `none`.
unfoldable pub cut : String → ℕ → Option (String × String)
cut String.[] sep = none
cut (String.◌∷◌ c s) sep =
    let rest = cut s sep in if eqb (code c) sep then some ("", s) else after_first c rest

-- The character of the second text at the place where the first one holds `c`.
abbrev swap_char : String → String → Char → Char
swap_char String.[] ys c = c
swap_char (String.◌∷◌ x xs) String.[] c = c
swap_char (String.◌∷◌ x xs) (String.◌∷◌ y ys) c =
    let later = swap_char xs ys c in if eqb (code x) (code c) then y else later

map_chars : (Char → Char) → String → String
map_chars f String.[] = ""
map_chars f (String.◌∷◌ c s) = String.◌∷◌ (f c) (map_chars f s)

-- `strings.ToUpper` and `strings.ToLower` as far as a result in ASCII goes: other letters, whose
-- images lie outside ASCII, are left alone. The program compares the results with ASCII texts only.
unfoldable pub to_upper : String → String
unfolding map_chars
to_upper s = map_chars (swap_char "abcdefghijklmnopqrstuvwxyzıſ" "ABCDEFGHIJKLMNOPQRSTUVWXYZIS") s

unfoldable pub to_lower : String → String
unfolding map_chars
to_lower s = map_chars (swap_char "ABCDEFGHIJKLMNOPQRSTUVWXYZİK" "abcdefghijklmnopqrstuvwxyzik") s

trims : trim_space "  a b " ≡ "a b"
unfolding trim_space
trims = refl

cuts : cut "12_34_5" b'_' ≡ some ("12", "34_5")
unfolding cut
cuts = refl

cases : (to_upper "storieſ" ≡ "STORIES") × (to_lower "Hide" ≡ "hide")
unfolding to_upper to_lower
cases = (refl, refl)

abbrev digit : ℕ → String
digit n = String.slice "0123456789" n (n + 1)

-- `fmt` prints a number by `%d` in decimal.
decimal_from : ℕ → ℕ → String → String
decimal_from zero n tail = tail
decimal_from (suc fuel) n tail =
    let more = decimal_from fuel (n / 10) (String.◌++◌ (digit (n % 10)) tail) in
    if ltb n 10 then String.◌++◌ (digit n) tail else more

-- One round for each digit, and a number has at most as many digits as its value plus one.
unfoldable pub decimal : ℕ → String
unfolding decimal_from
decimal n = decimal_from (n + 1) n ""

prints : (decimal 0 ≡ "0") × (decimal 190 ≡ "190")
unfolding decimal
prints = (refl, refl)
