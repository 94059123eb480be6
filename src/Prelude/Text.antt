-- ===== src/Prelude/Text.antt =====
-- Go strings as lists of bytes, with what the program uses of the standard library's `strings` and
-- `strconv`: equality, `strings.EqualFold` on ASCII, `strings.Split`, `strconv.Atoi`.
-- It models no code of the repository.
use Prim.Native.Nat.{◌^◌, ◌%◌, ℕ, ◌+◌, ◌-◌, ◌*◌}
use Prim.Native.Char.{code}
use Prim.Native.String.{String}
use mathlib.Core.Path.{◌≡◌, refl}
use mathlib.Core.Logic.{◌≢◌}
use mathlib.Core.Option.{Option, none, some}
use go_mrcp.Prelude.Lists.{All}
use mathlib.Core.Bool.{Bool, true, false, ◌&&◌}
use mathlib.Core.List.{List, [], ◌∷◌}
use native.Mathlib.Omega.{arith}
use go_mrcp.Prelude.Tests.{ltb, leb, ◌==◌, if◌then◌else◌}

abbrev pub Text : Type 0
Text = List ℕ

-- The bytes of an ASCII literal.
abbrev pub codes : String → Text
codes String.[] = []
codes (String.◌∷◌ c s) = code c ∷ codes s

abbrev pub text_eq : Text → Text → Bool
text_eq [] [] = true
text_eq [] (b ∷ t) = false
text_eq (a ∷ s) [] = false
text_eq (a ∷ s) (b ∷ t) = (a == b) && text_eq s t

-- The lower-case form of an ASCII letter, and any other byte as it is.
abbrev pub fold_case : ℕ → ℕ
fold_case c = if leb b'A' c && leb c b'Z' then c + 32 else c

-- strings.EqualFold on ASCII text.
unfoldable pub equal_fold : Text → Text → Bool
equal_fold [] [] = true
equal_fold [] (b ∷ t) = false
equal_fold (a ∷ s) [] = false
equal_fold (a ∷ s) (b ∷ t) = (fold_case a == fold_case b) && equal_fold s t

pub equal_fold_refl : (s : Text) → equal_fold s s ≡ true
unfolding equal_fold
equal_fold_refl [] = refl
equal_fold_refl (a ∷ s) = ground (arith, equal_fold_refl s)

pub equal_fold_comm : (s t : Text) → equal_fold s t ≡ equal_fold t s
unfolding equal_fold
equal_fold_comm [] [] = refl
equal_fold_comm [] (b ∷ t) = refl
equal_fold_comm (a ∷ s) [] = refl
equal_fold_comm (a ∷ s) (b ∷ t) = ground (arith, equal_fold_comm s t)

-- strings.Split with a separator of one byte: the parts between the separators, one at least.
abbrev with_first : ℕ → List Text → List Text
with_first c [] = (c ∷ []) ∷ []
with_first c (part ∷ parts) = (c ∷ part) ∷ parts

unfoldable pub split : ℕ → Text → List Text
split sep [] = [] ∷ []
split sep (c ∷ s) = let rest = split sep s in if c == sep then [] ∷ rest else with_first c rest

abbrev pub is_digit : ℕ → Bool
is_digit c = leb b'0' c && leb c b'9'

-- The value of a text of decimal digits, after `acc`; `none` at any other byte.
unfoldable pub digits_value : ℕ → Text → Option ℕ
digits_value acc [] = some acc
digits_value acc (c ∷ s) =
    let rest = digits_value (acc * 10 + (c - b'0')) s in if is_digit c then rest else none

-- The bit pattern in 64 bits of what strconv.Atoi returns beside its error: 0 on a syntax error, and
-- the nearest int64 on a value out of range.
abbrev positive_int : Option ℕ → ℕ
positive_int none = 0
positive_int (some n) = if ltb n (2 ^ 63) then n else 2 ^ 63 - 1

abbrev negative_int : Option ℕ → ℕ
negative_int none = 0
negative_int (some n) = if leb n (2 ^ 63) then (2 ^ 64 - n) % 2 ^ 64 else 2 ^ 63

unfoldable pub atoi : Text → ℕ
unfolding digits_value
atoi [] = 0
atoi (c ∷ []) = if is_digit c then c - b'0' else 0
atoi (c ∷ d ∷ s) =
    if c == b'-'
    then negative_int (digits_value 0 (d ∷ s))
    else if c == b'+'
    then positive_int (digits_value 0 (d ∷ s))
    else positive_int (digits_value 0 (c ∷ d ∷ s))

-- A text that begins with neither a digit nor a sign is no number.
pub atoi-name :
    (c : ℕ) (s : Text)
    → is_digit c ≡ false
    → (c == b'-') ≡ false
    → (c == b'+') ≡ false
    → atoi (c ∷ s) ≡ 0
unfolding atoi
atoi-name c [] d m p = rw d
atoi-name c (e ∷ s) d m p = rw (m, p, d)

-- A text without the separator is the only part.
pub split-one : (sep : ℕ) (s : Text) → All (λ c. c ≢ sep) s → split sep s ≡ s ∷ []
unfolding split
split-one sep [] h = refl
split-one sep (c ∷ s) h = rw (split-one sep s h.1) (ground (arith, h.0))
