-- ===== src/Prelude/Decimal.antt =====
-- Decimal numerals and joined texts, which `strconv.Atoi` and `strings.Split` take apart.
-- It models no code of the repository.
use Prim.Native.Nat.{ℕ, zero, suc, ◌^◌, ◌%◌, ◌/◌, ◌<◌, ◌+◌, ◌-◌, ◌*◌}
use mathlib.Core.Path.{◌≡◌, refl, ap, sym, ◌∙◌}
use mathlib.Core.Logic.{◌≢◌, inl, inr}
use mathlib.Core.Option.{Option, none, some}
use mathlib.Core.Bool.{true, false}
use mathlib.Core.List.{List, [], ◌∷◌, ◌++◌}
use native.Mathlib.Omega.{arith}
use go_mrcp.Prelude.Lists.{All, length}
use go_mrcp.Prelude.Tests.{ltb, ◌==◌, if◌then◌else◌, Bool-cases}
use go_mrcp.Prelude.Text.{Text, split, split-one, digits_value, atoi, is_digit}

-- The last `k` digits of a number, without leading zeros.
unfoldable pub decimal_from : ℕ → ℕ → Text
decimal_from zero n = []
decimal_from (suc k) n =
    let rest = decimal_from k (n / 10) in
    if ltb n 10 then (n + b'0') ∷ [] else rest ++ ((n % 10 + b'0') ∷ [])

-- The numeral of a number below 100000.
unfoldable pub decimal : ℕ → Text
unfolding decimal_from
decimal n = decimal_from 5 n

and_then : Option ℕ → ℕ → Option ℕ
and_then none c = none
and_then (some v) c = some (v * 10 + (c - b'0'))

digits_value-snoc :
    (acc : ℕ) (s : Text) (c : ℕ)
    → is_digit c ≡ true
    → digits_value acc (s ++ (c ∷ [])) ≡ and_then (digits_value acc s) c
unfolding digits_value and_then
digits_value-snoc acc [] c h = rw h refl
digits_value-snoc acc (d ∷ s) c h = elim (Bool-cases (is_digit d)) [
  | inl y ↦ rw (y, digits_value-snoc (acc * 10 + (d - b'0')) s c h) refl
  | inr n ↦ rw n refl
]

digit_code : (d : ℕ) → d < 10 → is_digit (d + b'0') ≡ true
digit_code d h = ground arith

one_digit : (n : ℕ) → n < 10 → digits_value 0 ((n + b'0') ∷ []) ≡ some n
unfolding digits_value
one_digit n h = rw (digit_code n h) (ap some (omega arith))

more_digits :
    (k n : ℕ)
    → digits_value 0 (decimal_from k (n / 10)) ≡ some (n / 10)
    → digits_value 0 (decimal_from k (n / 10) ++ ((n % 10 + b'0') ∷ [])) ≡ some n
unfolding and_then
more_digits k n h =
    rw
      (
        digits_value-snoc 0 (decimal_from k (n / 10)) (n % 10 + b'0')
            (digit_code (n % 10) (omega arith)),
        h,
      )
      (ap some (omega arith))

power_of_ten : ℕ → ℕ
power_of_ten zero = 1
power_of_ten (suc k) = 10 * power_of_ten k

digits_value-decimal_from :
    (k n : ℕ) → n < power_of_ten (suc k) → digits_value 0 (decimal_from (suc k) n) ≡ some n
unfolding decimal_from power_of_ten
digits_value-decimal_from zero n h =
    let y : ltb n 10 ≡ true = ground arith in rw y (one_digit n (omega arith))
digits_value-decimal_from (suc k) n h = elim (Bool-cases (ltb n 10)) [
  | inl y ↦ rw y (one_digit n (ground arith))
  | inr l ↦ rw l (more_digits (suc k) n (digits_value-decimal_from k (n / 10) (omega arith)))
]

first_is_digit :
    (acc c : ℕ) (s : Text) (n : ℕ) → digits_value acc (c ∷ s) ≡ some n → is_digit c ≡ true
unfolding digits_value
first_is_digit acc c s n h = ground arith

one_value : (c : ℕ) → is_digit c ≡ true → digits_value 0 (c ∷ []) ≡ some (c - b'0')
unfolding digits_value
one_value c d = rw d (ap some (omega arith))

some-Injective : {a b : ℕ} → some a ≡ some b → a ≡ b
some-Injective e = cc

-- The value of a text of digits, one at least, whose value is an int64.
pub digits_value-atoi :
    (c : ℕ) (s : Text) (n : ℕ) → digits_value 0 (c ∷ s) ≡ some n → n < 2 ^ 63 → atoi (c ∷ s) ≡ n
unfolding atoi
digits_value-atoi c [] n h lt =
    let d = first_is_digit 0 c [] n h in
    let e : digits_value 0 (c ∷ []) ≡ some (c - b'0') = one_value c d in
    let v : some (c - b'0') ≡ some n = sym e ∙ h in rw d (some-Injective v)
digits_value-atoi c (d ∷ s) n h lt =
    let y = first_is_digit 0 c (d ∷ s) n h in
    let m : (c == b'-') ≡ false = ground arith in
    let p : (c == b'+') ≡ false = ground arith in
    let l : ltb n (2 ^ 63) ≡ true = ground arith in rw (m, p, h, l) refl

value_digits :
    (acc : ℕ) (s : Text) (n : ℕ) → digits_value acc s ≡ some n → All (λ c. is_digit c ≡ true) s
unfolding digits_value
value_digits acc [] n h = tt
value_digits acc (c ∷ s) n h =
    let d = first_is_digit acc c s n h in
    let h' : digits_value (acc * 10 + (c - b'0')) s ≡ some n = ground arith in
    (d, value_digits (acc * 10 + (c - b'0')) s n h')

digits_of-decimal : (n : ℕ) → n < 100000 → digits_value 0 (decimal n) ≡ some n
unfolding decimal power_of_ten
digits_of-decimal n h = digits_value-decimal_from 4 n h

snoc-cons : (s : Text) (c : ℕ) → (d : ℕ) × (t : Text) × (s ++ (c ∷ []) ≡ d ∷ t)
snoc-cons [] c = (c, [], refl)
snoc-cons (d ∷ s) c = (d, s ++ (c ∷ []), refl)

decimal_from-cons : (k n : ℕ) → (c : ℕ) × (s : Text) × (decimal_from (suc k) n ≡ c ∷ s)
unfolding decimal_from
decimal_from-cons k n = elim (Bool-cases (ltb n 10)) [
  | inl y ↦ (n + b'0', [], rw y refl)
  | inr l ↦ let (c, s, e) = snoc-cons (decimal_from k (n / 10)) (n % 10 + b'0') in (c, s, rw l e)
]

decimal-cons : (n : ℕ) → (c : ℕ) × (s : Text) × (decimal n ≡ c ∷ s)
unfolding decimal
decimal-cons n = decimal_from-cons 4 n

-- A numeral below 100000 reads as its number, is not empty and has digits only.
pub atoi-decimal :
    (n : ℕ)
    → n < 100000
    → (atoi (decimal n) ≡ n)
      × ((length (decimal n) == 0) ≡ false)
      × All (λ c. is_digit c ≡ true) (decimal n)
atoi-decimal n h =
    let (c, s, e) = decimal-cons n in
    let v = digits_of-decimal n h in
    let v' = rw e at v in
    (
      rw e (digits_value-atoi c s n v' (omega arith)),
      rw e (ground arith),
      value_digits 0 (decimal n) n v,
    )

-- The parts of a text with the separator between each two.
unfoldable pub join : ℕ → List Text → Text
join sep [] = []
join sep (part ∷ []) = part
join sep (part ∷ next ∷ parts) = part ++ (sep ∷ join sep (next ∷ parts))

split-append :
    (sep : ℕ) (s t : Text) → All (λ c. c ≢ sep) s → split sep (s ++ (sep ∷ t)) ≡ s ∷ split sep t
unfolding split
split-append sep [] t h = ground arith
split-append sep (c ∷ s) t h = rw (split-append sep s t h.1) (ground (arith, h.0))

-- Parts, one at least, none of which has the separator, come back.
pub split-join :
    (sep : ℕ) (part : Text) (parts : List Text)
    → All (All (λ c. c ≢ sep)) (part ∷ parts)
    → split sep (join sep (part ∷ parts)) ≡ part ∷ parts
unfolding join
split-join sep part [] h = split-one sep part h.0
split-join sep part (next ∷ parts) h =
    rw (split-append sep part (join sep (next ∷ parts)) h.0)
      (ap (λ ps. part ∷ ps) (split-join sep next parts h.1))

pub All-map : (P Q : ℕ → Type 0) → ((b : ℕ) → P b → Q b) → (s : Text) → All P s → All Q s
All-map P Q f [] h = tt
All-map P Q f (b ∷ s) h = (f b h.0, All-map P Q f s h.1)

pub All-parts :
    (P Q : ℕ → Type 0)
    → ((b : ℕ) → P b → Q b)
    → (parts : List Text) → All (All P) parts
    → All (All Q) parts
All-parts P Q f [] h = tt
All-parts P Q f (s ∷ parts) h = (All-map P Q f s h.0, All-parts P Q f parts h.1)

All-append : (P : ℕ → Type 0) (s t : Text) → All P s → All P t → All P (s ++ t)
All-append P [] t h k = k
All-append P (b ∷ s) t h k = (h.0, All-append P s t h.1 k)

-- What holds of the separator and of every byte of the parts holds of the joined text.
pub All-join :
    (P : ℕ → Type 0) (sep : ℕ) (parts : List Text)
    → P sep
    → All (All P) parts
    → All P (join sep parts)
unfolding join
All-join P sep [] p h = tt
All-join P sep (part ∷ []) p h = h.0
All-join P sep (part ∷ next ∷ parts) p h =
    All-append P part (sep ∷ join sep (next ∷ parts)) h.0 (p, All-join P sep (next ∷ parts) p h.1)
