-- ===== src/Prelude/Tests.antt =====
-- Boolean tests on the native numbers, the conditional, and case splits that keep an equation.
-- It models no code of the repository.
use Prim.Native.Nat.{ℕ, zero, suc, ◌+◌, ◌-◌, ◌≤◌, ◌<◌, compare, Ordering}
use mathlib.Core.Path.{◌≡◌, refl, subst}
use native.Mathlib.Decide.{dec_lt}
use mathlib.Core.Logic.{◌↔◌, ◌⊎◌, inl, inr}
use mathlib.Core.Bool.{Bool, true, false, ◌&&◌}
use mathlib.Core.Option.{Option, none, some}
use native.Mathlib.Omega.{arith}

-- These compute to `compare`, which `ground` and `grind` read with no lemma listed.
abbrev pub ltb : ℕ → ℕ → Bool
ltb a b = elim (compare a b) [ Ordering.lt ↦ true | _ ↦ false ]

abbrev pub leb : ℕ → ℕ → Bool
leb a b = elim (compare a b) [ Ordering.gt ↦ false | _ ↦ true ]

infix 50 ◌==◌
abbrev pub ◌==◌ : ℕ → ℕ → Bool
a == b = elim (compare a b) [ Ordering.eq ↦ true | _ ↦ false ]

infix 1 if◌then◌else◌
abbrev pub if◌then◌else◌ {ℓ} : {A : Type ℓ} → Bool → A → A → A
if true then x else y = x
if false then x else y = y

pub ltb→lt : (a b : ℕ) → ltb a b ≡ true → a < b
ltb→lt a b h = ground arith

pub lt→ltb : (a b : ℕ) → a < b → ltb a b ≡ true
lt→ltb a b h = ground arith

pub leb→le : (a b : ℕ) → leb a b ≡ true → a ≤ b
leb→le a b h = ground arith

pub le→leb : (a b : ℕ) → a ≤ b → leb a b ≡ true
le→leb a b h = ground arith

pub ==_iff : (a b : ℕ) → ((a == b) ≡ true) ↔ (a ≡ b)
==_iff a b = ground arith

pub ruleset tests = (arith, ltb→lt, lt→ltb, leb→le, le→leb)

pub Bool-cases : (b : Bool) → (b ≡ true) ⊎ (b ≡ false)
Bool-cases true = inl refl
Bool-cases false = inr refl

pub Option-cases {ℓ} : {A : Type ℓ} (o : Option A) → (o ≡ none) ⊎ ((a : A) × (o ≡ some a))
Option-cases none = inl refl
Option-cases (some a) = inr (a, refl)

-- Every value of a range of `n` numbers from `base` on, checked by evaluation.
unfoldable pub all_from : ℕ → ℕ → (ℕ → Bool) → Bool
all_from base zero p = true
all_from base (suc n) p = p (base + n) && all_from base n p

pub all_from_sound :
    (base n : ℕ) (p : ℕ → Bool) (k : ℕ) → all_from base n p ≡ true → k < n → p (base + k) ≡ true
unfolding all_from
all_from_sound base zero p k h lt = absurd (omega arith)
all_from_sound base (suc n) p k h lt = ground (arith, all_from_sound base n p k)

pub all_from_at :
    (base n : ℕ) (p : ℕ → Bool) (x : ℕ)
    → all_from base n p ≡ true
    → base ≤ x
    → x < base + n
    → p x ≡ true
all_from_at base n p x h lo hi =
    let e : base + (x - base) ≡ x = omega arith in
    subst (λ y. p y ≡ true) e (all_from_sound base n p (x - base) h (omega arith))

-- A test of every byte.
abbrev pub on_bytes : (ℕ → Bool) → Bool
on_bytes p = all_from 0 256 p

pub on_bytes_sound : (p : ℕ → Bool) (c : ℕ) → on_bytes p ≡ true → c < 256 → p c ≡ true
on_bytes_sound p c e h = all_from_at 0 256 p c e (omega arith) h

-- Every 16-bit word, in four ranges.
pub all_words :
    (p : ℕ → Bool)
    → all_from 0 16384 p ≡ true
    → all_from 16384 16384 p ≡ true
    → all_from 32768 16384 p ≡ true
    → all_from 49152 16384 p ≡ true
    → (x : ℕ) → x < 65536
    → p x ≡ true
all_words p a b c d x h = elim (dec_lt x 32768) [
  | yes lo ↦ elim (dec_lt x 16384) [
    | yes l ↦ all_from_at 0 16384 p x a (omega arith) (omega arith)
    | no l ↦ all_from_at 16384 16384 p x b (omega arith) (omega arith)
  ]
  | no hi ↦ elim (dec_lt x 49152) [
    | yes l ↦ all_from_at 32768 16384 p x c (omega arith) (omega arith)
    | no l ↦ all_from_at 49152 16384 p x d (omega arith) (omega arith)
  ]
]
