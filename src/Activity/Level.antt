-- ===== src/Activity/Level.antt =====
-- The level of a frame (ActivityDetectorLevelCalculate): when it is computed, and its range.
use go_mrcp.Prelude.{
  ℕ, zero, suc, ◌+◌, ◌*◌, ◌/◌, ◌≤◌, ◌<◌, ◌≡◌, ◌≢◌, refl, ◌↔◌, arith, List, [], ◌∷◌, Option, none,
  some, length, All, Option-cases,
}
use go_mrcp.Prelude.Words.{abs16}
use go_mrcp.Activity.{Frame, measured, eof, div_by_zero, sum_samples, level_of, level_calculate}

-- Each sample adds at most 2 ^ 15.
sum_samples-le :
    (left sum : ℕ) (buffer : List ℕ) {total : ℕ} {rest : List ℕ}
    → All (λ b. b < 256) buffer
    → sum_samples left sum buffer ≡ some (total, rest)
    → total ≤ sum + left * 32768
unfolding sum_samples
sum_samples-le zero sum buffer bytes e = ground arith
sum_samples-le (suc left) sum [] bytes e = ground arith
sum_samples-le (suc left) sum (lo ∷ []) bytes e =
    ground (arith, sum_samples-le left (sum + abs16 lo) [] tt e)
sum_samples-le (suc left) sum (lo ∷ hi ∷ buffer) bytes e =
    ground (arith, sum_samples-le left (sum + abs16 (lo + 256 * hi)) buffer (bytes.1.1) e)

-- The loop fails exactly when the buffer ends before its last sample begins.
sum_samples_iff :
    (left sum : ℕ) (buffer : List ℕ)
    → (sum_samples left sum buffer ≡ none) ↔ (length buffer + 1 < 2 * left)
unfolding sum_samples
sum_samples_iff zero sum buffer = (λ e. cc, λ h. absurd (omega arith))
sum_samples_iff (suc left) sum [] = (λ e. omega arith, λ h. refl)
sum_samples_iff (suc zero) sum (lo ∷ []) = (λ e. cc, λ h. absurd (omega arith))
sum_samples_iff (suc (suc left)) sum (lo ∷ []) = (λ e. omega arith, λ h. refl)
sum_samples_iff (suc left) sum (lo ∷ hi ∷ buffer) =
    let (f, g) = sum_samples_iff left (sum + abs16 (lo + 256 * hi)) buffer in
    (λ e. omega (arith, f e), λ h. g (omega arith))

-- A mean of values up to 2 ^ 15 is at most 2 ^ 15.
mean-le : (total n : ℕ) → total ≤ n * 32768 → n ≢ 0 → total / n ≤ 32768
mean-le total n h ne = grind arith

level_of-le :
    (o : Option (ℕ × List ℕ)) (n l : ℕ) (rest : List ℕ)
    → ((total : ℕ) (left : List ℕ) → o ≡ some (total, left) → total ≤ n * 32768)
    → level_of o n ≡ measured l rest
    → l ≤ 32768
unfolding level_of
level_of-le none n l rest h e = cc
level_of-le (some (total, left)) n l rest h e =
    ground (arith, h total left refl, mean-le total n (h total left refl))

-- LevelCalculate fails with io.EOF exactly when the buffer ends before the last sample begins, and
-- panics exactly on a size of less than one sample.
pub level_calculate_lem :
    (frame : Frame)
    → ((level_calculate frame ≡ eof) ↔ (length frame.buffer + 1 < 2 * (frame.size / 2)))
      × ((level_calculate frame ≡ div_by_zero) ↔ (frame.size < 2))
unfolding level_calculate
level_calculate_lem frame =
    let n : ℕ = frame.size / 2 in
    let (f, g) = sum_samples_iff n 0 frame.buffer in
    (
      (λ e. ground (arith, f), λ h. ground (arith, g h)),
      (λ e. ground arith, λ h. ground (arith, Option-cases (sum_samples n 0 frame.buffer), f)),
    )

-- A level, where one is computed from bytes, is at most 2 ^ 15.
pub level_calculate-le :
    (frame : Frame) (l : ℕ) (rest : List ℕ)
    → All (λ b. b < 256) frame.buffer
    → level_calculate frame ≡ measured l rest
    → l ≤ 32768
unfolding level_calculate
level_calculate-le frame l rest bytes e =
    let n : ℕ = frame.size / 2 in
    level_of-le (sum_samples n 0 frame.buffer) n l rest
      (λ total left e'. omega (arith, sum_samples-le n 0 frame.buffer bytes e')) e
