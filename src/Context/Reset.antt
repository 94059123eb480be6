-- ===== src/Context/Reset.antt =====
-- ContextDestroy and ContextAssociationsReset of mpf/mpf_context.go: the whole
-- context taken down. `(*Termination).TerminationSubtract` has no body but `return nil`.
use go_mrcp.Prelude.{
  ℕ, zero, suc, ◌+◌, ◌<◌, ◌≡◌, refl, ◌∙◌, inl, inr, arith, Bool, true, not, ◌||◌, ltb, ◌&&◌,
  if◌then◌else◌, none, some, Bool-cases,
}
use go_mrcp.Prelude.Int.{pos}
use go_mrcp.Context.{
  Context, Store, Outcome, done, panic, is_nil, switch, dissociate_one, subtract_from,
  termination_subtract,
}

-- What follows the subtraction of one termination, whose result is dropped.
abbrev pub after_subtract : (Context → Store → Outcome Bool) → Outcome Bool → Outcome Bool
after_subtract next panic = panic
after_subtract next (done c store ok) = next c store

-- The loop of ContextDestroy from slot `i` on, of `left` slots.
unfoldable pub destroy_from : ℕ → ℕ → Context → Store → Outcome Bool
unfolding termination_subtract
destroy_from i zero c store = done c store true
destroy_from i (suc left) c store = elim (c.header i).termination [
  | none ↦ destroy_from (i + 1) left c store
  | some t ↦ after_subtract (destroy_from (i + 1) left) (termination_subtract c store t)
]

unfoldable pub context_destroy : Context → Store → Outcome Bool
unfolding destroy_from
context_destroy c store = destroy_from 0 c.capacity c store

-- The inner loop of ContextAssociationsReset for slot `i`, from slot `j` on.
unfoldable pub reset_row : ℕ → ℕ → ℕ → Context → Context
unfolding dissociate_one
reset_row i j zero c = c
reset_row i j (suc left) c =
    reset_row i (j + 1) left
      (if is_nil (c.header j).termination then c else dissociate_one (dissociate_one c i j) j i)

-- The outer loop; `k` is how many of the slots before had a termination. `left` is how many slots
-- there are from `i` on.
unfoldable pub reset_from : ℕ → ℕ → ℕ → Context → Context
unfolding reset_row
reset_from i k zero c = c
reset_from i k (suc left) c =
    let held = not (is_nil (c.header i).termination) in
    let used = ltb 0 (c.header i).tx_count || ltb 0 (c.header i).rx_count in
    let rest =
      reset_from (i + 1) (if held then k + 1 else k) left
        (if held && used then reset_row i i (suc left) c else c) in
    if ltb k c.count then rest else c

abbrev reset_rest : Outcome Bool → Outcome Bool
reset_rest panic = panic
reset_rest (done c store ok) = done (reset_from 0 0 c.capacity c) store true

unfoldable pub associations_reset : Context → Store → Outcome Bool
unfolding context_destroy reset_from
associations_reset c store = reset_rest (context_destroy c store)

-- The terminations of two contexts are the same.
pub record Same (c d : Context) : Type 0 where
  pub capacity_same : d.capacity ≡ c.capacity
  pub held_same : (k : ℕ) → (d.header k).termination ≡ (c.header k).termination

pub Same-trans : (c d e : Context) → Same c d → Same d e → Same c e
Same-trans c d e s t = record {
  capacity_same = t.capacity_same ∙ s.capacity_same;
  held_same = λ k. t.held_same k ∙ s.held_same k;
}

pub dissociate_one-Same : (c : Context) (i j : ℕ) → Same c (dissociate_one c i j)
unfolding dissociate_one switch
dissociate_one-Same c i j = record { capacity_same = ground arith; held_same = λ k. ground arith }

pub subtract_from-Same : (c : Context) (i j k left : ℕ) → Same c (subtract_from c i j k left)
unfolding subtract_from
subtract_from-Same c i j k zero = record { capacity_same = refl; held_same = λ l. refl }
subtract_from-Same c i j k (suc left) = elim (Bool-cases (ltb k c.count)) [
  | inr n ↦ rw n (record { capacity_same = refl; held_same = λ l. refl })
  | inl y ↦ rw y (elim (Bool-cases (is_nil (c.header j).termination)) [
    | inr n ↦ rw n (subtract_from-Same c i (j + 1) k left)
    | inl z ↦ rw z (
        Same-trans c (dissociate_one (dissociate_one c i j) j i)
          (subtract_from (dissociate_one (dissociate_one c i j) j i) i (j + 1) (k + 1) left)
          (Same-trans c (dissociate_one c i j) (dissociate_one (dissociate_one c i j) j i)
            (dissociate_one-Same c i j) (dissociate_one-Same (dissociate_one c i j) j i))
          (subtract_from-Same (dissociate_one (dissociate_one c i j) j i) i (j + 1) (k + 1) left))
  ])
]

-- Each termination of the context knows its slot.
abbrev pub Placed : Context → Store → Type 0
Placed c store =
    (i t : ℕ) → i < c.capacity → (c.header i).termination ≡ some t → (store t).slot ≡ pos i
