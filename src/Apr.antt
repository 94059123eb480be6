-- ===== src/Apr.antt =====
-- apr/stack.go and apr/header.go: the dynamic array of the library, a Go slice of elements. A nil
-- element is not modelled: the callers push pointers that are not nil.
use go_mrcp.Prelude.{
  ℕ, zero, suc, ◌-◌, ◌<◌, ◌≡◌, refl, arith, Bool, true, false, ltb, ◌==◌, if◌then◌else◌, List, [],
  ◌∷◌, ◌++◌, Option, none, some, length, get_elem?, length-append, take,
}

module _ {ℓ} {A : Type ℓ} where
  unfoldable pub push : List A → A → List A
  push s e = s ++ (e ∷ [])

  unfoldable pub append : List A → List A → List A
  append s stack = s ++ stack

  -- `s.elements[i]` on a slice, with `none` for an index out of range.
  unfoldable pub index : List A → ℕ → Option A
  index s i = if ltb i (length s) then get_elem? s i else none

  unfoldable pub top : List A → Option A
  top s = if length s == 0 then none else get_elem? s (length s - 1)

  unfoldable pub pop : List A → List A × Option A
  pop s = if length s == 0 then (s, none) else (take (length s - 1) s, get_elem? s (length s - 1))

  unfoldable pub clear : List A → List A × Bool
  clear s = if length s == 0 then (s, false) else ([], true)

  unfoldable pub clone : List A → List A
  clone s = s

  unfoldable new_stack : ℕ → List A
  new_stack n = []

  unfoldable stack_size : List A → ℕ
  stack_size s = length s

  unfoldable is_empty : List A → Bool
  is_empty s = if length s == 0 then true else false

  -- The array of apr/header.go is its stack, and its functions call those of the stack.
  unfoldable new_array_header : ℕ → List A
  unfolding new_stack
  new_array_header n = new_stack n

  unfoldable array_copy : List A → List A
  unfolding clone
  array_copy src = clone src

  unfoldable array_header_index : List A → ℕ → Option A
  unfolding index
  array_header_index a id = index a id

  unfoldable array_header_append : List A → List A → List A
  unfolding append
  array_header_append a ah = append a ah

  take_last : (s : List A) (x : A) → take (length s) (s ++ (x ∷ [])) ≡ s
  take_last [] x = refl
  take_last (y ∷ s) x = rw (take_last s x) refl

  get_last : (s : List A) (x : A) → get_elem? (s ++ (x ∷ [])) (length s) ≡ some x
  get_last [] x = refl
  get_last (y ∷ s) x = get_last s x

  get_before : (s t : List A) (i : ℕ) → i < length s → get_elem? (s ++ t) i ≡ get_elem? s i
  get_before [] t i h = absurd (omega arith)
  get_before (y ∷ s) t zero h = refl
  get_before (y ∷ s) t (suc i) h = get_before s t i (omega arith)

  length-push : (s : List A) (e : A) → length (push s e) ≡ suc (length s)
  unfolding push
  length-push s e = omega (arith, length-append s (e ∷ []))

  get_after : (s : List A) (e : A) (i : ℕ) → length s < i → get_elem? (s ++ (e ∷ [])) i ≡ none
  get_after [] e zero h = absurd (omega arith)
  get_after [] e (suc zero) h = refl
  get_after [] e (suc (suc i)) h = refl
  get_after (y ∷ s) e zero h = absurd (omega arith)
  get_after (y ∷ s) e (suc i) h = get_after s e i (omega arith)

  -- What was pushed last is on top and is what Pop returns, and Pop leaves the stack as it was before
  -- the push.
  pub pop-push : (s : List A) (e : A) → (pop (push s e) ≡ (s, some e)) × (top (push s e) ≡ some e)
  unfolding pop push top
  pop-push s e =
      let n : length (s ++ (e ∷ [])) ≡ suc (length s) = omega (arith, length-append s (e ∷ [])) in
      let m : suc (length s) - 1 ≡ length s = omega arith in
      rw (n, m, take_last s e, get_last s e) (ground arith, ground arith)

module _ {A : Type 0} where
  -- A push keeps every index below the size, puts the new element at the size, and leaves nothing
  -- above it.
  pub index-push :
      (s : List A) (e : A) (i : ℕ)
      → index (push s e) i
        ≡ (if ltb i (length s) then index s i else if i == length s then some e else none)
  unfolding push index
  index-push s e i =
      ground
        (arith, length-append s (e ∷ []), get_last s e, get_before s (e ∷ []) i, get_after s e i)
