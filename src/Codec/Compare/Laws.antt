-- ===== src/Codec/Compare/Laws.antt =====
-- The method CodecListsCompare decides whether the enabled descriptors of two lists match one by one;
-- the function of that name does not look into its second list.
use go_mrcp.Prelude.{
  ℕ, zero, suc, ◌+◌, ◌-◌, ◌≤◌, ◌<◌, ◌≡◌, refl, inl, inr, arith, Bool, true, false, ◌&&◌,
  if◌then◌else◌, List, [], ◌∷◌, Option, none, some, length, Bool-cases,
}
use go_mrcp.Codec.Descriptor.{CodecDescriptor, descriptors_match, descriptors_match_refl}
use go_mrcp.Codec.Compare.{
  ret, panic, skip_disabled, round, compare_loop, lists_compare_method, skip_foreign, foreign_round,
  foreign_loop, lists_compare,
}

unfoldable pub enabled_of : List CodecDescriptor → List CodecDescriptor
enabled_of [] = []
enabled_of (d ∷ l) = if d.enabled then d ∷ enabled_of l else enabled_of l

unfoldable pub all_match : List CodecDescriptor → List CodecDescriptor → Bool
all_match [] [] = true
all_match [] (b ∷ l) = false
all_match (a ∷ k) [] = false
all_match (a ∷ k) (b ∷ l) = descriptors_match a b && all_match k l

-- What an inner loop stops at.
data Skipped (l : List CodecDescriptor) : List CodecDescriptor → Type 0 where
  at_end : enabled_of l ≡ [] → Skipped l []
  at :
      (a : CodecDescriptor) (r : List CodecDescriptor)
      → enabled_of l ≡ a ∷ enabled_of r
      → length r < length l
      → Skipped l (a ∷ r)

-- The same for a longer list that begins with disabled descriptors.
Skipped-cons :
    (d : CodecDescriptor) (l m : List CodecDescriptor)
    → d.enabled ≡ false
    → Skipped l m
    → Skipped (d ∷ l) m
unfolding enabled_of
Skipped-cons d l m e (at_end h) = at_end (simp e h)
Skipped-cons d l m e (at a r h lt) = at a r (simp e h) (omega arith)

skip_disabled-Skipped : (l : List CodecDescriptor) → Skipped l (skip_disabled l)
unfolding skip_disabled enabled_of
skip_disabled-Skipped [] = at_end refl
skip_disabled-Skipped (d ∷ l) = elim (Bool-cases d.enabled) [
  | inl e ↦ simp e (at d l (simp e) (omega arith))
  | inr e ↦ simp e (Skipped-cons d l (skip_disabled l) e (skip_disabled-Skipped l))
]

round_lem :
    (fuel : ℕ) (k l k' l' : List CodecDescriptor)
    → Skipped k k'
    → Skipped l l'
    → length k ≤ fuel
    → ((r s : List CodecDescriptor)
        → length r < fuel
        → compare_loop fuel r s ≡ ret (all_match (enabled_of r) (enabled_of s)))
    → round (compare_loop fuel) k' l' ≡ ret (all_match (enabled_of k) (enabled_of l))
unfolding round all_match
round_lem fuel k l k' l' (at_end e) (at_end f) h ih = rw (e, f) refl
round_lem fuel k l k' l' (at_end e) (at b s f q) h ih = rw (e, f) refl
round_lem fuel k l k' l' (at a r e p) (at_end f) h ih = rw (e, f) refl
round_lem fuel k l k' l' (at a r e p) (at b s f q) h ih =
    rw (e, f) (ground (arith, ih r s (omega arith)))

compare_loop_lem :
    (fuel : ℕ) (k l : List CodecDescriptor)
    → length k < fuel
    → compare_loop fuel k l ≡ ret (all_match (enabled_of k) (enabled_of l))
unfolding compare_loop
compare_loop_lem zero k l h = absurd (omega arith)
compare_loop_lem (suc fuel) k l h =
    round_lem fuel k l (skip_disabled k) (skip_disabled l) (skip_disabled-Skipped k)
      (skip_disabled-Skipped l) (omega arith) (compare_loop_lem fuel)

-- The method ends with a result, which is whether the enabled descriptors of the two lists, in
-- order, are as many and match one by one.
pub lists_compare_method_lem :
    (l1 l2 : List CodecDescriptor)
    → lists_compare_method l1 l2 ≡ ret (all_match (enabled_of l1) (enabled_of l2))
unfolding lists_compare_method
lists_compare_method_lem l1 l2 = compare_loop_lem (suc (length l1)) l1 l2 (omega arith)

length-skip_disabled : (l : List CodecDescriptor) → length (skip_disabled l) ≤ length l
unfolding skip_disabled
length-skip_disabled [] = omega arith
length-skip_disabled (d ∷ l) = ground (arith, length-skip_disabled l)

-- Both indices of the function walk the same array.
skip_foreign-same :
    (l : List CodecDescriptor)
    → skip_foreign l (length l) ≡ some (skip_disabled l, length (skip_disabled l))
unfolding skip_foreign skip_disabled
skip_foreign-same [] = refl
skip_foreign-same (d ∷ l) = ground (arith, skip_foreign-same l)

same_round :
    (fuel : ℕ) (l : List CodecDescriptor)
    → length l ≤ fuel
    → ((r : List CodecDescriptor) → length r < fuel → foreign_loop fuel r r (length r) ≡ ret true)
    → foreign_round (foreign_loop fuel) l (some (l, length l)) ≡ ret true
unfolding foreign_round
same_round fuel [] h ih = refl
same_round fuel (a ∷ r) h ih = rw (descriptors_match_refl a) (ih r (omega arith))

foreign_same :
    (fuel : ℕ) (l : List CodecDescriptor)
    → length l < fuel
    → foreign_loop fuel l l (length l) ≡ ret true
unfolding foreign_loop
foreign_same zero l h = absurd (omega arith)
foreign_same (suc fuel) l h =
    rw (skip_foreign-same l) (
      same_round fuel (skip_disabled l) (omega (arith, length-skip_disabled l)) (foreign_same fuel))

-- The function finds any two lists of the same length equal, whatever their descriptors are.
pub lists_compare_same_length :
    (l1 l2 : List CodecDescriptor) → length l1 ≡ length l2 → lists_compare l1 l2 ≡ ret true
unfolding lists_compare
lists_compare_same_length l1 l2 h = rw (← h) (foreign_same (suc (length l1)) l1 (omega arith))

abbrev longer : List CodecDescriptor → ℕ → Option (List CodecDescriptor × ℕ)
longer [] m = none
longer (a ∷ r) m = some (a ∷ r, suc (length r + suc m))

skip_foreign-longer :
    (l : List CodecDescriptor) (m : ℕ)
    → skip_foreign l (length l + suc m) ≡ longer (skip_disabled l) m
unfolding skip_foreign skip_disabled
skip_foreign-longer [] m = let e : 0 + suc m ≡ suc m = omega arith in rw e refl
skip_foreign-longer (d ∷ l) m =
    let e : suc (length l) + suc m ≡ suc (length l + suc m) = omega arith in
    rw e (elim (Bool-cases d.enabled) [ inl y ↦ simp y | inr n ↦ simp n (skip_foreign-longer l m) ])

longer_round :
    (fuel : ℕ) (l : List CodecDescriptor) (m : ℕ)
    → length l ≤ fuel
    → ((r : List CodecDescriptor)
        → length r < fuel
        → foreign_loop fuel r r (length r + suc m) ≡ panic)
    → foreign_round (foreign_loop fuel) l (longer l m) ≡ panic
unfolding foreign_round
longer_round fuel [] m h ih = refl
longer_round fuel (a ∷ r) m h ih = rw (descriptors_match_refl a) (ih r (omega arith))

foreign_longer :
    (fuel : ℕ) (l : List CodecDescriptor) (m : ℕ)
    → length l < fuel
    → foreign_loop fuel l l (length l + suc m) ≡ panic
unfolding foreign_loop
foreign_longer zero l m h = absurd (omega arith)
foreign_longer (suc fuel) l m h = rw (skip_foreign-longer l m) (
    longer_round fuel (skip_disabled l) m (omega (arith, length-skip_disabled l))
      (λ r p. foreign_longer fuel r m p))

-- The function panics on a second list that is longer than the first.
pub lists_compare_longer :
    (l1 l2 : List CodecDescriptor) → length l1 < length l2 → lists_compare l1 l2 ≡ panic
unfolding lists_compare
lists_compare_longer l1 l2 h =
    let m : ℕ = length l2 - length l1 - 1 in
    let e : length l2 ≡ length l1 + suc m = omega arith in
    rw e (foreign_longer (suc (length l1)) l1 m (omega arith))
