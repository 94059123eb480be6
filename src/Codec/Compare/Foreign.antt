-- ===== src/Codec/Compare/Foreign.antt =====
-- What the function CodecListsCompare returns on any two lists.
use go_mrcp.Prelude.{
  ℕ, zero, suc, ◌≤◌, ◌<◌, ◌≡◌, refl, inl, inr, arith, Bool, true, false, ltb, if◌then◌else◌, List,
  [], ◌∷◌, some, length, drop, Bool-cases,
}
use go_mrcp.Codec.Descriptor.{CodecDescriptor, descriptors_match_refl}
use go_mrcp.Codec.Compare.{
  Compared, ret, panic, skip_disabled, skip_foreign, foreign_round, foreign_loop, lists_compare,
}
use go_mrcp.Codec.Compare.Laws.{lists_compare_longer}

-- Is no descriptor of the list enabled?
pub none_enabled : List CodecDescriptor → Bool
none_enabled [] = true
none_enabled (d ∷ l) = if d.enabled then false else none_enabled l

-- Where the two inner loops stop, both from the same index of the first list: `n` is how far it is
-- from there to the size of the second list.
data Stop (l : List CodecDescriptor) (n : ℕ) : Type 0 where
  found :
      (d : CodecDescriptor) (r : List CodecDescriptor) (m : ℕ)
      → skip_disabled l ≡ d ∷ r
      → skip_foreign l n ≡ some (d ∷ r, suc m)
      → none_enabled (drop n l) ≡ none_enabled (drop m r)
      → m ≤ length r
      → length r < length l
      → Stop l n
  past :
      skip_foreign l n ≡ some (drop n l, zero)
      → skip_disabled l ≡ skip_disabled (drop n l)
      → Stop l n

Stop-cons :
    (d : CodecDescriptor) (l : List CodecDescriptor) (n : ℕ)
    → d.enabled ≡ false
    → Stop l n
    → Stop (d ∷ l) (suc n)
unfolding skip_disabled skip_foreign
Stop-cons d l n e (found a r m p q s t u) = found a r m (simp e p) (simp e q) s t (omega arith)
Stop-cons d l n e (past p q) = past (simp e p) (simp e q)

stops : (l : List CodecDescriptor) (n : ℕ) → n ≤ length l → Stop l n
unfolding skip_disabled skip_foreign
stops [] zero h = past refl refl
stops [] (suc n) h = absurd (omega arith)
stops (d ∷ l) zero h = past refl refl
stops (d ∷ l) (suc n) h = elim (Bool-cases d.enabled) [
  | inl e ↦ found d l n (simp e) (simp e) refl (omega arith) (omega arith)
  | inr e ↦ Stop-cons d l n e (stops l n (omega arith))
]

past_lem :
    (next : List CodecDescriptor → List CodecDescriptor → ℕ → Compared) (l r : List CodecDescriptor)
    → foreign_round next (skip_disabled l) (some (r, zero)) ≡ ret (none_enabled l)
unfolding foreign_round skip_disabled none_enabled
past_lem next [] r = refl
past_lem next (d ∷ l) r = elim (Bool-cases d.enabled) [
  | inl e ↦ simp e
  | inr e ↦ simp e (past_lem next l r)
]

round_at :
    (fuel : ℕ) (l : List CodecDescriptor) (n : ℕ)
    → Stop l n
    → length l ≤ fuel
    → ((r : List CodecDescriptor) (m : ℕ)
        → length r < fuel
        → m ≤ length r
        → foreign_loop fuel r r m ≡ ret (none_enabled (drop m r)))
    → foreign_round (foreign_loop fuel) (skip_disabled l) (skip_foreign l n)
      ≡ ret (none_enabled (drop n l))
round_at fuel l n (found d r m p q s t u) h ih =
    rw (p, q, s) (unfold foreign_round in rw (descriptors_match_refl d) (ih r m (omega arith) t))
round_at fuel l n (past p q) h ih = rw (p, q) (past_lem (foreign_loop fuel) (drop n l) (drop n l))

foreign_shorter :
    (fuel : ℕ) (l : List CodecDescriptor) (n : ℕ)
    → length l < fuel
    → n ≤ length l
    → foreign_loop fuel l l n ≡ ret (none_enabled (drop n l))
unfolding foreign_loop
foreign_shorter zero l n h k = absurd (omega arith)
foreign_shorter (suc fuel) l n h k =
    round_at fuel l n (stops l n k) (omega arith) (λ r m p q. foreign_shorter fuel r m p q)

shorter :
    (l1 l2 : List CodecDescriptor)
    → length l2 ≤ length l1
    → lists_compare l1 l2 ≡ ret (none_enabled (drop (length l2) l1))
unfolding lists_compare
shorter l1 l2 h = foreign_shorter (suc (length l1)) l1 (length l2) (omega arith) h

-- The function CodecListsCompare panics exactly on a second list that is longer than the first. On
-- any other it returns whether the first list has no enabled descriptor from the size of the second
-- on, whatever descriptors the second list holds.
pub lists_compare_lem :
    (l1 l2 : List CodecDescriptor)
    → lists_compare l1 l2
      ≡ (if ltb (length l1) (length l2) then panic else ret (none_enabled (drop (length l2) l1)))
lists_compare_lem l1 l2 = ground (arith, lists_compare_longer l1 l2, shorter l1 l2)
