-- ===== src/Codec/Compare.antt =====
-- The two comparisons of codec lists in mpf/mpf_codec_descriptor.go: the method
-- (*CodecList).CodecListsCompare and the function CodecListsCompare.
-- An index of the source is the rest of the array from that index on.
pub mod Laws
pub mod Foreign
use go_mrcp.Prelude.{
  ℕ, zero, suc, Bool, true, false, not, ◌&&◌, ◌==◌, if◌then◌else◌, List, [], ◌∷◌, Option, none,
  some, length,
}
use go_mrcp.Codec.Descriptor.{CodecDescriptor, descriptors_match}

-- What a comparison returns, or the panic of a type assertion on a nil interface; `stuck` is a loop
-- that has used up its fuel.
pub data Compared : Type 0 where
  ret : Bool → Compared
  panic stuck : Compared

-- `for i < Size() { if Enabled { break }; i++ }`
unfoldable pub skip_disabled : List CodecDescriptor → List CodecDescriptor
skip_disabled [] = []
skip_disabled (d ∷ l) = if d.enabled then d ∷ l else skip_disabled l

-- One round of the outer loop, from the two enabled descriptors that were found, or the end of an
-- array; `next` is the rest of the loop. The last test is `i != Size() || j != Size()`.
unfoldable pub round :
    (List CodecDescriptor → List CodecDescriptor → Compared)
    → List CodecDescriptor
    → List CodecDescriptor
    → Compared
round next [] [] = ret true
round next [] (b ∷ l) = ret false
round next (a ∷ k) [] = ret false
round next (a ∷ k) (b ∷ l) = if not (descriptors_match a b) then ret false else next k l

unfoldable pub compare_loop : ℕ → List CodecDescriptor → List CodecDescriptor → Compared
compare_loop zero k l = stuck
compare_loop (suc fuel) k l = round (compare_loop fuel) (skip_disabled k) (skip_disabled l)

-- The method, with fuel for one round more than the first array has descriptors.
unfoldable pub lists_compare_method : List CodecDescriptor → List CodecDescriptor → Compared
unfolding compare_loop
lists_compare_method l1 l2 = compare_loop (suc (length l1)) l1 l2

-- In the function the second inner loop counts to the size of the second list and reads the first
-- one: `l` is the first list from index j on and `n` is what j has to go to that size. `none` is the
-- panic of `nil.(*CodecDescriptor)` past the end of the first list.
unfoldable pub skip_foreign : List CodecDescriptor → ℕ → Option (List CodecDescriptor × ℕ)
skip_foreign l zero = some (l, zero)
skip_foreign [] (suc n) = none
skip_foreign (d ∷ l) (suc n) = if d.enabled then some (d ∷ l, suc n) else skip_foreign l n

unfoldable pub foreign_round :
    (List CodecDescriptor → List CodecDescriptor → ℕ → Compared)
    → List CodecDescriptor
    → Option (List CodecDescriptor × ℕ)
    → Compared
foreign_round next k none = panic
foreign_round next [] (some (l, zero)) = ret true
foreign_round next [] (some (l, suc n)) = ret false
foreign_round next (a ∷ k) (some (l, zero)) = ret false
foreign_round next (a ∷ k) (some ([], suc n)) = panic
foreign_round next (a ∷ k) (some (b ∷ l, suc n)) =
    if not (descriptors_match a b) then ret false else next k l n

unfoldable pub foreign_loop : ℕ → List CodecDescriptor → List CodecDescriptor → ℕ → Compared
foreign_loop zero k l n = stuck
foreign_loop (suc fuel) k l n =
    foreign_round (foreign_loop fuel) (skip_disabled k) (skip_foreign l n)

-- The function, which reads `l2` only for its size.
unfoldable pub lists_compare : List CodecDescriptor → List CodecDescriptor → Compared
unfolding foreign_loop
lists_compare l1 l2 = foreign_loop (suc (length l1)) l1 l1 (length l2)
