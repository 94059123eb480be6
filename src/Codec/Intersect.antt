-- ===== src/Codec/Intersect.antt =====
-- What CodecListMatch and CodecListsIntersect of mpf/mpf_codec_descriptor.go leave in the lists.
pub mod Agreement
use go_mrcp.Prelude.{
  ℕ, suc, ◌+◌, ◌-◌, ◌≤◌, ◌<◌, ◌≡◌, inl, inr, refl, sym, ◌∙◌, arith, Bool, true, false, ◌==◌, ◌&&◌,
  ◌||◌, if◌then◌else◌, List, [], ◌∷◌, map, Option, none, some, length, Option-cases,
}
use native.Mathlib.Decide.{dec_lt}
use mathlib.Core.Path.{subst}
use go_mrcp.Codec.Descriptor.{CodecDescriptor}
use go_mrcp.Codec.Capabilities.{CodecCapabilities, attribs_find, is_some}
use go_mrcp.Codec.Lists.{
  CodecList, Preferred, list_descriptor_find, list_match, match_loop, intersect_one, intersect_loop,
  enable_loop, primary_enabled, lists_intersect,
}

-- A descriptor that the capabilities support, and that was enabled.
abbrev pub is_usable : CodecCapabilities → CodecDescriptor → Bool
is_usable capabilities d = d.enabled && is_some (attribs_find capabilities d)

abbrev pub any_usable : CodecCapabilities → List CodecDescriptor → Bool
any_usable capabilities [] = false
any_usable capabilities (d ∷ arr) = is_usable capabilities d || any_usable capabilities arr

abbrev pub keep_usable : CodecCapabilities → CodecDescriptor → CodecDescriptor
keep_usable capabilities d = record d { enabled = is_usable capabilities d }

match_loop_lem :
    (capabilities : CodecCapabilities) (arr : List CodecDescriptor)
    → match_loop capabilities arr
      ≡ (map (keep_usable capabilities) arr, any_usable capabilities arr)
unfolding match_loop
match_loop_lem capabilities [] = refl
match_loop_lem capabilities (d ∷ arr) = rw (match_loop_lem capabilities arr) (ground arith)

-- CodecListMatch leaves exactly those enabled descriptors enabled whose sampling rate the
-- capabilities support, changes nothing else, and reports whether there is one.
pub list_match_lem :
    (c : CodecList) (capabilities : CodecCapabilities)
    → list_match c (some capabilities) ≡ (
      record c { descriptor_arr = map (keep_usable capabilities) c.descriptor_arr },
      any_usable capabilities c.descriptor_arr,
    )
unfolding list_match
list_match_lem c capabilities = rw (match_loop_lem capabilities c.descriptor_arr) refl

-- The first enabled descriptor of `arr1`, from index `i` on, whose match in `arr2` is enabled, with the
-- index of that match.
abbrev counterpart : Bool → Option (ℕ × CodecDescriptor) → Option ℕ
counterpart false found = none
counterpart true none = none
counterpart true (some (j, d)) = if d.enabled then some j else none

abbrev shared_or : ℕ → Option ℕ → Option (ℕ × ℕ) → Option (ℕ × ℕ)
shared_or i none rest = rest
shared_or i (some j) rest = some (i, j)

pub first_shared : List CodecDescriptor → List CodecDescriptor → ℕ → Option (ℕ × ℕ)
first_shared arr2 [] i = none
first_shared arr2 (d ∷ arr1) i =
    shared_or i (counterpart d.enabled (list_descriptor_find arr2 d))
      (first_shared arr2 arr1 (i + 1))

abbrev pub first_of_pair : Option (ℕ × ℕ) → Option ℕ
first_of_pair none = none
first_of_pair (some (i, j)) = some i

abbrev pub second_of_pair : Option (ℕ × ℕ) → Option ℕ
second_of_pair none = none
second_of_pair (some (i, j)) = some j

abbrev is_at : Option ℕ → ℕ → Bool
is_at none j = false
is_at (some i) j = i == j

-- The array, from index `i` on, with the descriptor at one index enabled and all others disabled.
pub keep_only : Option ℕ → ℕ → List CodecDescriptor → List CodecDescriptor
keep_only o i [] = []
keep_only o i (d ∷ arr) = record d { enabled = is_at o i } ∷ keep_only o (i + 1) arr

abbrev preferred : Option (ℕ × ℕ) → Preferred
preferred o = record {
  primary1 = first_of_pair o;
  event1 = none;
  primary2 = second_of_pair o;
  event2 = none;
}

-- Once a primary descriptor is set, the loop disables the rest.
loop_after :
    (arr2 arr1 : List CodecDescriptor) (i k j : ℕ)
    → k < i
    → intersect_loop arr2 arr1 i (preferred (some (k, j)))
      ≡ (keep_only (some k) i arr1, preferred (some (k, j)))
unfolding intersect_loop intersect_one keep_only
loop_after arr2 [] i k j h = refl
loop_after arr2 (d ∷ arr1) i k j h = ground (arith, loop_after arr2 arr1 (i + 1) k j (omega arith))

first_shared-le :
    (arr2 arr1 : List CodecDescriptor) (i k j : ℕ)
    → first_shared arr2 arr1 i ≡ some (k, j)
    → (i ≤ k) × (k < i + length arr1)
unfolding first_shared
first_shared-le arr2 [] i k j e = cc
first_shared-le arr2 (d ∷ arr1) i k j e = ground (arith, first_shared-le arr2 arr1 (i + 1) k j)

abbrev head_of : CodecDescriptor → ℕ → Option ℕ → CodecDescriptor × Preferred
head_of d i none = (record d { enabled = false }, preferred none)
head_of d i (some j) = (record d { enabled = true }, preferred (some (i, j)))

one_lem :
    (arr2 : List CodecDescriptor) (d : CodecDescriptor) (i : ℕ)
    → intersect_one arr2 d i (preferred none)
      ≡ head_of d i (counterpart d.enabled (list_descriptor_find arr2 d))
unfolding intersect_one
one_lem arr2 d i = ground arith

is_at_later :
    (arr2 arr1 : List CodecDescriptor) (i : ℕ)
    → is_at (first_of_pair (first_shared arr2 arr1 (i + 1))) i ≡ false
is_at_later arr2 arr1 i = elim (Option-cases (first_shared arr2 arr1 (i + 1))) [
  | inl e ↦ rw e
  | inr ((k, j), e) ↦ rw e (ground (arith, first_shared-le arr2 arr1 (i + 1) k j e))
]

first_shared-skip :
    (arr2 arr1 : List CodecDescriptor) (d : CodecDescriptor) (i : ℕ)
    → counterpart d.enabled (list_descriptor_find arr2 d) ≡ none
    → first_shared arr2 (d ∷ arr1) i ≡ first_shared arr2 arr1 (i + 1)
unfolding first_shared
first_shared-skip arr2 arr1 d i e = rw e refl

first_shared-here :
    (arr2 arr1 : List CodecDescriptor) (d : CodecDescriptor) (i j : ℕ)
    → counterpart d.enabled (list_descriptor_find arr2 d) ≡ some j
    → first_shared arr2 (d ∷ arr1) i ≡ some (i, j)
unfolding first_shared
first_shared-here arr2 arr1 d i j e = rw e refl

loop_here :
    (arr2 arr1 : List CodecDescriptor) (d : CodecDescriptor) (i j : ℕ)
    → counterpart d.enabled (list_descriptor_find arr2 d) ≡ some j
    → intersect_loop arr2 (d ∷ arr1) i (preferred none)
      ≡ (keep_only (some i) i (d ∷ arr1), preferred (some (i, j)))
unfolding intersect_loop keep_only
loop_here arr2 arr1 d i j e =
    rw (one_lem arr2 d i, e, loop_after arr2 arr1 (i + 1) i j (omega arith)) (ground arith)

loop_to :
    (arr2 arr1 : List CodecDescriptor) (i : ℕ) (o : Option (ℕ × ℕ))
    → first_shared arr2 arr1 i ≡ o
    → intersect_loop arr2 arr1 i (preferred none)
      ≡ (keep_only (first_of_pair o) i arr1, preferred o)
unfolding intersect_loop keep_only
loop_to arr2 [] i o q = rw (← q) (unfold first_shared in refl)
loop_to arr2 (d ∷ arr1) i o q =
    elim (Option-cases (counterpart d.enabled (list_descriptor_find arr2 d))) [
      | inl e ↦
          let q' : first_shared arr2 arr1 (i + 1) ≡ o =
            sym (first_shared-skip arr2 arr1 d i e) ∙ q in
          let f : is_at (first_of_pair o) i ≡ false =
            subst (λ t. is_at (first_of_pair t) i ≡ false) q' (is_at_later arr2 arr1 i) in
          rw (one_lem arr2 d i, e, loop_to arr2 arr1 (i + 1) o q', f) refl
      | inr (j, e) ↦
          let q' : some (i, j) ≡ o = sym (first_shared-here arr2 arr1 d i j e) ∙ q in
          subst
            (λ t.
              intersect_loop arr2 (d ∷ arr1) i (preferred none)
              ≡ (keep_only (first_of_pair t) i (d ∷ arr1), preferred t))
            q' (loop_here arr2 arr1 d i j e)
    ]

loop_lem :
    (arr2 arr1 : List CodecDescriptor) (i : ℕ)
    → intersect_loop arr2 arr1 i (preferred none) ≡ (
      keep_only (first_of_pair (first_shared arr2 arr1 i)) i arr1,
      preferred (first_shared arr2 arr1 i),
    )
loop_lem arr2 arr1 i = loop_to arr2 arr1 i (first_shared arr2 arr1 i) refl

enable_loop_lem :
    (o : Option (ℕ × ℕ)) (arr : List CodecDescriptor) (j : ℕ)
    → enable_loop arr j (preferred o) ≡ keep_only (second_of_pair o) j arr
unfolding enable_loop keep_only
enable_loop_lem o [] j = refl
enable_loop_lem o (d ∷ arr) j = ground (arith, enable_loop_lem o arr (j + 1))

primary_kept :
    (arr : List CodecDescriptor) (i k : ℕ)
    → i ≤ k
    → k < i + length arr
    → primary_enabled (keep_only (some k) i arr) (some (k - i)) ≡ true
unfolding primary_enabled keep_only
primary_kept [] i k h l = absurd (omega arith)
primary_kept (d ∷ arr) i k h l = elim (dec_lt i k) [
  | yes p ↦
      let e : k - i ≡ suc (k - (i + 1)) = omega arith in
      rw e (primary_kept arr (i + 1) k (omega arith) (omega arith))
  | no p ↦
      let e : k ≡ i = omega arith in let z : i - i ≡ 0 = omega arith in rw (e, z) (ground arith)
]

pub lists_intersect_lem :
    (cl c : CodecList)
    → let shared = first_shared c.descriptor_arr cl.descriptor_arr 0 in
      lists_intersect cl c ≡ (
        record {
          descriptor_arr = keep_only (first_of_pair shared) 0 cl.descriptor_arr;
          primary_descriptor = first_of_pair shared;
          event_descriptor = none;
        },
        record {
          descriptor_arr = keep_only (second_of_pair shared) 0 c.descriptor_arr;
          primary_descriptor = second_of_pair shared;
          event_descriptor = none;
        },
        is_some shared,
      )
unfolding lists_intersect
lists_intersect_lem cl c = elim (Option-cases (first_shared c.descriptor_arr cl.descriptor_arr 0)) [
  | inl e ↦
      rw (loop_lem c.descriptor_arr cl.descriptor_arr 0, e, enable_loop_lem none c.descriptor_arr 0)
        refl
  | inr ((k, j), e) ↦
      let kept =
        primary_kept cl.descriptor_arr 0 k (omega arith)
          (first_shared-le c.descriptor_arr cl.descriptor_arr 0 k j e).1 in
      rw
        (
          loop_lem c.descriptor_arr cl.descriptor_arr 0,
          e,
          enable_loop_lem (some (k, j)) c.descriptor_arr 0,
        )
        (ground arith)
]
