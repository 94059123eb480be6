-- ===== src/Message/HeaderLaws.antt =====
-- What removing a header property does to the other properties of the section.
use go_mrcp.Prelude.{
  ℕ, zero, suc, ◌+◌, ◌^◌, ◌<◌, ◌≡◌, ◌≢◌, ◌↔◌, refl, ap, ◌∙◌, inl, inr, arith, Bool, true, false,
  ltb, ◌==◌, if◌then◌else◌, List, [], ◌∷◌, Option, none, some, length, get_elem?, set, length-set,
  Bool-cases, ==_iff,
}
use go_mrcp.Prelude.Int.{ℤ, pos, negsuc}
use go_mrcp.Message.Header.{
  Element, HeaderSection, ok, panic, field_check, field_get, field_remove, ring_remove,
  generic_property_remove, generic_property_check, resource_property_remove,
  resource_property_check,
}

get_elem?-set_self :
    {A : Type 0} (xs : List A) (i : ℕ) (v : A) → i < length xs → get_elem? (set xs i v) i ≡ some v
get_elem?-set_self [] i v h = absurd (omega arith)
get_elem?-set_self (x ∷ xs) zero v h = refl
get_elem?-set_self (x ∷ xs) (suc i) v h = get_elem?-set_self xs i v (omega arith)

get_elem?-set_other :
    {A : Type 0} (xs : List A) (i j : ℕ) (v : A) → j ≢ i → get_elem? (set xs i v) j ≡ get_elem? xs j
get_elem?-set_other [] i j v h = refl
get_elem?-set_other (x ∷ xs) zero zero v h = absurd (h refl)
get_elem?-set_other (x ∷ xs) zero (suc j) v h = refl
get_elem?-set_other (x ∷ xs) (suc i) zero v h = refl
get_elem?-set_other (x ∷ xs) (suc i) (suc j) v h = get_elem?-set_other xs i j v (λ e. h (ap suc e))

-- Is the element in the ring?
unfoldable pub in_ring : List Element → ℕ → Bool
in_ring [] pointer = false
in_ring (e ∷ ring) pointer = if e.pointer == pointer then true else in_ring ring pointer

-- The array has a field at the index that the field names, its element is in the ring, and no two
-- indices share an element.
pub record IsWellFormed (header : HeaderSection) : Type 0 where
  pub indexed : (i : ℕ) (e : Element) → get_elem? header.arr i ≡ some (some e) → e.value.id ≡ pos i
  pub linked :
      (i : ℕ) (e : Element)
      → get_elem? header.arr i ≡ some (some e)
      → in_ring header.ring e.pointer ≡ true
  pub distinct :
      (i j : ℕ) (e f : Element)
      → get_elem? header.arr i ≡ some (some e)
      → get_elem? header.arr j ≡ some (some f)
      → e.pointer ≡ f.pointer
      → i ≡ j

in_ring-ring_remove :
    (ring : List Element) (p q : ℕ) → q ≢ p → in_ring (ring_remove ring p) q ≡ in_ring ring q
unfolding in_ring ring_remove
in_ring-ring_remove [] p q h = refl
in_ring-ring_remove (e ∷ ring) p q h = ground (arith, in_ring-ring_remove ring p q h)

length-ring_remove :
    (ring : List Element) (p : ℕ)
    → in_ring ring p ≡ true
    → length (ring_remove ring p) + 1 ≡ length ring
unfolding in_ring ring_remove
length-ring_remove [] p h = absurd (cc)
length-ring_remove (e ∷ ring) p h = ground (arith, length-ring_remove ring p)

-- What the removal of the property at index `i` leaves.
abbrev pub without : HeaderSection → ℕ → Element → HeaderSection
without header i e = record {
  ring = ring_remove header.ring e.pointer;
  arr = set header.arr i none;
}

module _ (header : HeaderSection) (w : IsWellFormed header) (i : ℕ) (e : Element)
    (here : get_elem? header.arr i ≡ some (some e)) where
  in_range : i < length header.arr
  in_range = get-lt header.arr i here
    where
      get-lt :
          (arr : List (Option Element)) (k : ℕ) {o : Option Element}
          → get_elem? arr k ≡ some o
          → k < length arr
      get-lt [] k h = absurd (cc)
      get-lt (x ∷ arr) zero h = omega arith
      get-lt (x ∷ arr) (suc k) h = omega (arith, get-lt arr k h)

  removed : generic_property_remove header (pos i) ≡ ok (without header i e)
  unfolding generic_property_remove
  removed =
      let lt : ltb i (length header.arr) ≡ true = let p = in_range in ground arith in
      rw (generic_property_remove, lt, here, field_remove, w.indexed i e here, lt, here) refl

  other :
      (j : ℕ) (f : Element)
      → get_elem? (set header.arr i none) j ≡ some (some f)
      → (j ≢ i) × (get_elem? header.arr j ≡ some (some f))
  other j f h = elim (Bool-cases (j == i)) [
    | inl y ↦
        let j_is : j ≡ i = (==_iff j i).0 y in
        let bad : some none ≡ some (some f) =
          (let s = get_elem?-set_self header.arr i none in_range in let h' = rw j_is at h in cc) in
        absurd (cc)
    | inr n ↦
        (let ne : j ≢ i = ground arith in
          (ne, (let s = get_elem?-set_other header.arr i j none ne in cc)))
  ]

  without-IsWellFormed : IsWellFormed (without header i e)
  without-IsWellFormed = record {
    indexed = λ j f h. w.indexed j f (other j f h).1;
    linked = λ j f h.
        let (ne, there) = other j f h in
        rw
          (in_ring-ring_remove header.ring e.pointer f.pointer
            (λ p. ne (w.distinct j i f e there here p)))
          (w.linked j f there);
    distinct = λ j k f g h l p. w.distinct j k f g (other j f h).1 (other k g l).1 p;
  }

  check_after :
      (j : ℕ)
      → generic_property_check (without header i e) (pos j)
        ≡ (if j == i then ok false else generic_property_check header (pos j))
  unfolding generic_property_check field_check
  check_after j = elim (Bool-cases (j == i)) [
    | inl y ↦
        let j_is : j ≡ i = (==_iff j i).0 y in
        let lt : ltb i (length (set header.arr i none)) ≡ true =
          let p = in_range in ground (arith, length-set header.arr i none) in
        rw (y, j_is, lt, get_elem?-set_self header.arr i none in_range) refl
    | inr n ↦
        let ne : j ≢ i = ground arith in
        rw (n, length-set header.arr i none, get_elem?-set_other header.arr i j none ne) refl
  ]

  -- Removing a header property that is set, from a well-formed section, succeeds. Its check is false
  -- from then on, that of every other property is as before, the ring has one element less, and the
  -- section is well-formed.
  pub generic_property_remove_set :
      (after : HeaderSection) × (generic_property_remove header (pos i) ≡ ok after)
      × IsWellFormed after
      × ((j : ℕ)
          → generic_property_check after (pos j)
            ≡ (if j == i then ok false else generic_property_check header (pos j)))
      × (length after.ring + 1 ≡ length header.ring)
  generic_property_remove_set = (
    without header i e,
    removed,
    without-IsWellFormed,
    check_after,
    length-ring_remove header.ring e.pointer (w.linked i e here),
  )

-- A negative id, or one in the array with no field.
abbrev pub Unset : HeaderSection → ℤ → Type 0
Unset header (negsuc n) = Unit {0}
Unset header (pos i) = get_elem? header.arr i ≡ some none

out_of_range :
    (header : HeaderSection) (i : ℕ)
    → get_elem? header.arr i ≡ none
    → ltb i (length header.arr) ≡ false
out_of_range header i h = beyond header.arr i h
  where
    beyond :
        (arr : List (Option Element)) (k : ℕ) → get_elem? arr k ≡ none → ltb k (length arr) ≡ false
    beyond [] k h = ground arith
    beyond (x ∷ arr) zero h = absurd (cc)
    beyond (x ∷ arr) (suc k) h = ground (arith, beyond arr k h)

unset_in_range :
    (arr : List (Option Element)) (k : ℕ) → get_elem? arr k ≡ some none → ltb k (length arr) ≡ true
unset_in_range [] k h = absurd (cc)
unset_in_range (x ∷ arr) zero h = ground arith
unset_in_range (x ∷ arr) (suc k) h = ground (arith, unset_in_range arr k h)

Unset-panics :
    (header : HeaderSection) (id : ℤ) → Unset header id → generic_property_remove header id ≡ panic
unfolding generic_property_remove field_get
Unset-panics header (negsuc n) h = refl
Unset-panics header (pos i) h = rw (unset_in_range header.arr i h, h) refl

panics_unset :
    (header : HeaderSection) (w : IsWellFormed header) (i : ℕ) (o : Option (Option Element))
    → get_elem? header.arr i ≡ o
    → generic_property_remove header (pos i) ≡ panic
    → get_elem? header.arr i ≡ some none
unfolding generic_property_remove field_get
panics_unset header w i none e h = let h' = rw (out_of_range header i e) at h in absurd (cc)
panics_unset header w i (some none) e h = e
panics_unset header w i (some (some x)) e h =
    let r = (generic_property_remove_set header w i x e).1 in absurd (cc)

panics_Unset :
    (header : HeaderSection) (w : IsWellFormed header) (id : ℤ)
    → generic_property_remove header id ≡ panic
    → Unset header id
panics_Unset header w (negsuc n) h = tt
panics_Unset header w (pos i) h = panics_unset header w i (get_elem? header.arr i) refl h

-- Removing a header property from a well-formed section panics exactly when its id is negative, or
-- is one of the array's and the property is not set.
pub generic_property_remove-panic_iff :
    (header : HeaderSection) (id : ℤ)
    → IsWellFormed header
    → (generic_property_remove header id ≡ panic) ↔ Unset header id
generic_property_remove-panic_iff header id w = (panics_Unset header w id, Unset-panics header id)

resource_check :
    (header : HeaderSection) (j : ℕ)
    → j + 16 < 2 ^ 63
    → resource_property_check header (pos j) ≡ generic_property_check header (pos (j + 16))
unfolding resource_property_check generic_property_check
resource_check header j lt =
    let l : ltb (j + 16) (2 ^ 63) ≡ true = ground arith in rw (resource_property_check, l) refl

-- The properties of a resource stand behind the generic ones: one that is set is removed, no check of
-- a generic property changes, and of the resource's own only that one's, which becomes false. The ids
-- are such that adding the count of the generic ones does not wrap around.
pub resource_property_remove_set :
    (header : HeaderSection) (i : ℕ) (e : Element)
    → i + 16 < 2 ^ 63
    → IsWellFormed header
    → get_elem? header.arr (i + 16) ≡ some (some e)
    → (after : HeaderSection) × (resource_property_remove header (pos i) ≡ ok after)
      × ((j : ℕ)
          → j < 16
          → generic_property_check after (pos j) ≡ generic_property_check header (pos j))
      × ((j : ℕ)
          → j + 16 < 2 ^ 63
          → resource_property_check after (pos j)
            ≡ (if j == i then ok false else resource_property_check header (pos j)))
unfolding resource_property_remove
resource_property_remove_set header i e small w here =
    let l : ltb (i + 16) (2 ^ 63) ≡ true = ground arith in
    let (after, done, well, checks, ring) = generic_property_remove_set header w (i + 16) e here in
    (
      after,
      rw (resource_property_remove, l) (unfold generic_property_remove in done),
      λ j lt. let n : (j == i + 16) ≡ false = ground arith in checks j ∙ rw n refl,
      λ j lt.
          let n : (j + 16 == i + 16) ≡ (j == i) = ground arith in
          rw (resource_check after j lt, resource_check header j lt, checks (j + 16), n) refl,
    )
