-- ===== src/Codec/Intersect/Agreement.antt =====
-- What two codec lists of mpf/mpf_codec_descriptor.go have in common once CodecListsIntersect has
-- been through them.
use go_mrcp.Prelude.{
  ℕ, suc, ◌+◌, ◌-◌, ◌≤◌, ◌<◌, ◌≡◌, ◌⊎◌, inl, inr, refl, ◌∙◌, arith, Bool, true, false, ◌==◌, List,
  [], ◌∷◌, Option, none, some, get_elem?, ==_iff, Bool-cases, Option-cases,
}
use go_mrcp.Codec.Descriptor.{CodecDescriptor, descriptors_match}
use go_mrcp.Codec.Capabilities.{is_some}
use go_mrcp.Codec.Lists.{CodecList, find_from, list_descriptor_find, lists_intersect}
use go_mrcp.Codec.Intersect.{
  first_shared, first_of_pair, second_of_pair, is_at, counterpart, keep_only, lists_intersect_lem,
}
use go_mrcp.Codec.Compare.{ret, lists_compare_method}
use go_mrcp.Codec.Compare.Laws.{enabled_of, all_match, lists_compare_method_lem}

-- What find_from finds.
find_from-some :
    (arr : List CodecDescriptor) (i : ℕ) (d e : CodecDescriptor) (j : ℕ)
    → find_from arr i d ≡ some (j, e)
    → (i ≤ j) × (get_elem? arr (j - i) ≡ some e) × (descriptors_match d e ≡ true)
unfolding find_from
find_from-some [] i d e j h = cc
find_from-some (a ∷ arr) i d e j h = elim (Bool-cases (descriptors_match d a)) [
  | inl y ↦
      let h' = rw y at h in
      let z : j - i ≡ 0 = ground arith in (ground arith, rw z (ground arith), ground arith)
  | inr n ↦
      let (le, at, same) = find_from-some arr (i + 1) d e j (rw n at h) in
      let s : j - i ≡ suc (j - (i + 1)) = omega arith in (omega arith, rw s at, same)
]

-- The two descriptors of the first codec that is shared.
record Shared (arr2 arr1 : List CodecDescriptor) (i k j : ℕ) : Type 0 where
  first : CodecDescriptor
  second : CodecDescriptor
  below : i ≤ k
  first_at : get_elem? arr1 (k - i) ≡ some first
  second_at : get_elem? arr2 j ≡ some second
  found : list_descriptor_find arr2 first ≡ some (j, second)
  same : descriptors_match first second ≡ true

counterpart-some :
    (b : Bool) (o : Option (ℕ × CodecDescriptor)) (j : ℕ)
    → counterpart b o ≡ some j
    → (e : CodecDescriptor) × (b ≡ true) × (o ≡ some (j, e)) × (e.enabled ≡ true)
counterpart-some false o j h = absurd (cc)
counterpart-some true none j h = absurd (cc)
counterpart-some true (some (i, e)) j h = elim (Bool-cases e.enabled) [
  | inl y ↦ let h' = rw y at h in (e, refl, ground arith, y)
  | inr n ↦ absurd (let h' = rw n at h in cc)
]

first_shared-Shared :
    (arr2 arr1 : List CodecDescriptor) (i k j : ℕ)
    → first_shared arr2 arr1 i ≡ some (k, j)
    → Shared arr2 arr1 i k j
unfolding first_shared list_descriptor_find
first_shared-Shared arr2 [] i k j h = absurd (cc)
first_shared-Shared arr2 (d ∷ arr1) i k j h =
    elim (Option-cases (counterpart d.enabled (list_descriptor_find arr2 d))) [
      | inl e ↦
          let rest = first_shared-Shared arr2 arr1 (i + 1) k j (rw e at h) in
          let s : k - i ≡ suc (k - (i + 1)) = omega (arith, rest.below) in
          record {
            first = rest.first;
            second = rest.second;
            below = omega (arith, rest.below);
            first_at = rw s rest.first_at;
            second_at = rest.second_at;
            found = rest.found;
            same = rest.same;
          }
      | inr (j', e) ↦
          let (d2, on, f, on2) = counterpart-some d.enabled (list_descriptor_find arr2 d) j' e in
          let h' : some (i, j') ≡ some (k, j) = rw e at h in
          let at_i : i ≡ k = ground arith in
          let at_j : j' ≡ j = ground arith in
          let z : k - i ≡ 0 = omega arith in
          let r = find_from-some arr2 0 d d2 j' f in
          let s : j' - 0 ≡ j = omega arith in
          record {
            first = d;
            second = d2;
            below = omega arith;
            first_at = rw z refl;
            second_at = rw s at r.1;
            found = rw at_j at f;
            same = r.2;
          }
    ]

-- What is enabled once one descriptor is kept.
enabled_of-keep_none : (arr : List CodecDescriptor) (i : ℕ) → enabled_of (keep_only none i arr) ≡ []
unfolding enabled_of keep_only
enabled_of-keep_none [] i = refl
enabled_of-keep_none (d ∷ arr) i = enabled_of-keep_none arr (i + 1)

enabled_of-keep_before :
    (arr : List CodecDescriptor) (i k : ℕ) → k < i → enabled_of (keep_only (some k) i arr) ≡ []
unfolding enabled_of keep_only
enabled_of-keep_before [] i k h = refl
enabled_of-keep_before (d ∷ arr) i k h =
    let n : (k == i) ≡ false = ground arith in
    rw n (enabled_of-keep_before arr (i + 1) k (omega arith))

enabled_of-keep_only :
    (arr : List CodecDescriptor) (i k : ℕ) (d : CodecDescriptor)
    → i ≤ k
    → get_elem? arr (k - i) ≡ some d
    → enabled_of (keep_only (some k) i arr) ≡ record d { enabled = true } ∷ []
unfolding enabled_of keep_only
enabled_of-keep_only [] i k d h e = absurd (cc)
enabled_of-keep_only (a ∷ arr) i k d h e = elim (Bool-cases (k == i)) [
  | inl y ↦
      let z : k - i ≡ 0 = ground arith in
      let a_is : some a ≡ some d = rw z at e in
      let rest = enabled_of-keep_before arr (i + 1) k (ground arith) in rw (y, rest) (ground arith)
  | inr n ↦
      let s : k - i ≡ suc (k - (i + 1)) = ground arith in
      rw n (enabled_of-keep_only arr (i + 1) k d (ground arith) (rw s at e))
]

keep_only-keep_only :
    (o : Option ℕ) (arr : List CodecDescriptor) (i : ℕ)
    → keep_only o i (keep_only o i arr) ≡ keep_only o i arr
unfolding keep_only
keep_only-keep_only o [] i = refl
keep_only-keep_only o (d ∷ arr) i = rw (keep_only-keep_only o arr (i + 1)) refl

match_enabled :
    (d a : CodecDescriptor) (b c : Bool)
    → descriptors_match (record d { enabled = b }) (record a { enabled = c })
      ≡ descriptors_match d a
unfolding descriptors_match
match_enabled d a b c = refl

-- A search does not read which descriptors are enabled.
find_from-keep_only :
    (o : Option ℕ) (arr : List CodecDescriptor) (i j : ℕ) (d e : CodecDescriptor) (b : Bool)
    → find_from arr i d ≡ some (j, e)
    → find_from (keep_only o i arr) i (record d { enabled = b })
      ≡ some (j, record e { enabled = is_at o j })
unfolding find_from keep_only
find_from-keep_only o [] i j d e b h = cc
find_from-keep_only o (a ∷ arr) i j d e b h = elim (Bool-cases (descriptors_match d a)) [
  | inl y ↦
      let h' : some (i, a) ≡ some (j, e) = rw y at h in
      rw (match_enabled d a b (is_at o i), y) (ground arith)
  | inr n ↦
      rw (match_enabled d a b (is_at o i), n)
        (find_from-keep_only o arr (i + 1) j d e b (rw n at h))
]

first_shared-keep_none :
    (arr2 arr1 : List CodecDescriptor) (i : ℕ) → first_shared arr2 (keep_only none i arr1) i ≡ none
unfolding first_shared keep_only
first_shared-keep_none arr2 [] i = refl
first_shared-keep_none arr2 (d ∷ arr1) i = first_shared-keep_none arr2 arr1 (i + 1)

-- The codec that is kept is the one that is found again.
first_shared-keep_only :
    (arr2 arr1 : List CodecDescriptor) (i k j : ℕ) (d e : CodecDescriptor)
    → i ≤ k
    → get_elem? arr1 (k - i) ≡ some d
    → list_descriptor_find arr2 d ≡ some (j, e)
    → first_shared (keep_only (some j) 0 arr2) (keep_only (some k) i arr1) i ≡ some (k, j)
unfolding first_shared keep_only list_descriptor_find
first_shared-keep_only arr2 [] i k j d e h at found = cc
first_shared-keep_only arr2 (a ∷ arr1) i k j d e h at found = elim (Bool-cases (k == i)) [
  | inl y ↦
      let z : k - i ≡ 0 = ground arith in
      let a_is : some a ≡ some d = rw z at at in
      let a_d : a ≡ d = cc in
      let found_a : find_from arr2 0 a ≡ some (j, e) = rw a_d found in
      let again = find_from-keep_only (some j) arr2 0 j a e true found_a in
      let same_j : (j == j) ≡ true = ground arith in
      let k_i : k ≡ i = (==_iff k i).0 y in rw (y, again, same_j) (ground arith)
  | inr n ↦
      let s : k - i ≡ suc (k - (i + 1)) = ground arith in
      rw n (first_shared-keep_only arr2 arr1 (i + 1) k j d e (ground arith) (rw s at at) found)
]

get_elem?-keep_only :
    (arr : List CodecDescriptor) (i k : ℕ) (d : CodecDescriptor)
    → i ≤ k
    → get_elem? arr (k - i) ≡ some d
    → get_elem? (keep_only (some k) i arr) (k - i) ≡ some (record d { enabled = true })
unfolding keep_only
get_elem?-keep_only [] i k d h e = cc
get_elem?-keep_only (a ∷ arr) i k d h e = elim (Bool-cases (k == i)) [
  | inl y ↦
      let z : k - i ≡ 0 = ground arith in
      let a_is : some a ≡ some d = rw z at e in rw (z, y) (ground arith)
  | inr n ↦
      let s : k - i ≡ suc (k - (i + 1)) = ground arith in
      rw s (get_elem?-keep_only arr (i + 1) k d (ground arith) (rw s at e))
]

-- The two lists agree on one codec.
abbrev pub AgreeOn : CodecList → CodecList → Type 0
AgreeOn cl c =
    (i : ℕ) × (j : ℕ) × (d : CodecDescriptor) × (e : CodecDescriptor) × (cl.primary_descriptor
      ≡ some i)
    × (c.primary_descriptor ≡ some j)
    × (get_elem? cl.descriptor_arr i ≡ some d)
    × (get_elem? c.descriptor_arr j ≡ some e)
    × (d.enabled ≡ true)
    × (e.enabled ≡ true)
    × (descriptors_match d e ≡ true)

abbrev NoneEnabled : CodecList → CodecList → Type 0
NoneEnabled cl c = (enabled_of cl.descriptor_arr ≡ []) × (enabled_of c.descriptor_arr ≡ [])

-- What is stated of the two lists that CodecListsIntersect leaves, and of its result.
abbrev pub Agreement : CodecList × CodecList × Bool → Type 0
Agreement (l1, l2, ok) =
    (lists_compare_method l1.descriptor_arr l2.descriptor_arr ≡ ret true)
    × (lists_intersect l1 l2 ≡ (l1, l2, ok))
    × (((ok ≡ true) × AgreeOn l1 l2) ⊎ ((ok ≡ false) × NoneEnabled l1 l2))

abbrev kept : CodecList → CodecList → Option (ℕ × ℕ) → CodecList × CodecList × Bool
kept cl c o = (
  record {
    descriptor_arr = keep_only (first_of_pair o) 0 cl.descriptor_arr;
    primary_descriptor = first_of_pair o;
    event_descriptor = none;
  },
  record {
    descriptor_arr = keep_only (second_of_pair o) 0 c.descriptor_arr;
    primary_descriptor = second_of_pair o;
    event_descriptor = none;
  },
  is_some o,
)

-- Going through the two lists again finds the same codec.
kept-kept :
    (cl c : CodecList) (o : Option (ℕ × ℕ))
    → first_shared (kept cl c o).1.descriptor_arr (kept cl c o).0.descriptor_arr 0 ≡ o
    → lists_intersect (kept cl c o).0 (kept cl c o).1 ≡ kept cl c o
kept-kept cl c o e =
    rw
      (
        lists_intersect_lem (kept cl c o).0 (kept cl c o).1,
        e,
        keep_only-keep_only (first_of_pair o) cl.descriptor_arr 0,
        keep_only-keep_only (second_of_pair o) c.descriptor_arr 0,
      )
      refl

kept-Agreement :
    (cl c : CodecList) (o : Option (ℕ × ℕ))
    → first_shared c.descriptor_arr cl.descriptor_arr 0 ≡ o
    → Agreement (kept cl c o)
unfolding all_match
kept-Agreement cl c none e = (
  rw
      (
        lists_compare_method_lem (kept cl c none).0.descriptor_arr
            (kept cl c none).1.descriptor_arr,
        enabled_of-keep_none cl.descriptor_arr 0,
        enabled_of-keep_none c.descriptor_arr 0,
      )
      refl,
  kept-kept cl c none
      (first_shared-keep_none (kept cl c none).1.descriptor_arr cl.descriptor_arr 0),
  inr (refl, (enabled_of-keep_none cl.descriptor_arr 0, enabled_of-keep_none c.descriptor_arr 0)),
)
kept-Agreement cl c (some (k, j)) e =
    let s = first_shared-Shared c.descriptor_arr cl.descriptor_arr 0 k j e in
    let k_is : k - 0 ≡ k = omega arith in
    let j_is : j - 0 ≡ j = omega arith in
    let at : get_elem? c.descriptor_arr (j - 0) ≡ some s.second = rw j_is s.second_at in
    (
      rw
          (
            lists_compare_method_lem (kept cl c (some (k, j))).0.descriptor_arr
                (kept cl c (some (k, j))).1.descriptor_arr,
            enabled_of-keep_only cl.descriptor_arr 0 k s.first s.below s.first_at,
            enabled_of-keep_only c.descriptor_arr 0 j s.second (omega arith) at,
            match_enabled s.first s.second true true,
            s.same,
          )
          refl,
      kept-kept cl c (some (k, j)) (
          first_shared-keep_only c.descriptor_arr cl.descriptor_arr 0 k j s.first s.second s.below
            s.first_at s.found),
      inl (
        refl,
        (
          k,
          j,
          record (s.first) { enabled = true },
          record (s.second) { enabled = true },
          refl,
          refl,
          rw k_is at (get_elem?-keep_only cl.descriptor_arr 0 k s.first s.below s.first_at),
          rw j_is at (get_elem?-keep_only c.descriptor_arr 0 j s.second (omega arith) at),
          refl,
          refl,
          match_enabled s.first s.second true true ∙ s.same,
        ),
      ),
    )

-- Once CodecListsIntersect has gone through two lists, the method CodecListsCompare finds them equal,
-- going through them again changes nothing and returns the same, and either the result is true and
-- the primary descriptors of the two lists are enabled and match, or it is false and no descriptor of
-- the lists is enabled.
pub lists_intersect-Agreement : (cl c : CodecList) → Agreement (lists_intersect cl c)
lists_intersect-Agreement cl c =
    rw (lists_intersect_lem cl c)
      (kept-Agreement cl c (first_shared c.descriptor_arr cl.descriptor_arr 0) refl)
