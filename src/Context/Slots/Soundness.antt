-- ===== src/Context/Slots/Soundness.antt =====
-- What the calls on a media context of mpf/mpf_context.go keep: a well-formed context whose terminations
-- know their slots.
use go_mrcp.Prelude.{
  ℕ, ◌<◌, ◌≡◌, ◌≢◌, ◌⊎◌, refl, sym, ◌∙◌, ap, inl, inr, arith, Bool, true, false, ◌==◌, leb, Option,
  none, some, Bool-cases, Option-cases, ==_iff,
}
use go_mrcp.Prelude.Int.{ℤ, pos, negsuc}
use go_mrcp.Context.{
  Context, Store, done, update, is_termination, slot_index, switch, associate_one, dissociate_one,
  with_slots, first_free, free_slot, subtract_from, termination_add, termination_subtract,
  association_add, association_remove,
}
use go_mrcp.Context.Counts.{IsWellFormed}
use go_mrcp.Context.Associations.{
  Occupied, associate_one-IsWellFormed, associate_one-Occupied, dissociate_one-IsWellFormed,
  dissociate_one-Occupied, is_termination-full,
}
use go_mrcp.Context.Reset.{Same, Same-trans, dissociate_one-Same, Placed}
use go_mrcp.Context.ResetLaws.{Apart, outside, free_slot-Without, Placed-after}
use go_mrcp.Context.Slots.{
  first_free-some, with_termination, with_termination-IsWellFormed, subtract_from_lem, full-update,
  count_positive,
}

-- A context that is well-formed and whose terminations know their slots.
pub record Sound (c : Context) (store : Store) : Type 0 where
  pub well_formed : IsWellFormed c
  pub placed : Placed c store

-- What a call returned is sound if what it is known to return is.
returned-Sound :
    (c d : Context) (store after : Store) (b ok : Bool)
    → Sound c store
    → done c store b ≡ done d after ok
    → Sound d after
returned-Sound c d store after b ok s h =
    let d_is : d ≡ c = cc in let after_is : after ≡ store = cc in rw (d_is, after_is) s

associate_one-Same :
    (store : Store) (c : Context) (i j t u : ℕ) → Same c (associate_one store c i j t u)
unfolding associate_one switch
associate_one-Same store c i j t u = record {
  capacity_same = ground arith;
  held_same = λ k. ground arith;
}

Placed-Same : (c d : Context) (store : Store) → Same c d → Placed c store → Placed d store
Placed-Same c d store s p i t lt h =
    p i t (omega (arith, s.capacity_same)) (sym (s.held_same i) ∙ h)

slot_index-lt : (capacity i : ℕ) (z : ℤ) → slot_index capacity z ≡ some (some i) → i < capacity
slot_index-lt capacity i (negsuc n) h = absurd (cc)
slot_index-lt capacity i (pos k) h = elim (Bool-cases (leb capacity k)) [
  | inl y ↦ absurd (let h' : some none ≡ some (some i) = rw y at h in cc)
  | inr n ↦ (let h' : some (some k) ≡ some (some i) = rw n at h in ground arith)
]

-- What a call on two slots leaves: the context as it was, or what its body makes of two slots that
-- hold the terminations.
record Bodied (c : Context) (t u : ℕ) (body : ℕ → ℕ → Context) (x y : Option (Option ℕ))
    (d : Context) : Type 0 where
  i : ℕ
  j : ℕ
  first : x ≡ some (some i)
  second : y ≡ some (some j)
  holds_first : is_termination (c.header i).termination t ≡ true
  holds_second : is_termination (c.header j).termination u ≡ true
  result : d ≡ body i j

with_slots-cases :
    (c d : Context) (store after : Store) (t u : ℕ) (body : ℕ → ℕ → Context) (ok : Bool)
    (x y : Option (Option ℕ))
    → with_slots c store t u body x y ≡ done d after ok
    → (after ≡ store) × ((d ≡ c) ⊎ Bodied c t u body x y d)
unfolding with_slots
with_slots-cases c d store after t u body ok none none h = absurd (cc)
with_slots-cases c d store after t u body ok none (some none) h = (cc, inl (cc))
with_slots-cases c d store after t u body ok none (some (some j)) h = absurd (cc)
with_slots-cases c d store after t u body ok (some none) y h = (cc, inl (cc))
with_slots-cases c d store after t u body ok (some (some i)) none h = absurd (cc)
with_slots-cases c d store after t u body ok (some (some i)) (some none) h = (cc, inl (cc))
with_slots-cases c d store after t u body ok (some (some i)) (some (some j)) h =
    elim (Bool-cases (is_termination (c.header i).termination t)) [
      | inr n ↦ let h' : done c store false ≡ done d after ok = rw n at h in (cc, inl (cc))
      | inl p ↦ elim (Bool-cases (is_termination (c.header j).termination u)) [
        | inr n ↦ let h' : done c store false ≡ done d after ok = rw (p, n) at h in (cc, inl (cc))
        | inl q ↦
            let h' : done (body i j) store true ≡ done d after ok = rw (p, q) at h in
            (
              cc,
              inr (record {
                i = i;
                j = j;
                first = refl;
                second = refl;
                holds_first = p;
                holds_second = q;
                result = cc;
              }),
            )
      ]
    ]

-- A body that keeps the invariant on two slots that hold terminations, and keeps the terminations.
record Keeps (c : Context) (body : ℕ → ℕ → Context) : Type 0 where
  well_formed : (i j : ℕ) → Occupied c i j → IsWellFormed (body i j)
  same : (i j : ℕ) → Same c (body i j)

with_slots-Sound :
    (c d : Context) (store after : Store) (t u : ℕ) (body : ℕ → ℕ → Context) (ok : Bool)
    → Sound c store
    → Keeps c body
    → with_slots c store t u body
        (slot_index c.capacity (store t).slot)
        (slot_index c.capacity (store u).slot)
      ≡ done d after ok
    → Sound d after
with_slots-Sound c d store after t u body ok s keeps h =
    let (e, r) =
      with_slots-cases c d store after t u body ok (slot_index c.capacity (store t).slot)
        (slot_index c.capacity (store u).slot) h in
    elim r [
      | inl same ↦ rw (same, e) s
      | inr b ↦
          rw (b.result, e)
            (record {
              well_formed = keeps.well_formed b.i b.j (record {
                first_lt = slot_index-lt c.capacity b.i (store t).slot b.first;
                second_lt = slot_index-lt c.capacity b.j (store u).slot b.second;
                first = is_termination-full (c.header b.i).termination t b.holds_first;
                second = is_termination-full (c.header b.j).termination u b.holds_second;
              });
              placed = Placed-Same c (body b.i b.j) store (keeps.same b.i b.j) s.placed;
            })
    ]

pub association_add-Sound :
    (c d : Context) (store after : Store) (t u : ℕ) (ok : Bool)
    → Sound c store
    → association_add c store t u ≡ done d after ok
    → Sound d after
unfolding association_add
association_add-Sound c d store after t u ok s h =
    with_slots-Sound c d store after t u
      (λ i j. associate_one store (associate_one store c i j t u) j i u t) ok s
      (record {
        well_formed = λ i j o.
            associate_one-IsWellFormed store (associate_one store c i j t u) j i u t
              (associate_one-IsWellFormed store c i j t u s.well_formed o)
              (associate_one-Occupied store c i j t u o);
        same = λ i j.
            Same-trans c (associate_one store c i j t u)
              (associate_one store (associate_one store c i j t u) j i u t)
              (associate_one-Same store c i j t u)
              (associate_one-Same store (associate_one store c i j t u) j i u t);
      })
      h

pub association_remove-Sound :
    (c d : Context) (store after : Store) (t u : ℕ) (ok : Bool)
    → Sound c store
    → association_remove c store t u ≡ done d after ok
    → Sound d after
unfolding association_remove
association_remove-Sound c d store after t u ok s h =
    with_slots-Sound c d store after t u (λ i j. dissociate_one (dissociate_one c i j) j i) ok s
      (record {
        well_formed = λ i j o.
            dissociate_one-IsWellFormed (dissociate_one c i j) j i
              (dissociate_one-IsWellFormed c i j s.well_formed o) (dissociate_one-Occupied c i j o);
        same = λ i j.
            Same-trans c (dissociate_one c i j) (dissociate_one (dissociate_one c i j) j i)
              (dissociate_one-Same c i j) (dissociate_one-Same (dissociate_one c i j) j i);
      })
      h

with_termination-Placed :
    (c : Context) (store : Store) (i t : ℕ)
    → Apart c t
    → Placed c store
    → Placed (with_termination c i t) (update store t (record (store t) { slot = pos i }))
with_termination-Placed c store i t apart p k u lt h = elim (Bool-cases (k == i)) [
  | inl y ↦
      let t_is : some t ≡ some u = rw y at h in
      let same : u ≡ t = cc in let y' : (u == t) ≡ true = ground arith in ground arith
  | inr n ↦
      let h' : (c.header k).termination ≡ some u = rw n at h in
      let other : u ≢ t = λ e. apart k lt (h' ∙ ap some e) in
      let n' : (u == t) ≡ false = ground arith in rw n' (p k u lt h')
]

pub termination_add-Sound :
    (c d : Context) (store after : Store) (t : ℕ) (ok : Bool)
    → Apart c t
    → Sound c store
    → termination_add c store t ≡ done d after ok
    → Sound d after
unfolding termination_add
termination_add-Sound c d store after t ok apart s h =
    elim (Option-cases (first_free c.header 0 c.capacity)) [
      | inl e ↦ returned-Sound c d store after false ok s (rw (termination_add, e) at h)
      | inr (i, e) ↦
          let (lo, hi, f) = first_free-some c.header 0 c.capacity i e in
          let placed = update store t (record (store t) { slot = pos i }) in
          returned-Sound (with_termination c i t) d placed after true ok
            (record {
              well_formed = with_termination-IsWellFormed c i t s.well_formed (omega arith) f;
              placed = with_termination-Placed c store i t apart s.placed;
            })
            (rw (termination_add, e) at h)
    ]

-- The slot of a termination has no association.
abbrev pub Unlinked : Context → ℤ → Type 0
Unlinked c z = (i l : ℕ) → z ≡ pos i → (c.matrix i l ≡ 0) × (c.matrix l i ≡ 0)

free_slot-IsWellFormed :
    (c : Context) (i t : ℕ)
    → IsWellFormed c
    → Unlinked c (pos i)
    → i < c.capacity
    → (c.header i).termination ≡ some t
    → IsWellFormed (free_slot c i)
unfolding free_slot
free_slot-IsWellFormed c i t w unlinked lt held = record {
  counted = record {
    tx = λ k. ground (arith, w.counted.tx k);
    rx = λ k. ground (arith, w.counted.rx k);
    bit = w.counted.bit;
  };
  idle = λ k l h. elim (Bool-cases (k == i)) [
    | inl y ↦ (let k_is : k ≡ i = (==_iff k i).0 y in rw k_is (unlinked i l refl))
    | inr n ↦ w.idle k l (rw n at h)
  ];
  occupied = ground (
    arith,
    full-update c.header i c.capacity (record (c.header i) { termination = none }) lt,
    held,
    w.occupied,
    count_positive c i t w lt held,
  );
}

is_termination-eq : (o : Option ℕ) (t : ℕ) → is_termination o t ≡ true → o ≡ some t
is_termination-eq none t h = cc
is_termination-eq (some s) t h = ap some ((==_iff s t).0 h)

-- What is subtracted from slot `i`.
taken_out-Sound :
    (c : Context) (store : Store) (t i : ℕ)
    → Sound c store
    → Unlinked c (pos i)
    → i < c.capacity
    → (c.header i).termination ≡ some t
    → Sound (free_slot (subtract_from c i 0 0 c.capacity) i) (outside store t)
taken_out-Sound c store t i s unlinked lt held = record {
  well_formed =
      rw (subtract_from_lem c i 0 0 c.capacity s.well_formed.idle)
        (free_slot-IsWellFormed c i t s.well_formed unlinked lt held);
  placed =
      Placed-after c (free_slot (subtract_from c i 0 0 c.capacity) i) store t i s.placed lt held
        (free_slot-Without c i);
}

pub termination_subtract-Sound :
    (c d : Context) (store after : Store) (t : ℕ) (ok : Bool) (z : ℤ)
    → (store t).slot ≡ z
    → Unlinked c z
    → Sound c store
    → termination_subtract c store t ≡ done d after ok
    → Sound d after
unfolding termination_subtract
termination_subtract-Sound c d store after t ok (negsuc n) e unlinked s h =
    absurd (let h' = rw (termination_subtract, e) at h in cc)
termination_subtract-Sound c d store after t ok (pos i) e unlinked s h =
    elim (Bool-cases (leb c.capacity i)) [
      | inl y ↦ returned-Sound c d store after false ok s (rw (termination_subtract, e, y) at h)
      | inr n ↦ elim (Bool-cases (is_termination (c.header i).termination t)) [
        | inr gone ↦
            returned-Sound c d store after false ok s (rw (termination_subtract, e, n, gone) at h)
        | inl there ↦
            returned-Sound (free_slot (subtract_from c i 0 0 c.capacity) i) d (outside store t)
              after true ok
              (taken_out-Sound c store t i s unlinked (ground arith)
                (is_termination-eq (c.header i).termination t there))
              (rw (termination_subtract, e, n, there) at h)
      ]
    ]
