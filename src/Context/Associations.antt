-- ===== src/Context/Associations.antt =====
-- What the operations of mpf/mpf_context.go leave: creation, terminations put in and taken out,
-- associations put in and taken out.
use go_mrcp.Prelude.{
  ℕ, ◌+◌, ◌<◌, ◌≤◌, ◌≡◌, refl, sym, ◌∙◌, Bool, true, false, ◌==◌, ◌&&◌, if◌then◌else◌, Option, none,
  some, arith, Bool-cases, inl, inr, leb,
}
use go_mrcp.Prelude.Int.{pos}
use go_mrcp.Prelude.Words.{u8}
use go_mrcp.Context.{
  Context, Outcome, done, panic, switch, is_nil, associate_one, dissociate_one, Store, compatible,
  with_slots, association_add, association_remove, slot_index, is_termination,
}
use go_mrcp.Context.Counts.{total-ext, IsWellFormed, switch-Counted, switch-nil}

switch-IsWellFormed :
    (v a : ℕ) (c : Context) (i j : ℕ)
    → IsWellFormed c
    → i < c.capacity
    → j < c.capacity
    → is_nil (c.header i).termination ≡ false
    → is_nil (c.header j).termination ≡ false
    → v ≤ 1
    → u8 (c.matrix i j + a) ≡ v
    → IsWellFormed (switch v a c i j)
unfolding switch
switch-IsWellFormed v a c i j w hi hj oi oj hv e = record {
  counted = switch-Counted v a c i j w.counted hi hj hv e;
  idle = λ k l h.
      let n : is_nil (c.header k).termination ≡ true = sym (switch-nil v a c i j k) ∙ h in
      ground (arith, w.idle k l n, oi, oj, n);
  occupied =
      total-ext (λ k. if is_nil ((switch v a c i j).header k).termination then 0 else 1)
        (λ k. if is_nil (c.header k).termination then 0 else 1) c.capacity
        (λ k. rw (switch-nil v a c i j k) refl)
      ∙ w.occupied;
}

-- The hypotheses on two slots that both hold terminations.
pub record Occupied (c : Context) (i j : ℕ) : Type 0 where
  pub first_lt : i < c.capacity
  pub second_lt : j < c.capacity
  pub first : is_nil (c.header i).termination ≡ false
  pub second : is_nil (c.header j).termination ≡ false

pub associate_one-IsWellFormed :
    (store : Store) (c : Context) (i j t u : ℕ)
    → IsWellFormed c
    → Occupied c i j
    → IsWellFormed (associate_one store c i j t u)
unfolding associate_one
associate_one-IsWellFormed store c i j t u w o =
    elim (Bool-cases ((c.matrix i j == 0) && compatible (store t) (store u))) [
      | inl y ↦ rw y (
          switch-IsWellFormed 1 1 c i j w o.first_lt o.second_lt o.first o.second (omega arith)
            (ground (arith, y)))
      | inr n ↦ rw n w
    ]

pub dissociate_one-IsWellFormed :
    (c : Context) (i j : ℕ) → IsWellFormed c → Occupied c i j → IsWellFormed (dissociate_one c i j)
unfolding dissociate_one
dissociate_one-IsWellFormed c i j w o = elim (Bool-cases (c.matrix i j == 0)) [
  | inl y ↦ rw y w
  | inr n ↦ rw n (
      switch-IsWellFormed 0 255 c i j w o.first_lt o.second_lt o.first o.second (omega arith)
        (ground (arith, n, w.counted.bit i j)))
]

switch-Occupied :
    (v a : ℕ) (c : Context) (i j : ℕ) → Occupied c i j → Occupied (switch v a c i j) j i
unfolding switch
switch-Occupied v a c i j o = record {
  first_lt = o.second_lt;
  second_lt = o.first_lt;
  first = switch-nil v a c i j j ∙ o.second;
  second = switch-nil v a c i j i ∙ o.first;
}

pub associate_one-Occupied :
    (store : Store) (c : Context) (i j t u : ℕ)
    → Occupied c i j
    → Occupied (associate_one store c i j t u) j i
unfolding associate_one
associate_one-Occupied store c i j t u o =
    elim (Bool-cases ((c.matrix i j == 0) && compatible (store t) (store u))) [
      | inl y ↦ rw y (switch-Occupied 1 1 c i j o)
      | inr n ↦ rw n (record {
        first_lt = o.second_lt;
        second_lt = o.first_lt;
        first = o.second;
        second = o.first;
      })
    ]

pub dissociate_one-Occupied :
    (c : Context) (i j : ℕ) → Occupied c i j → Occupied (dissociate_one c i j) j i
unfolding dissociate_one
dissociate_one-Occupied c i j o = elim (Bool-cases (c.matrix i j == 0)) [
  | inl y ↦ rw y (record {
    first_lt = o.second_lt;
    second_lt = o.first_lt;
    first = o.second;
    second = o.first;
  })
  | inr n ↦ rw n (switch-Occupied 0 255 c i j o)
]

-- The call returned, and left a well-formed context and the store as it was.
unfoldable pub Leaves : Store → Outcome Bool → Type 0
Leaves store panic = ⊥
Leaves store (done c after ok) = IsWellFormed c × (after ≡ store)

pub is_termination-full : (o : Option ℕ) (t : ℕ) → is_termination o t ≡ true → is_nil o ≡ false
is_termination-full none t h = sym h
is_termination-full (some s) t h = refl

-- The checks of a call on two slots in the range.
checks-Leaves :
    (c : Context) (store : Store) (t u : ℕ) (body : ℕ → ℕ → Context) (i j : ℕ)
    → IsWellFormed c
    → ((i j : ℕ) → Occupied c i j → IsWellFormed (body i j))
    → leb c.capacity i ≡ false
    → leb c.capacity j ≡ false
    → Leaves store (with_slots c store t u body (some (some i)) (some (some j)))
unfolding with_slots Leaves
checks-Leaves c store t u body i j w h a b =
    elim (Bool-cases (is_termination (c.header i).termination t)) [
      | inr n ↦ rw n (w, refl)
      | inl p ↦ elim (Bool-cases (is_termination (c.header j).termination u)) [
        | inr n ↦ rw (p, n) (w, refl)
        | inl q ↦
            rw (p, q)
              (
                h i j (record {
                  first_lt = ground (arith, a);
                  second_lt = ground (arith, b);
                  first = is_termination-full (c.header i).termination t p;
                  second = is_termination-full (c.header j).termination u q;
                }),
                refl,
              )
      ]
    ]

with_slots-Leaves :
    (c : Context) (store : Store) (t u : ℕ) (body : ℕ → ℕ → Context) (i j : ℕ)
    → IsWellFormed c
    → ((i j : ℕ) → Occupied c i j → IsWellFormed (body i j))
    → Leaves store (
        with_slots c store t u body (slot_index c.capacity (pos i)) (slot_index c.capacity (pos j)))
unfolding with_slots Leaves
with_slots-Leaves c store t u body i j w h = elim (Bool-cases (leb c.capacity i)) [
  | inl a ↦ rw a (w, refl)
  | inr a ↦ elim (Bool-cases (leb c.capacity j)) [
    | inl b ↦ rw (a, b) (w, refl)
    | inr b ↦ rw (a, b) (checks-Leaves c store t u body i j w h a b)
  ]
]

-- Adding an association between two terminations whose slots are no less than 0 returns, without a
-- panic, and leaves the terminations as they were; a well-formed context stays well-formed: each count
-- is still the sum of the items of its row or column, and free slots have no association.
pub association_add-IsWellFormed :
    (c : Context) (store : Store) (t u i j : ℕ)
    → IsWellFormed c
    → (store t).slot ≡ pos i
    → (store u).slot ≡ pos j
    → Leaves store (association_add c store t u)
unfolding association_add
association_add-IsWellFormed c store t u i j w p q =
    rw (p, q)
      (with_slots-Leaves c store t u
        (λ i j. associate_one store (associate_one store c i j t u) j i u t) i j w
        (λ i j o.
          associate_one-IsWellFormed store (associate_one store c i j t u) j i u t
            (associate_one-IsWellFormed store c i j t u w o)
            (associate_one-Occupied store c i j t u o)))

-- Removing an association between two terminations whose slots are no less than 0 returns, without a
-- panic, and leaves the terminations as they were; a well-formed context stays well-formed.
pub association_remove-IsWellFormed :
    (c : Context) (store : Store) (t u i j : ℕ)
    → IsWellFormed c
    → (store t).slot ≡ pos i
    → (store u).slot ≡ pos j
    → Leaves store (association_remove c store t u)
unfolding association_remove
association_remove-IsWellFormed c store t u i j w p q =
    rw (p, q)
      (with_slots-Leaves c store t u (λ i j. dissociate_one (dissociate_one c i j) j i) i j w
        (λ i j o.
          dissociate_one-IsWellFormed (dissociate_one c i j) j i
            (dissociate_one-IsWellFormed c i j w o) (dissociate_one-Occupied c i j o)))
