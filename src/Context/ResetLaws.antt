-- ===== src/Context/ResetLaws.antt =====
-- What is left of a context of mpf/mpf_context.go that was destroyed, or had its associations reset.
use go_mrcp.Prelude.{
  ℕ, zero, suc, ◌+◌, ◌<◌, ◌≤◌, ◌≡◌, ◌≢◌, refl, sym, ap, ◌∙◌, inl, inr, arith, true, false, leb,
  ◌==◌, if◌then◌else◌, none, some, Bool-cases, Option-cases, ==_iff,
}
use go_mrcp.Prelude.Int.{pos, negsuc}
use go_mrcp.Context.{
  Context, Store, done, is_nil, update, subtract_from, free_slot, termination_subtract,
}
use go_mrcp.Context.Reset.{
  destroy_from, context_destroy, reset_from, associations_reset, subtract_from-Same, Placed,
}

abbrev pub outside : Store → ℕ → Store
outside store t = update store t (record (store t) { slot = negsuc 0 })

-- The context without the termination of slot `i`.
pub record Without (c d : Context) (i : ℕ) : Type 0 where
  pub capacity_same : d.capacity ≡ c.capacity
  pub held :
      (k : ℕ) → (d.header k).termination ≡ (if k == i then none else (c.header k).termination)

pub free_slot-Without :
    (c : Context) (i : ℕ) → Without c (free_slot (subtract_from c i 0 0 c.capacity) i) i
unfolding free_slot
free_slot-Without c i =
    let s = subtract_from-Same c i 0 0 c.capacity in
    record { capacity_same = s.capacity_same; held = λ k. ground (arith, s.held_same k) }

pub subtracted :
    (c : Context) (store : Store) (t i : ℕ)
    → (store t).slot ≡ pos i
    → i < c.capacity
    → (c.header i).termination ≡ some t
    → termination_subtract c store t
      ≡ done (free_slot (subtract_from c i 0 0 c.capacity) i) (outside store t) true
unfolding termination_subtract
subtracted c store t i p lt h =
    let in_range : leb c.capacity i ≡ false = ground arith in
    let same : (t == t) ≡ true = ground arith in
    rw (termination_subtract, p, in_range, h, same) refl

pub Placed-after :
    (c d : Context) (store : Store) (t i : ℕ)
    → Placed c store
    → i < c.capacity
    → (c.header i).termination ≡ some t
    → Without c d i
    → Placed d (outside store t)
Placed-after c d store t i placed lt h w k u hk hu = elim (Bool-cases (k == i)) [
  | inl y ↦
      (let gone = w.held k in
        let none_there : (d.header k).termination ≡ none = gone ∙ rw y refl in
        absurd (let bad = sym none_there ∙ hu in cc))
  | inr n ↦
      let there : (c.header k).termination ≡ some u = sym (w.held k ∙ rw n refl) ∙ hu in
      let lt' : k < c.capacity = omega (arith, w.capacity_same) in
      let slot_u : (store u).slot ≡ pos k = placed k u lt' there in
      let slot_t : (store t).slot ≡ pos i = placed i t lt h in
      elim (Bool-cases (u == t)) [
        | inl same ↦
            let u_is : u ≡ t = (==_iff u t).0 same in
            let both : pos k ≡ pos i = sym (rw u_is at slot_u) ∙ slot_t in absurd (ground arith)
        | inr other ↦ rw other slot_u
      ]
]

pub outside_other : (store : Store) (t u : ℕ) → u ≢ t → outside store t u ≡ store u
outside_other store t u h = let n : (u == t) ≡ false = ground arith in rw n refl

-- A termination that no slot of the context holds.
abbrev pub Apart : Context → ℕ → Type 0
Apart c u = (k : ℕ) → k < c.capacity → (c.header k).termination ≢ some u

Apart-Without : (c d : Context) (i u : ℕ) → Without c d i → Apart c u → Apart d u
Apart-Without c d i u w a k p h = elim (Bool-cases (k == i)) [
  | inl y ↦
      let gone : (d.header k).termination ≡ none = w.held k ∙ rw y refl in
      absurd (let bad = sym gone ∙ h in cc)
  | inr n ↦ a k (omega (arith, w.capacity_same)) (sym (w.held k ∙ rw n refl) ∙ h)
]

-- What destruction from slot `i` on leaves.
record Emptied (i : ℕ) (c : Context) (store : Store) (left : ℕ) : Type 0 where
  last : Context
  after : Store
  runs : destroy_from i left c store ≡ done last after true
  capacity_same : last.capacity ≡ c.capacity
  empty : (k : ℕ) → i ≤ k → k < c.capacity → (last.header k).termination ≡ none
  before : (k : ℕ) → k < i → (last.header k).termination ≡ (c.header k).termination
  kept : (u : ℕ) → Apart c u → after u ≡ store u

emptied :
    (i left : ℕ) (c : Context) (store : Store)
    → i + left ≡ c.capacity
    → Placed c store
    → Emptied i c store left
unfolding destroy_from
emptied i zero c store e placed = record {
  last = c;
  after = store;
  runs = refl;
  capacity_same = refl;
  empty = λ k p q. absurd (omega arith);
  before = λ k p. refl;
  kept = λ u a. refl;
}
emptied i (suc left) c store e placed = elim (Option-cases (c.header i).termination) [
  | inl f ↦
      let rest = emptied (i + 1) left c store (omega arith) placed in
      record {
        last = rest.last;
        after = rest.after;
        runs = rw (f, destroy_from) rest.runs;
        capacity_same = rest.capacity_same;
        empty = λ k p q. elim (Bool-cases (k == i)) [
          | inl y ↦
              (let k_is : k ≡ i = (==_iff k i).0 y in rw k_is (rest.before i (omega arith) ∙ f))
          | inr n ↦ rest.empty k (ground arith) q
        ];
        before = λ k p. rest.before k (omega arith);
        kept = rest.kept;
      }
  | inr (t, f) ↦
      let lt : i < c.capacity = omega arith in
      let d : Context = free_slot (subtract_from c i 0 0 c.capacity) i in
      let w : Without c d i = free_slot-Without c i in
      let rest =
        emptied (i + 1) left d (outside store t) (omega (arith, w.capacity_same))
          (Placed-after c d store t i placed lt f w) in
      record {
        last = rest.last;
        after = rest.after;
        runs = rw (f, destroy_from) (rw (subtracted c store t i (placed i t lt f) lt f) rest.runs);
        capacity_same = rest.capacity_same ∙ w.capacity_same;
        empty = λ k p q. elim (Bool-cases (k == i)) [
          | inl y ↦
              (let k_is : k ≡ i = (==_iff k i).0 y in
                let i_is : (i == i) ≡ true = ground arith in
                rw k_is (rest.before i (omega arith) ∙ w.held i ∙ rw i_is refl))
          | inr n ↦ rest.empty k (ground arith) (omega (arith, w.capacity_same))
        ];
        before = λ k p.
            rest.before k (omega arith)
            ∙ w.held k
            ∙ (let n : (k == i) ≡ false = ground arith in rw n refl);
        kept = λ u a.
            rest.kept u (Apart-Without c d i u w a)
            ∙ outside_other store t u (λ same. a i lt (f ∙ ap some (sym same)));
      }
]

reset_from-empty :
    (i k left : ℕ) (c : Context)
    → ((j : ℕ) → i ≤ j → j < i + left → (c.header j).termination ≡ none)
    → reset_from i k left c ≡ c
unfolding reset_from
reset_from-empty i k zero c h = refl
reset_from-empty i k (suc left) c h =
    let free : is_nil (c.header i).termination ≡ true = rw (h i (omega arith) (omega arith)) refl in
    rw free
      (ground (arith, reset_from-empty (i + 1) k left c (λ j p q. h j (omega arith) (omega arith))))

-- Destroying a context whose terminations know their slots succeeds, and no slot holds a termination
-- any more; the terminations that it did not hold keep what they have.
pub context_destroy-empty :
    (c : Context) (store : Store)
    → Placed c store
    → (d : Context) × (after : Store) × (context_destroy c store ≡ done d after true)
      × (d.capacity ≡ c.capacity)
      × ((k : ℕ) → k < c.capacity → (d.header k).termination ≡ none)
      × ((u : ℕ) → Apart c u → after u ≡ store u)
unfolding context_destroy
context_destroy-empty c store placed =
    let e = emptied 0 c.capacity c store (omega arith) placed in
    (e.last, e.after, e.runs, e.capacity_same, λ k p. e.empty k (omega arith) p, e.kept)

-- Resetting the associations of a context, in which each termination knows its slot, takes every
-- termination out of the context, and does the same as destroying it.
pub associations_reset-empty :
    (c : Context) (store : Store)
    → Placed c store
    → (d : Context) × (after : Store) × (associations_reset c store ≡ done d after true)
      × (context_destroy c store ≡ done d after true)
      × ((k : ℕ) → k < c.capacity → (d.header k).termination ≡ none)
unfolding associations_reset
associations_reset-empty c store placed =
    let (d, after, runs, same, empty, kept) = context_destroy-empty c store placed in
    (
      d,
      after,
      rw runs
          (rw (reset_from-empty 0 0 d.capacity d (λ j p q. empty j (omega (arith, same)))) refl),
      runs,
      empty,
    )
