-- ===== src/Context/Slots/Stale.antt =====
-- What is left behind in a media context of mpf/mpf_context.go by a termination that is taken out while
-- it is associated.
use go_mrcp.Prelude.{
  ℕ, zero, suc, ◌+◌, ◌<◌, ◌≤◌, ◌≡◌, ◌≢◌, refl, sym, ◌∙◌, ap, inl, inr, arith, true, false, ◌==◌,
  leb, if◌then◌else◌, some, Bool-cases, ==_iff,
}
use go_mrcp.Prelude.Int.{pos}
use go_mrcp.Context.{
  Context, HeaderItem, Store, done, update, is_nil, switch, dissociate_one, with_slots, first_free,
  free_slot, termination_add, termination_subtract, association_remove,
}
use go_mrcp.Context.Counts.{total, IsWellFormed}
use go_mrcp.Context.ResetLaws.{outside, outside_other, subtracted}
use go_mrcp.Context.Slots.{with_termination, subtract_from_lem}

-- A sum of zeros and ones that is as large as it can be has ones only.
total-le : (f : ℕ → ℕ) (n : ℕ) → ((k : ℕ) → f k ≤ 1) → total f n ≤ n
unfolding total
total-le f zero h = omega arith
total-le f (suc n) h = omega (arith, h n, total-le f n h)

total-full : (f : ℕ → ℕ) (n k : ℕ) → ((k : ℕ) → f k ≤ 1) → total f n ≡ n → k < n → f k ≡ 1
unfolding total
total-full f zero k h e lt = absurd (omega arith)
total-full f (suc n) k h e lt = elim (Bool-cases (k == n)) [
  | inl y ↦ let k_is : k ≡ n = (==_iff k n).0 y in rw k_is (omega (arith, h n, total-le f n h))
  | inr o ↦ total-full f n k h (omega (arith, h n, total-le f n h)) (ground arith)
]

-- The slot that is the only free one is found.
first_free-only :
    (header : ℕ → HeaderItem) (i left k : ℕ)
    → is_nil (header k).termination ≡ true
    → ((l : ℕ) → l ≢ k → l < i + left → is_nil (header l).termination ≡ false)
    → i ≤ k
    → k < i + left
    → first_free header i left ≡ some k
unfolding first_free
first_free-only header i zero k f others le lt = absurd (omega arith)
first_free-only header i (suc left) k f others le lt = elim (Bool-cases (k == i)) [
  | inl y ↦
      (let k_is : k ≡ i = (==_iff k i).0 y in let f' = rw k_is at f in rw f' (ap some (sym k_is)))
  | inr n ↦
      let ne : i ≢ k = ground arith in
      rw (others i ne (omega arith)) (
        first_free-only header (i + 1) left k f (λ l p q. others l p (omega arith)) (ground arith)
          (omega arith))
]

full-nil :
    (header : ℕ → HeaderItem) (n k : ℕ)
    → total (λ k. if is_nil (header k).termination then 0 else 1) n ≡ n
    → k < n
    → is_nil (header k).termination ≡ false
full-nil header n k e lt = ground (
  arith,
  total-full (λ k. if is_nil (header k).termination then 0 else 1) n k (λ k. ground arith) e lt,
)

removed :
    (c : Context) (store : Store) (t u i j : ℕ)
    → (store t).slot ≡ pos i
    → (store u).slot ≡ pos j
    → i < c.capacity
    → j < c.capacity
    → (c.header i).termination ≡ some t
    → (c.header j).termination ≡ some u
    → association_remove c store t u ≡ done (dissociate_one (dissociate_one c i j) j i) store true
unfolding association_remove with_slots
removed c store t u i j p q lt lt_j held held_u =
    let a : leb c.capacity i ≡ false = ground arith in
    let b : leb c.capacity j ≡ false = ground arith in
    let self_t : (t == t) ≡ true = ground arith in
    let self_u : (u == u) ≡ true = ground arith in
    rw (association_remove, p, q, a, b) (rw (with_slots, held, held_u, self_t, self_u) refl)

dissociated-tx :
    (c : Context) (i j : ℕ)
    → j ≢ i
    → c.matrix i j ≡ 1
    → (c.header i).tx_count ≡ 0
    → ((dissociate_one (dissociate_one c i j) j i).header i).tx_count ≡ 255
unfolding dissociate_one switch
dissociated-tx c i j ne on z = ground arith

-- In a full context, a termination that is associated with another one is taken out, and a new one
-- added. The new one takes its slot: it is associated with the other termination, with a count of
-- transmitters of 0. Removing that association makes the count 255.
pub termination_subtract-add-stale :
    (c : Context) (store : Store) (t u v i j : ℕ)
    → IsWellFormed c
    → c.count ≡ c.capacity
    → (store t).slot ≡ pos i
    → (store u).slot ≡ pos j
    → i < c.capacity
    → j < c.capacity
    → (c.header i).termination ≡ some t
    → (c.header j).termination ≡ some u
    → j ≢ i
    → v ≢ u
    → c.matrix i j ≡ 1
    → (d e f : Context) × (after last : Store) × (termination_subtract c store t
        ≡ done d after true)
      × (termination_add d after v ≡ done e last true)
      × ((e.header i).termination ≡ some v)
      × (e.matrix i j ≡ 1)
      × ((e.header i).tx_count ≡ 0)
      × (association_remove e last v u ≡ done f last true)
      × ((f.header i).tx_count ≡ 255)
unfolding termination_subtract termination_add free_slot association_remove
termination_subtract-add-stale c store t u v i j w full p q lt lt_j held held_u ne ne_v on =
    let d : Context = free_slot c i in
    let e : Context = with_termination d i v in
    let last : Store = update (outside store t) v (record (outside store t v) { slot = pos i }) in
    let others : (l : ℕ) → l ≢ i → l < 0 + d.capacity → is_nil (d.header l).termination ≡ false =
      λ l n m.
        let o = full-nil c.header c.capacity l (w.occupied ∙ full) (omega arith) in
        let n' : (l == i) ≡ false = ground arith in rw n' o in
    let free : first_free d.header 0 d.capacity ≡ some i =
      first_free-only d.header 0 d.capacity i (ground arith) others (omega arith) (omega arith) in
    let u_t : u ≢ t = λ same. ne (let h : pos j ≡ pos i = sym q ∙ rw same p in cc) in
    let u_v : u ≢ v = λ same. ne_v (sym same) in
    let u_slot : (outside store t u).slot ≡ pos j = rw (outside_other store t u u_t) q in
    (
      d,
      e,
      dissociate_one (dissociate_one e i j) j i,
      outside store t,
      last,
      rw (subtracted c store t i p lt held, subtract_from_lem c i 0 0 c.capacity w.idle) refl,
      rw (termination_add, free) refl,
      ground arith,
      on,
      ground arith,
      removed e last v u i j (ground arith) (ground (arith, u_slot)) lt lt_j (ground arith)
          (ground arith),
      dissociated-tx e i j ne on (ground arith),
    )
