-- ===== src/Context/Slots.antt =====
-- What the creation of a context leaves, and the terminations put in and taken out: mpf/mpf_context.go.
pub mod Soundness
pub mod Reach
pub mod Stale
use go_mrcp.Prelude.{
  ℕ, zero, suc, ◌+◌, ◌<◌, ◌≤◌, ◌≡◌, refl, sym, ◌∙◌, true, false, ◌==◌, if◌then◌else◌, Option, none,
  some, arith, Bool-cases, Option-cases, inl, inr, ==_iff, ◌⊎◌, leb,
}
use go_mrcp.Prelude.Int.{pos, negsuc}
use go_mrcp.Context.{
  Context, HeaderItem, done, update, create, is_nil, dissociate_one, Store, first_free,
  termination_add, subtract_from, free_slot, termination_subtract,
}
use go_mrcp.Context.Counts.{total, total-zero, total-update, total-ext, Counted, Idle, IsWellFormed}

-- A new context is well-formed.
pub create-IsWellFormed : (n : ℕ) → IsWellFormed (create n)
unfolding create
create-IsWellFormed n = record {
  counted = record {
    tx = λ k. rw (total-zero (λ l. 0) n (λ j h. refl)) refl;
    rx = λ k. rw (total-zero (λ l. 0) n (λ j h. refl)) refl;
    bit = λ k l. omega arith;
  };
  idle = λ k l h. (refl, refl);
  occupied = total-zero (λ l. 0) n (λ j h. refl);
}

-- `first_free` finds a free slot in its range, or there is none.
first_free-some :
    (header : ℕ → HeaderItem) (i left k : ℕ)
    → first_free header i left ≡ some k
    → (i ≤ k) × (k < i + left) × (is_nil (header k).termination ≡ true)
unfolding first_free
first_free-some header i zero k h = ground (arith, h)
first_free-some header i (suc left) k h = ground (arith, h, first_free-some header (i + 1) left k)

pub first_free-none :
    (header : ℕ → HeaderItem) (i left k : ℕ)
    → first_free header i left ≡ none
    → i ≤ k
    → k < i + left
    → is_nil (header k).termination ≡ false
unfolding first_free
first_free-none header i zero k h lo hi = absurd (omega arith)
first_free-none header i (suc left) k h lo hi =
    ground (arith, first_free-none header (i + 1) left k)

total-one : (f : ℕ → ℕ) (n : ℕ) → ((j : ℕ) → j < n → f j ≡ 1) → total f n ≡ n
unfolding total
total-one f zero h = refl
total-one f (suc n) h = omega (arith, h n, total-one f n (λ j l. h j (omega arith)))

abbrev one_if_full : Option ℕ → ℕ
one_if_full o = if is_nil o then 0 else 1

full-update :
    (header : ℕ → HeaderItem) (i n : ℕ) (item : HeaderItem)
    → i < n
    → total (λ k. if is_nil (update header i item k).termination then 0 else 1) n
        + one_if_full (header i).termination
      ≡ total (λ k. if is_nil (header k).termination then 0 else 1) n + one_if_full item.termination
full-update header i n item h =
    let f : ℕ → ℕ = λ k. if is_nil (header k).termination then 0 else 1 in
    let e : total (λ k. if is_nil (update header i item k).termination then 0 else 1) n
        ≡ total (update f i (one_if_full item.termination)) n =
      total-ext (λ k. if is_nil (update header i item k).termination then 0 else 1)
        (update f i (one_if_full item.termination)) n (λ k. ground arith) in
    rw e (total-update f i (one_if_full item.termination) n h)

-- A termination stands in slot `i`, and its count is up by one.
pub record Added (c : Context) (t i : ℕ) (d : Context) (after : Store) : Type 0 where
  pub was_free : is_nil (c.header i).termination ≡ true
  pub in_range : i < c.capacity
  pub well_formed : IsWellFormed d
  pub held : (d.header i).termination ≡ some t
  pub slot : (after t).slot ≡ pos i
  pub more : d.count ≡ c.count + 1

abbrev pub with_termination : Context → ℕ → ℕ → Context
with_termination c i t = record c {
  link = if c.count == 0 then c.link + 1 else c.link;
  header = update c.header i (record { termination = some t; tx_count = 0; rx_count = 0 });
  count = c.count + 1;
}

module _ (c : Context) (i t : ℕ) (w : IsWellFormed c) (hi : i < c.capacity)
    (f : is_nil (c.header i).termination ≡ true) where
  row_free : total (λ l. c.matrix i l) c.capacity ≡ 0
  row_free = total-zero (λ l. c.matrix i l) c.capacity (λ l h. (w.idle i l f).0)

  column_free : total (λ l. c.matrix l i) c.capacity ≡ 0
  column_free = total-zero (λ l. c.matrix l i) c.capacity (λ l h. (w.idle i l f).1)

  with_termination-Counted : Counted (with_termination c i t)
  with_termination-Counted = record {
    tx = λ k. elim (Bool-cases (k == i)) [
      | inl y ↦ let p : k ≡ i = (==_iff k i).0 y in rw p (ground (arith, row_free))
      | inr n ↦ ground (arith, n, w.counted.tx k)
    ];
    rx = λ k. elim (Bool-cases (k == i)) [
      | inl y ↦ let p : k ≡ i = (==_iff k i).0 y in rw p (ground (arith, column_free))
      | inr n ↦ ground (arith, n, w.counted.rx k)
    ];
    bit = w.counted.bit;
  }

  pub with_termination-IsWellFormed : IsWellFormed (with_termination c i t)
  with_termination-IsWellFormed = record {
    counted = with_termination-Counted;
    idle = λ k l h. w.idle k l (ground (arith, h));
    occupied =
        let e : total (λ k. if is_nil ((with_termination c i t).header k).termination then 0 else 1)
                c.capacity
              + one_if_full (c.header i).termination
            ≡ total (λ k. if is_nil (c.header k).termination then 0 else 1) c.capacity + 1 =
          full-update c.header i c.capacity
            (record { termination = some t; tx_count = 0; rx_count = 0 }) hi in
        ground (arith, e, f, w.occupied);
  }

-- Adding a termination to a well-formed context fails exactly where the context is full: it is full
-- and nothing changes, or a slot that was free holds the termination, which knows the slot, the count
-- is up by one and the context is well-formed.
pub termination_add-IsWellFormed :
    (c : Context) (store : Store) (t : ℕ)
    → IsWellFormed c
    → ((c.count ≡ c.capacity) × (termination_add c store t ≡ done c store false))
      ⊎ ((i : ℕ) × (d : Context) × (after : Store) × (termination_add c store t ≡ done d after true)
          × Added c t i d after)
unfolding termination_add
termination_add-IsWellFormed c store t w = elim (Option-cases (first_free c.header 0 c.capacity)) [
  | inl e ↦ inl (
    sym w.occupied
        ∙ total-one (λ k. if is_nil (c.header k).termination then 0 else 1) c.capacity
            (λ j h.
              rw (first_free-none c.header 0 c.capacity j e (omega arith) (omega arith)) refl),
    rw (termination_add, e) refl,
  )
  | inr s ↦
      let (i, e) = s in
      let (lo, hi, f) = first_free-some c.header 0 c.capacity i e in
      inr (
        i,
        with_termination c i t,
        update store t (record (store t) { slot = pos i }),
        rw (termination_add, e) refl,
        record {
          was_free = f;
          in_range = omega arith;
          well_formed = with_termination-IsWellFormed c i t w (omega arith) f;
          held = ground arith;
          slot = ground arith;
          more = refl;
        },
      )
]

dissociate_free : (c : Context) (i j : ℕ) → c.matrix i j ≡ 0 → dissociate_one c i j ≡ c
unfolding dissociate_one
dissociate_free c i j h = ground (arith, h)

-- The loop of the subtraction passes over the slots that hold terminations, and the others have no
-- associations: it changes nothing.
pub subtract_from_lem : (c : Context) (i j k left : ℕ) → Idle c → subtract_from c i j k left ≡ c
unfolding subtract_from
subtract_from_lem c i j k zero idle = refl
subtract_from_lem c i j k (suc left) idle = elim (Bool-cases (is_nil (c.header j).termination)) [
  | inl y ↦ rw y (
      rw (dissociate_free c i j (idle j i y).1, dissociate_free c j i (idle j i y).0)
        (ground (arith, subtract_from_lem c i (j + 1) (k + 1) left idle)))
  | inr n ↦ rw n (ground (arith, subtract_from_lem c i (j + 1) k left idle))
]

eq_self : (t : ℕ) → (t == t) ≡ true
eq_self t = ground arith

slot_in : (capacity i : ℕ) → i < capacity → leb capacity i ≡ false
slot_in capacity i h = ground (arith, h)

count_positive :
    (c : Context) (i t : ℕ)
    → IsWellFormed c
    → i < c.capacity
    → (c.header i).termination ≡ some t
    → 1 ≤ c.count
count_positive c i t w lt held =
    let e : total (update (λ k. if is_nil (c.header k).termination then 0 else 1) i 0) c.capacity
          + (if is_nil (c.header i).termination then 0 else 1)
        ≡ total (λ k. if is_nil (c.header k).termination then 0 else 1) c.capacity + 0 =
      total-update (λ k. if is_nil (c.header k).termination then 0 else 1) i 0 c.capacity lt in
    ground (arith, e, held, w.occupied)

-- Taking a termination out of a well-formed context whose slot in the range holds it returns true,
-- frees the slot, sets the termination's slot to -1 and takes the count down by one. It changes
-- neither the matrix nor the counts of any slot: the associations of the termination stay behind.
pub termination_subtract-matrix :
    (c : Context) (store : Store) (t i : ℕ)
    → IsWellFormed c
    → (store t).slot ≡ pos i
    → i < c.capacity
    → (c.header i).termination ≡ some t
    → (d : Context) × (after : Store) × (termination_subtract c store t ≡ done d after true)
      × ((d.header i).termination ≡ none)
      × ((after t).slot ≡ negsuc 0)
      × (d.count + 1 ≡ c.count)
      × (d.matrix ≡ c.matrix)
      × ((k : ℕ)
          → ((d.header k).tx_count ≡ (c.header k).tx_count)
            × ((d.header k).rx_count ≡ (c.header k).rx_count))
unfolding termination_subtract free_slot
termination_subtract-matrix c store t i w p lt held = (
  free_slot c i,
  update store t (record (store t) { slot = negsuc 0 }),
  rw
      (
        termination_subtract,
        p,
        slot_in c.capacity i lt,
        held,
        subtract_from_lem c i 0 0 c.capacity w.idle,
      )
      (rw (eq_self t) refl),
  ground arith,
  ground arith,
  omega (arith, count_positive c i t w lt held),
  refl,
  λ k. (ground arith, ground arith),
)
