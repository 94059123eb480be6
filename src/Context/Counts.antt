-- ===== src/Context/Counts.antt =====
-- The invariant of a media context, mpf/mpf_context.go: the counts of a slot are the sums of its row
-- and its column of the matrix, a free slot has no association, and `Count` counts the terminations.
use go_mrcp.Prelude.{
  ℕ, zero, suc, ◌+◌, ◌<◌, ◌≤◌, ◌≡◌, refl, ◌∙◌, true, false, ◌==◌, if◌then◌else◌, arith, Bool-cases,
  inl, inr, ==_iff,
}
use go_mrcp.Prelude.Words.{u8}
use go_mrcp.Context.{Context, update, update2, switch, is_nil}

unfoldable pub total : (ℕ → ℕ) → ℕ → ℕ
total f zero = 0
total f (suc n) = f n + total f n

pub total-zero : (f : ℕ → ℕ) (n : ℕ) → ((j : ℕ) → j < n → f j ≡ 0) → total f n ≡ 0
unfolding total
total-zero f zero h = refl
total-zero f (suc n) h = omega (arith, h n, total-zero f n (λ j l. h j (omega arith)))

total-same : (f : ℕ → ℕ) (i v n : ℕ) → n ≤ i → total (update f i v) n ≡ total f n
unfolding total
total-same f i v zero h = refl
total-same f i v (suc n) h = ground (arith, total-same f i v n)

pub total-update : (f : ℕ → ℕ) (i v n : ℕ) → i < n → total (update f i v) n + f i ≡ total f n + v
unfolding total
total-update f i v zero h = absurd (omega arith)
total-update f i v (suc n) h = ground (arith, total-update f i v n, total-same f i v n)

pub total-ext : (f g : ℕ → ℕ) (n : ℕ) → ((j : ℕ) → f j ≡ g j) → total f n ≡ total g n
unfolding total
total-ext f g zero h = refl
total-ext f g (suc n) h = omega (arith, h n, total-ext f g n h)

module _ (m : ℕ → ℕ → ℕ) (i j v n : ℕ) where
  row_at : j < n → total (λ l. update2 m i j v i l) n + m i j ≡ total (λ l. m i l) n + v
  row_at h =
      let e : total (λ l. update2 m i j v i l) n ≡ total (update (m i) j v) n =
        total-ext (λ l. update2 m i j v i l) (update (m i) j v) n (λ l. ground arith) in
      omega (arith, e, total-update (m i) j v n h)

  row_other : (k : ℕ) → (k == i) ≡ false → total (λ l. update2 m i j v k l) n ≡ total (λ l. m k l) n
  row_other k h = total-ext (λ l. update2 m i j v k l) (λ l. m k l) n (λ l. rw h refl)

  column_at : i < n → total (λ l. update2 m i j v l j) n + m i j ≡ total (λ l. m l j) n + v
  column_at h =
      let e : total (λ l. update2 m i j v l j) n ≡ total (update (λ l. m l j) i v) n =
        total-ext (λ l. update2 m i j v l j) (update (λ l. m l j) i v) n (λ l. ground arith) in
      omega (arith, e, total-update (λ l. m l j) i v n h)

  column_other :
      (k : ℕ) → (k == j) ≡ false → total (λ l. update2 m i j v l k) n ≡ total (λ l. m l k) n
  column_other k h = total-ext (λ l. update2 m i j v l k) (λ l. m l k) n (λ l. ground (arith, h))

-- The counts of a slot are the sums of its row and its column, on uint8, and an item is 0 or 1.
pub record Counted (c : Context) : Type 0 where
  pub tx : (k : ℕ) → (c.header k).tx_count ≡ u8 (total (λ l. c.matrix k l) c.capacity)
  pub rx : (k : ℕ) → (c.header k).rx_count ≡ u8 (total (λ l. c.matrix l k) c.capacity)
  pub bit : (k l : ℕ) → c.matrix k l ≤ 1

-- A free slot has no association.
abbrev pub Idle : Context → Type 0
Idle c =
    (k l : ℕ) → is_nil (c.header k).termination ≡ true → (c.matrix k l ≡ 0) × (c.matrix l k ≡ 0)

pub record IsWellFormed (c : Context) : Type 0 where
  pub counted : Counted c
  pub idle : Idle c
  pub occupied : total (λ k. if is_nil (c.header k).termination then 0 else 1) c.capacity ≡ c.count

-- `a` is what a switch adds to the counts on uint8 when the item goes to `v`.
module _ (v a : ℕ) (c : Context) (i j : ℕ) where
  switch-tx :
      (k : ℕ)
      → ((switch v a c i j).header k).tx_count
        ≡ (if k == i then u8 ((c.header i).tx_count + a) else (c.header k).tx_count)
  unfolding switch
  switch-tx k = ground arith

  switch-rx :
      (k : ℕ)
      → ((switch v a c i j).header k).rx_count
        ≡ (if k == j then u8 ((c.header j).rx_count + a) else (c.header k).rx_count)
  unfolding switch
  switch-rx k = ground arith

  pub switch-nil :
      (k : ℕ) → is_nil ((switch v a c i j).header k).termination ≡ is_nil (c.header k).termination
  unfolding switch
  switch-nil k = ground arith

  pub switch-Counted :
      Counted c
      → i < c.capacity
      → j < c.capacity
      → v ≤ 1
      → u8 (c.matrix i j + a) ≡ v
      → Counted (switch v a c i j)
  unfolding switch
  switch-Counted w hi hj hv e = record {
    tx = λ k. elim (Bool-cases (k == i)) [
      | inl y ↦
          let p : k ≡ i = (==_iff k i).0 y in
          rw p (switch-tx i ∙ ground (arith, row_at c.matrix i j v c.capacity hj, w.tx i))
      | inr n ↦ switch-tx k ∙ ground (arith, n, row_other c.matrix i j v c.capacity k n, w.tx k)
    ];
    rx = λ k. elim (Bool-cases (k == j)) [
      | inl y ↦
          let p : k ≡ j = (==_iff k j).0 y in
          rw p (switch-rx j ∙ ground (arith, column_at c.matrix i j v c.capacity hi, w.rx j))
      | inr n ↦ switch-rx k ∙ ground (arith, n, column_other c.matrix i j v c.capacity k n, w.rx k)
    ];
    bit = λ k l. ground (arith, w.bit k l);
  }
