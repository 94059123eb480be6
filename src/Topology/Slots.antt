-- ===== src/Topology/Slots.antt =====
-- The slots that ContextTopologyApply of mpf/mpf_context.go goes through.
use go_mrcp.Prelude.{
  ℕ, zero, suc, ◌+◌, ◌<◌, ◌≤◌, ◌≡◌, ◌⊎◌, refl, ap, ◌∙◌, inl, inr, arith, sym, true, false, ltb,
  ◌==◌, if◌then◌else◌, List, [], ◌∷◌, Option, none, length, length-append, All, Bool-cases,
  Option-cases,
}
use go_mrcp.Prelude.Text.{Text}
use go_mrcp.Binaryx.{Binary}
use go_mrcp.Apr.{push}
use go_mrcp.Codec.Manager.{CodecManager}
use go_mrcp.Context.{Context, is_nil}
use go_mrcp.Context.Counts.{IsWellFormed, total, total-zero, total-ext}
use go_mrcp.Bridge.Stream.{Media, Run, ok, err, panic, stuck, ◌>>=◌, Done, AudioStream}
use go_mrcp.Bridge.Process.{Object, HasMethods}
use go_mrcp.Topology.{
  Topology, apply_tx, apply_rx, apply_from, drop_error, cleared, destroy_objects, topology_destroy,
  topology_apply,
}
use go_mrcp.Topology.Laws.{not_empty, >>=-eq-ok, Unusable, set-Unusable}
use go_mrcp.Topology.Applied.{total-next, total-end, total-flat, AddedOne, apply_tx-ok, apply_rx-ok}

abbrev pub no_objects : {World : Type 0} → Media World → Topology World
no_objects m = record { objects = []; media = m }

total_start : (f : ℕ → ℕ) → total f 0 ≡ 0
unfolding total
total_start f = refl

-- The terminations of a context, and its transmitters, slot by slot.
abbrev pub full : Context → ℕ → ℕ
full c j = if is_nil (c.header j).termination then 0 else 1

abbrev pub senders : Context → ℕ → ℕ
senders c j = if is_nil (c.header j).termination then 0 else (c.header j).tx_count

-- The counts of a slot with a termination.
abbrev CountsOne : Context → ℕ → Type 0
CountsOne c j =
    is_nil (c.header j).termination ≡ false
    → ((c.header j).tx_count ≤ 1) × ((c.header j).rx_count ≤ 1)

-- The slots that a slot sends to and receives from, by the matrix.
abbrev pub receivers_of : Context → ℕ → ℕ
receivers_of c j = total (λ l. c.matrix j l) c.capacity

abbrev pub transmitters_of : Context → ℕ → ℕ
transmitters_of c j = total (λ l. c.matrix l j) c.capacity

-- A slot sends to one slot at most, and receives from one at most.
abbrev pub IsSimple : Context → ℕ → Type 0
IsSimple c j = (receivers_of c j ≤ 1) × (transmitters_of c j ≤ 1)

total-le_length : (f : ℕ → ℕ) (n : ℕ) → ((j : ℕ) → f j ≤ 1) → total f n ≤ n
unfolding total
total-le_length f zero h = omega arith
total-le_length f (suc n) h = omega (arith, h n, total-le_length f n h)

-- In a context of at most 255 slots no count wraps around.
module _ (c : Context) (w : IsWellFormed c) (few : c.capacity < 256) where
  tx_exact : (j : ℕ) → (c.header j).tx_count ≡ receivers_of c j
  tx_exact j =
      ground
        (arith, w.counted.tx j, total-le_length (λ l. c.matrix j l) c.capacity (w.counted.bit j))

  rx_exact : (j : ℕ) → (c.header j).rx_count ≡ transmitters_of c j
  rx_exact j = ground (
    arith,
    w.counted.rx j,
    total-le_length (λ l. c.matrix l j) c.capacity (λ l. w.counted.bit l j),
  )

  idle_row : (j : ℕ) → is_nil (c.header j).termination ≡ true → receivers_of c j ≡ 0
  idle_row j h = total-zero (λ l. c.matrix j l) c.capacity (λ l p. (w.idle j l h).0)

  idle_column : (j : ℕ) → is_nil (c.header j).termination ≡ true → transmitters_of c j ≡ 0
  idle_column j h = total-zero (λ l. c.matrix l j) c.capacity (λ l p. (w.idle j l h).1)

  senders_exact : (j : ℕ) → senders c j ≡ receivers_of c j
  senders_exact j = elim (Bool-cases (is_nil (c.header j).termination)) [
    | inl y ↦ rw (y, idle_row j y) refl
    | inr n ↦ rw n (tx_exact j)
  ]

  counted-IsSimple : (j : ℕ) → CountsOne c j → IsSimple c j
  counted-IsSimple j one = elim (Bool-cases (is_nil (c.header j).termination)) [
    | inl y ↦ (omega (arith, idle_row j y), omega (arith, idle_column j y))
    | inr n ↦ let (p, q) = one n in (omega (arith, p, tx_exact j), omega (arith, q, rx_exact j))
  ]

All-push :
    (os : List Object) (o : Object) → All HasMethods os → HasMethods o → All HasMethods (push os o)
unfolding push
All-push [] o h p = (p, tt)
All-push (x ∷ os) o h p = (h.0, All-push os o h.1 p)

length-push : (os : List Object) (o : Object) → length (push os o) ≡ length os + 1
unfolding push
length-push os o = omega (arith, length-append os (o ∷ []))

module _ {World : Type 0} (c : Context) where
  -- What an application that goes through from slot `i` on has shown and done.
  pub record Applied (i : ℕ) (t t' : Topology World) : Type 0 where
    pub all_set : All HasMethods t'.objects
    pub simple : (j : ℕ) → i ≤ j → j < c.capacity → CountsOne c j
    pub objects_added :
        length t'.objects + total (senders c) i ≡ length t.objects + total (senders c) c.capacity

  Applied-end :
      (i left : ℕ) (t : Topology World)
      → i + left ≡ c.capacity
      → total (full c) c.capacity ≤ total (full c) i
      → All HasMethods t.objects
      → Applied i t t
  Applied-end i left t e h s =
      let empty : (j : ℕ) → i ≤ j → j < c.capacity → full c j ≡ 0 =
        λ j p q. total-end (full c) i j left (rw e h) p (rw e q) in
      let flat : total (senders c) c.capacity ≡ total (senders c) i =
        rw e at (
          total-flat (senders c) i left (λ j p q. let z = empty j p (rw e at q) in ground arith)) in
      record {
        all_set = s;
        simple = λ j p q occupied. let z = empty j p q in absurd (ground arith);
        objects_added = rw flat refl;
      }

  Applied-free :
      (i : ℕ) (t t' : Topology World)
      → (c.header i).termination ≡ none
      → Applied (i + 1) t t'
      → Applied i t t'
  Applied-free i t t' e a = record {
    all_set = a.all_set;
    simple = λ j p q occupied. elim (Bool-cases (j == i)) [
      | inl y ↦
          (let j_is : j ≡ i = ground arith in let bad = rw (j_is, e) at occupied in absurd (cc))
      | inr n ↦ a.simple j (ground arith) q occupied
    ];
    objects_added = omega (
      arith,
      a.objects_added,
      total-next (senders c) i,
      (let z : senders c i ≡ 0 = rw e refl in z),
    );
  }

  Applied-full :
      (i : ℕ) (t t2 t' : Topology World)
      → is_nil (c.header i).termination ≡ false
      → (c.header i).tx_count ≤ 1
      → (c.header i).rx_count ≤ 1
      → length t2.objects ≡ length t.objects + (c.header i).tx_count
      → Applied (i + 1) t2 t'
      → Applied i t t'
  Applied-full i t t2 t' e p q l a = record {
    all_set = a.all_set;
    simple = λ j lo hi occupied. elim (Bool-cases (j == i)) [
      | inl y ↦ (let j_is : j ≡ i = ground arith in rw j_is (p, q))
      | inr n ↦ a.simple j (ground arith) hi occupied
    ];
    objects_added =
        let z : senders c i ≡ (c.header i).tx_count = rw e refl in
        omega (arith, a.objects_added, total-next (senders c) i, z, l);
  }

  -- What the two tests of a slot leave.
  record Stepped (i : ℕ) (t t2 : Topology World) : Type 0 where
    tx_one : (c.header i).tx_count ≤ 1
    rx_one : (c.header i).rx_count ≤ 1
    grown : length t2.objects ≡ length t.objects + (c.header i).tx_count
    still_set : All HasMethods t2.objects

  stepped :
      (i : ℕ) (t t1 t2 : Topology World)
      → All HasMethods t.objects
      → (((c.header i).tx_count ≡ 0) × (t1 ≡ t)) ⊎ (((c.header i).tx_count ≡ 1) × AddedOne t t1)
      → ((c.header i).rx_count ≤ 1) × (t2 ≡ t1)
      → Stepped i t t2
  stepped i t t1 t2 s (inl (z, e)) (r, f) =
      rw (f, e) (record { tx_one = omega arith; rx_one = r; grown = omega arith; still_set = s })
  stepped i t t1 t2 s (inr (one, (object, o, e))) (r, f) = rw f (record {
    tx_one = omega arith;
    rx_one = r;
    grown = ap (λ l. length l) e ∙ omega (arith, length-push t.objects object);
    still_set = rw e (All-push t.objects object s o);
  })

module _ {World : Type 0} (streams : ℕ → Option (AudioStream World))
    (managers : ℕ → Option CodecManager) (name : Text) (c : Context) where
  pub apply_from-Applied :
      (i k left : ℕ) (t t' : Topology World) (d : Done)
      → k ≡ total (full c) i
      → total (full c) c.capacity ≡ c.count
      → i + left ≡ c.capacity
      → All HasMethods t.objects
      → apply_from streams managers name c i k left t ≡ ok t' d
      → Applied c i t t'
  unfolding apply_from
  apply_from-Applied i k zero t t' d hk hc hl s h =
      let same : t ≡ t' = cc in
      let e : i ≡ c.capacity = omega arith in
      rw (← same) (Applied-end c i 0 t hl (rw e (omega arith)) s)
  apply_from-Applied i k (suc left) t t' d hk hc hl s h = elim (Bool-cases (ltb k c.count)) [
    | inr n ↦
        let h' = rw (n, apply_from) at h in
        let same : t ≡ t' = cc in rw (← same) (Applied-end c i (suc left) t hl (ground (arith)) s)
    | inl y ↦ elim (Option-cases (c.header i).termination) [
      | inl e ↦
          let h' = rw (y, e, apply_from) at h in
          let f : full c i ≡ 0 = rw e refl in
          Applied-free c i t t' e (
            apply_from-Applied (i + 1) k left t t' d (omega (arith, total-next (full c) i, f)) hc
              (omega arith) s h')
      | inr (u, e) ↦
          let h' = rw (y, e, apply_from) at h in
          let f : full c i ≡ 1 = rw e refl in
          let (t1, d1, h1, r1) =
            >>=-eq-ok (apply_tx streams managers name c i t)
              (λ t1 _. apply_rx streams managers name c i t1 >>= λ t2 _.
                apply_from streams managers name c (i + 1) (k + 1) left t2)
              h' in
          let (t2, d2, h2, r2) =
            >>=-eq-ok (apply_rx streams managers name c i t1)
              (λ t2 _. apply_from streams managers name c (i + 1) (k + 1) left t2) r1 in
          let w =
            stepped c i t t1 t2 s (apply_tx-ok streams managers name c i t t1 d1 h1)
              (apply_rx-ok streams managers name c i t1 t2 d2 h2) in
          Applied-full c i t t2 t' (rw e refl) w.tx_one w.rx_one w.grown (
            apply_from-Applied (i + 1) (k + 1) left t2 t' d
              (omega (arith, total-next (full c) i, f)) hc (omega arith) w.still_set r2)
    ]
  ]

  apply_from-AllSet :
      (i k left : ℕ) (t t' : Topology World) (d : Done)
      → All HasMethods t.objects
      → apply_from streams managers name c i k left t ≡ ok t' d
      → All HasMethods t'.objects
  unfolding apply_from
  apply_from-AllSet i k zero t t' d s h = let same : t ≡ t' = cc in rw (← same) s
  apply_from-AllSet i k (suc left) t t' d s h = elim (Bool-cases (ltb k c.count)) [
    | inr n ↦ (let h' = rw (n, apply_from) at h in let same : t ≡ t' = cc in rw (← same) s)
    | inl y ↦ elim (Option-cases (c.header i).termination) [
      | inl e ↦ apply_from-AllSet (i + 1) k left t t' d s (rw (y, e, apply_from) at h)
      | inr (u, e) ↦
          let (t1, d1, h1, r1) =
            >>=-eq-ok (apply_tx streams managers name c i t)
              (λ t1 _. apply_rx streams managers name c i t1 >>= λ t2 _.
                apply_from streams managers name c (i + 1) (k + 1) left t2)
              (rw (y, e, apply_from) at h) in
          let (t2, d2, h2, r2) =
            >>=-eq-ok (apply_rx streams managers name c i t1)
              (λ t2 _. apply_from streams managers name c (i + 1) (k + 1) left t2) r1 in
          let w =
            stepped c i t t1 t2 s (apply_tx-ok streams managers name c i t t1 d1 h1)
              (apply_rx-ok streams managers name c i t1 t2 d2 h2) in
          apply_from-AllSet (i + 1) (k + 1) left t2 t' d w.still_set r2
    ]
  ]

module _ {World : Type 0} (b : Binary) where
  cleared_cases :
      (r : Run (Media World) Done) (t1 : Topology World) (d : Done)
      → drop_error (cleared b r) ≡ ok t1 d
      → t1.objects ≡ []
  cleared_cases (ok m e) t1 d h =
      let same : record { objects = []; media = m } ≡ t1 = cc in rw (← same) refl
  cleared_cases (err m) t1 d h =
      let same : record { objects = []; media = m } ≡ t1 = cc in rw (← same) refl
  cleared_cases panic t1 d h = absurd (cc)
  cleared_cases stuck t1 d h = absurd (cc)

  -- What is destroyed has no objects.
  destroyed-empty :
      (t t1 : Topology World) (d : Done)
      → drop_error (topology_destroy b t) ≡ ok t1 d
      → t1.objects ≡ []
  unfolding topology_destroy
  destroyed-empty t t1 d h = destroyed t.objects t.media t1 d h
    where
      destroyed :
          (objects : List Object) (m : Media World) (t1 : Topology World) (d : Done)
          → drop_error (topology_destroy b (record { objects = objects; media = m })) ≡ ok t1 d
          → t1.objects ≡ []
      destroyed [] m t1 d h =
          let same : record { objects = []; media = m } ≡ t1 = cc in rw (← same) refl
      destroyed (object ∷ objects) m t1 d h =
          cleared_cases (destroy_objects b (object ∷ objects) m) t1 d
            (rw (not_empty (length objects)) at h)

module _ {World : Type 0} (b : Binary) (streams : ℕ → Option (AudioStream World))
    (managers : ℕ → Option CodecManager) (name : Text) (c : Context) (t t' : Topology World)
    (d : Done) (runs : topology_apply b streams managers name c t ≡ ok t' d) where
  -- The old objects are destroyed, and the loop begins with none.
  loop_begins :
      (start : Topology World) × (start.objects ≡ [])
      × (apply_from streams managers name c 0 0 c.capacity start ≡ ok t' d)
  unfolding topology_apply
  loop_begins =
      let (start, e, gone, rest) =
        >>=-eq-ok (drop_error (topology_destroy b t))
          (λ t1 _. apply_from streams managers name c 0 0 c.capacity t1) runs in
      (start, destroyed-empty b t start e gone, rest)

  -- Once a topology, with any objects that it had before, is applied without an error to a well-formed
  -- context of at most 255 slots, every slot of the context sends to one slot at most and receives
  -- from one at most, by the association matrix, and the topology has as many objects as there are
  -- associations. So applying one never succeeds on a well-formed context of at most 255 slots in
  -- which a slot sends to two or receives from two.
  pub topology_apply-IsSimple :
      IsWellFormed c
      → c.capacity < 256
      → ((j : ℕ) → j < c.capacity → IsSimple c j)
        × (length t'.objects ≡ total (receivers_of c) c.capacity)
  topology_apply-IsSimple w few =
      let (start, none_yet, rest) = loop_begins in
      let a =
        apply_from-Applied streams managers name c 0 0 c.capacity start t' d
          (sym (total_start (full c))) w.occupied (omega arith) (rw none_yet tt) rest in
      (
        λ j p. counted-IsSimple c w few j (a.simple j (omega arith) p),
        omega (
          arith,
          a.objects_added,
          total_start (senders c),
          ap (λ os. length os) none_yet,
          total-ext (senders c) (receivers_of c) c.capacity (senders_exact c w few),
        ),
      )

  -- Once a topology is applied without an error, to any context and with any objects that it had
  -- before, either there is nothing to process, or processing it, applying a topology to the context
  -- again and destroying the topology all panic.
  pub topology_apply-Unusable : (t'.objects ≡ []) ⊎ Unusable b streams managers name c t'
  topology_apply-Unusable =
      let (start, none_yet, rest) = loop_begins in
      set-Unusable b streams managers name c t'
        (apply_from-AllSet streams managers name c 0 0 c.capacity start t' d (rw none_yet tt) rest)
