-- ===== src/Topology/Applied.antt =====
-- ContextTopologyApply of mpf/mpf_context.go: which contexts it can serve, and with how many objects.
use go_mrcp.Prelude.{
  ℕ, zero, suc, ◌+◌, ◌-◌, ◌<◌, ◌≤◌, ◌≡◌, ◌≢◌, ◌⊎◌, refl, inl, inr, arith, ltb, ◌==◌, Option, none,
  some, Bool-cases, Option-cases,
}
use go_mrcp.Prelude.Text.{Text}
use go_mrcp.Apr.{push}
use go_mrcp.Codec.Manager.{CodecManager}
use go_mrcp.Context.{Context}
use go_mrcp.Context.Counts.{total}
use go_mrcp.Bridge.Stream.{Media, Run, ok, err, panic, stuck, Done, AudioStream}
use go_mrcp.Bridge.Process.{Object, HasMethods}
use go_mrcp.Topology.{
  Topology, context_bridge_create, context_multiplier_create, context_mixer_create,
  context_object_add, add_created, apply_tx, apply_rx,
}
use go_mrcp.Topology.Laws.{SetObject, bridge_from-Set}

pub total-next : (f : ℕ → ℕ) (i : ℕ) → total f (i + 1) ≡ f i + total f i
unfolding total
total-next f i = let e : i + 1 ≡ suc i = omega arith in rw e refl

-- A sum that has reached its end adds nothing more.
pub total-le : (f : ℕ → ℕ) (i left : ℕ) → total f i ≤ total f (i + left)
unfolding total
total-le f i zero = let e : i + 0 ≡ i = omega arith in rw e (omega arith)
total-le f i (suc left) =
    let e : i + suc left ≡ suc (i + left) = omega arith in rw e (omega (arith, total-le f i left))

pub total-end :
    (f : ℕ → ℕ) (i j left : ℕ) → total f (i + left) ≤ total f i → i ≤ j → j < i + left → f j ≡ 0
total-end f i j left h p q =
    let m : j + 1 + (i + left - (j + 1)) ≡ i + left = omega arith in
    let a : total f (j + 1) ≤ total f (i + left) =
      rw m at (total-le f (j + 1) (i + left - (j + 1))) in
    let n : i + (j - i) ≡ j = omega arith in
    let b : total f i ≤ total f j = rw n at (total-le f i (j - i)) in
    omega (arith, a, b, total-next f j)

pub total-flat :
    (g : ℕ → ℕ) (i left : ℕ)
    → ((j : ℕ) → i ≤ j → j < i + left → g j ≡ 0)
    → total g (i + left) ≡ total g i
unfolding total
total-flat g i zero h = let e : i + 0 ≡ i = omega arith in rw e refl
total-flat g i (suc left) h =
    let e : i + suc left ≡ suc (i + left) = omega arith in
    rw e (
      omega (
        arith,
        h (i + left) (omega arith) (omega arith),
        total-flat g i left (λ j p q. h j p (omega arith)),
      ))

module _ {World : Type 0} where
  -- One object that has its methods is put behind the others.
  abbrev pub AddedOne : Topology World → Topology World → Type 0
  AddedOne t t1 = (object : Object) × HasMethods object × (t1.objects ≡ push t.objects object)

  add_created-ok :
      (t t1 : Topology World) (d : Done) (r : Run (Media World) (Option Object))
      → SetObject r
      → add_created t r ≡ ok t1 d
      → AddedOne t t1
  unfolding context_object_add
  add_created-ok t t1 d (ok m none) s h = absurd (cc)
  add_created-ok t t1 d (ok m (some object)) s h = (object, s, ground arith)
  add_created-ok t t1 d (err m) s h = absurd (cc)
  add_created-ok t t1 d panic s h = absurd (cc)
  add_created-ok t t1 d stuck s h = absurd (cc)

module _ {World : Type 0} (streams : ℕ → Option (AudioStream World))
    (managers : ℕ → Option CodecManager) (name : Text) (c : Context) where
  multiplier_fails :
      (i : ℕ) (t t1 : Topology World) (d : Done)
      → add_created t (context_multiplier_create streams managers name c i t.media) ≢ ok t1 d
  unfolding context_multiplier_create context_object_add
  multiplier_fails i t t1 d h = elim (Option-cases (c.header i).termination) [
    | inl e ↦ (let h' = rw (e, context_multiplier_create) at h in cc)
    | inr (u, e) ↦ (let h' = rw (e, context_multiplier_create) at h in cc)
  ]

  mixer_fails :
      (i : ℕ) (t t1 : Topology World) (d : Done)
      → add_created t (context_mixer_create streams managers name c i t.media) ≢ ok t1 d
  unfolding context_mixer_create context_object_add
  mixer_fails i t t1 d h = elim (Option-cases (c.header i).termination) [
    | inl e ↦ (let h' = rw (e, context_mixer_create) at h in cc)
    | inr (u, e) ↦ (let h' = rw (e, context_mixer_create) at h in cc)
  ]

  pub apply_tx-ok :
      (i : ℕ) (t t1 : Topology World) (d : Done)
      → apply_tx streams managers name c i t ≡ ok t1 d
      → (((c.header i).tx_count ≡ 0) × (t1 ≡ t)) ⊎ (((c.header i).tx_count ≡ 1) × AddedOne t t1)
  unfolding apply_tx context_bridge_create
  apply_tx-ok i t t1 d h = elim (Bool-cases (ltb 0 (c.header i).tx_count)) [
    | inr n ↦ inl (ground arith, let h' = rw n at h in ground arith)
    | inl y ↦ elim (Bool-cases ((c.header i).tx_count == 1)) [
      | inl one ↦ inr (
        ground arith,
        add_created-ok t t1 d (context_bridge_create streams managers name c i t.media)
            (bridge_from-Set streams managers name c i 0 c.capacity t.media) (rw (y, one) at h),
      )
      | inr more ↦ absurd (multiplier_fails i t t1 d (rw (y, more) at h))
    ]
  ]

  pub apply_rx-ok :
      (i : ℕ) (t t1 : Topology World) (d : Done)
      → apply_rx streams managers name c i t ≡ ok t1 d
      → ((c.header i).rx_count ≤ 1) × (t1 ≡ t)
  unfolding apply_rx
  apply_rx-ok i t t1 d h = elim (Bool-cases (ltb 1 (c.header i).rx_count)) [
    | inl y ↦ absurd (mixer_fails i t t1 d (rw y at h))
    | inr n ↦ (ground arith, let h' = rw n at h in ground arith)
  ]
