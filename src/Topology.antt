-- ===== src/Topology.antt =====
-- The topology of a media context, mpf/mpf_context.go: the media processing objects that are made from
-- the association matrix, processed and destroyed.
-- The audio stream and the codec manager of a termination are given by its number. The array of objects
-- of a context that ContextCreate made is not nil.
pub mod Laws
pub mod Applied
pub mod Slots
pub mod Factory
mod Tests
use go_mrcp.Prelude.{
  ℕ, zero, suc, ◌+◌, ◌-◌, Bool, true, false, not, ltb, ◌==◌, ◌&&◌, if◌then◌else◌, List, [], ◌∷◌,
  ◌++◌, Option, none, some, length, replicate,
}
use go_mrcp.Prelude.Text.{Text}
use go_mrcp.Binaryx.{Binary}
use go_mrcp.Apr.{push}
use go_mrcp.Codec.Manager.{CodecManager}
use go_mrcp.Context.{Context}
use go_mrcp.Bridge.Stream.{Media, Run, ok, err, panic, stuck, ◌>>=◌, Done, done, AudioStream}
use go_mrcp.Bridge.Process.{Object, Bridge, object_destroy, object_process, run_method}
use go_mrcp.Bridge.Create.{bridge_create, multiplier_create, mixer_create}

pub record Topology (World : Type 0) : Type 0 where
  pub objects : List Object
  pub media : Media World

-- A call whose error is dropped.
abbrev pub drop_error : {S : Type 0} → Run S Done → Run S Done
drop_error (ok s d) = ok s d
drop_error (err s) = ok s done
drop_error panic = panic
drop_error stuck = stuck

module _ {World : Type 0} where
  abbrev pub object_of : Run (Media World) (Bridge World) → Run (Media World) (Option Object)
  object_of r = r >>= λ m bridge. ok m (some bridge.base)

  -- ContextObjectAdd, which refuses a nil object.
  unfoldable pub context_object_add : Topology World → Option Object → Run (Topology World) Done
  unfolding push
  context_object_add t none = err t
  context_object_add t (some object) = ok (record t { objects = push t.objects object }) done

  abbrev pub set_media : Topology World → Media World → Topology World
  set_media t m = record t { media = m }

  -- A creation on the media, and the object added.
  abbrev pub add_created :
      Topology World → Run (Media World) (Option Object) → Run (Topology World) Done
  add_created t (ok m object) = context_object_add (set_media t m) object
  add_created t (err m) = err (set_media t m)
  add_created t panic = panic
  add_created t stuck = stuck

module _ {World : Type 0} (b : Binary) where
  -- The loop of ContextTopologyDestroy over the objects.
  unfoldable pub destroy_objects : List Object → Media World → Run (Media World) Done
  unfolding object_destroy
  destroy_objects [] m = ok m done
  destroy_objects (object ∷ objects) m =
      drop_error (object_destroy b object m) >>= λ m' _. destroy_objects objects m'

  abbrev pub cleared : Run (Media World) Done → Run (Topology World) Done
  cleared (ok m d) = ok (record { objects = []; media = m }) done
  cleared (err m) = err (record { objects = []; media = m })
  cleared panic = panic
  cleared stuck = stuck

  unfoldable pub topology_destroy : Topology World → Run (Topology World) Done
  unfolding destroy_objects
  topology_destroy t =
      if length t.objects == 0 then ok t done else cleared (destroy_objects t.objects t.media)

  -- The loop of ContextProcess; no object is nil.
  unfoldable pub process_objects : List Object → Media World → Run (Media World) Done
  unfolding object_process
  process_objects [] m = ok m done
  process_objects (object ∷ objects) m =
      object_process b object m >>= λ m' _. process_objects objects m'

  unfoldable pub context_process : Topology World → Run (Media World) Done
  unfolding process_objects
  context_process t =
      if length t.objects == 0 then ok t.media done else process_objects t.objects t.media

module _ {World : Type 0} (streams : ℕ → Option (AudioStream World))
    (managers : ℕ → Option CodecManager) (name : Text) (c : Context) where
  -- The loop of ContextBridgeCreate from slot `j` on, of `left` slots.
  unfoldable pub bridge_from : ℕ → ℕ → ℕ → Media World → Run (Media World) (Option Object)
  unfolding bridge_create
  bridge_from i j zero m = ok m none
  bridge_from i j (suc left) m =
      let rest = bridge_from i (j + 1) left m in
      elim (c.header j).termination [
        | none ↦ rest
        | some sink ↦
            if c.matrix i j == 0
            then rest
            else if ltb 1 (c.header j).rx_count
            then ok m none
            else elim (c.header i).termination [
              | none ↦ rest
              | some source ↦
                  object_of (bridge_create (streams source) (streams sink) (managers source) name m)
            ]
      ]

  unfoldable pub context_bridge_create : ℕ → Media World → Run (Media World) (Option Object)
  unfolding bridge_from
  context_bridge_create i m = bridge_from i 0 c.capacity m

  -- The streams that ContextMultiplierCreate and ContextMixerCreate collect, from slot `j` on, of `left`
  -- slots, `n` streams at most; what is left of the array of the source stays nil.
  unfoldable pub collect : (ℕ → ℕ) → ℕ → ℕ → ℕ → List (Option (AudioStream World))
  collect on n j zero = replicate n none
  collect on zero j (suc left) = []
  collect on (suc n) j (suc left) = elim (c.header j).termination [
    | none ↦ collect on (suc n) (j + 1) left
    | some t ↦
        if on j == 0 then collect on (suc n) (j + 1) left else streams t ∷ collect on n (j + 1) left
  ]

  unfoldable pub context_multiplier_create : ℕ → Media World → Run (Media World) (Option Object)
  unfolding collect multiplier_create
  context_multiplier_create i m = elim (c.header i).termination [
    | none ↦ panic
    | some t ↦ ok m (
        multiplier_create (streams t)
          (collect (λ j. c.matrix i j) (c.header i).tx_count 0 c.capacity) (managers t) name)
  ]

  unfoldable pub context_mixer_create : ℕ → Media World → Run (Media World) (Option Object)
  unfolding collect mixer_create
  context_mixer_create j m = elim (c.header j).termination [
    | none ↦ panic
    | some t ↦ ok m (
        mixer_create (collect (λ i. c.matrix i j) (c.header j).rx_count 0 c.capacity) (streams t)
          (managers t) name)
  ]

  unfoldable pub apply_tx : ℕ → Topology World → Run (Topology World) Done
  unfolding context_bridge_create context_multiplier_create
  apply_tx i t =
      if ltb 0 (c.header i).tx_count
      then add_created t (
          if (c.header i).tx_count == 1
          then context_bridge_create i t.media
          else context_multiplier_create i t.media)
      else ok t done

  unfoldable pub apply_rx : ℕ → Topology World → Run (Topology World) Done
  unfolding context_mixer_create
  apply_rx i t =
      if ltb 1 (c.header i).rx_count
      then add_created t (context_mixer_create i t.media)
      else ok t done

  -- The loop of ContextTopologyApply from slot `i` on, of `left` slots; `k` is how many of the slots
  -- before had a termination.
  unfoldable pub apply_from : ℕ → ℕ → ℕ → Topology World → Run (Topology World) Done
  unfolding apply_tx apply_rx
  apply_from i k zero t = ok t done
  apply_from i k (suc left) t = elim (ltb k c.count) [
    | false ↦ ok t done
    | true ↦ elim (c.header i).termination [
      | none ↦ apply_from (i + 1) k left t
      | some termination ↦
          apply_tx i t >>= λ t1 _. apply_rx i t1 >>= λ t2 _. apply_from (i + 1) (k + 1) left t2
    ]
  ]

module _ {World : Type 0} (b : Binary) where
  unfoldable pub topology_apply :
      (ℕ → Option (AudioStream World))
      → (ℕ → Option CodecManager)
      → Text
      → Context
      → Topology World
      → Run (Topology World) Done
  unfolding topology_destroy apply_from
  topology_apply streams managers name c t = drop_error (topology_destroy b t) >>= λ t' _.
      apply_from streams managers name c 0 0 c.capacity t'
