-- ===== src/Topology/Laws.antt =====
-- Which contexts ContextTopologyApply of mpf/mpf_context.go can serve, and what can be done with the
-- objects that it makes.
use go_mrcp.Prelude.{
  ℕ, zero, suc, ◌+◌, ◌≡◌, ◌⊎◌, refl, ap, ◌∙◌, inl, inr, arith, false, ltb, ◌==◌, List, [], ◌∷◌,
  Option, none, some, length, All, Bool-cases, Option-cases,
}
use go_mrcp.Prelude.Text.{Text}
use go_mrcp.Binaryx.{Binary}
use go_mrcp.Codec.Manager.{CodecManager}
use go_mrcp.Context.{Context}
use go_mrcp.Bridge.Stream.{Media, Run, ok, err, panic, stuck, ◌>>=◌, AudioStream}
use go_mrcp.Bridge.Process.{
  Object, Bridge, object_destroy, object_process, run_method, run_method_panics, HasMethods,
}
use go_mrcp.Bridge.Balance.{bridge_create-HasMethods}
use go_mrcp.Bridge.Create.{bridge_create}
use go_mrcp.Topology.{
  Topology, object_of, bridge_from, destroy_objects, topology_destroy, topology_apply,
  process_objects, context_process,
}

pub >>=-eq-ok :
    {S A B : Type 0} (r : Run S A) (f : S → A → Run S B) {s' : S} {v : B}
    → (r >>= f) ≡ ok s' v
    → (s : S) × (a : A) × (r ≡ ok s a) × (f s a ≡ ok s' v)
>>=-eq-ok (ok s a) f h = (s, a, refl, h)
>>=-eq-ok (err s) f h = absurd (cc)
>>=-eq-ok panic f h = absurd (cc)
>>=-eq-ok stuck f h = absurd (cc)

-- A list with an element is not empty.
pub not_empty : (n : ℕ) → (suc n == 0) ≡ false
not_empty n = ground arith

module _ {World : Type 0} (b : Binary) where
  process_panics :
      (object : Object) (m : Media World) → HasMethods object → object_process b object m ≡ panic
  unfolding object_process
  process_panics object m h =
      ap (λ f. run_method b f object m) h.process_set.1
      ∙ run_method_panics b h.process_set.0 object m

  destroy_panics :
      (object : Object) (m : Media World) → HasMethods object → object_destroy b object m ≡ panic
  unfolding object_destroy
  destroy_panics object m h =
      ap (λ f. run_method b f object m) h.destroy_set.1
      ∙ run_method_panics b h.destroy_set.0 object m

module _ {World : Type 0} (b : Binary) (streams : ℕ → Option (AudioStream World))
    (managers : ℕ → Option CodecManager) (name : Text) (c : Context) where
  -- Nothing can be done with the topology but panic.
  pub record Unusable (t : Topology World) : Type 0 where
    pub process_panic : context_process b t ≡ panic
    pub destroy_panic : topology_destroy b t ≡ panic
    pub apply_panic : topology_apply b streams managers name c t ≡ panic

  unusable :
      (object : Object) (objects : List Object) (m : Media World)
      → HasMethods object
      → Unusable (record { objects = object ∷ objects; media = m })
  unfolding context_process process_objects topology_destroy destroy_objects topology_apply
  unusable object objects m h = record {
    process_panic = rw (process_panics b object m h, not_empty (length objects)) refl;
    destroy_panic = rw (destroy_panics b object m h, not_empty (length objects)) refl;
    apply_panic = rw (destroy_panics b object m h, not_empty (length objects)) refl;
  }

  -- Every object of a topology has its methods.
  abbrev pub AllSet : Topology World → Type 0
  AllSet t = All HasMethods t.objects

  pub set-Unusable : (t : Topology World) → AllSet t → (t.objects ≡ []) ⊎ Unusable t
  set-Unusable t h = objects_cases t.objects t.media h
    where
      objects_cases :
          (objects : List Object) (m : Media World)
          → All HasMethods objects
          → (objects ≡ []) ⊎ Unusable (record { objects = objects; media = m })
      objects_cases [] m a = inl refl
      objects_cases (object ∷ objects) m a = inr (unusable object objects m a.0)

-- An object that a creation returns has its methods.
abbrev pub SetObject : {S : Type 0} → Run S (Option Object) → Type 0
SetObject (ok m none) = Unit {0}
SetObject (ok m (some object)) = HasMethods object
SetObject (err m) = Unit {0}
SetObject panic = Unit {0}
SetObject stuck = Unit {0}

-- The same for the base of a bridge.
abbrev SetBase : {World : Type 0} → Run (Media World) (Bridge World) → Type 0
SetBase (ok m bridge) = HasMethods bridge.base
SetBase (err m) = Unit {0}
SetBase panic = Unit {0}
SetBase stuck = Unit {0}

object_of-Set :
    {World : Type 0} (r : Run (Media World) (Bridge World)) → SetBase r → SetObject (object_of r)
object_of-Set (ok m bridge) h = h
object_of-Set (err m) h = tt
object_of-Set panic h = tt
object_of-Set stuck h = tt

module _ {World : Type 0} where
  created-Set :
      (source sink : Option (AudioStream World)) (manager : Option CodecManager) (name : Text)
      (m : Media World) (r : Run (Media World) (Bridge World))
      → bridge_create source sink manager name m ≡ r
      → SetBase r
  created-Set source sink manager name m (ok m' bridge) e =
      bridge_create-HasMethods source sink manager name m m' bridge e
  created-Set source sink manager name m (err m') e = tt
  created-Set source sink manager name m panic e = tt
  created-Set source sink manager name m stuck e = tt

module _ {World : Type 0} (streams : ℕ → Option (AudioStream World))
    (managers : ℕ → Option CodecManager) (name : Text) (c : Context) where
  pub bridge_from-Set :
      (i j left : ℕ) (m : Media World) → SetObject (bridge_from streams managers name c i j left m)
  unfolding bridge_from
  bridge_from-Set i j zero m = tt
  bridge_from-Set i j (suc left) m = elim (Option-cases (c.header j).termination) [
    | inl e ↦ rw (e, bridge_from) (bridge_from-Set i (j + 1) left m)
    | inr (sink, e) ↦
        rw (e, bridge_from)
          (elim (Bool-cases (c.matrix i j == 0)) [
            | inl y ↦ rw y (bridge_from-Set i (j + 1) left m)
            | inr n ↦ rw n (elim (Bool-cases (ltb 1 (c.header j).rx_count)) [
              | inl y ↦ rw y tt
              | inr o ↦ rw o (elim (Option-cases (c.header i).termination) [
                | inl f ↦ rw f (bridge_from-Set i (j + 1) left m)
                | inr (source, f) ↦ rw f (
                    object_of-Set
                      (bridge_create (streams source) (streams sink) (managers source) name m)
                      (created-Set (streams source) (streams sink) (managers source) name m
                        (bridge_create (streams source) (streams sink) (managers source) name m)
                        refl))
              ])
            ])
          ])
  ]
