-- ===== src/Topology/Tests.antt =====
-- A context of two terminations, the first of which sends to the second.
use go_mrcp.Prelude.{
  ℕ, ◌<◌, ◌≡◌, ◌⊎◌, refl, arith, ◌==◌, if◌then◌else◌, [], ◌∷◌, Option, none, some, length,
}
use go_mrcp.Prelude.Int.{pos}
use go_mrcp.Prelude.Text.{Text, codes}
use go_mrcp.Binaryx.{Binary}
use go_mrcp.Codec.Descriptor.{descriptors_match, descriptor_match_by_attribs}
use go_mrcp.Codec.G711.{g711u_descriptor, codec_g711u_create}
use go_mrcp.Codec.Manager.{CodecManager, get_loop}
use go_mrcp.Context.{Context, Store, create, associate_one, compatible, switch}
use go_mrcp.Context.Counts.{IsWellFormed, total}
use go_mrcp.Context.Associations.{associate_one-IsWellFormed}
use go_mrcp.Context.Slots.{create-IsWellFormed, with_termination, with_termination-IsWellFormed}
use go_mrcp.Bridge.Stream.{Media, AudioStream, ok, done}
use go_mrcp.Bridge.Laws.{null_bridge, set_rx}
use go_mrcp.Topology.{Topology, topology_apply, context_object_add}
use go_mrcp.Topology.Laws.{Unusable}
use go_mrcp.Topology.Slots.{
  no_objects, IsSimple, receivers_of, topology_apply-IsSimple, topology_apply-Unusable,
}

-- Termination 7 only receives from its network, and so is a source; termination 8 is a sink.
abbrev store : Store
store t = record {
  slot = if t == 7 then pos 0 else pos 1;
  direction = if t == 7 then some 2 else some 1;
}

abbrev single : Context
single = with_termination (create 2) 0 7

abbrev pair : Context
pair = with_termination single 1 8

abbrev linked : Context
linked = associate_one store (associate_one store pair 0 1 7 8) 1 0 8 7

single-IsWellFormed : IsWellFormed single
single-IsWellFormed =
    with_termination-IsWellFormed (create 2) 0 7 (create-IsWellFormed 2)
      (unfold create in omega arith) (unfold create in refl)

pair-IsWellFormed : IsWellFormed pair
pair-IsWellFormed =
    with_termination-IsWellFormed single 1 8 single-IsWellFormed (unfold create in omega arith)
      (unfold create in refl)

half-IsWellFormed : IsWellFormed (associate_one store pair 0 1 7 8)
half-IsWellFormed = associate_one-IsWellFormed store pair 0 1 7 8 pair-IsWellFormed (record {
  first_lt = unfold create in omega arith;
  second_lt = unfold create in omega arith;
  first = refl;
  second = refl;
})

linked-IsWellFormed : IsWellFormed linked
linked-IsWellFormed =
    associate_one-IsWellFormed store (associate_one store pair 0 1 7 8) 1 0 8 7 half-IsWellFormed
      (record {
        first_lt =
            unfold associate_one in
            unfold create in unfold compatible in unfold switch in omega arith;
        second_lt =
            unfold associate_one in
            unfold create in unfold compatible in unfold switch in omega arith;
        first = unfold associate_one in unfold create in unfold compatible in unfold switch in refl;
        second =
            unfold associate_one in unfold create in unfold compatible in unfold switch in refl;
      })

abbrev no_binary : Binary
no_binary = record {
  put_uint16_le = λ x. [];
  put_uint16_be = λ x. [];
  get_uint16_le = λ b. 0;
  get_uint16_be = λ b. 0;
  put_uint32_le = λ x. [];
  put_uint32_be = λ x. [];
  get_uint32_le = λ b. 0;
  get_uint32_be = λ b. 0;
}

-- Streams without methods: to open them does nothing.
abbrev stream : ℕ → AudioStream ℕ
stream t = record { number = t; vtable = none }

abbrev streams : ℕ → Option (AudioStream ℕ)
streams t = some (stream t)

abbrev manager : CodecManager
manager = record { codec_arr = codec_g711u_create ∷ []; event_descriptor = none }

abbrev managers : ℕ → Option CodecManager
managers t = some manager

abbrev media : Media ℕ
media = record {
  world = 0;
  rx_descriptor = λ n. some g711u_descriptor;
  tx_descriptor = λ n. some g711u_descriptor;
}

abbrev call : Text
call = codes "call"

abbrev applied : Topology ℕ
applied = record {
  objects = (null_bridge (stream 7) (stream 8) call g711u_descriptor codec_g711u_create).base ∷ [];
  media = set_rx (stream 7) (stream 8) call media g711u_descriptor;
}

is_applied :
    topology_apply no_binary streams managers call linked (no_objects media) ≡ ok applied done
unfolding topology_apply associate_one create compatible switch descriptors_match get_loop
    descriptor_match_by_attribs context_object_add
is_applied = refl

few_slots : linked.capacity < 256
unfolding associate_one create compatible switch
few_slots = omega arith

topology_apply-IsSimple_example :
    ((j : ℕ) → j < linked.capacity → IsSimple linked j)
    × (length applied.objects ≡ total (receivers_of linked) linked.capacity)
topology_apply-IsSimple_example =
    topology_apply-IsSimple no_binary streams managers call linked (no_objects media) applied done
      is_applied linked-IsWellFormed few_slots

topology_apply-Unusable_example :
    (applied.objects ≡ []) ⊎ Unusable no_binary streams managers call linked applied
topology_apply-Unusable_example =
    topology_apply-Unusable no_binary streams managers call linked (no_objects media) applied done
      is_applied
