-- ===== src/Bridge/Tests.antt =====
-- Bridges and a decoder of concrete streams. The world of a test counts the open receivers and
-- transmitters.
use go_mrcp.Prelude.{ℕ, ◌+◌, ◌-◌, ◌≡◌, ◌⊎◌, refl, Bool, true, false, [], ◌∷◌, none, some}
use go_mrcp.Prelude.Text.{codes}
use go_mrcp.Binaryx.{Binary}
use go_mrcp.Codec.Descriptor.{
  CodecDescriptor, descriptors_match, descriptor_match_by_attribs, lpcm_descriptor_match,
  linear_frame_size_calculate,
}
use go_mrcp.Codec.G711.{g711u_descriptor, codec_g711u_create}
use go_mrcp.Codec.Manager.{CodecManager, get_loop}
use go_mrcp.Bridge.Stream.{
  Media, VTable, AudioStream, ok, stuck, audio_stream_rx_open, audio_stream_rx_close,
  audio_stream_tx_open,
}
use go_mrcp.Bridge.Process.{Bridge, new_frame, bridge_process, null_bridge_process}
use go_mrcp.Bridge.Create.{bridge_create}
use go_mrcp.Bridge.Laws.{null_bridge, set_rx}
use go_mrcp.Bridge.Balance.{Leaves, At, Counts, bridge_create-Leaves, bridge_create_kind}
use go_mrcp.Bridge.Decoder.{Decoder, decoder_open, decoder_open_stuck}

-- The streams of the tests have no use for the order of bytes.
abbrev no_binary : Binary
no_binary = record {
  put_uint16_le = λ x. [];
  put_uint16_be = λ x. [];
  get_uint16_le = λ b. 0;
  get_uint16_be = λ b. 0;
  put_uint32_le = λ x. [];
  put_uint32_be = λ x. [];
  get_uint32_le = λ b. 0;
  get_uint32_be = λ b. 0;
}

abbrev World : Type 0
World = ℕ × ℕ

abbrev rx : World → ℕ
rx w = w.0

abbrev tx : World → ℕ
tx w = w.1

abbrev with_world : Media World → World → Media World
with_world m w = record m { world = w }

-- Opening the receiver succeeds; opening the transmitter does if `opens`.
abbrev table : Bool → VTable World
table opens = record {
  destroy = none;
  open_rx = some (λ codec m. (with_world m (m.world.0 + 1, m.world.1), true));
  close_rx = some (λ m. (with_world m (m.world.0 - 1, m.world.1), true));
  read_frame = none;
  open_tx = some (λ codec m. elim opens [
    | true ↦ (with_world m (m.world.0, m.world.1 + 1), true)
    | false ↦ (m, false)
  ]);
  close_tx = some (λ m. (with_world m (m.world.0, m.world.1 - 1), true));
  write_frame = none;
}

abbrev source : AudioStream World
source = record { number = 0; vtable = some (table true) }

abbrev sink : Bool → AudioStream World
sink opens = record { number = 1; vtable = some (table opens) }

counts : (opens : Bool) → Counts source (sink opens) rx tx
unfolding audio_stream_rx_open audio_stream_rx_close audio_stream_tx_open
counts true = record {
  rx_open = λ m. (refl, refl);
  rx_close = λ m. (refl, refl);
  tx_open = λ m. (refl, refl);
}
counts false = record {
  rx_open = λ m. (refl, refl);
  rx_close = λ m. (refl, refl);
  tx_open = λ m. (refl, refl);
}

abbrev manager : CodecManager
manager = record { codec_arr = codec_g711u_create ∷ []; event_descriptor = none }

abbrev media : Media World
media = record {
  world = (0, 0);
  rx_descriptor = λ n. some g711u_descriptor;
  tx_descriptor = λ n. some g711u_descriptor;
}

-- The transmitter does not open, and the receiver is closed again.
bridge_create-Leaves_example :
    Leaves
      (At rx tx 1 1)
      (At rx tx 0 0)
      (bridge_create (some source) (some (sink false)) (some manager) (codes "call") media)
bridge_create-Leaves_example =
    bridge_create-Leaves source (sink false) rx tx (counts false) (some manager) (codes "call")
      media

abbrev opened : Media World
opened = with_world (set_rx source (sink true) (codes "call") media g711u_descriptor) (1, 1)

abbrev call_bridge : Bridge World
call_bridge = null_bridge source (sink true) (codes "call") g711u_descriptor codec_g711u_create

created :
    bridge_create (some source) (some (sink true)) (some manager) (codes "call") media
    ≡ ok opened call_bridge
unfolding bridge_create descriptors_match get_loop descriptor_match_by_attribs
created = refl

bridge_create_kind_example :
    (call_bridge.source ≡ some source)
    × (call_bridge.sink ≡ some (sink true))
    × ((r : CodecDescriptor) × (t : CodecDescriptor) × (media.rx_descriptor 0 ≡ some r)
        × (media.tx_descriptor 1 ≡ some t)
        × (((descriptors_match r t ≡ true) × (call_bridge.base.process ≡ some null_bridge_process))
            ⊎ ((lpcm_descriptor_match r ≡ true)
                × (r.sampling_rate ≡ t.sampling_rate)
                × (call_bridge.base.process ≡ some bridge_process)
                × (call_bridge.frame.size
                    ≡ linear_frame_size_calculate r.sampling_rate r.channel_count))))
bridge_create_kind_example =
    bridge_create_kind source (sink true) (some manager) (codes "call") media opened call_bridge
      created

abbrev decoder : Decoder World
decoder = record { source = some source; codec = some codec_g711u_create; frame_in = new_frame }

decoder_open_stuck_example : decoder_open 9 decoder none media ≡ stuck
decoder_open_stuck_example = decoder_open_stuck 9 decoder none media
