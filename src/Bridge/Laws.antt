-- ===== src/Bridge/Laws.antt =====
-- When BridgeCreate of mpf/mpf_bridge.go makes a bridge, which one, and what it leaves open.
use go_mrcp.Prelude.{◌≡◌, refl, inl, inr, arith, true, ◌==◌, [], Option, none, some, Bool-cases}
use go_mrcp.Prelude.Text.{Text}
use go_mrcp.Codec.Descriptor.{
  CodecDescriptor, descriptors_match, lpcm_descriptor_match, frame_size_calculate,
  linear_frame_size_calculate,
}
use go_mrcp.Codec.Manager.{Codec, CodecManager, get_loop}
use go_mrcp.Context.{update}
use go_mrcp.Bridge.Stream.{Media, Run, err, panic, AudioStream}
use go_mrcp.Bridge.Process.{
  Bridge, bridge_process, null_bridge_process, bridge_destroy, object_init, new_frame,
}
use go_mrcp.Bridge.Create.{
  bridge_create, bridge_descriptors, bridge_rates, bridge_encode, null_bridge_create,
  null_bridge_open, linear_bridge_create, open_streams,
}

module _ {World : Type 0} (source sink : AudioStream World) (name : Text) where
  -- The bridge of two linear streams, and the null bridge of two streams with one codec.
  abbrev pub linear_bridge : CodecDescriptor → Bridge World
  linear_bridge rx = record {
    base = record (object_init name) {
      destroy = some bridge_destroy;
      process = some bridge_process;
    };
    source = some source;
    sink = some sink;
    codec = none;
    frame = record new_frame {
      buffer = some [];
      size = linear_frame_size_calculate rx.sampling_rate rx.channel_count;
    };
  }

  abbrev pub null_bridge : CodecDescriptor → Codec → Bridge World
  null_bridge rx codec = record {
    base = record (object_init name) {
      destroy = some bridge_destroy;
      process = some null_bridge_process;
    };
    source = some source;
    sink = some sink;
    codec = some codec;
    frame = record new_frame { buffer = some []; size = frame_size_calculate rx codec.attribs };
  }

  abbrev pub set_rx : Media World → CodecDescriptor → Media World
  set_rx m rx = record m { rx_descriptor = update m.rx_descriptor source.number (some rx) }

  -- What BridgeCreate of two streams comes to, by the descriptors that they have.
  pub data Plan (manager : Option CodecManager) (m : Media World)
      (r : Run (Media World) (Bridge World)) : Type 0 where
    panics : r ≡ panic → Plan manager m r
    fails : r ≡ err m → Plan manager m r
    linear :
        (rx tx : CodecDescriptor)
        → m.rx_descriptor source.number ≡ some rx
        → m.tx_descriptor sink.number ≡ some tx
        → lpcm_descriptor_match rx ≡ true
        → rx.sampling_rate ≡ tx.sampling_rate
        → r ≡ open_streams source sink (linear_bridge rx) m
        → Plan manager m r
    null :
        (rx tx changed : CodecDescriptor) (cm : CodecManager) (codec : Codec)
        → m.rx_descriptor source.number ≡ some rx
        → m.tx_descriptor sink.number ≡ some tx
        → descriptors_match rx tx ≡ true
        → manager ≡ some cm
        → get_loop cm.codec_arr rx ≡ (changed, some codec)
        → r ≡ open_streams source sink (null_bridge changed codec) (set_rx m changed)
        → Plan manager m r

  null-Plan :
      (m : Media World) (rx tx changed : CodecDescriptor) (cm : CodecManager) (codec : Option Codec)
      → m.rx_descriptor source.number ≡ some rx
      → m.tx_descriptor sink.number ≡ some tx
      → descriptors_match rx tx ≡ true
      → get_loop cm.codec_arr rx ≡ (changed, codec)
      → Plan (some cm) m (null_bridge_create (some source) (some sink) (some cm) name m)
  unfolding null_bridge_create null_bridge_open
  null-Plan m rx tx changed cm none p q h e = panics (rw (p, e, null_bridge_create) refl)
  null-Plan m rx tx changed cm (some codec) p q h e =
      null rx tx changed cm codec p q h refl e (rw (p, e, null_bridge_create) refl)

  rates-Plan :
      (manager : Option CodecManager) (m : Media World) (rx tx : CodecDescriptor)
      → m.rx_descriptor source.number ≡ some rx
      → m.tx_descriptor sink.number ≡ some tx
      → lpcm_descriptor_match rx ≡ true
      → Plan manager m (bridge_rates source (some sink) name m)
  unfolding bridge_rates linear_bridge_create
  rates-Plan manager m rx tx p q h = elim (Bool-cases (rx.sampling_rate == tx.sampling_rate)) [
    | inl y ↦
        linear rx tx p q h (ground arith)
          (rw (p, q, bridge_rates) (rw y (rw (p, linear_bridge_create) refl)))
    | inr n ↦ fails (rw (p, q, bridge_rates) (rw n refl))
  ]

  descriptors-Plan :
      (manager : Option CodecManager) (m : Media World) (rx tx : Option CodecDescriptor)
      → m.rx_descriptor source.number ≡ rx
      → m.tx_descriptor sink.number ≡ tx
      → Plan manager m (bridge_descriptors source sink manager name rx tx m)
  unfolding bridge_descriptors bridge_encode bridge_rates
  descriptors-Plan manager m none tx p q = panics refl
  descriptors-Plan manager m (some rx) none p q = panics refl
  descriptors-Plan none m (some rx) (some tx) p q = elim (Bool-cases (descriptors_match rx tx)) [
    | inl y ↦ rw y (panics (unfold null_bridge_create in rw (p, null_bridge_create) refl))
    | inr n ↦ rw n (elim (Bool-cases (lpcm_descriptor_match rx)) [
      | inl y ↦ rw y (rates-Plan none m rx tx p q y)
      | inr o ↦ rw o (panics refl)
    ])
  ]
  descriptors-Plan (some cm) m (some rx) (some tx) p q =
      elim (Bool-cases (descriptors_match rx tx)) [
        | inl y ↦ rw y (
            null-Plan m rx tx (get_loop cm.codec_arr rx).0 cm (get_loop cm.codec_arr rx).1 p q y
              refl)
        | inr n ↦ rw n (elim (Bool-cases (lpcm_descriptor_match rx)) [
          | inl y ↦ rw y (rates-Plan (some cm) m rx tx p q y)
          | inr o ↦ rw o (panics refl)
        ])
      ]

  pub bridge_create-Plan :
      (manager : Option CodecManager) (m : Media World)
      → Plan manager m (bridge_create (some source) (some sink) manager name m)
  unfolding bridge_create
  bridge_create-Plan manager m =
      descriptors-Plan manager m (m.rx_descriptor source.number) (m.tx_descriptor sink.number) refl
        refl
