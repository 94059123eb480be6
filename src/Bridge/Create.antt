-- ===== src/Bridge/Create.antt =====
-- The creation of bridges in mpf/mpf_bridge.go, with EncoderCreate, ReSamplerCreate, MultiplierCreate
-- and MixerCreate, which have no body but `return nil`.
use go_mrcp.Prelude.{ℕ, not, ◌==◌, if◌then◌else◌, List, [], Option, none, some}
use go_mrcp.Prelude.Text.{Text}
use go_mrcp.Codec.Descriptor.{
  CodecDescriptor, descriptors_match, lpcm_descriptor_match, frame_size_calculate,
  linear_frame_size_calculate,
}
use go_mrcp.Codec.Manager.{Codec, CodecManager, get_loop}
use go_mrcp.Context.{update}
use go_mrcp.Bridge.Stream.{
  Media, Frame, Run, ok, err, panic, stuck, ◌>>=◌, Done, AudioStream, audio_stream_rx_open,
  audio_stream_rx_close, audio_stream_tx_open, audio_stream_rx_validate, audio_stream_tx_validate,
}
use go_mrcp.Bridge.Process.{
  Object, bridge_process, null_bridge_process, bridge_destroy, Bridge, object_init, new_frame,
}

abbrev with_buffer : ℕ → Frame
with_buffer size = record new_frame { buffer = some []; size = size }

module _ {World : Type 0} where
  -- `none` is the error for a nil stream.
  unfoldable pub bridge_base_create :
      Option (AudioStream World) → Option (AudioStream World) → Text → Option (Bridge World)
  unfolding object_init
  bridge_base_create none sink name = none
  bridge_base_create (some source) none name = none
  bridge_base_create (some source) (some sink) name = some (record {
    base = record (object_init name) {
      destroy = some bridge_destroy;
      process = some bridge_process;
    };
    source = some source;
    sink = some sink;
    codec = none;
    frame = new_frame;
  })

  -- `_ = source.AudioStreamRXClose(); return nil, err`
  abbrev pub close_and_fail : Run (Media World) Done → Run (Media World) (Bridge World)
  close_and_fail (ok m d) = err m
  close_and_fail (err m) = err m
  close_and_fail panic = panic
  close_and_fail stuck = stuck

  -- What follows the opening of the sink.
  abbrev pub after_tx :
      Option (AudioStream World)
      → Bridge World
      → Run (Media World) Done
      → Run (Media World) (Bridge World)
  after_tx source bridge (ok m d) = ok m bridge
  after_tx source bridge (err m) = close_and_fail (audio_stream_rx_close source m)
  after_tx source bridge panic = panic
  after_tx source bridge stuck = stuck

  -- The source is opened, then the sink. The bridge is returned whole, where the source returns its
  -- base only.
  unfoldable pub open_streams :
      AudioStream World
      → AudioStream World
      → Bridge World
      → Media World
      → Run (Media World) (Bridge World)
  unfolding audio_stream_rx_open audio_stream_tx_open audio_stream_rx_close
  open_streams source sink bridge m = audio_stream_rx_open (some source) none m >>= λ m' _.
      after_tx (some source) bridge (audio_stream_tx_open (some sink) none m')

  unfoldable pub linear_bridge_create :
      Option (AudioStream World)
      → Option (AudioStream World)
      → Text
      → Media World
      → Run (Media World) (Bridge World)
  unfolding bridge_base_create open_streams
  linear_bridge_create none sink name m = err m
  linear_bridge_create (some source) none name m = err m
  linear_bridge_create (some source) (some sink) name m =
      elim (bridge_base_create (some source) (some sink) name) [
        | none ↦ err m
        | some bridge ↦ elim (m.rx_descriptor source.number) [
          | none ↦ panic
          | some d ↦
              let size = linear_frame_size_calculate d.sampling_rate d.channel_count in
              open_streams source sink (record bridge { frame = with_buffer size }) m
        ]
      ]

  -- The rest of NullBridgeCreate, once the codec manager has answered.
  unfoldable pub null_bridge_open :
      AudioStream World
      → AudioStream World
      → Bridge World
      → CodecDescriptor
      → Option Codec
      → Media World
      → Run (Media World) (Bridge World)
  unfolding open_streams
  null_bridge_open source sink bridge d none m = panic
  null_bridge_open source sink bridge d (some codec) m =
      open_streams source sink
        (record bridge {
          codec = some codec;
          frame = with_buffer (frame_size_calculate d codec.attribs);
        })
        m

  abbrev null_base : Bridge World → Bridge World
  null_base bridge = record bridge {
    base = record bridge.base { process = some null_bridge_process };
  }

  unfoldable pub null_bridge_create :
      Option (AudioStream World)
      → Option (AudioStream World)
      → Option CodecManager
      → Text
      → Media World
      → Run (Media World) (Bridge World)
  unfolding bridge_base_create null_bridge_open
  null_bridge_create none sink manager name m = err m
  null_bridge_create (some source) none manager name m = err m
  null_bridge_create (some source) (some sink) manager name m =
      elim (bridge_base_create (some source) (some sink) name) [
        | none ↦ err m
        | some bridge ↦ elim (m.rx_descriptor source.number) [
          | none ↦ err m
          | some d ↦ elim manager [
            | none ↦ panic
            | some cm ↦
                let (changed, codec) = get_loop cm.codec_arr d in
                null_bridge_open source sink (null_base bridge) changed codec
                  (record m { rx_descriptor = update m.rx_descriptor source.number (some changed) })
          ]
        ]
      ]

  unfoldable pub encoder_create : AudioStream World → Option Codec → Option (AudioStream World)
  encoder_create sink codec = none

  unfoldable pub re_sampler_create :
      AudioStream World → AudioStream World → Option (AudioStream World)
  re_sampler_create source sink = none

  -- The comparison of the sampling rates and what follows it in BridgeCreate.
  unfoldable pub bridge_rates :
      AudioStream World
      → Option (AudioStream World)
      → Text
      → Media World
      → Run (Media World) (Bridge World)
  unfolding linear_bridge_create re_sampler_create
  bridge_rates source none name m = panic
  bridge_rates source (some sink) name m = elim (m.rx_descriptor source.number) [
    | none ↦ panic
    | some rx ↦ elim (m.tx_descriptor sink.number) [
      | none ↦ panic
      | some tx ↦
          if not (rx.sampling_rate == tx.sampling_rate)
          then linear_bridge_create (re_sampler_create source sink) (some sink) name m
          else linear_bridge_create (some source) (some sink) name m
    ]
  ]

  -- A source that is not linear: `manager.CodecManagerCodecGet(sink.TXDescriptor)` and the encoder.
  unfoldable pub bridge_encode :
      AudioStream World
      → AudioStream World
      → Option CodecManager
      → CodecDescriptor
      → Text
      → Media World
      → Run (Media World) (Bridge World)
  unfolding bridge_rates encoder_create
  bridge_encode source sink none tx name m = panic
  bridge_encode source sink (some cm) tx name m =
      let (changed, codec) = get_loop cm.codec_arr tx in
      bridge_rates source (encoder_create sink codec) name
        (record m { tx_descriptor = update m.tx_descriptor sink.number (some changed) })

  unfoldable pub bridge_descriptors :
      AudioStream World
      → AudioStream World
      → Option CodecManager
      → Text
      → Option CodecDescriptor
      → Option CodecDescriptor
      → Media World
      → Run (Media World) (Bridge World)
  unfolding bridge_encode bridge_rates null_bridge_create
  bridge_descriptors source sink manager name none tx m = panic
  bridge_descriptors source sink manager name (some rx) none m = panic
  bridge_descriptors source sink manager name (some rx) (some tx) m =
      if descriptors_match rx tx
      then null_bridge_create (some source) (some sink) manager name m
      else if not (lpcm_descriptor_match rx)
      then bridge_encode source sink manager tx name m
      else bridge_rates source (some sink) name m

  unfoldable pub bridge_create :
      Option (AudioStream World)
      → Option (AudioStream World)
      → Option CodecManager
      → Text
      → Media World
      → Run (Media World) (Bridge World)
  unfolding bridge_descriptors audio_stream_rx_validate audio_stream_tx_validate
  bridge_create none sink manager name m = err m
  bridge_create (some source) none manager name m = err m
  bridge_create (some source) (some sink) manager name m =
      audio_stream_rx_validate source m >>= λ m1 _. audio_stream_tx_validate sink m1 >>= λ m2 _.
      bridge_descriptors source sink manager name (m2.rx_descriptor source.number)
        (m2.tx_descriptor sink.number) m2

  unfoldable pub multiplier_create :
      Option (AudioStream World)
      → List (Option (AudioStream World))
      → Option CodecManager
      → Text
      → Option Object
  multiplier_create source sink_arr manager name = none

  unfoldable pub mixer_create :
      List (Option (AudioStream World))
      → Option (AudioStream World)
      → Option CodecManager
      → Text
      → Option Object
  mixer_create source_arr sink manager name = none
