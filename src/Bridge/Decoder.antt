-- ===== src/Bridge/Decoder.antt =====
-- mpf/mpf_decoder.go: an audio stream that decodes the frames of its source.
-- The object behind a decoder's stream is the decoder, as DecoderCreate would make it.
use go_mrcp.Prelude.{ℕ, zero, suc, ◌≡◌, refl, ◌==◌, if◌then◌else◌, Option, none, some, bit_and}
use go_mrcp.Binaryx.{Binary}
use go_mrcp.Codec.Manager.{Codec}
use go_mrcp.Codec.G711.{CodecFrame}
use go_mrcp.Codec.Methods.{codec_decode}
use go_mrcp.Bridge.Stream.{
  Media, Frame, Run, ok, err, panic, stuck, ◌>>=◌, Done, done, AudioStream, VTable,
  audio_stream_create, audio_stream_destroy, audio_stream_rx_open, audio_stream_rx_close,
  audio_stream_frame_read,
}
use go_mrcp.Bridge.Process.{media_frame_type_none, media_frame_type_audio}

pub record Decoder (World : Type 0) : Type 0 where
  pub source : Option (AudioStream World)
  pub codec : Option Codec
  pub frame_in : Frame

abbrev pub media_frame_type_event : ℕ
media_frame_type_event = 0x4

-- The codec frame of a media frame, if it has a buffer.
abbrev codec_frame : Frame → Option CodecFrame
codec_frame frame = elim frame.buffer [
  | none ↦ none
  | some bytes ↦ some (record { buffer = bytes; size = frame.size })
]

-- `decoder.Codec.CodecDecode(&frameIn, &frame)`: a nil codec or a nil buffer panics.
unfoldable pub decode_into : Binary → Option Codec → Frame → Frame → Option Frame
decode_into b none frame_in frame = none
decode_into b (some codec) frame_in frame = elim (codec_frame frame_in) [
  | none ↦ none
  | some source ↦ elim (codec_frame frame) [
    | none ↦ none
    | some target ↦
        let out = codec_decode b codec source target in
        some (record frame { buffer = some out.buffer; size = out.size })
  ]
]

-- The fields of the frame that was read are copied.
unfoldable pub copy_frame : Frame → Frame → Frame
copy_frame frame_in frame = record frame {
  kind = frame_in.kind;
  marker = frame_in.marker;
  event_frame =
      if bit_and frame_in.kind media_frame_type_event == media_frame_type_event
      then frame_in.event_frame
      else frame.event_frame;
}

module _ {World : Type 0} where
  unfoldable pub decoder_destroy : Decoder World → Media World → Run (Media World) Done
  unfolding audio_stream_destroy
  decoder_destroy decoder m = audio_stream_destroy decoder.source m

  -- DecoderOpen calls itself.
  unfoldable pub decoder_open :
      ℕ → Decoder World → Option Codec → Media World → Run (Media World) Done
  unfolding audio_stream_rx_open
  decoder_open zero decoder codec m = stuck
  decoder_open (suc fuel) decoder codec m = decoder_open fuel decoder decoder.codec m >>= λ m' _.
      audio_stream_rx_open decoder.source decoder.codec m'

  -- Closing a codec returns no error.
  unfoldable pub decoder_close : Decoder World → Media World → Run (Media World) Done
  unfolding audio_stream_rx_close
  decoder_close decoder m = elim decoder.codec [
    | none ↦ panic
    | some codec ↦ audio_stream_rx_close decoder.source m
  ]

  abbrev decoded :
      Media World → Decoder World → Option Frame → Run (Media World × Decoder World × Frame) Done
  decoded m decoder none = panic
  decoded m decoder (some frame) = ok (m, decoder, frame) done

  -- What follows the read of `decoder.FrameIn`, the frame that `decoder` holds by then.
  unfoldable pub process_read :
      Binary
      → Decoder World
      → Frame
      → Run (Media World × Frame) Done
      → Run (Media World × Decoder World × Frame) Done
  unfolding decode_into copy_frame
  process_read b decoder frame (ok (m, frame_in) d) =
      let decoder' = record decoder { frame_in = frame_in } in
      let frame' = copy_frame frame_in frame in
      if bit_and frame'.kind media_frame_type_audio == media_frame_type_audio
      then decoded m decoder' (decode_into b decoder.codec frame_in frame')
      else ok (m, decoder', frame') done
  process_read b decoder frame (err (m, frame_in)) =
      err (m, record decoder { frame_in = frame_in }, frame)
  process_read b decoder frame panic = panic
  process_read b decoder frame stuck = stuck

  unfoldable pub decoder_process :
      Binary → Decoder World → Frame → Media World → Run (Media World × Decoder World × Frame) Done
  unfolding audio_stream_frame_read process_read
  decoder_process b decoder frame m =
      let frame_in = record decoder.frame_in { kind = media_frame_type_none; marker = 0 } in
      process_read b decoder frame (audio_stream_frame_read decoder.source frame_in m)

  -- AudioStreamCreate returns nil, whatever table it is given.
  unfoldable pub decoder_create :
      Option (VTable World) → Option (AudioStream World) → Option Codec → Option (AudioStream World)
  unfolding audio_stream_create
  decoder_create vtable none codec = none
  decoder_create vtable (some source) none = none
  decoder_create vtable (some source) (some codec) = audio_stream_create vtable

  -- DecoderOpen does not return: it is not done after any number of calls of itself.
  pub decoder_open_stuck :
      (fuel : ℕ) (decoder : Decoder World) (codec : Option Codec) (m : Media World)
      → decoder_open fuel decoder codec m ≡ stuck
  unfolding decoder_open
  decoder_open_stuck zero decoder codec m = refl
  decoder_open_stuck (suc fuel) decoder codec m =
      rw (decoder_open_stuck fuel decoder decoder.codec m) refl
