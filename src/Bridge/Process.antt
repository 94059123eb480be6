-- ===== src/Bridge/Process.antt =====
-- mpf/mpf_object.go and the virtual methods of a bridge in mpf/mpf_bridge.go.
-- A method of the source makes a new Bridge around its object, so it does not see the streams of the
-- bridge that the object was created for.
use go_mrcp.Prelude.{ℕ, ◌≡◌, refl, ◌==◌, if◌then◌else◌, [], Option, none, some, bit_and}
use go_mrcp.Prelude.Text.{Text}
use go_mrcp.Binaryx.{Binary}
use go_mrcp.Codec.Manager.{Codec}
use go_mrcp.Codec.Methods.{codec_initialize}
use go_mrcp.Bridge.Stream.{
  Media, Frame, Run, ok, err, panic, stuck, ◌>>=◌, Done, done, FrameMethod, VTable, AudioStream,
  returned_frame, audio_stream_rx_close, audio_stream_tx_close,
}

-- The functions that an object's pointers can hold.
pub data ObjectMethod : Type 0 where
  bridge_process null_bridge_process bridge_destroy : ObjectMethod

pub record Object : Type 0 where
  pub name : Text
  pub destroy : Option ObjectMethod
  pub process : Option ObjectMethod

-- An object with both of its methods set, as those of bridges are.
pub record HasMethods (object : Object) : Type 0 where
  pub process_set : (f : ObjectMethod) × (object.process ≡ some f)
  pub destroy_set : (f : ObjectMethod) × (object.destroy ≡ some f)

unfoldable pub object_init : Text → Object
object_init name = record { name = name; destroy = none; process = none }

pub record Bridge (World : Type 0) : Type 0 where
  pub base : Object
  pub source : Option (AudioStream World)
  pub sink : Option (AudioStream World)
  pub codec : Option Codec
  pub frame : Frame

abbrev pub media_frame_type_none : ℕ
media_frame_type_none = 0x0

abbrev pub media_frame_type_audio : ℕ
media_frame_type_audio = 0x1

abbrev pub new_frame : Frame
new_frame = record {
  kind = media_frame_type_none;
  marker = 0;
  event_frame = record { event_id = 0; volume = 0; reserved = 0; edge = 0; duration = 0 };
  buffer = none;
  size = 0;
}

-- `frame.CodecFrame.Buffer.Reset()`
abbrev reset_buffer : Frame → Option Frame
reset_buffer frame = elim frame.buffer [
  | none ↦ none
  | some bytes ↦ some (record frame { buffer = some [] })
]

abbrev fill_silence : Binary → Option Codec → Frame → Option Frame
fill_silence b none frame = none
fill_silence b (some codec) frame = elim frame.buffer [
  | none ↦ none
  | some bytes ↦
      let filled = codec_initialize b codec (record { buffer = bytes; size = frame.size }) in
      some (record frame { buffer = some filled.buffer; size = filled.size })
]

module _ {World : Type 0} where
  -- `stream.VTable.M(stream, &frame)` with no test for nil.
  abbrev pub call_direct :
      (VTable World → Option (FrameMethod World))
      → Option (AudioStream World)
      → Frame
      → Media World
      → Run (Media World × Frame) Done
  call_direct read none frame m = panic
  call_direct read (some stream) frame m = elim stream.vtable [
    | none ↦ panic
    | some t ↦ elim (read t) [ none ↦ panic | some f ↦ returned_frame (f frame m) ]
  ]

  abbrev pub without_frame : Run (Media World × Frame) Done → Run (Media World) Done
  without_frame (ok (m, frame) d) = ok m d
  without_frame (err (m, frame)) = err m
  without_frame panic = panic
  without_frame stuck = stuck

  abbrev write_silenced : Bridge World → Media World → Option Frame → Run (Media World) Done
  write_silenced bridge m none = panic
  write_silenced bridge m (some frame) =
      without_frame (call_direct (λ t. t.write_frame) bridge.sink frame m)

  abbrev after_read :
      (Frame → Option Frame)
      → Bridge World
      → Run (Media World × Frame) Done
      → Run (Media World) Done
  after_read silence bridge (ok (m, frame) d) =
      write_silenced bridge m
        (if bit_and frame.kind media_frame_type_audio == 0 then silence frame else some frame)
  after_read silence bridge (err (m, frame)) = err m
  after_read silence bridge panic = panic
  after_read silence bridge stuck = stuck

  -- A frame is read from the source, made silent if it is no audio, and written to the sink.
  unfoldable pub pass_frame :
      (Frame → Option Frame) → Bridge World → Media World → Run (Media World) Done
  pass_frame silence bridge m =
      after_read silence bridge (call_direct (λ t. t.read_frame) bridge.source bridge.frame m)

  abbrev new_bridge : Object → Bridge World
  new_bridge object = record {
    base = object;
    source = none;
    sink = none;
    codec = none;
    frame = new_frame;
  }

  unfoldable pub process_bridge : Object → Media World → Run (Media World) Done
  unfolding pass_frame
  process_bridge object m = pass_frame reset_buffer (new_bridge object) m

  unfoldable pub process_null_bridge : Binary → Object → Media World → Run (Media World) Done
  unfolding pass_frame
  process_null_bridge b object m =
      pass_frame (fill_silence b (new_bridge object).codec) (new_bridge object) m

  unfoldable pub destroy_bridge : Object → Media World → Run (Media World) Done
  unfolding audio_stream_rx_close audio_stream_tx_close
  destroy_bridge object m = audio_stream_rx_close (new_bridge object).source m >>= λ m' _.
      audio_stream_tx_close (new_bridge object).sink m'

  unfoldable pub run_method :
      Binary → Option ObjectMethod → Object → Media World → Run (Media World) Done
  unfolding process_bridge process_null_bridge destroy_bridge
  run_method b none object m = ok m done
  run_method b (some bridge_process) object m = process_bridge object m
  run_method b (some null_bridge_process) object m = process_null_bridge b object m
  run_method b (some bridge_destroy) object m = destroy_bridge object m

  unfoldable pub object_destroy : Binary → Object → Media World → Run (Media World) Done
  unfolding run_method
  object_destroy b object m = run_method b object.destroy object m

  unfoldable pub object_process : Binary → Object → Media World → Run (Media World) Done
  unfolding run_method
  object_process b object m = run_method b object.process object m

  -- Every method that an object can have panics: the bridge that it makes has no streams.
  pub run_method_panics :
      (b : Binary) (f : ObjectMethod) (object : Object) (m : Media World)
      → run_method b (some f) object m ≡ panic
  unfolding run_method
  run_method_panics b bridge_process object m = refl
  run_method_panics b null_bridge_process object m = refl
  run_method_panics b bridge_destroy object m = refl
