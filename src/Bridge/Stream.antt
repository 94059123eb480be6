-- ===== src/Bridge/Stream.antt =====
-- Audio streams of mpf/mpf_stream.go and the calls of their virtual methods.
-- The methods are parameters: a method acts on the state of the media, of which the model has the
-- descriptors of the streams by the stream's number, which stands for its pointer, and a part `World`
-- that is left open. The descriptors that two fields point to are distinct objects.
use go_mrcp.Prelude.{ℕ, Bool, true, false, List, Option, none, some}
use go_mrcp.Codec.Descriptor.{CodecDescriptor}
use go_mrcp.Codec.Manager.{Codec}

pub record Media (World : Type 0) : Type 0 where
  pub world : World
  pub rx_descriptor : ℕ → Option CodecDescriptor
  pub tx_descriptor : ℕ → Option CodecDescriptor

-- A named event of mpf/mpf_named_event.go.
pub record NamedEventFrame : Type 0 where
  pub event_id : ℕ  -- uint32
  pub volume : ℕ  -- uint32
  pub reserved : ℕ  -- uint32
  pub edge : ℕ  -- uint32
  pub duration : ℕ  -- uint32

-- A media frame with the buffer and the size of its codec frame; the buffer may be nil.
pub record Frame : Type 0 where
  pub kind : ℕ  -- Type
  pub marker : ℕ
  pub event_frame : NamedEventFrame
  pub buffer : Option (List ℕ)
  pub size : ℕ

-- What a call returns with the state that it leaves: a value, an error, or a panic. `stuck` is a call
-- that has used up its fuel.
pub data Run (S A : Type 0) : Type 0 where
  ok : S → A → Run S A
  err : S → Run S A
  panic stuck : Run S A

infixl 5 ◌>>=◌
abbrev pub ◌>>=◌ : {S A B : Type 0} → Run S A → (S → A → Run S B) → Run S B
ok s a >>= f = f s a
err s >>= f = err s
panic >>= f = panic
stuck >>= f = stuck

pub data Done : Type 0 where
  done : Done

-- `true` is a nil error.
abbrev pub Method : Type 0 → Type 0
Method World = Media World → Media World × Bool

abbrev pub FrameMethod : Type 0 → Type 0
FrameMethod World = Frame → Media World → Media World × Frame × Bool

pub record VTable (World : Type 0) : Type 0 where
  pub destroy : Option (Method World)
  pub open_rx : Option (Option Codec → Method World)
  pub close_rx : Option (Method World)
  pub read_frame : Option (FrameMethod World)
  pub open_tx : Option (Option Codec → Method World)
  pub close_tx : Option (Method World)
  pub write_frame : Option (FrameMethod World)

pub record AudioStream (World : Type 0) : Type 0 where
  pub number : ℕ
  pub vtable : Option (VTable World)

module _ {World : Type 0} where
  abbrev pub returned : Media World × Bool → Run (Media World) Done
  returned (m, true) = ok m done
  returned (m, false) = err m

  abbrev pub returned_frame : Media World × Frame × Bool → Run (Media World × Frame) Done
  returned_frame (m, frame, true) = ok (m, frame) done
  returned_frame (m, frame, false) = err (m, frame)

  -- `stream.VTable != nil && stream.VTable.M != nil`, else a nil error; a nil stream panics.
  abbrev pub call :
      (VTable World → Option (Method World))
      → Option (AudioStream World)
      → Media World
      → Run (Media World) Done
  call read none m = panic
  call read (some stream) m = elim stream.vtable [
    | none ↦ ok m done
    | some t ↦ elim (read t) [ none ↦ ok m done | some f ↦ returned (f m) ]
  ]

  abbrev open_with : Option (Option Codec → Method World) → Option Codec → Option (Method World)
  open_with none codec = none
  open_with (some f) codec = some (f codec)

  unfoldable pub audio_stream_destroy :
      Option (AudioStream World) → Media World → Run (Media World) Done
  audio_stream_destroy = call (λ t. t.destroy)

  unfoldable pub audio_stream_rx_open :
      Option (AudioStream World) → Option Codec → Media World → Run (Media World) Done
  audio_stream_rx_open stream codec m = call (λ t. open_with t.open_rx codec) stream m

  unfoldable pub audio_stream_rx_close :
      Option (AudioStream World) → Media World → Run (Media World) Done
  audio_stream_rx_close = call (λ t. t.close_rx)

  unfoldable pub audio_stream_tx_open :
      Option (AudioStream World) → Option Codec → Media World → Run (Media World) Done
  audio_stream_tx_open stream codec m = call (λ t. open_with t.open_tx codec) stream m

  unfoldable pub audio_stream_tx_close :
      Option (AudioStream World) → Media World → Run (Media World) Done
  audio_stream_tx_close = call (λ t. t.close_tx)

  -- The frame is part of the state that a method leaves.
  abbrev pub call_frame :
      (VTable World → Option (FrameMethod World))
      → Option (AudioStream World)
      → Frame
      → Media World
      → Run (Media World × Frame) Done
  call_frame read none frame m = panic
  call_frame read (some stream) frame m = elim stream.vtable [
    | none ↦ ok (m, frame) done
    | some t ↦ elim (read t) [ none ↦ ok (m, frame) done | some f ↦ returned_frame (f frame m) ]
  ]

  unfoldable pub audio_stream_frame_read :
      Option (AudioStream World) → Frame → Media World → Run (Media World × Frame) Done
  audio_stream_frame_read = call_frame (λ t. t.read_frame)

  unfoldable pub audio_stream_frame_write :
      Option (AudioStream World) → Frame → Media World → Run (Media World × Frame) Done
  audio_stream_frame_write = call_frame (λ t. t.write_frame)

  -- AudioStreamCreate and the two validations have no body but their return.
  unfoldable pub audio_stream_create : Option (VTable World) → Option (AudioStream World)
  audio_stream_create vtable = none

  unfoldable pub audio_stream_rx_validate : AudioStream World → Media World → Run (Media World) Done
  audio_stream_rx_validate stream m = ok m done

  unfoldable pub audio_stream_tx_validate : AudioStream World → Media World → Run (Media World) Done
  audio_stream_tx_validate stream m = ok m done
