-- ===== src/AudioFile.antt =====
-- mpf/mpf_audio_file_stream.go and mpf/mpf_audio_file_descriptor.go: a stream that reads its frames
-- from a file and writes them to one.
-- Files and `io.CopyN` are not code of the repository: they are a parameter. A file handle is known by
-- a number, its pointer, and sizes are not negative.
pub mod Laws
mod Tests
use go_mrcp.Prelude.{
  ℕ, ◌+◌, ◌<◌, ◌≡◌, Bool, true, false, not, ltb, leb, ◌==◌, ◌&&◌, ◌||◌, if◌then◌else◌, List, [],
  ◌++◌, Option, none, some, length, bit_and, bit_or,
}
use go_mrcp.Codec.Descriptor.{CodecDescriptor}
use go_mrcp.Codec.Capabilities.{is_some}
use go_mrcp.Codec.Manager.{Codec}
use go_mrcp.Bridge.Stream.{Frame, VTable, AudioStream, audio_stream_create}
use go_mrcp.Bridge.Process.{media_frame_type_audio}

-- `io.CopyN` from a file gives the bytes that were copied, to a file how many were and what the buffer
-- still holds; `true` is a nil error. The handler is that of the stream's termination.
pub record Files (World : Type 0) : Type 0 where
  pub copy_in : ℕ → ℕ → World → World × List ℕ × Bool
  pub copy_out : ℕ → List ℕ → ℕ → World → World × ℕ × List ℕ × Bool
  pub close : ℕ → World → World × Bool
  pub event_handler : Option (World → World × Bool)

-- As documented: what was copied is as much as was asked for exactly when there is no error.
pub record IsCopyN {World : Type 0} (files : Files World) : Type 0 where
  pub copy_in_ok :
      (handle n : ℕ) (w : World)
      → (files.copy_in handle n w).2 ≡ true
      → length (files.copy_in handle n w).1 ≡ n
  pub copy_in_error :
      (handle n : ℕ) (w : World)
      → (files.copy_in handle n w).2 ≡ false
      → length (files.copy_in handle n w).1 < n
  pub copy_out_ok :
      (handle n : ℕ) (bytes : List ℕ) (w : World)
      → (files.copy_out handle bytes n w).3 ≡ true
      → (files.copy_out handle bytes n w).1 ≡ n

abbrev pub file_reader : ℕ
file_reader = 0x2

abbrev pub file_writer : ℕ
file_writer = 0x1

pub record AudioFileStream : Type 0 where
  pub read_handle : Option ℕ
  pub write_handle : Option ℕ
  pub eof : Bool
  pub max_write_size : ℕ  -- int64
  pub cur_write_size : ℕ  -- int64

-- The audio stream, as far as its file stream changes it.
pub record FileStream : Type 0 where
  pub obj : AudioFileStream
  pub direction : ℕ
  pub tx_descriptor : Option CodecDescriptor

pub record AudioFileDescriptor : Type 0 where
  pub mask : ℕ
  pub codec_descriptor : Option CodecDescriptor
  pub read_handle : Option ℕ
  pub write_handle : Option ℕ
  pub max_write_size : ℕ  -- int64

-- What a call leaves, with no error or with one, or the panic of a nil buffer.
pub data FileRun (World A : Type 0) : Type 0 where
  ok err : World → AudioFileStream → A → FileRun World A
  panic : FileRun World A

module _ {World : Type 0} (files : Files World) where
  -- AudioFileEventRaise on the termination's handler.
  unfoldable pub audio_file_event_raise : World → World × Bool
  audio_file_event_raise w = elim files.event_handler [ none ↦ (w, true) | some f ↦ f w ]

  abbrev pub raised : AudioFileStream → Frame → World × Bool → FileRun World Frame
  raised s frame (w, true) = ok w s frame
  raised s frame (w, false) = err w s frame

  -- What follows `io.CopyN(buffer, readHandle, size)`: `before` was in the buffer.
  unfoldable pub frame_copied :
      AudioFileStream → Frame → List ℕ → World × List ℕ × Bool → FileRun World Frame
  unfolding audio_file_event_raise
  frame_copied s frame before (w, bytes, false) =
      err w s (record frame { buffer = some (before ++ bytes) })
  frame_copied s frame before (w, bytes, true) =
      let full = record frame { buffer = some (before ++ bytes) } in
      if length bytes == frame.size
      then ok w s (record full { kind = media_frame_type_audio })
      else raised (record s { eof = true }) full (audio_file_event_raise w)

  unfoldable pub audio_file_frame_read : AudioFileStream → Frame → World → FileRun World Frame
  unfolding frame_copied
  audio_file_frame_read s frame w = elim s.read_handle [
    | none ↦ ok w s frame
    | some handle ↦
        if not s.eof
        then elim frame.buffer [
          | none ↦ panic
          | some before ↦ frame_copied s frame before (files.copy_in handle frame.size w)
        ]
        else ok w s frame
  ]

  unfoldable pub frame_written :
      AudioFileStream → Frame → World × ℕ × List ℕ × Bool → FileRun World Frame
  unfolding audio_file_event_raise
  frame_written s frame (w, n, rest, false) = err w s (record frame { buffer = some rest })
  frame_written s frame (w, n, rest, true) =
      let size = s.cur_write_size + n in
      let s' = record s { cur_write_size = size } in
      let left = record frame { buffer = some rest } in
      if leb s.max_write_size size then raised s' left (audio_file_event_raise w) else ok w s' left

  unfoldable pub audio_file_frame_write : AudioFileStream → Frame → World → FileRun World Frame
  unfolding frame_written
  audio_file_frame_write s frame w = elim s.write_handle [
    | none ↦ ok w s frame
    | some handle ↦
        if ltb 0 s.max_write_size || ltb s.cur_write_size s.max_write_size
        then elim frame.buffer [
          | none ↦ panic
          | some bytes ↦ frame_written s frame (files.copy_out handle bytes frame.size w)
        ]
        else ok w s frame
  ]

  -- Closing a handle that may be nil, and whether there is no error.
  abbrev close_handle : Option ℕ → World → World × Bool
  close_handle none w = (w, true)
  close_handle (some handle) w = files.close handle w

  abbrev closed_writer : AudioFileStream → World × Bool → World × AudioFileStream × Bool
  closed_writer s (w, true) = (w, record s { write_handle = none }, true)
  closed_writer s (w, false) = (w, s, false)

  abbrev closed_reader : AudioFileStream → World × Bool → World × AudioFileStream × Bool
  closed_reader s (w, true) =
      closed_writer (record s { read_handle = none }) (close_handle s.write_handle w)
  closed_reader s (w, false) = (w, s, false)

  unfoldable pub audio_file_destroy : AudioFileStream → World → World × AudioFileStream × Bool
  audio_file_destroy s w = closed_reader s (close_handle s.read_handle w)

  abbrev modify_reader : FileStream → AudioFileDescriptor → World → World × FileStream
  modify_reader s d w =
      if ltb 0 (bit_and d.mask file_reader)
      then (
        (close_handle s.obj.read_handle w).0,
        record s {
          obj = record s.obj { read_handle = d.read_handle; eof = false };
          direction = bit_or s.direction file_reader;
        },
      )
      else (w, s)

  abbrev modify_writer : AudioFileDescriptor → World × FileStream → World × FileStream
  modify_writer d (w, s) =
      if ltb 0 (bit_and d.mask file_writer)
      then (
        (close_handle s.obj.write_handle w).0,
        record s {
          obj = record s.obj {
            write_handle = d.write_handle;
            max_write_size = d.max_write_size;
            cur_write_size = 0;
          };
          direction = bit_or s.direction file_writer;
          tx_descriptor = d.codec_descriptor;
        },
      )
      else (w, s)

  -- The error of a handle that is closed is dropped.
  unfoldable pub file_stream_modify : FileStream → AudioFileDescriptor → World → World × FileStream
  file_stream_modify s d w = modify_writer d (modify_reader s d w)

-- Opening and closing for either direction do nothing, with any codec, and return nil.
unfoldable reader_open : AudioFileStream → Option Codec → AudioFileStream × Bool
reader_open s codec = (s, true)

unfoldable reader_close : AudioFileStream → AudioFileStream × Bool
reader_close s = (s, true)

unfoldable writer_open : AudioFileStream → Option Codec → AudioFileStream × Bool
writer_open s codec = (s, true)

unfoldable writer_close : AudioFileStream → AudioFileStream × Bool
writer_close s = (s, true)

-- The stream that is created with the table of the file stream, and nil if it is nil; its termination
-- is not in the model.
unfoldable file_stream_create :
    {World : Type 0} → Option (VTable World) → Option (AudioStream World)
unfolding audio_stream_create
file_stream_create vtable = elim (audio_stream_create vtable) [
  | none ↦ none
  | some stream ↦ some stream
]
