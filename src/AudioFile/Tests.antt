-- ===== src/AudioFile/Tests.antt =====
-- An audio file whose reads and writes succeed, and a decoder that reads it.
use go_mrcp.Prelude.{ℕ, ◌+◌, ◌≡◌, refl, Bool, true, false, [], ◌∷◌, none, some, replicate}
use go_mrcp.Binaryx.{Binary}
use go_mrcp.Codec.G711.{codec_g711u_create}
use go_mrcp.Bridge.Stream.{Media, Frame, FrameMethod, VTable, AudioStream, done}
use go_mrcp.Bridge.Stream as Stream
use go_mrcp.Bridge.Process.{new_frame}
use go_mrcp.Bridge.Decoder.{Decoder, decoder_process}
use go_mrcp.Bridge.DecoderLaws.{
  AddsAudio, frame_with, decoder_with, audio_frame, filled, decoder_process_again,
}
use go_mrcp.AudioFile.{Files, AudioFileStream, ok, err, panic, FileRun, audio_file_frame_read}

-- The world counts the calls; the bytes of a read tell which it is.
abbrev files : Files ℕ
files = record {
  copy_in = λ handle n w. (w + 1, replicate n (w + 7), true);
  copy_out = λ handle bytes n w. (w + 1, n, [], true);
  close = λ handle w. (w, true);
  event_handler = none;
}

abbrev stream : AudioFileStream
stream = record {
  read_handle = some 3;
  write_handle = some 4;
  eof = false;
  max_write_size = 5;
  cur_write_size = 6;
}

abbrev frame : Frame
frame = record new_frame { buffer = some (1 ∷ []); size = 2 }

abbrev no_binary : Binary
no_binary = record {
  put_uint16_le = λ x. [];
  put_uint16_be = λ x. [];
  get_uint16_le = λ b. 0;
  get_uint16_be = λ b. 0;
  put_uint32_le = λ x. [];
  put_uint32_be = λ x. [];
  get_uint32_le = λ b. 0;
  get_uint32_be = λ b. 0;
}

-- The read method of the file's stream; its panic, which a method has not, is no part of the test.
abbrev returned :
    Media (ℕ × AudioFileStream)
    → Frame
    → FileRun ℕ Frame
    → Media (ℕ × AudioFileStream) × Frame × Bool
returned m old (ok w s f) = (record m { world = (w, s) }, f, true)
returned m old (err w s f) = (record m { world = (w, s) }, f, false)
returned m old panic = (m, old, false)

abbrev file_read : FrameMethod (ℕ × AudioFileStream)
file_read frame m = returned m frame (audio_file_frame_read files m.world.1 frame m.world.0)

abbrev table : VTable (ℕ × AudioFileStream)
table = record {
  destroy = none;
  open_rx = none;
  close_rx = none;
  read_frame = some file_read;
  open_tx = none;
  close_tx = none;
  write_frame = none;
}

abbrev source : AudioStream (ℕ × AudioFileStream)
source = record { number = 0; vtable = some table }

-- The media after a number of reads of the file.
abbrev after_reads : ℕ → Media (ℕ × AudioFileStream)
after_reads n = record { world = (n, stream); rx_descriptor = λ k. none; tx_descriptor = λ k. none }

abbrev inner : Frame
inner = record new_frame { size = 2 }

first_read : AddsAudio file_read inner [] (7 ∷ 7 ∷ []) (after_reads 0) (after_reads 1)
unfolding audio_file_frame_read
first_read = record { adds = refl }

second_read : AddsAudio file_read inner (7 ∷ 7 ∷ []) (8 ∷ 8 ∷ []) (after_reads 1) (after_reads 2)
unfolding audio_file_frame_read
second_read = record { adds = refl }

decoder_process_again_example :
    (d : Decoder (ℕ × AudioFileStream)) × (decoder_process no_binary
        (decoder_with source codec_g711u_create inner [])
        (frame_with inner [])
        (after_reads 0)
      ≡ Stream.ok
          (after_reads 1, d, filled no_binary codec_g711u_create (7 ∷ 7 ∷ []) 2 inner [])
          done)
    × (decoder_process no_binary d (frame_with inner []) (after_reads 1)
        ≡ Stream.ok
            (
              after_reads 2,
              decoder_with source codec_g711u_create (audio_frame inner) (7 ∷ 7 ∷ 8 ∷ 8 ∷ []),
              filled no_binary codec_g711u_create (7 ∷ 7 ∷ 8 ∷ 8 ∷ []) 2 inner [],
            )
            done)
decoder_process_again_example =
    decoder_process_again no_binary source table file_read refl refl codec_g711u_create inner inner
      inner [] [] [] (7 ∷ 7 ∷ []) (8 ∷ 8 ∷ []) (after_reads 0) (after_reads 1) (after_reads 2)
      first_read second_read
