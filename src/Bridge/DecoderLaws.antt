-- ===== src/Bridge/DecoderLaws.antt =====
-- A decoder of mpf/mpf_decoder.go never empties the frame that it reads its source into.
use go_mrcp.Prelude.{ℕ, ◌≡◌, refl, true, List, ◌++◌, some}
use go_mrcp.Binaryx.{Binary}
use go_mrcp.Codec.Manager.{Codec}
use go_mrcp.Codec.Methods.{codec_decode}
use go_mrcp.Bridge.Stream.{
  Media, Frame, FrameMethod, ok, done, AudioStream, VTable, audio_stream_frame_read,
}
use go_mrcp.Bridge.Process.{media_frame_type_none, media_frame_type_audio}
use go_mrcp.Bridge.Decoder.{Decoder, decoder_process, process_read, decode_into, copy_frame}

-- A frame with bytes in its buffer.
abbrev pub frame_with : Frame → List ℕ → Frame
frame_with frame bytes = record frame { buffer = some bytes }

-- The frame of the decoder after audio was read into it, and the frame that it fills.
abbrev pub audio_frame : Frame → Frame
audio_frame frame = record frame { kind = media_frame_type_audio; marker = 0 }

abbrev pub filled : Binary → Codec → List ℕ → ℕ → Frame → List ℕ → Frame
filled b codec bytes size frame out =
    let result =
      codec_decode b codec (record { buffer = bytes; size = size })
        (record { buffer = out; size = frame.size }) in
    record (audio_frame frame) { buffer = some result.buffer; size = result.size }

module _ {World : Type 0} where
  -- The read of a frame of these bytes, in this state, succeeds and adds `chunk` to the buffer. That of
  -- an audio file does while the file has as many bytes as the frame's size.
  pub record AddsAudio (f : FrameMethod World) (frame : Frame) (bytes chunk : List ℕ)
      (m m' : Media World) : Type 0 where
    pub adds :
        f (record frame { kind = media_frame_type_none; marker = 0; buffer = some bytes }) m ≡ (
          m',
          record frame {
            kind = media_frame_type_audio;
            marker = 0;
            buffer = some (bytes ++ chunk);
          },
          true,
        )

  -- A decoder whose frame holds bytes.
  abbrev pub decoder_with : AudioStream World → Codec → Frame → List ℕ → Decoder World
  decoder_with source codec frame bytes = record {
    source = some source;
    codec = some codec;
    frame_in = frame_with frame bytes;
  }

  module _ (b : Binary) (source : AudioStream World) (t : VTable World) (f : FrameMethod World)
      (has_table : source.vtable ≡ some t) (has_read : t.read_frame ≡ some f) (codec : Codec) where
    one_call :
        (inner frame : Frame) (bytes out chunk : List ℕ) (m m' : Media World)
        → AddsAudio f inner bytes chunk m m'
        → decoder_process b (decoder_with source codec inner bytes) (frame_with frame out) m
          ≡ ok
              (
                m',
                decoder_with source codec (audio_frame inner) (bytes ++ chunk),
                filled b codec (bytes ++ chunk) inner.size frame out,
              )
              done
    unfolding decoder_process audio_stream_frame_read process_read decode_into copy_frame
    one_call inner frame bytes out chunk m m' reads =
        rw (decoder_process, audio_stream_frame_read, has_table, has_read) (rw reads.adds refl)

    -- What a decoder has read stays in the buffer of its own frame. So if two frames with buffers are
    -- processed one after the other, by a decoder with a codec and a source with a read method, and the
    -- read for each succeeds, adds bytes to the buffer that it is given, makes the frame's type audio
    -- and changes nothing else of it, then for the second frame the codec is given what was in the
    -- buffer at first, followed by what was read for the first frame and by what was read for the
    -- second, not the latter alone.
    pub decoder_process_again :
        (inner frame1 frame2 : Frame) (bytes out1 out2 chunk1 chunk2 : List ℕ)
        (m m1 m2 : Media World)
        → AddsAudio f inner bytes chunk1 m m1
        → AddsAudio f inner (bytes ++ chunk1) chunk2 m1 m2
        → (decoder : Decoder World) × (decoder_process b
              (decoder_with source codec inner bytes)
              (frame_with frame1 out1)
              m
            ≡ ok (m1, decoder, filled b codec (bytes ++ chunk1) inner.size frame1 out1) done)
          × (decoder_process b decoder (frame_with frame2 out2) m1
              ≡ ok
                  (
                    m2,
                    decoder_with source codec (audio_frame inner) (bytes ++ chunk1 ++ chunk2),
                    filled b codec (bytes ++ chunk1 ++ chunk2) inner.size frame2 out2,
                  )
                  done)
    decoder_process_again inner frame1 frame2 bytes out1 out2 chunk1 chunk2 m m1 m2 r1 r2 = (
      decoder_with source codec (audio_frame inner) (bytes ++ chunk1),
      one_call inner frame1 bytes out1 chunk1 m m1 r1,
      one_call (audio_frame inner) frame2 (bytes ++ chunk1) out2 chunk2 m1 m2
          (record { adds = r2.adds }),
    )
