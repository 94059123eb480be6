-- ===== src/Buffer/Tests.antt =====
-- Runs of the media buffer of mpf/mpf_buffer.go on concrete input.
use go_mrcp.Prelude.{◌≡◌, refl, true, false, List, [], ◌∷◌, ◌++◌, none, some, take, drop}
use go_mrcp.Buffer.{Buffer, Frame, create, restart, audio_write, event_write, frame_read}
use go_mrcp.Buffer.Copy.{pending, IsBuffer}
use go_mrcp.Buffer.Bytes.{
  Item, audio, event, sound, write_all, frame_read-write_all, frame_read_blocks,
}

-- Part of a chunk of three bytes, then a chunk of one.
abbrev a_buffer : Buffer
a_buffer = record {
  link =
      record { frame_type = 4; bytes = []; size = 0 }
      ∷ record { frame_type = 1; bytes = 9 ∷ []; size = 1 }
      ∷ [];
  cur_chunk = some (record { frame_type = 1; bytes = 7 ∷ 8 ∷ []; size = 3 });
  remaining_chunk_size = 2;
  locked = false;
  size = 4;
}

abbrev empty_frame : Frame
empty_frame = record { frame_type = 0; bytes = []; size = 3 }

abbrev full_frame : Frame
full_frame = record { frame_type = 5; bytes = 7 ∷ 8 ∷ 9 ∷ []; size = 3 }

-- The size does not count the first byte of the first chunk, which was read before.
abbrev read_buffer : Buffer
read_buffer = record {
  link = [];
  cur_chunk = none;
  remaining_chunk_size = 0;
  locked = true;
  size = 1;
}

three_bytes : frame_read a_buffer empty_frame ≡ some (read_buffer, full_frame, false)
unfolding frame_read
three_bytes = refl

a_buffer-IsBuffer : IsBuffer a_buffer
a_buffer-IsBuffer = record { chunks = (refl, (refl, tt)); chunk = refl }

abbrev items : List Item
items = audio (1 ∷ 2 ∷ []) ∷ event 4 ∷ audio (3 ∷ 4 ∷ []) ∷ []

frame_read-write_all_example :
    (buffer after : Buffer) × (read : Frame) × (write_all create items ≡ some buffer)
    × (frame_read buffer empty_frame ≡ some (after, read, false))
    × (read.bytes ≡ empty_frame.bytes ++ take empty_frame.size (sound items))
    × (pending after ≡ drop empty_frame.size (sound items))
frame_read-write_all_example = frame_read-write_all items empty_frame

frame_read_blocks_example :
    (frame_read read_buffer empty_frame ≡ none)
    × (audio_write read_buffer (5 ∷ []) ≡ none)
    × (event_write read_buffer 4 ≡ none)
    × (restart read_buffer ≡ none)
frame_read_blocks_example =
    frame_read_blocks a_buffer read_buffer empty_frame full_frame false three_bytes empty_frame
      (5 ∷ []) 4
