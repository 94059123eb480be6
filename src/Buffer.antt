-- ===== src/Buffer.antt =====
-- mpf/mpf_buffer.go: the media buffer, a list of chunks that are written whole and read in frames.
-- The guard is a flag: an operation on a locked buffer waits for ever, which is `none`, since
-- nothing else would unlock it. The frame to read into has a buffer and a size that is not
-- negative, and the data of a chunk is not changed after it was written.
pub mod Copy
pub mod Bytes
mod Tests
use go_mrcp.Prelude.{
  ℕ, zero, suc, ◌+◌, ◌-◌, Bool, true, false, ltb, ◌==◌, ◌||◌, if◌then◌else◌, List, [], ◌∷◌, ◌++◌,
  Option, none, some, length, take, drop, bit_or,
}

abbrev pub media_frame_type_audio : ℕ
media_frame_type_audio = 1

-- A chunk's frame: its type, and the bytes and the size of its codec frame. An event has no buffer.
pub record Chunk : Type 0 where
  pub frame_type : ℕ
  pub bytes : List ℕ
  pub size : ℕ

pub record Buffer : Type 0 where
  pub link : List Chunk
  pub cur_chunk : Option Chunk
  pub remaining_chunk_size : ℕ
  pub locked : Bool
  pub size : ℕ

-- The frame that a caller reads into: the bytes that its buffer holds, and its size.
pub record Frame : Type 0 where
  pub frame_type : ℕ
  pub bytes : List ℕ
  pub size : ℕ

unfoldable pub create : Buffer
create = record { link = []; cur_chunk = none; remaining_chunk_size = 0; locked = false; size = 0 }

-- BufferRestart: a new list; the current chunk and the size stay.
unfoldable pub restart : Buffer → Option Buffer
restart buffer = if buffer.locked then none else some (record buffer { link = [] })

unfoldable pub chunk_write : Buffer → Chunk → Buffer
chunk_write buffer chunk = record buffer { link = buffer.link ++ (chunk ∷ []) }

-- BufferDestroy does nothing and returns nil.
unfoldable destroy : Buffer → Buffer × Bool
destroy buffer = (buffer, true)

-- The first chunk, which is taken out of the list; every element of the list is a chunk.
unfoldable chunk_read : Buffer → Buffer × Option Chunk
chunk_read buffer = elim buffer.link [
  | [] ↦ (buffer, none)
  | chunk ∷ link ↦ (record buffer { link = link }, some chunk)
]

unfoldable get_size : Buffer → ℕ
get_size buffer = buffer.size

unfoldable pub audio_write : Buffer → List ℕ → Option Buffer
unfolding chunk_write
audio_write buffer bytes =
    let chunk : Chunk = record {
      frame_type = media_frame_type_audio;
      bytes = bytes;
      size = length bytes;
    } in
    if buffer.locked
    then none
    else some (record (chunk_write buffer chunk) { size = buffer.size + length bytes })

unfoldable pub event_write : Buffer → ℕ → Option Buffer
unfolding chunk_write
event_write buffer event_type =
    if buffer.locked
    then none
    else some (chunk_write buffer (record { frame_type = event_type; bytes = []; size = 0 }))

-- The variables of the loop of BufferFrameRead; `eof` is the error of io.CopyN.
pub record Reading : Type 0 where
  pub frame : Frame
  pub cur_chunk : Option Chunk
  pub remaining_chunk_size : ℕ
  pub remaining : ℕ
  pub size : ℕ
  pub eof : Bool

-- One round of the loop, on the current chunk. io.CopyN moves what is there and fails if that is
-- less than it was asked for.
unfoldable pub copy_chunk : Chunk → ℕ → Reading → Reading
copy_chunk chunk chunk_size r =
    let partly = ltb r.remaining chunk_size in
    let n = if partly then r.remaining else chunk_size in
    let frame = record (r.frame) {
      frame_type = bit_or r.frame.frame_type chunk.frame_type;
      bytes = r.frame.bytes ++ take n chunk.bytes;
    } in
    let rest = record chunk { bytes = drop n chunk.bytes } in
    if ltb (length chunk.bytes) n
    then record r {
      frame = frame;
      cur_chunk = some rest;
      remaining_chunk_size = chunk_size;
      eof = true;
    }
    else if partly
    then record r {
      frame = frame;
      cur_chunk = some rest;
      remaining_chunk_size = chunk_size - r.remaining;
      remaining = 0;
    }
    else record r {
      frame = frame;
      cur_chunk = none;
      remaining_chunk_size = 0;
      remaining = r.remaining - chunk_size;
      size = r.size - chunk_size;
    }

abbrev pub stops : Reading → Bool
stops r = r.eof || (r.remaining == 0)

-- The rounds that begin without a current chunk, each taking one from the list.
unfoldable pub read_link : List Chunk → Reading → List Chunk × Reading
unfolding copy_chunk
read_link [] r = ([], r)
read_link (chunk ∷ link) r =
    let s = copy_chunk chunk chunk.size r in
    let rest = read_link link s in if stops s then (link, s) else rest

unfoldable pub read_from : Option Chunk → List Chunk → Reading → List Chunk × Reading
unfolding read_link
read_from none link r = read_link link r
read_from (some chunk) link r =
    let s = copy_chunk chunk r.remaining_chunk_size r in
    if stops s then (link, s) else read_link link s

-- BufferFrameRead: the buffer, the frame, and whether io.EOF is returned. No path unlocks the guard.
unfoldable pub frame_read : Buffer → Frame → Option (Buffer × Frame × Bool)
unfolding read_from
frame_read buffer media_frame =
    let start : Reading = record {
      frame = media_frame;
      cur_chunk = buffer.cur_chunk;
      remaining_chunk_size = buffer.remaining_chunk_size;
      remaining = media_frame.size;
      size = buffer.size;
      eof = false;
    } in
    let (link, s) = read_from buffer.cur_chunk buffer.link start in
    if buffer.locked
    then none
    else some (
      record {
        link = link;
        cur_chunk = s.cur_chunk;
        remaining_chunk_size = s.remaining_chunk_size;
        locked = true;
        size = s.size;
      },
      s.frame,
      s.eof,
    )
