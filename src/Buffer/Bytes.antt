-- ===== src/Buffer/Bytes.antt =====
-- The media buffer of mpf/mpf_buffer.go as a stream of bytes, and its lock.
use go_mrcp.Prelude.{
  ℕ, ◌+◌, ◌-◌, ◌≤◌, ◌≡◌, refl, sym, ap, ◌∙◌, Bool, true, false, ltb, ◌==◌, List, [], ◌∷◌, ◌++◌,
  Option, none, some, length, take, drop, arith, All, Bool-cases, inl, inr,
}
use mathlib.Core.Path.{subst}
use go_mrcp.Prelude.Splits.{append_assoc, append_nil}
use go_mrcp.Buffer.{
  Chunk, Buffer, Frame, Reading, create, restart, chunk_write, audio_write, event_write, copy_chunk,
  read_link, read_from, frame_read, media_frame_type_audio,
}
use go_mrcp.Buffer.Copy.{
  bytes_of, current, pending, IsChunk, IsCurrent, IsBuffer, Reads, partly_read, wholly_read,
  copy_part, copy_whole, continue, continue_stop, continue_on, part-Reads, whole-Reads, full-Reads,
  empty-Reads,
}

-- The loop after a round on `chunk`, given what it does without a current chunk.
module _ (chunk : Chunk) (r : Reading) (link : List Chunk) where
  Done : List Chunk × Reading → Type 0
  Done o = Reads r (chunk.bytes ++ bytes_of link) o.0 o.1

  round-Reads :
      (n : ℕ)
      → n ≡ length chunk.bytes
      → r.eof ≡ false
      → All IsChunk link
      → ((s : Reading)
          → s.eof ≡ false
          → s.cur_chunk ≡ none
          → Reads s (bytes_of link) (read_link link s).0 (read_link link s).1)
      → Done (continue link (copy_chunk chunk n r))
  unfolding Done
  round-Reads n e h good ih = elim (Bool-cases (ltb r.remaining (length chunk.bytes))) [
    | inl lt ↦
        subst Done
          (sym (
            ap (continue link) (copy_part chunk r n e lt)
            ∙ continue_stop link (partly_read chunk r) (ground (arith, h))))
          (part-Reads chunk r link h good lt)
    | inr ge ↦
        let le : length chunk.bytes ≤ r.remaining = ground (arith, ge) in
        let s = wholly_read chunk r in
        elim (Bool-cases (r.remaining - length chunk.bytes == 0)) [
          | inl z ↦
              subst Done
                (sym (
                  ap (continue link) (copy_whole chunk r n e ge)
                  ∙ continue_stop link s (ground (arith, h, z))))
                (whole-Reads chunk r link link s le
                  (full-Reads s link h refl good (ground (arith, z))))
          | inr nz ↦
              subst Done
                (sym (
                  ap (continue link) (copy_whole chunk r n e ge)
                  ∙ continue_on link s (ground (arith, h, nz))))
                (whole-Reads chunk r link _ _ le (ih s h refl))
        ]
  ]

link-Reads :
    (link : List Chunk) (r : Reading)
    → All IsChunk link
    → r.eof ≡ false
    → r.cur_chunk ≡ none
    → Reads r (bytes_of link) (read_link link r).0 (read_link link r).1
unfolding read_link Done
link-Reads [] r good h c = empty-Reads r h c
link-Reads (chunk ∷ link) r good h c =
    round-Reads chunk r link chunk.size good.0 h good.1 (λ s e n. link-Reads link s good.1 e n)

from-Reads :
    (cur : Option Chunk) (link : List Chunk) (r : Reading)
    → All IsChunk link
    → IsCurrent cur r.remaining_chunk_size
    → r.eof ≡ false
    → r.cur_chunk ≡ cur
    → Reads r (current cur ++ bytes_of link) (read_from cur link r).0 (read_from cur link r).1
unfolding read_from Done
from-Reads none link r good k h c = link-Reads link r good h c
from-Reads (some chunk) link r good k h c =
    round-Reads chunk r link r.remaining_chunk_size k h good (λ s e n. link-Reads link s good e n)

-- BufferFrameRead on a well-formed, unlocked buffer returns without an error. The frame's buffer gets
-- the first bytes of those that were written and not read, as many as the frame's size if there are so
-- many and all of them if not; the others stay in their order, and the buffer is well-formed and
-- locked.
pub frame_read_lem :
    (buffer : Buffer) (frame : Frame)
    → IsBuffer buffer
    → buffer.locked ≡ false
    → (after : Buffer) × (read : Frame) × (frame_read buffer frame ≡ some (after, read, false))
      × (read.bytes ≡ frame.bytes ++ take frame.size (pending buffer))
      × (pending after ≡ drop frame.size (pending buffer))
      × (after.locked ≡ true)
      × IsBuffer after
unfolding frame_read
frame_read_lem buffer frame w unlocked =
    let start : Reading = record {
      frame = frame;
      cur_chunk = buffer.cur_chunk;
      remaining_chunk_size = buffer.remaining_chunk_size;
      remaining = frame.size;
      size = buffer.size;
      eof = false;
    } in
    let reads = from-Reads buffer.cur_chunk buffer.link start w.chunks w.chunk refl refl in
    let out = read_from buffer.cur_chunk buffer.link start in
    (
      record {
        link = out.0;
        cur_chunk = out.1.cur_chunk;
        remaining_chunk_size = out.1.remaining_chunk_size;
        locked = true;
        size = out.1.size;
      },
      out.1.frame,
      rw (unlocked, reads.good) refl,
      reads.taken,
      reads.left,
      refl,
      record { chunks = reads.chunks; chunk = reads.chunk },
    )

-- Writing to an unlocked, well-formed buffer puts the bytes behind those that wait (an event has
-- none), and leaves it unlocked and well-formed.
abbrev Written : Buffer → List ℕ → Option Buffer → Type 0
Written buffer bytes o =
    (after : Buffer) × (o ≡ some after)
    × (pending after ≡ pending buffer ++ bytes)
    × (after.locked ≡ false)
    × IsBuffer after

bytes_of-append :
    (link : List Chunk) (chunk : Chunk)
    → bytes_of (link ++ (chunk ∷ [])) ≡ bytes_of link ++ chunk.bytes
bytes_of-append [] chunk = append_nil chunk.bytes
bytes_of-append (c ∷ link) chunk =
    ap (λ l. c.bytes ++ l) (bytes_of-append link chunk)
    ∙ sym (append_assoc c.bytes (bytes_of link) chunk.bytes)

All-append :
    (link : List Chunk) (chunk : Chunk)
    → All IsChunk link
    → IsChunk chunk
    → All IsChunk (link ++ (chunk ∷ []))
All-append [] chunk good k = (k, tt)
All-append (c ∷ link) chunk good k = (good.0, All-append link chunk good.1 k)

pending-write :
    (buffer : Buffer) (chunk : Chunk)
    → pending (chunk_write buffer chunk) ≡ pending buffer ++ chunk.bytes
unfolding chunk_write
pending-write buffer chunk =
    ap (λ l. current buffer.cur_chunk ++ l) (bytes_of-append buffer.link chunk)
    ∙ sym (append_assoc (current buffer.cur_chunk) (bytes_of buffer.link) chunk.bytes)

abbrev put_chunk : Buffer → Chunk → ℕ → Buffer
put_chunk buffer chunk n = record buffer {
  link = buffer.link ++ (chunk ∷ []);
  size = buffer.size + n;
}

put-IsBuffer :
    (buffer : Buffer) (chunk : Chunk) (n : ℕ)
    → IsBuffer buffer
    → IsChunk chunk
    → IsBuffer (put_chunk buffer chunk n)
put-IsBuffer buffer chunk n w k = record {
  chunks = All-append buffer.link chunk w.chunks k;
  chunk = w.chunk;
}

module _ (buffer : Buffer) (w : IsBuffer buffer) (unlocked : buffer.locked ≡ false) where
  audio-Written : (bytes : List ℕ) → Written buffer bytes (audio_write buffer bytes)
  unfolding audio_write
  audio-Written bytes =
      let chunk : Chunk = record {
        frame_type = media_frame_type_audio;
        bytes = bytes;
        size = length bytes;
      } in
      (
        put_chunk buffer chunk (length bytes),
        rw unlocked refl,
        pending-write buffer chunk,
        unlocked,
        put-IsBuffer buffer chunk (length bytes) w refl,
      )

  event-Written : (event_type : ℕ) → Written buffer [] (event_write buffer event_type)
  unfolding event_write
  event-Written event_type =
      let chunk : Chunk = record { frame_type = event_type; bytes = []; size = 0 } in
      (
        chunk_write buffer chunk,
        rw unlocked refl,
        pending-write buffer chunk,
        unlocked,
        unfold chunk_write in
            record { chunks = All-append buffer.link chunk w.chunks refl; chunk = w.chunk },
      )

-- What is written to a buffer: audio, or an event.
pub data Item : Type 0 where
  audio : List ℕ → Item
  event : ℕ → Item

abbrev pub sound : List Item → List ℕ
sound [] = []
sound (audio bytes ∷ items) = bytes ++ sound items
sound (event event_type ∷ items) = sound items

abbrev write_item : Buffer → Item → Option Buffer
write_item buffer (audio bytes) = audio_write buffer bytes
write_item buffer (event event_type) = event_write buffer event_type

unfoldable pub write_all : Buffer → List Item → Option Buffer
write_all buffer [] = some buffer
write_all buffer (item ∷ items) = elim (write_item buffer item) [
  | none ↦ none
  | some after ↦ write_all after items
]

item-Written :
    (buffer : Buffer) (item : Item)
    → IsBuffer buffer
    → buffer.locked ≡ false
    → Written buffer (sound (item ∷ [])) (write_item buffer item)
item-Written buffer (audio bytes) w u = rw (append_nil bytes) (audio-Written buffer w u bytes)
item-Written buffer (event event_type) w u = event-Written buffer w u event_type

sound-cons :
    (item : Item) (items : List Item) → sound (item ∷ items) ≡ sound (item ∷ []) ++ sound items
sound-cons (audio bytes) items = ap (λ l. l ++ sound items) (sym (append_nil bytes))
sound-cons (event event_type) items = refl

write_all-Written :
    (items : List Item) (buffer : Buffer)
    → IsBuffer buffer
    → buffer.locked ≡ false
    → Written buffer (sound items) (write_all buffer items)
unfolding write_all
write_all-Written [] buffer w u = (buffer, refl, sym (append_nil (pending buffer)), u, w)
write_all-Written (item ∷ items) buffer w u =
    let (mid, e, p, u', w') = item-Written buffer item w u in
    let (after, e', p', u'', w'') = write_all-Written items mid w' u' in
    (
      after,
      rw (write_all, e) e',
      p'
          ∙ ap (λ l. l ++ sound items) p
          ∙ append_assoc (pending buffer) (sound (item ∷ [])) (sound items)
          ∙ ap (λ l. pending buffer ++ l) (sym (sound-cons item items)),
      u'',
      w'',
    )

create-IsBuffer : IsBuffer create
unfolding create
create-IsBuffer = record { chunks = tt; chunk = tt }

pending-create : (items : List Item) → pending create ++ sound items ≡ sound items
unfolding create
pending-create items = refl

-- Whatever audio and events are written to a new buffer, the writes succeed, and a first frame read
-- from it gets the first bytes of the audio in the order in which it was written, as many as the frame's
-- size if there are so many and all of them if not, and the others stay for later.
pub frame_read-write_all :
    (items : List Item) (frame : Frame)
    → (buffer after : Buffer) × (read : Frame) × (write_all create items ≡ some buffer)
      × (frame_read buffer frame ≡ some (after, read, false))
      × (read.bytes ≡ frame.bytes ++ take frame.size (sound items))
      × (pending after ≡ drop frame.size (sound items))
frame_read-write_all items frame =
    let (buffer, e, p, u, w) =
      write_all-Written items create create-IsBuffer (unfold create in refl) in
    let (after, read, f, taken, left, locked, w') = frame_read_lem buffer frame w u in
    let q : pending buffer ≡ sound items = p ∙ pending-create items in
    (
      buffer,
      after,
      read,
      e,
      f,
      taken ∙ ap (λ l. frame.bytes ++ take frame.size l) q,
      left ∙ ap (λ l. drop frame.size l) q,
    )

-- A frame read leaves the buffer locked: every later operation that takes the lock waits for ever.
pub frame_read_blocks :
    (buffer after : Buffer) (frame read : Frame) (eof : Bool)
    → frame_read buffer frame ≡ some (after, read, eof)
    → (next : Frame) (bytes : List ℕ) (event_type : ℕ)
    → (frame_read after next ≡ none)
      × (audio_write after bytes ≡ none)
      × (event_write after event_type ≡ none)
      × (restart after ≡ none)
unfolding frame_read audio_write event_write restart
frame_read_blocks buffer after frame read eof e next bytes event_type =
    let l : after.locked ≡ true = ground (arith, e) in (rw l refl, rw l refl, rw l refl, rw l refl)
