-- ===== src/Buffer/Copy.antt =====
-- One round of the loop of BufferFrameRead (mpf/mpf_buffer.go): what it reads of a chunk.
use go_mrcp.Prelude.{
  ℕ, ◌-◌, ◌≤◌, ◌≡◌, refl, sym, ap, ◌∙◌, true, false, ltb, if◌then◌else◌, List, [], ◌∷◌, ◌++◌,
  Option, none, some, length, take, drop, length-drop, arith, All, bit_or,
}
use go_mrcp.Prelude.Splits.{
  take_append, drop_append, take_over, drop_over, append_assoc, take_all, append_nil, take_nil,
  drop_nil,
}
use go_mrcp.Buffer.{Chunk, Buffer, Frame, Reading, copy_chunk, stops, read_link}

abbrev pub bytes_of : List Chunk → List ℕ
bytes_of [] = []
bytes_of (chunk ∷ link) = chunk.bytes ++ bytes_of link

abbrev pub current : Option Chunk → List ℕ
current none = []
current (some chunk) = chunk.bytes

-- The bytes that were written and not read.
abbrev pub pending : Buffer → List ℕ
pending buffer = current buffer.cur_chunk ++ bytes_of buffer.link

abbrev pub IsChunk : Chunk → Type 0
IsChunk chunk = chunk.size ≡ length chunk.bytes

-- What is left of the current chunk.
abbrev pub IsCurrent : Option Chunk → ℕ → Type 0
IsCurrent none n = Unit {0}
IsCurrent (some chunk) n = n ≡ length chunk.bytes

pub record IsBuffer (buffer : Buffer) : Type 0 where
  pub chunks : All IsChunk buffer.link
  pub chunk : IsCurrent buffer.cur_chunk buffer.remaining_chunk_size

-- From `r`, with the bytes `from` to read, the loop ends in `s` with the chunks `link` left.
pub record Reads (r : Reading) (from : List ℕ) (link : List Chunk) (s : Reading) : Type 0 where
  pub taken : s.frame.bytes ≡ r.frame.bytes ++ take r.remaining from
  pub left : current s.cur_chunk ++ bytes_of link ≡ drop r.remaining from
  pub good : s.eof ≡ false
  pub chunks : All IsChunk link
  pub chunk : IsCurrent s.cur_chunk s.remaining_chunk_size

abbrev pub with_bytes : Frame → Chunk → List ℕ → Frame
with_bytes frame chunk bytes = record frame {
  frame_type = bit_or frame.frame_type chunk.frame_type;
  bytes = frame.bytes ++ bytes;
}

-- A round that ends inside the chunk, and one that uses it up.
abbrev pub partly_read : Chunk → Reading → Reading
partly_read chunk r = record r {
  frame = with_bytes r.frame chunk (take r.remaining chunk.bytes);
  cur_chunk = some (record chunk { bytes = drop r.remaining chunk.bytes });
  remaining_chunk_size = length chunk.bytes - r.remaining;
  remaining = 0;
}

abbrev pub wholly_read : Chunk → Reading → Reading
wholly_read chunk r = record r {
  frame = with_bytes r.frame chunk chunk.bytes;
  cur_chunk = none;
  remaining_chunk_size = 0;
  remaining = r.remaining - length chunk.bytes;
  size = r.size - length chunk.bytes;
}

not_short : (m n : ℕ) → m ≤ n → ltb n m ≡ false
not_short m n h = ground (arith, h)

module _ (chunk : Chunk) (r : Reading) where
  pub copy_part :
      (n : ℕ)
      → n ≡ length chunk.bytes
      → ltb r.remaining (length chunk.bytes) ≡ true
      → copy_chunk chunk n r ≡ partly_read chunk r
  unfolding copy_chunk
  copy_part n e h = rw (e, h, not_short r.remaining (length chunk.bytes) (ground (arith, h))) refl

  pub copy_whole :
      (n : ℕ)
      → n ≡ length chunk.bytes
      → ltb r.remaining (length chunk.bytes) ≡ false
      → copy_chunk chunk n r ≡ wholly_read chunk r
  unfolding copy_chunk
  copy_whole n e h =
      rw
        (
          e,
          h,
          not_short (length chunk.bytes) (length chunk.bytes) (omega arith),
          take_all chunk.bytes,
        )
        refl

-- The rest of the loop after a round.
abbrev pub continue : List Chunk → Reading → List Chunk × Reading
continue link s = if stops s then (link, s) else read_link link s

pub continue_stop : (link : List Chunk) (s : Reading) → stops s ≡ true → continue link s ≡ (link, s)
continue_stop link s h = ground (arith, h)

pub continue_on :
    (link : List Chunk) (s : Reading) → stops s ≡ false → continue link s ≡ read_link link s
continue_on link s h = ground (arith, h)

pub part-Reads :
    (chunk : Chunk) (r : Reading) (link : List Chunk)
    → r.eof ≡ false
    → All IsChunk link
    → ltb r.remaining (length chunk.bytes) ≡ true
    → Reads r (chunk.bytes ++ bytes_of link) link (partly_read chunk r)
part-Reads chunk r link h good lt =
    let le : r.remaining ≤ length chunk.bytes = ground (arith, lt) in
    record {
      taken =
          ap (λ l. r.frame.bytes ++ l)
            (sym (take_append r.remaining chunk.bytes (bytes_of link) le));
      left = sym (drop_append r.remaining chunk.bytes (bytes_of link) le);
      good = h;
      chunks = good;
      chunk = sym (length-drop r.remaining chunk.bytes);
    }

-- Reading on after a chunk that is used up is reading on from both.
pub whole-Reads :
    (chunk : Chunk) (r : Reading) (link after : List Chunk) (s : Reading)
    → length chunk.bytes ≤ r.remaining
    → Reads (wholly_read chunk r) (bytes_of link) after s
    → Reads r (chunk.bytes ++ bytes_of link) after s
whole-Reads chunk r link after s le reads = record {
  taken =
      reads.taken
      ∙ append_assoc r.frame.bytes chunk.bytes
          (take (r.remaining - length chunk.bytes) (bytes_of link))
      ∙ ap (λ l. r.frame.bytes ++ l) (sym (take_over r.remaining chunk.bytes (bytes_of link) le));
  left = reads.left ∙ sym (drop_over r.remaining chunk.bytes (bytes_of link) le);
  good = reads.good;
  chunks = reads.chunks;
  chunk = reads.chunk;
}

-- A frame that asks for nothing more reads nothing, and so does one that finds nothing.
pub full-Reads :
    (r : Reading) (link : List Chunk)
    → r.eof ≡ false
    → r.cur_chunk ≡ none
    → All IsChunk link
    → r.remaining ≡ 0
    → Reads r (bytes_of link) link r
full-Reads r link h c good z = record {
  taken = rw z (sym (append_nil r.frame.bytes));
  left = rw (c, z) refl;
  good = h;
  chunks = good;
  chunk = rw c tt;
}

pub empty-Reads : (r : Reading) → r.eof ≡ false → r.cur_chunk ≡ none → Reads r [] [] r
empty-Reads r h c = record {
  taken = rw (take_nil r.remaining) (sym (append_nil r.frame.bytes));
  left = rw (c, drop_nil r.remaining) refl;
  good = h;
  chunks = tt;
  chunk = rw c tt;
}
