-- ===== src/G711/Alaw.antt =====
-- mpf/codecs/g711/alaw.go: A-law encoding and decoding of 16-bit samples, one sample at a time and
-- over byte buffers, and the direct conversion to mu-law.
-- A sample is the bit pattern of an int16 and a byte is a number below 256.
use go_mrcp.Prelude.{ℕ, ◌+◌, bit_and, bit_or, bit_xor, not, List, [], ◌∷◌, map, ◌==◌, if◌then◌else◌}
use go_mrcp.Prelude.Words.{u8, not16, neg16, asr16, shl16, gt16}
use go_mrcp.G711.Table.{at}
use go_mrcp.G711.AlawTables.{alaw_segment, alaw2lpcm, alaw2ulaw}

abbrev pub alaw_clip : ℕ
alaw_clip = 0x7F7B

-- The branches on `frame >= 256` after the sign has been removed and the sample clipped.
unfoldable pub alaw_compress : ℕ → ℕ
unfolding at
alaw_compress frame =
    let segment = at alaw_segment 8 (bit_and (asr16 frame 8) 0x7F) in
    let bottom = bit_and (asr16 frame (segment + 3)) 0x0F in
    if not (gt16 256 frame) then u8 (bit_or (shl16 segment 4) bottom) else u8 (asr16 frame 4)

unfoldable pub encode_alaw_frame : ℕ → ℕ
unfolding alaw_compress
encode_alaw_frame frame =
    let sign = bit_and (asr16 (not16 frame) 8) 0x80 in
    let positive = if sign == 0 then neg16 frame else frame in
    let clipped = if gt16 positive alaw_clip then alaw_clip else positive in
    bit_xor (alaw_compress clipped) (u8 (bit_xor sign 0x55))

unfoldable pub decode_alaw_frame : ℕ → ℕ
unfolding at
decode_alaw_frame frame = at alaw2lpcm 8 frame

-- `int16(lpcm[j]) | int16(lpcm[j+1])<<8`
unfoldable pub sample_of : ℕ → ℕ → ℕ
sample_of lo hi = bit_or lo (shl16 hi 8)

-- The loop of EncodeAlaw; a last odd byte is not encoded.
unfoldable pub encode_alaw : List ℕ → List ℕ
encode_alaw [] = []
encode_alaw (b ∷ []) = []
encode_alaw (lo ∷ hi ∷ lpcm) = encode_alaw_frame (sample_of lo hi) ∷ encode_alaw lpcm

-- `byte(frame)` and `byte(frame >> 8)`
unfoldable pub decode_alaw : List ℕ → List ℕ
decode_alaw [] = []
decode_alaw (b ∷ pcm) =
    let frame = decode_alaw_frame b in u8 frame ∷ u8 (asr16 frame 8) ∷ decode_alaw pcm

unfoldable pub alaw_to_ulaw_frame : ℕ → ℕ
unfolding at
alaw_to_ulaw_frame frame = at alaw2ulaw 16 frame

unfoldable pub alaw_to_ulaw : List ℕ → List ℕ
alaw_to_ulaw alaw = map alaw_to_ulaw_frame alaw
