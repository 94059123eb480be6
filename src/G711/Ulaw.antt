-- ===== src/G711/Ulaw.antt =====
-- mpf/codecs/g711/ulaw.go: mu-law encoding and decoding of 16-bit samples, one sample at a time and
-- over byte buffers, and the direct conversion to A-law.
-- A sample is the bit pattern of an int16 and a byte is a number below 256.
use go_mrcp.Prelude.{ℕ, ◌+◌, bit_and, bit_or, not, List, [], ◌∷◌, map, ◌==◌, if◌then◌else◌}
use go_mrcp.Prelude.Words.{u8, not16, neg16, add16, asr16, shl16, gt16}
use go_mrcp.G711.Table.{at}
use go_mrcp.G711.Alaw.{sample_of}
use go_mrcp.G711.UlawTables.{ulaw_segment, ulaw2lpcm, ulaw2alaw}

abbrev pub ulaw_bias : ℕ
ulaw_bias = 0x84

abbrev pub ulaw_clip : ℕ
ulaw_clip = 0x7F7B

unfoldable pub encode_ulaw_frame : ℕ → ℕ
unfolding at
encode_ulaw_frame frame =
    let sign = bit_and (asr16 frame 8) 0x80 in
    let positive = if not (sign == 0) then neg16 frame else frame in
    let clipped = if gt16 positive ulaw_clip then ulaw_clip else positive in
    let biased = add16 clipped ulaw_bias in
    let segment = at ulaw_segment 16 (bit_and (asr16 biased 7) 0xFF) in
    let bottom = bit_and (asr16 biased (segment + 3)) 0x0F in
    u8 (not16 (bit_or (bit_or sign (shl16 segment 4)) bottom))

unfoldable pub decode_ulaw_frame : ℕ → ℕ
unfolding at
decode_ulaw_frame frame = at ulaw2lpcm 8 frame

-- The loop of EncodeUlaw; a last odd byte is not encoded.
unfoldable pub encode_ulaw : List ℕ → List ℕ
encode_ulaw [] = []
encode_ulaw (b ∷ []) = []
encode_ulaw (lo ∷ hi ∷ lpcm) = encode_ulaw_frame (sample_of lo hi) ∷ encode_ulaw lpcm

unfoldable pub decode_ulaw : List ℕ → List ℕ
decode_ulaw [] = []
decode_ulaw (b ∷ pcm) =
    let frame = decode_ulaw_frame b in u8 frame ∷ u8 (asr16 frame 8) ∷ decode_ulaw pcm

unfoldable pub ulaw_to_alaw_frame : ℕ → ℕ
unfolding at
ulaw_to_alaw_frame frame = at ulaw2alaw 16 frame

-- Ulaw2Alaw fills the slice `alaw` and then returns the slice `ulaw`.
unfoldable pub ulaw_to_alaw : List ℕ → List ℕ
ulaw_to_alaw ulaw = let alaw = map ulaw_to_alaw_frame ulaw in ulaw
