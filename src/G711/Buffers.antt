-- ===== src/G711/Buffers.antt =====
-- The buffer functions of mpf/codecs/g711/alaw.go and ulaw.go: lengths, the round trip of a whole
-- A-law buffer, and what Ulaw2Alaw returns.
use go_mrcp.Prelude.{
  ℕ, ◌*◌, ◌/◌, ◌<◌, ◌≡◌, refl, ap, ◌≢◌, ◌↔◌, true, not, ◌==◌, all_from, on_bytes, on_bytes_sound,
  arith, List, [], ◌∷◌, map, length, All,
}
use go_mrcp.Prelude.Words.{u8, asr16}
use go_mrcp.G711.Alaw.{decode_alaw_frame, encode_alaw, decode_alaw, sample_of}
use go_mrcp.G711.Ulaw.{ulaw_to_alaw_frame, ulaw_to_alaw, encode_ulaw, decode_ulaw}
use go_mrcp.G711.Samples.{encode-decode_alaw_frame}

bytes_of_sample :
    on_bytes (λ c.
      sample_of (u8 (decode_alaw_frame c)) (u8 (asr16 (decode_alaw_frame c) 8))
      == decode_alaw_frame c)
    ≡ true
unfolding all_from decode_alaw_frame sample_of
bytes_of_sample = refl

sample_of_bytes :
    (c : ℕ)
    → c < 256
    → sample_of (u8 (decode_alaw_frame c)) (u8 (asr16 (decode_alaw_frame c) 8))
      ≡ decode_alaw_frame c
sample_of_bytes c h = ground (arith, on_bytes_sound _ c bytes_of_sample h)

-- Encoding what DecodeAlaw writes gives the A-law bytes back.
pub encode_alaw-decode_alaw :
    (pcm : List ℕ) → All (λ c. c < 256) pcm → encode_alaw (decode_alaw pcm) ≡ pcm
unfolding encode_alaw decode_alaw
encode_alaw-decode_alaw [] h = refl
encode_alaw-decode_alaw (c ∷ pcm) h =
    rw (sample_of_bytes c h.0, encode-decode_alaw_frame c h.0)
      (ap (λ xs. c ∷ xs) (encode_alaw-decode_alaw pcm h.1))

length-encode_alaw : (bytes : List ℕ) → length (encode_alaw bytes) ≡ length bytes / 2
unfolding encode_alaw
length-encode_alaw [] = omega arith
length-encode_alaw (b ∷ []) = omega arith
length-encode_alaw (lo ∷ hi ∷ bytes) = omega (arith, length-encode_alaw bytes)

length-encode_ulaw : (bytes : List ℕ) → length (encode_ulaw bytes) ≡ length bytes / 2
unfolding encode_ulaw
length-encode_ulaw [] = omega arith
length-encode_ulaw (b ∷ []) = omega arith
length-encode_ulaw (lo ∷ hi ∷ bytes) = omega (arith, length-encode_ulaw bytes)

length-decode_alaw : (bytes : List ℕ) → length (decode_alaw bytes) ≡ 2 * length bytes
unfolding decode_alaw
length-decode_alaw [] = omega arith
length-decode_alaw (b ∷ bytes) = omega (arith, length-decode_alaw bytes)

length-decode_ulaw : (bytes : List ℕ) → length (decode_ulaw bytes) ≡ 2 * length bytes
unfolding decode_ulaw
length-decode_ulaw [] = omega arith
length-decode_ulaw (b ∷ bytes) = omega (arith, length-decode_ulaw bytes)

-- EncodeAlaw and EncodeUlaw write one byte for each two that they are given, rounded down, and
-- DecodeAlaw and DecodeUlaw write two bytes for each.
pub length-encode-decode :
    (bytes : List ℕ)
    → (length (encode_alaw bytes) ≡ length bytes / 2)
      × (length (encode_ulaw bytes) ≡ length bytes / 2)
      × (length (decode_alaw bytes) ≡ 2 * length bytes)
      × (length (decode_ulaw bytes) ≡ 2 * length bytes)
length-encode-decode bytes = (
  length-encode_alaw bytes,
  length-encode_ulaw bytes,
  length-decode_alaw bytes,
  length-decode_ulaw bytes,
)

no_fixed_byte : on_bytes (λ c. not (ulaw_to_alaw_frame c == c)) ≡ true
unfolding all_from ulaw_to_alaw_frame
no_fixed_byte = refl

ulaw_to_alaw_frame-ne : (c : ℕ) → c < 256 → ulaw_to_alaw_frame c ≢ c
ulaw_to_alaw_frame-ne c h e = ground (arith, on_bytes_sound _ c no_fixed_byte h)

-- On bytes, Ulaw2Alaw agrees with Ulaw2AlawFrame taken at each byte only on the empty buffer: it
-- returns its input.
pub ulaw_to_alaw_iff :
    (ulaw : List ℕ)
    → All (λ c. c < 256) ulaw
    → (ulaw_to_alaw ulaw ≡ map ulaw_to_alaw_frame ulaw) ↔ (ulaw ≡ [])
unfolding ulaw_to_alaw
ulaw_to_alaw_iff [] h = (λ e. refl, λ e. refl)
ulaw_to_alaw_iff (c ∷ ulaw) h = (λ e. absurd (ulaw_to_alaw_frame-ne c h.0 (cc)), λ e. cc)
