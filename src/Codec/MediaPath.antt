-- ===== src/Codec/MediaPath.antt =====
-- A payload on its way through the codecs of the repository: the codec manager of
-- mpf/mpf_codec_manager.go finds the codec, mpf/mpf_codec.go calls its methods, and those of
-- mpf/mpf_codec_g711.go convert it.
use go_mrcp.Prelude.{
  ℕ, zero, suc, ◌*◌, ◌<◌, ◌≤◌, ◌≡◌, ◌⊎◌, inl, inr, refl, ap, ◌∙◌, arith, true, ◌==◌, on_bytes,
  on_bytes_sound, all_from, if◌then◌else◌, List, [], ◌∷◌, map, Option, some, length, take, drop,
  All, Bool-cases,
}
use go_mrcp.Prelude.Words.{u8, asr16}
use go_mrcp.Binaryx.{Binary}
use go_mrcp.G711.Alaw.{sample_of}
use go_mrcp.G711.Ulaw.{encode_ulaw, decode_ulaw, decode_ulaw_frame}
use go_mrcp.G711.Samples.{encode-decode_ulaw_frame}
use go_mrcp.G711.Buffers.{encode_alaw-decode_alaw}
use go_mrcp.Codec.Descriptor.{CodecDescriptor, descriptor_match_by_attribs}
use go_mrcp.Codec.Manager.{Codec, CodecManager, codec_get, get_loop}
use go_mrcp.Codec.G711.{
  CodecFrame, codec_g711u_create, codec_g711a_create, g711u_encode, g711u_decode, g711a_encode,
  g711a_decode,
}
use go_mrcp.Codec.Methods.{codec_encode, codec_decode, vtable_of, dissect_times, dissect_times_lem}

-- Mu-law has two zeros, of which the negative one comes back as the positive one.
abbrev pub one_zero : ℕ → ℕ
one_zero c = if c == 0x7F then 0xFF else c

bytes_of_sample :
    on_bytes (λ c.
      sample_of (u8 (decode_ulaw_frame c)) (u8 (asr16 (decode_ulaw_frame c) 8))
      == decode_ulaw_frame c)
    ≡ true
unfolding all_from decode_ulaw_frame sample_of
bytes_of_sample = refl

sample_of_bytes :
    (c : ℕ)
    → c < 256
    → sample_of (u8 (decode_ulaw_frame c)) (u8 (asr16 (decode_ulaw_frame c) 8))
      ≡ decode_ulaw_frame c
sample_of_bytes c h = ground (arith, on_bytes_sound _ c bytes_of_sample h)

encode_ulaw-decode_ulaw :
    (pcm : List ℕ) → All (λ c. c < 256) pcm → encode_ulaw (decode_ulaw pcm) ≡ map one_zero pcm
unfolding encode_ulaw decode_ulaw
encode_ulaw-decode_ulaw [] h = refl
encode_ulaw-decode_ulaw (c ∷ pcm) h =
    rw (sample_of_bytes c h.0, encode-decode_ulaw_frame c h.0)
      (ap (λ xs. one_zero c ∷ xs) (encode_ulaw-decode_ulaw pcm h.1))

All-take : (n : ℕ) (xs : List ℕ) → All (λ c. c < 256) xs → All (λ c. c < 256) (take n xs)
All-take zero xs h = tt
All-take (suc n) [] h = tt
All-take (suc n) (x ∷ xs) h = (h.0, All-take n xs h.1)

length-take : (n : ℕ) (xs : List ℕ) → n ≤ length xs → length (take n xs) ≡ n
length-take zero xs h = refl
length-take (suc n) [] h = absurd (omega arith)
length-take (suc n) (x ∷ xs) h = omega (arith, length-take n xs)

length-map : (f : ℕ → ℕ) (xs : List ℕ) → length (map f xs) ≡ length xs
length-map f [] = refl
length-map f (x ∷ xs) = omega (arith, length-map f xs)

abbrev empty_frame : CodecFrame
empty_frame = record { buffer = []; size = 0 }

-- The bytes of a frame decoded to linear samples, and these encoded again.
abbrev pub decoded_encoded : Binary → Codec → List ℕ → CodecFrame
decoded_encoded b c bytes =
    codec_encode b c (codec_decode b c (record { buffer = bytes; size = length bytes }) empty_frame)
      empty_frame

-- What comes out of the codec of the payload type 0, mu-law, or 8, A-law.
abbrev pub normal : ℕ → List ℕ → List ℕ
normal payload_type bytes = if payload_type == 0 then map one_zero bytes else bytes

abbrev pub codec_of : ℕ → Codec
codec_of payload_type = if payload_type == 0 then codec_g711u_create else codec_g711a_create

decoded_encoded_lem :
    (b : Binary) (payload_type : ℕ) (bytes : List ℕ)
    → All (λ c. c < 256) bytes
    → decoded_encoded b (codec_of payload_type) bytes
      ≡ record { buffer = normal payload_type bytes; size = length bytes }
unfolding codec_encode codec_decode vtable_of g711u_encode g711u_decode g711a_encode g711a_decode
decoded_encoded_lem b payload_type bytes h = elim (Bool-cases (payload_type == 0)) [
  | inl y ↦ rw (y, encode_ulaw-decode_ulaw bytes h, length-map one_zero bytes) refl
  | inr n ↦ rw (n, encode_alaw-decode_alaw bytes h) refl
]

get_loop-static :
    (d : CodecDescriptor) (rest : List Codec)
    → (d.payload_type ≡ 0) ⊎ (d.payload_type ≡ 8)
    → (get_loop (codec_g711u_create ∷ codec_g711a_create ∷ rest) d).1
      ≡ some (codec_of d.payload_type)
unfolding get_loop descriptor_match_by_attribs
get_loop-static d rest (inl e) = rw e refl
get_loop-static d rest (inr e) = rw e refl

-- A manager whose first codecs are the two of G.711.
abbrev pub with_g711 : List Codec → Option CodecDescriptor → CodecManager
with_g711 rest event = record {
  codec_arr = codec_g711u_create ∷ codec_g711a_create ∷ rest;
  event_descriptor = event;
}

-- A manager whose first codecs are those of mu-law and A-law gets, for a descriptor of payload type 0
-- or 8, the one of them. A payload that holds n frames of a size that is not 0 is taken apart into
-- them in order; these bytes, decoded to linear samples and encoded again, are the same bytes in a frame
-- of their number, except that in mu-law 0x7F, the negative zero, becomes 0xFF.
pub media_path :
    (b : Binary) (d : CodecDescriptor) (rest : List Codec) (event : Option CodecDescriptor)
    (payload : List ℕ) (n size : ℕ)
    → (d.payload_type ≡ 0) ⊎ (d.payload_type ≡ 8)
    → All (λ c. c < 256) payload
    → 0 < size
    → n * size ≤ length payload
    → (changed : CodecDescriptor) × (codec_get (with_g711 rest event) (some d)
        ≡ some (changed, some (codec_of d.payload_type)))
      × (dissect_times b (codec_of d.payload_type) n payload (some []) size
          ≡ (drop (n * size) payload, some (take (n * size) payload)))
      × (decoded_encoded b (codec_of d.payload_type) (take (n * size) payload)
          ≡ record { buffer = normal d.payload_type (take (n * size) payload); size = n * size })
unfolding codec_get
media_path b d rest event payload n size static h p enough =
    let got = get_loop (codec_g711u_create ∷ codec_g711a_create ∷ rest) d in
    let taken : length (take (n * size) payload) ≡ n * size =
      length-take (n * size) payload enough in
    (
      got.0,
      ap (λ o. some (got.0, o)) (get_loop-static d rest static),
      dissect_times_lem b (codec_of d.payload_type) n payload [] size p enough,
      decoded_encoded_lem b d.payload_type (take (n * size) payload) (All-take (n * size) payload h)
          ∙ ap (λ k. record { buffer = normal d.payload_type (take (n * size) payload); size = k })
              taken,
    )
