-- ===== src/G711/Tests.antt =====
-- Runs of the G.711 functions of mpf/codecs/g711 on concrete input.
use go_mrcp.Prelude.{
  ℕ, ◌+◌, ◌*◌, ◌≤◌, ◌≡◌, refl, ◌≢◌, ◌↔◌, ◌⊎◌, inr, arith, none, some, List, [], ◌∷◌, length, take,
}
use go_mrcp.Prelude.Words.{abs16, dist16}
use go_mrcp.G711.Alaw.{encode_alaw_frame, decode_alaw_frame, encode_alaw, decode_alaw}
use go_mrcp.G711.Ulaw.{encode_ulaw_frame, decode_ulaw_frame, decode_ulaw, ulaw_to_alaw}
use go_mrcp.G711.Samples.{encode-decode_alaw_frame, alaw_error_bound_iff, ulaw_error_bound_iff}
use go_mrcp.G711.Stream.{
  Decoder, Encoder, ReadResult, WriteResult, ok, lpcm, read, write, new_alaw_encoder,
  new_ulaw_decoder, reset_decoder, zeros,
}
use go_mrcp.G711.StreamLaws.{
  made_alaw, made_ulaw_decoder, decoder_reset, was_read, KeepsWriter, KeepsReader,
  Built-KeepsWriter, read_contract, source_got,
}

loud_sample : encode_alaw_frame 1000 ≡ 0xFA
unfolding encode_alaw_frame
loud_sample = refl

lowest_sample : (encode_alaw_frame 0x8000 ≡ 0x55) × (encode_ulaw_frame 0x8000 ≡ 0x7F)
unfolding encode_alaw_frame encode_ulaw_frame
lowest_sample = (refl, refl)

encode-decode_alaw_frame_example : encode_alaw_frame (decode_alaw_frame 0xD5) ≡ 0xD5
encode-decode_alaw_frame_example = encode-decode_alaw_frame 0xD5 (omega arith)

alaw_error_bound_iff_example :
    (32 * dist16 (decode_alaw_frame (encode_alaw_frame 1000)) 1000 ≤ abs16 1000 + 256)
    ↔ (◌≢◌ {A = ℕ} 1000 0x8000)
alaw_error_bound_iff_example = alaw_error_bound_iff 1000 (omega arith)

ulaw_error_bound_iff_example :
    (32 * dist16 (decode_ulaw_frame (encode_ulaw_frame 1000)) 1000 ≤ abs16 1000 + 132)
    ↔ (◌≢◌ {A = ℕ} 1000 0x8000)
ulaw_error_bound_iff_example = ulaw_error_bound_iff 1000 (omega arith)

abbrev two_bytes : List ℕ
two_bytes = 0x55 ∷ 0xD5 ∷ []

-- A writer that counts what it is given, and a reader that fills its buffer with 0xD5.
abbrev count_put : ℕ → List ℕ → WriteResult ℕ
count_put w p = record { writer = w + length p; count = length p; error = none }

abbrev fill : List ℕ → List ℕ
fill [] = []
fill (b ∷ p) = 0xD5 ∷ fill p

abbrev fill_get : ℕ → List ℕ → ReadResult ℕ
fill_get r p = record { reader = r + 1; buffer = fill p; count = length p; error = none }

length-fill : (p : List ℕ) → length (fill p) ≡ length p
length-fill [] = refl
length-fill (b ∷ p) = omega (arith, length-fill p)

count_put-KeepsWriter : KeepsWriter count_put
count_put-KeepsWriter w p = (omega arith, inr refl)

fill_get-KeepsReader : KeepsReader fill_get
fill_get-KeepsReader r p = (length-fill p, omega arith)

abbrev an_encoder : Encoder ℕ
an_encoder = record {
  input = lpcm;
  encode = encode_alaw;
  transcode = ulaw_to_alaw;
  destination = 0;
}

an_encoder-made : new_alaw_encoder (some 0) lpcm ≡ ok an_encoder
unfolding new_alaw_encoder
an_encoder-made = refl

Built-KeepsWriter_example :
    ((write count_put an_encoder (1 ∷ 2 ∷ 3 ∷ [])).count ≤ 3)
    × (((write count_put an_encoder (1 ∷ 2 ∷ 3 ∷ [])).error ≢ none)
        ⊎ ((write count_put an_encoder (1 ∷ 2 ∷ 3 ∷ [])).count ≡ 3))
Built-KeepsWriter_example =
    Built-KeepsWriter count_put count_put-KeepsWriter (made_alaw (some 0) lpcm an_encoder-made)
      (1 ∷ 2 ∷ 3 ∷ [])

-- A decoder of mu-law that was reset to another source and read from.
abbrev a_decoder : Decoder ℕ
a_decoder = record { decode = decode_ulaw; source = 0 }

a_decoder-made : new_ulaw_decoder (some 0) ≡ ok a_decoder
unfolding new_ulaw_decoder
a_decoder-made = refl

a_decoder-reset : reset_decoder a_decoder (some 1) ≡ ok (record a_decoder { source = 1 })
unfolding reset_decoder
a_decoder-reset = refl

abbrev used_decoder : Decoder ℕ
used_decoder = (read fill_get (record a_decoder { source = 1 }) (zeros 5)).reader

read_contract_example :
    ((read fill_get used_decoder (zeros 5)).count ≤ length (zeros 5))
    × (length (read fill_get used_decoder (zeros 5)).buffer ≡ length (zeros 5))
    × (take
          (read fill_get used_decoder (zeros 5)).count
          (read fill_get used_decoder (zeros 5)).buffer
        ≡ used_decoder.decode (
            take
              (source_got fill_get used_decoder (zeros 5)).count
              (source_got fill_get used_decoder (zeros 5)).buffer))
    × ((used_decoder.decode ≡ decode_alaw) ⊎ (used_decoder.decode ≡ decode_ulaw))
read_contract_example =
    read_contract fill_get fill_get-KeepsReader
      (was_read (decoder_reset (made_ulaw_decoder (some 0) a_decoder-made) (some 1) a_decoder-reset)
        (zeros 5))
      (zeros 5)
