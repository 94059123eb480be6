-- ===== src/Codec/Linear.antt =====
-- mpf/mpf_codec_linear.go: linear PCM in the order of the network, on the codec frames of Codec/G711.
-- ByteSliceToInt16Slice returns no error, so the two functions return none.
use go_mrcp.Prelude.{
  ℕ, ◌+◌, ◌*◌, ◌/◌, ◌%◌, ◌<◌, ◌≡◌, refl, ap, ◌∙◌, arith, List, [], ◌∷◌, ◌++◌, map, none, length,
  All,
}
use go_mrcp.Prelude.Text.{codes}
use go_mrcp.Prelude.Words.{u8}
use go_mrcp.Binaryx.{Binary, IsBinary, h_to_ns, n_to_hs, bytes_to_words, words_to_bytes}
use go_mrcp.Binaryx.Laws.{h_to_ns_lem, n_to_hs_lem}
use go_mrcp.Codec.Descriptor.{CodecAttribs, lpcm_attribs}
use go_mrcp.Codec.G711.{CodecFrame}
use go_mrcp.Codec.Manager.{Codec}

-- The words of `frameIn` through a conversion, written to the buffer of `frameOut`, whose Size is not
-- set.
unfoldable pub l16_convert : (ℕ → ℕ) → CodecFrame → CodecFrame → CodecFrame
unfolding bytes_to_words words_to_bytes
l16_convert convert frame_in frame_out =
    let outs = map convert (bytes_to_words frame_in.buffer) in
    record frame_out { buffer = frame_out.buffer ++ words_to_bytes outs }

unfoldable pub l16_encode : Binary → CodecFrame → CodecFrame → CodecFrame
unfolding l16_convert
l16_encode b frame_in frame_out = l16_convert (h_to_ns b) frame_in frame_out

unfoldable pub l16_decode : Binary → CodecFrame → CodecFrame → CodecFrame
unfolding l16_convert
l16_decode b frame_in frame_out = l16_convert (n_to_hs b) frame_in frame_out

abbrev pub l16_attribs : CodecAttribs
l16_attribs = record {
  name = codes "L16";
  bits_per_sample = 16;
  sample_rates = lpcm_attribs.sample_rates;
}

-- The codec, its virtual methods numbered 2; it has no static descriptor.
abbrev pub codec_l16_create : Codec
codec_l16_create = record { vtable = 2; attribs = l16_attribs; static_descriptor = none }

-- The bytes of a buffer with those of each word exchanged; a last odd byte is left out.
pub swap_pairs : List ℕ → List ℕ
swap_pairs [] = []
swap_pairs (p ∷ []) = []
swap_pairs (p ∷ q ∷ bytes) = q ∷ p ∷ swap_pairs bytes

swapped :
    (convert : ℕ → ℕ) (bytes : List ℕ)
    → ((x : ℕ) → convert x ≡ 256 * u8 x + u8 (x / 256))
    → All (λ p. p < 256) bytes
    → words_to_bytes (map convert (bytes_to_words bytes)) ≡ swap_pairs bytes
unfolding words_to_bytes bytes_to_words swap_pairs
swapped convert [] e h = refl
swapped convert (p ∷ []) e h = refl
swapped convert (p ∷ q ∷ bytes) e h =
    let p_lt : p < 256 = h.0 in
    let q_lt : q < 256 = h.1.0 in
    rw (e (p + 256 * q)) (ground (arith, swapped convert bytes e h.1.1))

swap_pairs_bytes :
    (bytes : List ℕ) → All (λ p. p < 256) bytes → All (λ p. p < 256) (swap_pairs bytes)
unfolding swap_pairs
swap_pairs_bytes [] h = h
swap_pairs_bytes (p ∷ []) h = h.1
swap_pairs_bytes (p ∷ q ∷ bytes) h = (h.1.0, (h.0, swap_pairs_bytes bytes h.1.1))

swap_pairs_twice : (bytes : List ℕ) → length bytes % 2 ≡ 0 → swap_pairs (swap_pairs bytes) ≡ bytes
unfolding swap_pairs
swap_pairs_twice [] e = refl
swap_pairs_twice (p ∷ []) e = absurd (omega arith)
swap_pairs_twice (p ∷ q ∷ bytes) e = ap (λ l. p ∷ q ∷ l) (swap_pairs_twice bytes (omega arith))

module _ (b : Binary) (laws : IsBinary b) where
  -- Encoding and decoding append the bytes of the other frame with those of each word exchanged, a
  -- last odd byte left out, and leave Size as it was.
  pub l16_encode-swap_pairs :
      (frame_in frame_out : CodecFrame)
      → All (λ p. p < 256) frame_in.buffer
      → (l16_encode b frame_in frame_out
          ≡ record frame_out { buffer = frame_out.buffer ++ swap_pairs frame_in.buffer })
        × (l16_decode b frame_in frame_out
            ≡ record frame_out { buffer = frame_out.buffer ++ swap_pairs frame_in.buffer })
  unfolding l16_encode l16_decode
  l16_encode-swap_pairs frame_in frame_out h = (
    ap (λ l. record frame_out { buffer = frame_out.buffer ++ l })
        (swapped (h_to_ns b) frame_in.buffer (h_to_ns_lem b laws) h),
    ap (λ l. record frame_out { buffer = frame_out.buffer ++ l })
        (swapped (n_to_hs b) frame_in.buffer (n_to_hs_lem b laws) h),
  )

  -- What was encoded from a frame with an even number of bytes into an empty buffer is decoded into an
  -- empty buffer as it was, and both leave the size of the frame they write to as it was.
  pub l16_decode-encode :
      (frame_in : CodecFrame) (m n : ℕ)
      → All (λ p. p < 256) frame_in.buffer
      → length frame_in.buffer % 2 ≡ 0
      → (l16_decode b
            (l16_encode b frame_in (record { buffer = []; size = m }))
            (record { buffer = []; size = n })
          ≡ record { buffer = frame_in.buffer; size = n })
        × ((l16_encode b frame_in (record { buffer = []; size = m })).size ≡ m)
  l16_decode-encode frame_in m n h e =
      let first = (l16_encode-swap_pairs frame_in (record { buffer = []; size = m }) h).0 in
      let bytes = swap_pairs_bytes frame_in.buffer h in
      let second =
        (l16_encode-swap_pairs (record { buffer = swap_pairs frame_in.buffer; size = m })
          (record { buffer = []; size = n }) bytes).1 in
      (
        rw first (
            second
            ∙ ap (λ l. record { buffer = l; size = n }) (swap_pairs_twice frame_in.buffer e)),
        ap (λ (f : CodecFrame). f.size) first,
      )
