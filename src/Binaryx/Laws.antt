-- ===== src/Binaryx/Laws.antt =====
-- The conversions of utils/binaryx/binary.go reverse the bytes of a word and undo each other.
use go_mrcp.Prelude.{ℕ, ◌+◌, ◌*◌, ◌/◌, ◌%◌, ◌<◌, ◌≡◌, refl, arith, List, [], ◌∷◌, All, length}
use go_mrcp.Prelude.Words.{u8}
use go_mrcp.Binaryx.{
  Binary, IsBinary, h_to_nl, n_to_hl, h_to_ns, n_to_hs, bytes_to_words, words_to_bytes,
}

module _ (b : Binary) (laws : IsBinary b) where
  pub h_to_ns_lem : (x : ℕ) → h_to_ns b x ≡ 256 * u8 x + u8 (x / 256)
  unfolding h_to_ns
  h_to_ns_lem x = rw (h_to_ns, laws.put16_le x, laws.get16_be (u8 x) (u8 (x / 256))) refl

  pub n_to_hs_lem : (x : ℕ) → n_to_hs b x ≡ 256 * u8 x + u8 (x / 256)
  unfolding n_to_hs
  n_to_hs_lem x = rw (n_to_hs, laws.put16_be x, laws.get16_le (u8 (x / 256)) (u8 x)) (omega arith)

  swap_twice :
      (x : ℕ)
      → x < 65536
      → 256 * u8 (256 * u8 x + u8 (x / 256)) + u8 ((256 * u8 x + u8 (x / 256)) / 256) ≡ x
  swap_twice x h = omega arith

  -- A word of 16 bits comes back from the network's order as it was.
  pub n_to_hs-h_to_ns : (x : ℕ) → x < 65536 → n_to_hs b (h_to_ns b x) ≡ x
  n_to_hs-h_to_ns x h = rw (h_to_ns_lem x, n_to_hs_lem (256 * u8 x + u8 (x / 256))) (swap_twice x h)

  -- A word of 32 bits comes back from the network's order as it was.
  pub n_to_hl-h_to_nl : (x : ℕ) → x < 4294967296 → n_to_hl b (h_to_nl b x) ≡ x
  unfolding n_to_hl h_to_nl
  n_to_hl-h_to_nl x h =
      let y : ℕ =
        16777216 * u8 x + 65536 * u8 (x / 256) + 256 * u8 (x / 65536) + u8 (x / 16777216) in
      rw
        (
          n_to_hl,
          h_to_nl,
          laws.put32_le x,
          laws.get32_be (u8 x) (u8 (x / 256)) (u8 (x / 65536)) (u8 (x / 16777216)),
          laws.put32_be y,
          laws.get32_le (u8 (y / 16777216)) (u8 (y / 65536)) (u8 (y / 256)) (u8 y),
        )
        (omega arith)

-- A buffer of an even number of bytes comes back as it was from the words that are read of it.
pub words_to_bytes-bytes_to_words :
    (bytes : List ℕ)
    → length bytes % 2 ≡ 0
    → All (λ p. p < 256) bytes
    → words_to_bytes (bytes_to_words bytes) ≡ bytes
unfolding words_to_bytes bytes_to_words
words_to_bytes-bytes_to_words [] e h = refl
words_to_bytes-bytes_to_words (p ∷ []) e h = absurd (omega arith)
words_to_bytes-bytes_to_words (p ∷ q ∷ bytes) e h =
    let p_lt : p < 256 = h.0 in
    let q_lt : q < 256 = h.1.0 in
    ground (arith, words_to_bytes-bytes_to_words bytes (omega arith) h.1.1)

-- Words come back as they were from the bytes that are written of them.
pub bytes_to_words-words_to_bytes :
    (words : List ℕ) → All (λ w. w < 65536) words → bytes_to_words (words_to_bytes words) ≡ words
unfolding words_to_bytes bytes_to_words
bytes_to_words-words_to_bytes [] h = refl
bytes_to_words-words_to_bytes (w ∷ words) h =
    let w_lt : w < 65536 = h.0 in ground (arith, bytes_to_words-words_to_bytes words h.1)
