-- ===== src/Binaryx.antt =====
-- utils/binaryx/binary.go: words between the order of the host and that of the network, and buffers of
-- bytes as slices of int16.
-- The package github.com/funny/binary is not code of the repository: its functions are a parameter,
-- and the order in which they lay out the bytes of a word is a hypothesis.
pub mod Laws
use go_mrcp.Prelude.{ℕ, ◌+◌, ◌*◌, ◌/◌, ◌%◌, ◌<◌, ◌≡◌, List, [], ◌∷◌}
use go_mrcp.Prelude.Words.{u8, asr16}

-- PutUint16LE and its kin: the bytes that a put writes, and the word that a get reads.
pub record Binary : Type 0 where
  pub put_uint16_le : ℕ → List ℕ
  pub put_uint16_be : ℕ → List ℕ
  pub get_uint16_le : List ℕ → ℕ
  pub get_uint16_be : List ℕ → ℕ
  pub put_uint32_le : ℕ → List ℕ
  pub put_uint32_be : ℕ → List ℕ
  pub get_uint32_le : List ℕ → ℕ
  pub get_uint32_be : List ℕ → ℕ

-- Little-endian is the low byte first, big-endian the high byte first.
pub record IsBinary (b : Binary) : Type 0 where
  pub put16_le : (x : ℕ) → b.put_uint16_le x ≡ u8 x ∷ u8 (x / 256) ∷ []
  pub put16_be : (x : ℕ) → b.put_uint16_be x ≡ u8 (x / 256) ∷ u8 x ∷ []
  pub get16_le : (p q : ℕ) → b.get_uint16_le (p ∷ q ∷ []) ≡ p + 256 * q
  pub get16_be : (p q : ℕ) → b.get_uint16_be (p ∷ q ∷ []) ≡ 256 * p + q
  pub put32_le :
      (x : ℕ) → b.put_uint32_le x ≡ u8 x ∷ u8 (x / 256) ∷ u8 (x / 65536) ∷ u8 (x / 16777216) ∷ []
  pub put32_be :
      (x : ℕ) → b.put_uint32_be x ≡ u8 (x / 16777216) ∷ u8 (x / 65536) ∷ u8 (x / 256) ∷ u8 x ∷ []
  pub get32_le :
      (p q r s : ℕ) → b.get_uint32_le (p ∷ q ∷ r ∷ s ∷ []) ≡ p + 256 * q + 65536 * r + 16777216 * s
  pub get32_be :
      (p q r s : ℕ) → b.get_uint32_be (p ∷ q ∷ r ∷ s ∷ []) ≡ 16777216 * p + 65536 * q + 256 * r + s

module _ (b : Binary) where
  open b use {
    put_uint16_le, put_uint16_be, get_uint16_le, get_uint16_be, put_uint32_le, put_uint32_be,
    get_uint32_le, get_uint32_be,
  }

  unfoldable pub h_to_nl : ℕ → ℕ
  h_to_nl in_word = get_uint32_be (put_uint32_le in_word)

  unfoldable pub n_to_hl : ℕ → ℕ
  n_to_hl in_word = get_uint32_le (put_uint32_be in_word)

  unfoldable pub h_to_ns : ℕ → ℕ
  h_to_ns in_word = get_uint16_be (put_uint16_le in_word)

  unfoldable pub n_to_hs : ℕ → ℕ
  n_to_hs in_word = get_uint16_le (put_uint16_be in_word)

-- ByteSliceToInt16Slice: binary.Read fills len / 2 words, the low byte first, and has the bytes for
-- them, so that it returns no error; a last odd byte is not read. A word is the bit pattern.
unfoldable pub bytes_to_words : List ℕ → List ℕ
bytes_to_words [] = []
bytes_to_words (p ∷ []) = []
bytes_to_words (p ∷ q ∷ bytes) = (p + 256 * q) ∷ bytes_to_words bytes

-- Int16SliceToByteSlice.
unfoldable pub words_to_bytes : List ℕ → List ℕ
words_to_bytes [] = []
words_to_bytes (w ∷ words) = u8 w ∷ u8 (asr16 w 8) ∷ words_to_bytes words
