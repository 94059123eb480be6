-- ===== src/G711/StreamLaws.antt =====
-- What the Encoder and the Decoder of mpf/codecs/g711/g711.go owe their callers: the contract of
-- io.Writer and of io.Reader, if the writer and the reader below them keep it.
use go_mrcp.Prelude.{
  ℕ, zero, suc, ◌*◌, ◌/◌, ◌≤◌, ◌≡◌, ◌≢◌, refl, ap, ◌∙◌, arith, ◌⊎◌, inl, inr, List, [], ◌∷◌, ◌++◌,
  Option, none, length, take, drop, length-map, length-append, length-drop,
}
use go_mrcp.Prelude.Words.{u8, asr16}
use go_mrcp.G711.Alaw.{decode_alaw_frame, encode_alaw, decode_alaw, alaw_to_ulaw}
use go_mrcp.G711.Ulaw.{decode_ulaw_frame, encode_ulaw, decode_ulaw, ulaw_to_alaw}
use go_mrcp.G711.Buffers.{length-encode-decode}
use go_mrcp.G711.Stream.{
  Decoder, Encoder, ok, ReadResult, WriteResult, new_alaw_encoder, new_ulaw_encoder, reset_encoder,
  read, write, zeros, new_alaw_decoder, new_ulaw_decoder, reset_decoder,
}

-- io.Writer: at most len(p) bytes are written, and all of them if no error is returned.
abbrev pub KeepsWriter : {W : Type 0} → (W → List ℕ → WriteResult W) → Type 0
KeepsWriter {W} put =
    (w : W) (p : List ℕ)
    → ((put w p).count ≤ length p) × (((put w p).error ≢ none) ⊎ ((put w p).count ≡ length p))

-- The encoder and the conversion of an encoder that the constructors build keep these lengths.
abbrev pub HasLengths : {W : Type 0} → Encoder W → Type 0
HasLengths w =
    (p : List ℕ) → (length (w.encode p) ≡ length p / 2) × (length (w.transcode p) ≡ length p)

length-ulaw_to_alaw : (p : List ℕ) → length (ulaw_to_alaw p) ≡ length p
unfolding ulaw_to_alaw
length-ulaw_to_alaw p = refl

length-alaw_to_ulaw : (p : List ℕ) → length (alaw_to_ulaw p) ≡ length p
unfolding alaw_to_ulaw
length-alaw_to_ulaw p = length-map _ p

-- The encoders that a program can hold: made by a constructor, reset, or written to.
pub data Built {W : Type 0} (put : W → List ℕ → WriteResult W) : Encoder W → Type 0 where
  made_alaw :
      (o : Option W) (input : ℕ) {w : Encoder W} → new_alaw_encoder o input ≡ ok w → Built put w
  made_ulaw :
      (o : Option W) (input : ℕ) {w : Encoder W} → new_ulaw_encoder o input ≡ ok w → Built put w
  was_reset :
      {v w : Encoder W} → Built put v → (o : Option W) → reset_encoder v o ≡ ok w → Built put w
  written : {v : Encoder W} → Built put v → (p : List ℕ) → Built put (write put v p).writer

alaw_functions :
    {W : Type 0} (o : Option W) (input : ℕ) {w : Encoder W}
    → new_alaw_encoder o input ≡ ok w
    → (w.encode ≡ encode_alaw) × (w.transcode ≡ ulaw_to_alaw)
unfolding new_alaw_encoder
alaw_functions o input e = ground arith

ulaw_functions :
    {W : Type 0} (o : Option W) (input : ℕ) {w : Encoder W}
    → new_ulaw_encoder o input ≡ ok w
    → (w.encode ≡ encode_ulaw) × (w.transcode ≡ alaw_to_ulaw)
unfolding new_ulaw_encoder
ulaw_functions o input e = ground arith

reset_functions :
    {W : Type 0} (v : Encoder W) (o : Option W) {w : Encoder W}
    → reset_encoder v o ≡ ok w
    → (w.encode ≡ v.encode) × (w.transcode ≡ v.transcode)
unfolding reset_encoder
reset_functions v o e = ground arith

write_functions :
    {W : Type 0} (put : W → List ℕ → WriteResult W) (v : Encoder W) (p : List ℕ)
    → ((write put v p).writer.encode ≡ v.encode) × ((write put v p).writer.transcode ≡ v.transcode)
unfolding write
write_functions put v p = ground arith

module _ {W : Type 0} (put : W → List ℕ → WriteResult W) where
  Built-HasLengths : {w : Encoder W} → Built put w → HasLengths w
  Built-HasLengths (made_alaw o input e) p =
      let (f, g) = alaw_functions o input e in
      rw (f, g) ((length-encode-decode p).0, length-ulaw_to_alaw p)
  Built-HasLengths (made_ulaw o input e) p =
      let (f, g) = ulaw_functions o input e in
      rw (f, g) ((length-encode-decode p).1, length-alaw_to_ulaw p)
  Built-HasLengths (was_reset {v = v} b o e) p =
      let (f, g) = reset_functions v o e in rw (f, g) (Built-HasLengths b p)
  Built-HasLengths (written {v = v} b q) p =
      let (f, g) = write_functions put v q in rw (f, g) (Built-HasLengths b p)

  write_contract :
      KeepsWriter put
      → (w : Encoder W) → HasLengths w
      → (p : List ℕ)
      → ((write put w p).count ≤ length p)
        × (((write put w p).error ≢ none) ⊎ ((write put w p).count ≡ length p))
  unfolding write
  write_contract keeps w lens p =
      ground (arith, keeps w.destination (w.encode p), keeps w.destination (w.transcode p), lens p)

  -- Encoder.Write keeps the contract of io.Writer for every input, the odd-length one included, if
  -- the destination keeps it: it reports at most len(p) bytes, and all of them when it returns no
  -- error.
  pub Built-KeepsWriter :
      KeepsWriter put
      → {w : Encoder W} → Built put w
      → (p : List ℕ)
      → ((write put w p).count ≤ length p)
        × (((write put w p).error ≢ none) ⊎ ((write put w p).count ≡ length p))
  Built-KeepsWriter keeps {w} b p = write_contract keeps w (Built-HasLengths b) p

-- io.Reader: the buffer keeps its length, and the count is at most that.
abbrev pub KeepsReader : {R : Type 0} → (R → List ℕ → ReadResult R) → Type 0
KeepsReader {R} get =
    (r : R) (b : List ℕ) → (length (get r b).buffer ≡ length b) × ((get r b).count ≤ length b)

length-zeros : (n : ℕ) → length (zeros n) ≡ n
length-zeros zero = refl
length-zeros (suc n) = ap suc (length-zeros n)

take_all : (n : ℕ) (xs : List ℕ) → length xs ≤ n → take n xs ≡ xs
take_all zero [] h = refl
take_all zero (x ∷ xs) h = absurd (omega arith)
take_all (suc n) [] h = refl
take_all (suc n) (x ∷ xs) h = ap (λ t. x ∷ t) (take_all n xs (omega arith))

take-append : (n : ℕ) (xs ys : List ℕ) → n ≤ length xs → take n (xs ++ ys) ≡ take n xs
take-append zero xs ys h = refl
take-append (suc n) [] ys h = absurd (omega arith)
take-append (suc n) (x ∷ xs) ys h = ap (λ t. x ∷ t) (take-append n xs ys (omega arith))

take-decode_alaw : (n : ℕ) (b : List ℕ) → take (n * 2) (decode_alaw b) ≡ decode_alaw (take n b)
unfolding decode_alaw
take-decode_alaw zero b = refl
take-decode_alaw (suc n) [] = let e : suc n * 2 ≡ suc (suc (n * 2)) = omega arith in rw e refl
take-decode_alaw (suc n) (c ∷ b) =
    let e : suc n * 2 ≡ suc (suc (n * 2)) = omega arith in
    rw e (
      ap (λ t. u8 (decode_alaw_frame c) ∷ u8 (asr16 (decode_alaw_frame c) 8) ∷ t)
        (take-decode_alaw n b))

take-decode_ulaw : (n : ℕ) (b : List ℕ) → take (n * 2) (decode_ulaw b) ≡ decode_ulaw (take n b)
unfolding decode_ulaw
take-decode_ulaw zero b = refl
take-decode_ulaw (suc n) [] = let e : suc n * 2 ≡ suc (suc (n * 2)) = omega arith in rw e refl
take-decode_ulaw (suc n) (c ∷ b) =
    let e : suc n * 2 ≡ suc (suc (n * 2)) = omega arith in
    rw e (
      ap (λ t. u8 (decode_ulaw_frame c) ∷ u8 (asr16 (decode_ulaw_frame c) 8) ∷ t)
        (take-decode_ulaw n b))

-- The decoders that a program can hold: made by a constructor, reset, or read from.
pub data BuiltDecoder {R : Type 0} (get : R → List ℕ → ReadResult R) : Decoder R → Type 0 where
  made_alaw_decoder :
      (o : Option R) {r : Decoder R} → new_alaw_decoder o ≡ ok r → BuiltDecoder get r
  made_ulaw_decoder :
      (o : Option R) {r : Decoder R} → new_ulaw_decoder o ≡ ok r → BuiltDecoder get r
  decoder_reset :
      {q r : Decoder R}
      → BuiltDecoder get q
      → (o : Option R) → reset_decoder q o ≡ ok r
      → BuiltDecoder get r
  was_read :
      {q : Decoder R} → BuiltDecoder get q → (p : List ℕ) → BuiltDecoder get (read get q p).reader

-- Two bytes are decoded from each, one by one.
record DecodesEach (f : List ℕ → List ℕ) : Type 0 where
  twice : (b : List ℕ) → length (f b) ≡ 2 * length b
  piecewise : (n : ℕ) (b : List ℕ) → take (n * 2) (f b) ≡ f (take n b)

alaw_decoder_function :
    {R : Type 0} (o : Option R) {r : Decoder R} → new_alaw_decoder o ≡ ok r → r.decode ≡ decode_alaw
unfolding new_alaw_decoder
alaw_decoder_function o e = ground arith

ulaw_decoder_function :
    {R : Type 0} (o : Option R) {r : Decoder R} → new_ulaw_decoder o ≡ ok r → r.decode ≡ decode_ulaw
unfolding new_ulaw_decoder
ulaw_decoder_function o e = ground arith

reset_decoder_function :
    {R : Type 0} (q : Decoder R) (o : Option R) {r : Decoder R}
    → reset_decoder q o ≡ ok r
    → r.decode ≡ q.decode
unfolding reset_decoder
reset_decoder_function q o e = ground arith

read_function :
    {R : Type 0} (get : R → List ℕ → ReadResult R) (q : Decoder R) (p : List ℕ)
    → (read get q p).reader.decode ≡ q.decode
unfolding read
read_function get q p = ground arith

fill_lengths :
    (d p : List ℕ)
    → length d ≤ length p
    → length (take (length p) d ++ drop (length d) p) ≡ length p
fill_lengths d p h =
    rw (take_all (length p) d h)
      (omega (arith, length-append d (drop (length d) p), length-drop (length d) p))

module _ {R : Type 0} (get : R → List ℕ → ReadResult R) where
  -- What the source leaves in the scratch buffer that Read gives it.
  abbrev pub source_got : Decoder R → List ℕ → ReadResult R
  source_got r p = get r.source (zeros (length p / 2))

  BuiltDecoder-DecodesEach : {r : Decoder R} → BuiltDecoder get r → DecodesEach r.decode
  BuiltDecoder-DecodesEach (made_alaw_decoder o e) =
      rw (alaw_decoder_function o e)
        (record { twice = λ b. (length-encode-decode b).2; piecewise = take-decode_alaw })
  BuiltDecoder-DecodesEach (made_ulaw_decoder o e) =
      rw (ulaw_decoder_function o e)
        (record { twice = λ b. (length-encode-decode b).3; piecewise = take-decode_ulaw })
  BuiltDecoder-DecodesEach (decoder_reset {q = q} d o e) =
      rw (reset_decoder_function q o e) (BuiltDecoder-DecodesEach d)
  BuiltDecoder-DecodesEach (was_read {q = q} d p) =
      rw (read_function get q p) (BuiltDecoder-DecodesEach d)

  BuiltDecoder-law :
      {r : Decoder R} → BuiltDecoder get r → (r.decode ≡ decode_alaw) ⊎ (r.decode ≡ decode_ulaw)
  BuiltDecoder-law (made_alaw_decoder o e) = inl (alaw_decoder_function o e)
  BuiltDecoder-law (made_ulaw_decoder o e) = inr (ulaw_decoder_function o e)
  BuiltDecoder-law (decoder_reset {q = q} d o e) =
      rw (reset_decoder_function q o e) (BuiltDecoder-law d)
  BuiltDecoder-law (was_read {q = q} d p) = rw (read_function get q p) (BuiltDecoder-law d)

  read_cons :
      (r : Decoder R) (x : ℕ) (q : List ℕ)
      → let d = r.decode (source_got r (x ∷ q)).buffer in
        ((read get r (x ∷ q)).buffer ≡ take (length (x ∷ q)) d ++ drop (length d) (x ∷ q))
        × ((read get r (x ∷ q)).count ≡ (source_got r (x ∷ q)).count * 2)
  unfolding read
  read_cons r x q = (ground arith, ground arith)

  read_nil :
      KeepsReader get
      → (r : Decoder R) → DecodesEach r.decode
      → let got = source_got r [] in
        ((read get r []).count ≤ 0)
        × (length (read get r []).buffer ≡ 0)
        × (take (read get r []).count (read get r []).buffer ≡ r.decode (take got.count got.buffer))
  unfolding read
  read_nil keeps r each =
      let e : (get r.source []).count ≡ 0 = omega (arith, keeps r.source []) in
      (omega arith, refl, rw e (each.piecewise 0 (get r.source []).buffer))

  read_lem :
      KeepsReader get
      → (r : Decoder R) → DecodesEach r.decode
      → (p : List ℕ)
      → let got = source_got r p in
        ((read get r p).count ≤ length p)
        × (length (read get r p).buffer ≡ length p)
        × (take (read get r p).count (read get r p).buffer ≡ r.decode (take got.count got.buffer))
  read_lem keeps r each [] = read_nil keeps r each
  read_lem keeps r each (x ∷ q) =
      let got : ReadResult R = source_got r (x ∷ q) in
      let d : List ℕ = r.decode got.buffer in
      let k = keeps r.source (zeros (length (x ∷ q) / 2)) in
      let z = length-zeros (length (x ∷ q) / 2) in
      let l = each.twice got.buffer in
      let (b, c) = read_cons r x q in
      rw (b, c)
        (
          omega arith,
          fill_lengths d (x ∷ q) (omega arith),
          ap (λ t. take (got.count * 2) (t ++ drop (length d) (x ∷ q)))
                (take_all (length (x ∷ q)) d (omega arith))
              ∙ take-append (got.count * 2) d (drop (length d) (x ∷ q)) (omega arith)
              ∙ each.piecewise got.count got.buffer,
        )

  -- Decoder.Read keeps the contract of io.Reader for every buffer, if the source keeps it, in every
  -- decoder that a constructor made, of A-law or of mu-law, whether it was reset or read from since:
  -- the buffer keeps its length, at most that many bytes are reported, and the bytes reported are the
  -- decoding, by the decoder's law, of the bytes that the source reported.
  pub read_contract :
      KeepsReader get
      → {r : Decoder R} → BuiltDecoder get r
      → (p : List ℕ)
      → ((read get r p).count ≤ length p)
        × (length (read get r p).buffer ≡ length p)
        × (take (read get r p).count (read get r p).buffer
            ≡ r.decode (take (source_got r p).count (source_got r p).buffer))
        × ((r.decode ≡ decode_alaw) ⊎ (r.decode ≡ decode_ulaw))
  read_contract keeps {r} d p =
      let (c, l, t) = read_lem keeps r (BuiltDecoder-DecodesEach d) p in
      (c, l, t, BuiltDecoder-law d)
