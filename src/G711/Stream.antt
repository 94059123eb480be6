-- ===== src/G711/Stream.antt =====
-- mpf/codecs/g711/g711.go: the Decoder, an io.Reader over an io.Reader, and the Encoder, an
-- io.Writer over an io.Writer.
-- The reader and the writer below are not code of the repository: their types and their Read and
-- Write are parameters, with the contract of io.Reader and io.Writer as hypotheses.
use go_mrcp.Prelude.{
  ℕ, zero, suc, ◌*◌, ◌/◌, ◌%◌, not, ◌&&◌, ◌==◌, if◌then◌else◌, List, [], ◌∷◌, ◌++◌, Option, none,
  some, length, take, drop,
}
use go_mrcp.G711.Alaw.{encode_alaw, decode_alaw, alaw_to_ulaw}
use go_mrcp.G711.Ulaw.{encode_ulaw, decode_ulaw, ulaw_to_alaw}

pub data Error : Type 0 where
  nil_reader nil_writer invalid_format odd_bytes : Error
  io : ℕ → Error

-- The constants Alaw, Ulaw and Lpcm.
abbrev pub alaw : ℕ
alaw = 0

abbrev pub ulaw : ℕ
ulaw = 1

abbrev pub lpcm : ℕ
lpcm = 2

pub record Decoder (R : Type 0) : Type 0 where
  pub decode : List ℕ → List ℕ
  pub source : R

pub record Encoder (W : Type 0) : Type 0 where
  pub input : ℕ
  pub encode : List ℕ → List ℕ
  pub transcode : List ℕ → List ℕ
  pub destination : W

-- A Go result pair of which exactly one half is set.
pub data Result (A : Type 0) : Type 0 where
  ok : A → Result A
  err : Error → Result A

module _ {R : Type 0} where
  unfoldable pub new_alaw_decoder : Option R → Result (Decoder R)
  new_alaw_decoder none = err nil_reader
  new_alaw_decoder (some reader) = ok (record { decode = decode_alaw; source = reader })

  unfoldable pub new_ulaw_decoder : Option R → Result (Decoder R)
  new_ulaw_decoder none = err nil_reader
  new_ulaw_decoder (some reader) = ok (record { decode = decode_ulaw; source = reader })

  unfoldable pub reset_decoder : Decoder R → Option R → Result (Decoder R)
  reset_decoder r none = err nil_reader
  reset_decoder r (some reader) = ok (record r { source = reader })

module _ {W : Type 0} where
  unfoldable pub new_alaw_encoder : Option W → ℕ → Result (Encoder W)
  new_alaw_encoder none input = err nil_writer
  new_alaw_encoder (some writer) input =
      if not (input == ulaw) && not (input == lpcm)
      then err invalid_format
      else ok (record {
        input = input;
        encode = encode_alaw;
        transcode = ulaw_to_alaw;
        destination = writer;
      })

  unfoldable pub new_ulaw_encoder : Option W → ℕ → Result (Encoder W)
  new_ulaw_encoder none input = err nil_writer
  new_ulaw_encoder (some writer) input =
      if not (input == alaw) && not (input == lpcm)
      then err invalid_format
      else ok (record {
        input = input;
        encode = encode_ulaw;
        transcode = alaw_to_ulaw;
        destination = writer;
      })

  unfoldable pub reset_encoder : Encoder W → Option W → Result (Encoder W)
  reset_encoder w none = err nil_writer
  reset_encoder w (some writer) = ok (record w { destination = writer })

-- What one call of Read leaves: the reader, the buffer that it was given, the count, the error.
pub record ReadResult (R : Type 0) : Type 0 where
  pub reader : R
  pub buffer : List ℕ
  pub count : ℕ
  pub error : Option Error

-- What one call of Write leaves: the writer, the count, the error.
pub record WriteResult (W : Type 0) : Type 0 where
  pub writer : W
  pub count : ℕ
  pub error : Option Error

abbrev pub zeros : ℕ → List ℕ
zeros zero = []
zeros (suc n) = 0 ∷ zeros n

module _ {R : Type 0} (source_read : R → List ℕ → ReadResult R) where
  -- Decoder.Read: the whole of `b` is decoded, also what the source did not fill.
  unfoldable pub read : Decoder R → List ℕ → ReadResult (Decoder R)
  read r p =
      if length p == 0
      then record { reader = r; buffer = p; count = 0; error = none }
      else (let got = source_read r.source (zeros (length p / 2)) in
          let decoded = r.decode got.buffer in
          record {
            reader = record r { source = got.reader };
            buffer = take (length p) decoded ++ drop (length decoded) p;
            count = got.count * 2;
            error = got.error;
          })

abbrev is_odd_error : Option Error → ℕ → Option Error
is_odd_error none n = if not (n % 2 == 0) then some odd_bytes else none
is_odd_error (some e) n = some e

module _ {W : Type 0} (destination_write : W → List ℕ → WriteResult W) where
  -- Encoder.Write
  unfoldable pub write : Encoder W → List ℕ → WriteResult (Encoder W)
  write w p =
      if length p == 0
      then record { writer = w; count = 0; error = none }
      else (if w.input == lpcm
          then (let out = destination_write w.destination (w.encode p) in
              record {
                writer = record w { destination = out.writer };
                count = out.count * 2;
                error = is_odd_error out.error (length p);
              })
          else (let out = destination_write w.destination (w.transcode p) in
              record {
                writer = record w { destination = out.writer };
                count = out.count;
                error = out.error;
              }))
