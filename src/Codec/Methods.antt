-- ===== src/Codec/Methods.antt =====
-- mpf/mpf_codec.go: the virtual methods of a codec, called through its table, with what is done where
-- the table or the method is nil. The tables are those of the repository's three codecs: the G.711
-- codecs of Codec/G711 and linear PCM of Codec/Linear. Their methods return no error.
use go_mrcp.Prelude.{
  ℕ, zero, suc, ◌+◌, ◌*◌, ◌<◌, ◌≤◌, ◌≡◌, refl, arith, Bool, ltb, leb, ◌==◌, ◌&&◌, if◌then◌else◌,
  List, [], ◌++◌, Option, none, some, length, take, drop, length-drop, ◌∙◌,
}
use go_mrcp.Prelude.Splits.{append_assoc, append_nil, take_more, drop_more}
use go_mrcp.Binaryx.{Binary}
use go_mrcp.Codec.Descriptor.{CodecDescriptor, CodecAttribs}
use go_mrcp.Codec.G711.{
  CodecFrame, g711u_encode, g711u_decode, g711u_init, g711a_encode, g711a_decode, g711a_init,
}
use go_mrcp.Codec.Linear.{l16_encode, l16_decode}
use go_mrcp.Codec.Manager.{Codec}

-- A dissector takes a payload, the buffer of a frame, nil or not, and its size; Open and Close do
-- nothing in each of the three codecs, so the table has only whether they are set.
pub record CodecVTable : Type 0 where
  pub open_set : Bool
  pub close_set : Bool
  pub encode : Option (CodecFrame → CodecFrame → CodecFrame)
  pub decode : Option (CodecFrame → CodecFrame → CodecFrame)
  pub dissect : Option (List ℕ → Option (List ℕ) → ℕ → List ℕ × Option (List ℕ))
  pub initialize : Option (CodecFrame → CodecFrame)

abbrev pub g711u_vtable : CodecVTable
g711u_vtable = record {
  open_set = Bool.true;
  close_set = Bool.true;
  encode = some g711u_encode;
  decode = some g711u_decode;
  dissect = none;
  initialize = some g711u_init;
}

abbrev pub g711a_vtable : CodecVTable
g711a_vtable = record {
  open_set = Bool.true;
  close_set = Bool.true;
  encode = some g711a_encode;
  decode = some g711a_decode;
  dissect = none;
  initialize = some g711a_init;
}

abbrev pub l16_vtable : Binary → CodecVTable
l16_vtable b = record {
  open_set = Bool.true;
  close_set = Bool.true;
  encode = some (l16_encode b);
  decode = some (l16_decode b);
  dissect = none;
  initialize = none;
}

-- The table behind the number of a codec.
unfoldable pub vtable_of : Binary → ℕ → Option CodecVTable
vtable_of b n =
    if n == 0
    then some g711u_vtable
    else if n == 1
    then some g711a_vtable
    else if n == 2
    then some (l16_vtable b)
    else none

unfoldable pub codec_create : ℕ → CodecAttribs → Option CodecDescriptor → Codec
codec_create vtable attribs descriptor = record {
  vtable = vtable;
  attribs = attribs;
  static_descriptor = descriptor;
}

-- The default dissector: the first `size` bytes of the payload go to the frame, if there are as many.
unfoldable pub dissect_default : List ℕ → Option (List ℕ) → ℕ → List ℕ × Option (List ℕ)
dissect_default buffer none size = (buffer, none)
dissect_default buffer (some frame) size =
    if ltb 0 size && leb size (length buffer)
    then (drop size buffer, some (frame ++ take size buffer))
    else (buffer, some frame)

abbrev method {ℓ} : {A : Type ℓ} → Option CodecVTable → (CodecVTable → Option A) → Option A
method none read = none
method (some t) read = read t

-- What the Open and the Close of the three codecs return.
abbrev nothing_done : Bool
nothing_done = Bool.true

-- `c.VTable.Open(c)` where it is set, and the same for Close: nil in every case.
unfoldable codec_open : Option CodecVTable → Bool
codec_open none = Bool.true
codec_open (some t) = if t.open_set then nothing_done else Bool.true

unfoldable codec_close : Option CodecVTable → Bool
codec_close none = Bool.true
codec_close (some t) = if t.close_set then nothing_done else Bool.true

module _ (b : Binary) (c : Codec) where
  unfoldable pub codec_encode : CodecFrame → CodecFrame → CodecFrame
  codec_encode frame_in frame_out = elim (method (vtable_of b c.vtable) (λ t. t.encode)) [
    | none ↦ frame_out
    | some encode ↦ encode frame_in frame_out
  ]

  unfoldable pub codec_decode : CodecFrame → CodecFrame → CodecFrame
  codec_decode frame_in frame_out = elim (method (vtable_of b c.vtable) (λ t. t.decode)) [
    | none ↦ frame_out
    | some decode ↦ decode frame_in frame_out
  ]

  unfoldable pub codec_dissect : List ℕ → Option (List ℕ) → ℕ → List ℕ × Option (List ℕ)
  unfolding dissect_default
  codec_dissect buffer frame size = elim (method (vtable_of b c.vtable) (λ t. t.dissect)) [
    | none ↦ dissect_default buffer frame size
    | some dissect ↦ dissect buffer frame size
  ]

  -- With no method the buffer is reset, and its size stays.
  unfoldable pub codec_initialize : CodecFrame → CodecFrame
  codec_initialize frame_out = elim (method (vtable_of b c.vtable) (λ t. t.initialize)) [
    | none ↦ record frame_out { buffer = [] }
    | some initialize ↦ initialize frame_out
  ]

  -- Dissecting a payload `n` times into one frame.
  pub dissect_times : ℕ → List ℕ → Option (List ℕ) → ℕ → List ℕ × Option (List ℕ)
  dissect_times zero buffer frame size = (buffer, frame)
  dissect_times (suc n) buffer frame size =
      let r = codec_dissect buffer frame size in dissect_times n r.0 r.1 size

  no_dissector :
      (buffer : List ℕ) (frame : Option (List ℕ)) (size : ℕ)
      → codec_dissect buffer frame size ≡ dissect_default buffer frame size
  unfolding codec_dissect vtable_of
  no_dissector buffer frame size = ground arith

-- Each of the codecs takes a payload apart into frames of a size that is not 0: `n` calls move `n`
-- times as many bytes, in order, from its front to the end of the frame's buffer, as long as the
-- payload has them.
pub dissect_times_lem :
    (b : Binary) (c : Codec) (n : ℕ) (buffer frame : List ℕ) (size : ℕ)
    → 0 < size
    → n * size ≤ length buffer
    → dissect_times b c n buffer (some frame) size
      ≡ (drop (n * size) buffer, some (frame ++ take (n * size) buffer))
unfolding dissect_times
dissect_times_lem b c zero buffer frame size p h =
    let e : 0 * size ≡ 0 = omega arith in rw (e, append_nil frame) refl
dissect_times_lem b c (suc n) buffer frame size p h =
    let e : suc n * size ≡ size + n * size = grind arith in
    let enough : size + n * size ≤ length buffer = omega (arith, e) in
    let first : dissect_default buffer (some frame) size
        ≡ (drop size buffer, some (frame ++ take size buffer)) =
      unfold dissect_default in ground (arith) in
    rw (no_dissector b c buffer (some frame) size, first, e)
      (dissect_times_lem b c n (drop size buffer) (frame ++ take size buffer) size p
          (omega (arith, length-drop size buffer))
        ∙ rw
            (
              drop_more size (n * size) buffer,
              append_assoc frame (take size buffer) (take (n * size) (drop size buffer)),
              take_more size (n * size) buffer,
            )
            refl)
