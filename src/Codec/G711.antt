-- ===== src/Codec/G711.antt =====
-- mpf/mpf_codec_g711.go: the two G.711 codecs of the codec manager, on codec frames, with their
-- descriptors and attributes. A write to a bytes.Buffer appends, and returns no error.
use go_mrcp.Prelude.{ℕ, ◌/◌, ◌≡◌, ap, ◌∙◌, arith, List, [], ◌++◌, some, length, replicate, true}
use go_mrcp.Prelude.Text.{codes}
use go_mrcp.G711.Alaw.{encode_alaw, decode_alaw}
use go_mrcp.G711.Ulaw.{encode_ulaw, decode_ulaw}
use go_mrcp.G711.Buffers.{length-encode-decode}
use go_mrcp.Codec.Descriptor.{
  CodecDescriptor, CodecAttribs, lpcm_attribs, frame_size_calculate, linear_frame_size_calculate,
}
use go_mrcp.Codec.Manager.{Codec}

-- The bytes in the buffer of a codec frame, and its size.
pub record CodecFrame : Type 0 where
  pub buffer : List ℕ
  pub size : ℕ

-- `frameOut.Buffer.Write(bytes)` and `frameOut.Size = int64(n)`.
unfoldable pub write_frame : CodecFrame → List ℕ → CodecFrame
write_frame frame_out bytes = record { buffer = frame_out.buffer ++ bytes; size = length bytes }

unfoldable pub g711u_encode : CodecFrame → CodecFrame → CodecFrame
unfolding write_frame
g711u_encode frame_in frame_out = write_frame frame_out (encode_ulaw frame_in.buffer)

unfoldable pub g711u_decode : CodecFrame → CodecFrame → CodecFrame
unfolding write_frame
g711u_decode frame_in frame_out = write_frame frame_out (decode_ulaw frame_in.buffer)

unfoldable pub g711u_init : CodecFrame → CodecFrame
unfolding write_frame
g711u_init frame_out = write_frame frame_out (encode_ulaw (replicate frame_out.size 0))

unfoldable pub g711a_encode : CodecFrame → CodecFrame → CodecFrame
unfolding write_frame
g711a_encode frame_in frame_out = write_frame frame_out (encode_alaw frame_in.buffer)

unfoldable pub g711a_decode : CodecFrame → CodecFrame → CodecFrame
unfolding write_frame
g711a_decode frame_in frame_out = write_frame frame_out (decode_alaw frame_in.buffer)

unfoldable pub g711a_init : CodecFrame → CodecFrame
unfolding write_frame
g711a_init frame_out = write_frame frame_out (encode_alaw (replicate frame_out.size 0))

abbrev pub g711u_descriptor : CodecDescriptor
g711u_descriptor = record {
  payload_type = 0;
  name = codes "PCMU";
  sampling_rate = 8000;
  channel_count = 1;
  format = [];
  enabled = true;
}

abbrev pub g711a_descriptor : CodecDescriptor
g711a_descriptor = record {
  payload_type = 8;
  name = codes "PCMA";
  sampling_rate = 8000;
  channel_count = 1;
  format = [];
  enabled = true;
}

abbrev pub g711u_attribs : CodecAttribs
g711u_attribs = record {
  name = codes "PCMU";
  bits_per_sample = 8;
  sample_rates = lpcm_attribs.sample_rates;
}

abbrev pub g711a_attribs : CodecAttribs
g711a_attribs = record {
  name = codes "PCMA";
  bits_per_sample = 8;
  sample_rates = lpcm_attribs.sample_rates;
}

-- The codecs, the virtual methods numbered 0 for mu-law and 1 for A-law.
abbrev pub codec_g711u_create : Codec
codec_g711u_create = record {
  vtable = 0;
  attribs = g711u_attribs;
  static_descriptor = some g711u_descriptor;
}

abbrev pub codec_g711a_create : Codec
codec_g711a_create = record {
  vtable = 1;
  attribs = g711a_attribs;
  static_descriptor = some g711a_descriptor;
}

half_frame :
    (d : CodecDescriptor)
    → linear_frame_size_calculate d.sampling_rate d.channel_count / 2
      ≡ frame_size_calculate d g711u_attribs
unfolding linear_frame_size_calculate frame_size_calculate
half_frame d = omega arith

-- At every sampling rate and channel count, a linear frame of the size that is calculated for it is
-- encoded by both codecs into a frame of the size that is calculated for G.711.
pub encode-frame_size :
    (d : CodecDescriptor) (frame_in frame_out : CodecFrame)
    → length frame_in.buffer ≡ linear_frame_size_calculate d.sampling_rate d.channel_count
    → ((g711u_encode frame_in frame_out).size ≡ frame_size_calculate d g711u_attribs)
      × ((g711a_encode frame_in frame_out).size ≡ frame_size_calculate d g711a_attribs)
unfolding g711u_encode g711a_encode frame_size_calculate
encode-frame_size d frame_in frame_out h =
    let r = length-encode-decode frame_in.buffer in
    (r.1 ∙ ap (λ n. n / 2) h ∙ half_frame d, r.0 ∙ ap (λ n. n / 2) h ∙ half_frame d)
