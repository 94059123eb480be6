-- ===== src/Codec/Descriptor.antt =====
-- The codec descriptor of mpf/mpf_codec_descriptor.go: its fields, frame sizes and matching, with the
-- payload types of mpf/mpf_rtp_pt.go.
-- A descriptor is a value; a function of the source that changes one returns the new one.
use go_mrcp.Prelude.{
  ℕ, ◌*◌, ◌/◌, ◌≡◌, arith, Bool, true, false, ltb, ◌==◌, ◌&&◌, if◌then◌else◌, [], Option, none,
  some, bit_and, bit_or,
}
use go_mrcp.Prelude.Text.{Text, codes, equal_fold, equal_fold_refl, equal_fold_comm}

pub record CodecDescriptor : Type 0 where
  pub payload_type : ℕ  -- uint8
  pub name : Text
  pub sampling_rate : ℕ  -- uint16
  pub channel_count : ℕ  -- uint8
  pub format : Text
  pub enabled : Bool

pub record CodecAttribs : Type 0 where
  pub name : Text
  pub bits_per_sample : ℕ  -- uint8
  pub sample_rates : ℕ

abbrev pub codec_frame_time_base : ℕ
codec_frame_time_base = 10

abbrev pub bytes_per_sample : ℕ
bytes_per_sample = 2

abbrev pub rtp_pt_dynamic : ℕ
rtp_pt_dynamic = 96

abbrev pub rtp_pt_unknown : ℕ
rtp_pt_unknown = 128

abbrev pub sample_rate_8000 : ℕ
sample_rate_8000 = 0x01

abbrev pub sample_rate_16000 : ℕ
sample_rate_16000 = 0x02

abbrev pub sample_rate_32000 : ℕ
sample_rate_32000 = 0x04

abbrev pub sample_rate_48000 : ℕ
sample_rate_48000 = 0x08

abbrev pub sample_rate_none : ℕ
sample_rate_none = 0x00

abbrev sample_rate_supported : ℕ
sample_rate_supported =
    bit_or (bit_or (bit_or sample_rate_8000 sample_rate_16000) sample_rate_32000) sample_rate_48000

abbrev bits_per_sample_lpcm : ℕ
bits_per_sample_lpcm = 16

abbrev pub lpcm_attribs : CodecAttribs
lpcm_attribs = record {
  name = codes "LPCM";
  bits_per_sample = 16;
  sample_rates =
      bit_or (bit_or (bit_or sample_rate_8000 sample_rate_16000) sample_rate_32000)
        sample_rate_48000;
}

unfoldable pub sample_rate_mask_get : ℕ → ℕ
sample_rate_mask_get sampling_rate =
    if sampling_rate == 8000
    then sample_rate_8000
    else if sampling_rate == 16000
    then sample_rate_16000
    else if sampling_rate == 32000
    then sample_rate_32000
    else if sampling_rate == 48000
    then sample_rate_48000
    else sample_rate_none

unfoldable pub sampling_rate_check : ℕ → ℕ → Bool
unfolding sample_rate_mask_get
sampling_rate_check sampling_rate mask = ltb 0 (bit_and (sample_rate_mask_get sampling_rate) mask)

-- CodecDescriptorInit sets every field, so the descriptor it is given does not matter.
unfoldable pub descriptor_init : CodecDescriptor
descriptor_init = record {
  payload_type = 0;
  name = [];
  sampling_rate = 0;
  channel_count = 0;
  format = [];
  enabled = true;
}

unfoldable descriptor_create : CodecDescriptor
unfolding descriptor_init
descriptor_create = descriptor_init

-- The factors are below 2 ^ 8, 2 ^ 8 and 2 ^ 16, so the int64 products do not wrap.
unfoldable pub frame_size_calculate : CodecDescriptor → CodecAttribs → ℕ
frame_size_calculate d attribs =
    d.channel_count * attribs.bits_per_sample * codec_frame_time_base * d.sampling_rate / 1000 / 8

unfoldable pub frame_samples_calculate : CodecDescriptor → ℕ
frame_samples_calculate d = d.channel_count * codec_frame_time_base * d.sampling_rate / 1000

unfoldable pub linear_frame_size_calculate : ℕ → ℕ → ℕ
linear_frame_size_calculate sampling_rate channel_count =
    channel_count * bytes_per_sample * codec_frame_time_base * sampling_rate / 1000

-- CodecLPcmDescriptorCreate fills a descriptor and then returns nil.
unfoldable pub lpcm_descriptor_create : ℕ → ℕ → Option CodecDescriptor
unfolding descriptor_init
lpcm_descriptor_create sampling_rate channel_count =
    let descriptor = record descriptor_init {
      payload_type = rtp_pt_unknown;
      name = lpcm_attribs.name;
      sampling_rate = sampling_rate;
      channel_count = channel_count;
    } in
    none

unfoldable pub descriptors_match : CodecDescriptor → CodecDescriptor → Bool
descriptors_match d1 d2 =
    if ltb d1.payload_type rtp_pt_dynamic && ltb d2.payload_type rtp_pt_dynamic
    then d1.payload_type == d2.payload_type
    else (equal_fold d1.name d2.name
        && (d1.sampling_rate == d2.sampling_rate && d1.channel_count == d2.channel_count))

unfoldable pub lpcm_descriptor_match : CodecDescriptor → Bool
lpcm_descriptor_match descriptor = equal_fold descriptor.name lpcm_attribs.name

unfoldable pub descriptor_match_by_attribs :
    CodecDescriptor → Option CodecDescriptor → CodecAttribs → CodecDescriptor × Bool
descriptor_match_by_attribs d static attribs =
    if ltb d.payload_type rtp_pt_dynamic
    then elim static [
      | none ↦ (d, false)
      | some s ↦
          if s.payload_type == d.payload_type
          then (
            record d {
              name = s.name;
              sampling_rate = s.sampling_rate;
              channel_count = s.channel_count;
            },
            true,
          )
          else (d, false)
    ]
    else (
      d,
      equal_fold attribs.name d.name && sampling_rate_check d.sampling_rate attribs.sample_rates,
    )

-- EventDescriptorCheck of mpf/mpf_named_event.go has no body but `return false`.
unfoldable pub event_descriptor_check : CodecDescriptor → Bool
event_descriptor_check descriptor = false

-- A descriptor matches itself.
pub descriptors_match_refl : (d : CodecDescriptor) → descriptors_match d d ≡ true
unfolding descriptors_match
descriptors_match_refl d = ground (arith, equal_fold_refl d.name)

-- Matching is symmetric: the order of the two descriptors does not change the result.
pub descriptors_match_comm :
    (d1 d2 : CodecDescriptor) → descriptors_match d1 d2 ≡ descriptors_match d2 d1
unfolding descriptors_match
descriptors_match_comm d1 d2 = ground (arith, equal_fold_comm d1.name d2.name)

-- For the linear PCM attributes the encoded frame is as long as the linear frame, at every rate and
-- channel count; at a rate of 100 k that is two bytes for each sample of the frame.
pub linear_frame_size_lem :
    (d : CodecDescriptor) (k : ℕ)
    → (frame_size_calculate d lpcm_attribs
        ≡ linear_frame_size_calculate d.sampling_rate d.channel_count)
      × (linear_frame_size_calculate (100 * k) d.channel_count
          ≡ bytes_per_sample * frame_samples_calculate (record d { sampling_rate = 100 * k }))
unfolding frame_size_calculate linear_frame_size_calculate frame_samples_calculate
linear_frame_size_lem d k = (omega arith, omega arith)
