-- ===== src/Rtp/Tests.antt =====
-- The G.711 codecs on a payload, byte orders, RTCP reports, linear PCM and media descriptors on concrete input.
use go_mrcp.Prelude.{
  ℕ, ◌+◌, ◌*◌, ◌/◌, ◌≡◌, ◌≤◌, ◌↔◌, refl, arith, true, List, [], ◌∷◌, some, none, take, inl, length,
  drop,
}
use go_mrcp.Prelude.Words.{u8}
use go_mrcp.Binaryx.{Binary, IsBinary}
use go_mrcp.Codec.G711.{CodecFrame}
use go_mrcp.Codec.Linear.{l16_encode, l16_decode, l16_decode-encode}
use go_mrcp.Codec.Lists.{list_init}
use go_mrcp.Codec.Descriptor.{CodecDescriptor}
use go_mrcp.Codec.Manager.{codec_get}
use go_mrcp.Codec.Methods.{dissect_times}
use go_mrcp.Codec.MediaPath.{media_path, with_g711, codec_of, decoded_encoded, normal}
use go_mrcp.Prelude.Text.{codes}
use go_mrcp.Codec.Compare.{ret}
use go_mrcp.Codec.Compare.Foreign.{none_enabled}
use go_mrcp.Rtp.Rtcp.{
  RtcpSrStat, IsSrStat, rtcp_sr_h_to_n, rtcp_sr_n_to_h, rtcp_sr_n_to_h-rtcp_sr_h_to_n,
}
use go_mrcp.Rtp.Media.{RtpMediaDescriptor, rtp_media_descriptor_init, rtp_media_descriptors_compare}
use go_mrcp.Rtp.MediaLaws.{SameFields, compare_true_iff}

-- The byte orders as functions on lists of bytes.
abbrev nth : List ℕ → ℕ → ℕ
nth bytes i = elim (drop i bytes) [ [] ↦ 0 | p ∷ rest ↦ p ]

abbrev binary : Binary
binary = record {
  put_uint16_le = λ x. u8 x ∷ u8 (x / 256) ∷ [];
  put_uint16_be = λ x. u8 (x / 256) ∷ u8 x ∷ [];
  get_uint16_le = λ b. nth b 0 + 256 * nth b 1;
  get_uint16_be = λ b. 256 * nth b 0 + nth b 1;
  put_uint32_le = λ x. u8 x ∷ u8 (x / 256) ∷ u8 (x / 65536) ∷ u8 (x / 16777216) ∷ [];
  put_uint32_be = λ x. u8 (x / 16777216) ∷ u8 (x / 65536) ∷ u8 (x / 256) ∷ u8 x ∷ [];
  get_uint32_le = λ b. nth b 0 + 256 * nth b 1 + 65536 * nth b 2 + 16777216 * nth b 3;
  get_uint32_be = λ b. 16777216 * nth b 0 + 65536 * nth b 1 + 256 * nth b 2 + nth b 3;
}

binary-IsBinary : IsBinary binary
binary-IsBinary = record {
  put16_le = λ x. refl;
  put16_be = λ x. refl;
  get16_le = λ p q. refl;
  get16_be = λ p q. refl;
  put32_le = λ x. refl;
  put32_be = λ x. refl;
  get32_le = λ p q r s. refl;
  get32_be = λ p q r s. refl;
}

abbrev report : RtcpSrStat
report = record {
  ssrc = 305419896;
  ntp_sec = 1;
  ntp_frac = 2;
  rtp_ts = 65536;
  sent_packets = 4294967295;
  sent_octets = 0;
}

report-IsSrStat : IsSrStat report
report-IsSrStat = record {
  ssrc_lt = omega arith;
  ntp_sec_lt = omega arith;
  ntp_frac_lt = omega arith;
  rtp_ts_lt = omega arith;
  sent_packets_lt = omega arith;
  sent_octets_lt = omega arith;
}

rtcp_sr_n_to_h-rtcp_sr_h_to_n_example :
    rtcp_sr_n_to_h binary (rtcp_sr_h_to_n binary report) ≡ report
rtcp_sr_n_to_h-rtcp_sr_h_to_n_example =
    rtcp_sr_n_to_h-rtcp_sr_h_to_n binary binary-IsBinary report report-IsSrStat

abbrev sample : CodecFrame
sample = record { buffer = 1 ∷ 2 ∷ 255 ∷ 0 ∷ []; size = 4 }

l16_decode-encode_example :
    (l16_decode binary
        (l16_encode binary sample (record { buffer = []; size = 0 }))
        (record { buffer = []; size = 0 })
      ≡ record { buffer = sample.buffer; size = 0 })
    × ((l16_encode binary sample (record { buffer = []; size = 0 })).size ≡ 0)
l16_decode-encode_example =
    l16_decode-encode binary binary-IsBinary sample 0 0
      (omega arith, (omega arith, (omega arith, (omega arith, tt)))) refl

abbrev media : RtpMediaDescriptor
media = record rtp_media_descriptor_init { codec_list = some list_init }

compare_true_iff_example : (rtp_media_descriptors_compare (some media) (some media) ≡ ret true) ↔ (
    SameFields media media
    × (length list_init.descriptor_arr ≤ length list_init.descriptor_arr)
    × (none_enabled (drop (length list_init.descriptor_arr) list_init.descriptor_arr) ≡ true))
compare_true_iff_example = compare_true_iff media media list_init list_init refl refl

abbrev pcmu : CodecDescriptor
pcmu = record {
  payload_type = 0;
  name = codes "PCMU";
  sampling_rate = 8000;
  channel_count = 1;
  format = [];
  enabled = true;
}

-- Two frames of two bytes and a byte over.
abbrev a_payload : List ℕ
a_payload = 1 ∷ 2 ∷ 127 ∷ 4 ∷ 5 ∷ []

media_path_example :
    (changed : CodecDescriptor) × (codec_get (with_g711 [] none) (some pcmu)
      ≡ some (changed, some (codec_of 0)))
    × (dissect_times binary (codec_of 0) 2 a_payload (some []) 2
        ≡ (drop (2 * 2) a_payload, some (take (2 * 2) a_payload)))
    × (decoded_encoded binary (codec_of 0) (take (2 * 2) a_payload)
        ≡ record { buffer = normal 0 (take (2 * 2) a_payload); size = 2 * 2 })
media_path_example =
    media_path binary pcmu [] none a_payload 2 2 (inl refl)
      (omega arith, (omega arith, (omega arith, (omega arith, (omega arith, tt))))) (omega arith)
      (omega arith)
