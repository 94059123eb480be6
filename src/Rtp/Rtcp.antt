-- ===== src/Rtp/Rtcp.antt =====
-- mpf/mpf_rtcp_packet.go and the reports of mpf/mpf_rtp_stat.go: the header of an RTCP packet, and the
-- reports in the order of the network.
use go_mrcp.Prelude.{ℕ, ◌+◌, ◌*◌, ◌/◌, ◌%◌, ◌<◌, ◌≡◌, refl, ◌∙◌, arith}
use go_mrcp.Prelude.Words.{u16}
use go_mrcp.Binaryx.{Binary, IsBinary, h_to_nl, n_to_hl, h_to_ns, n_to_hs}
use go_mrcp.Binaryx.Laws.{n_to_hl-h_to_nl, n_to_hs-h_to_ns}

pub record RtcpHeader : Type 0 where
  pub version : ℕ  -- uint
  pub padding : ℕ  -- uint
  pub count : ℕ  -- uint
  pub pt : ℕ  -- uint
  pub length : ℕ  -- uint16

abbrev pub rtp_version : ℕ
rtp_version = 2

-- RtcpHeaderInit sets every field.
unfoldable pub rtcp_header_init : ℕ → RtcpHeader
rtcp_header_init pt = record { version = rtp_version; padding = 0; count = 0; pt = pt; length = 0 }

-- `uint16(length)/4 - 1`, which wraps around; `length` is the bit pattern of an int64.
unfoldable pub words_minus_one : ℕ → ℕ
words_minus_one length = u16 (u16 length / 4 + 65535)

unfoldable pub rtcp_header_length_set : Binary → RtcpHeader → ℕ → RtcpHeader
unfolding words_minus_one
rtcp_header_length_set b header length = record header {
  length = h_to_ns b (words_minus_one length);
}

pub record RtcpSrStat : Type 0 where
  pub ssrc : ℕ  -- uint32
  pub ntp_sec : ℕ  -- uint32
  pub ntp_frac : ℕ  -- uint32
  pub rtp_ts : ℕ  -- uint32
  pub sent_packets : ℕ  -- uint32
  pub sent_octets : ℕ  -- uint32

pub record RtcpRrStat : Type 0 where
  pub ssrc : ℕ  -- uint32
  pub fraction : ℕ  -- uint32
  pub lost : ℕ  -- int32
  pub last_seq : ℕ  -- uint32
  pub jitter : ℕ  -- uint32
  pub lsr : ℕ  -- uint32
  pub dlsr : ℕ  -- uint32

module _ (b : Binary) where
  unfoldable pub rtcp_sr_h_to_n : RtcpSrStat → RtcpSrStat
  rtcp_sr_h_to_n sr_stat = record {
    ssrc = h_to_nl b sr_stat.ssrc;
    ntp_sec = h_to_nl b sr_stat.ntp_sec;
    ntp_frac = h_to_nl b sr_stat.ntp_frac;
    rtp_ts = h_to_nl b sr_stat.rtp_ts;
    sent_packets = h_to_nl b sr_stat.sent_packets;
    sent_octets = h_to_nl b sr_stat.sent_octets;
  }

  unfoldable pub rtcp_sr_n_to_h : RtcpSrStat → RtcpSrStat
  rtcp_sr_n_to_h sr_stat = record {
    ssrc = n_to_hl b sr_stat.ssrc;
    ntp_sec = n_to_hl b sr_stat.ntp_sec;
    ntp_frac = n_to_hl b sr_stat.ntp_frac;
    rtp_ts = n_to_hl b sr_stat.rtp_ts;
    sent_packets = n_to_hl b sr_stat.sent_packets;
    sent_octets = n_to_hl b sr_stat.sent_octets;
  }

  unfoldable pub rtcp_rr_h_to_n : RtcpRrStat → RtcpRrStat
  rtcp_rr_h_to_n rr_stat = record rr_stat {
    ssrc = h_to_nl b rr_stat.ssrc;
    last_seq = h_to_nl b rr_stat.last_seq;
    jitter = h_to_nl b rr_stat.jitter;
  }

  unfoldable pub rtcp_rr_n_to_h : RtcpRrStat → RtcpRrStat
  rtcp_rr_n_to_h rr_stat = record rr_stat {
    ssrc = n_to_hl b rr_stat.ssrc;
    last_seq = n_to_hl b rr_stat.last_seq;
    jitter = n_to_hl b rr_stat.jitter;
  }

-- The fields of a sender report are words of 32 bits.
pub record IsSrStat (sr_stat : RtcpSrStat) : Type 0 where
  pub ssrc_lt : sr_stat.ssrc < 4294967296
  pub ntp_sec_lt : sr_stat.ntp_sec < 4294967296
  pub ntp_frac_lt : sr_stat.ntp_frac < 4294967296
  pub rtp_ts_lt : sr_stat.rtp_ts < 4294967296
  pub sent_packets_lt : sr_stat.sent_packets < 4294967296
  pub sent_octets_lt : sr_stat.sent_octets < 4294967296

module _ (b : Binary) (laws : IsBinary b) where
  -- A sender report comes back from the network's order as it was.
  pub rtcp_sr_n_to_h-rtcp_sr_h_to_n :
      (sr_stat : RtcpSrStat)
      → IsSrStat sr_stat
      → rtcp_sr_n_to_h b (rtcp_sr_h_to_n b sr_stat) ≡ sr_stat
  unfolding rtcp_sr_n_to_h rtcp_sr_h_to_n
  rtcp_sr_n_to_h-rtcp_sr_h_to_n sr_stat is = ground (
    arith,
    n_to_hl-h_to_nl b laws sr_stat.ssrc,
    n_to_hl-h_to_nl b laws sr_stat.ntp_sec,
    n_to_hl-h_to_nl b laws sr_stat.ntp_frac,
    n_to_hl-h_to_nl b laws sr_stat.rtp_ts,
    n_to_hl-h_to_nl b laws sr_stat.sent_packets,
    n_to_hl-h_to_nl b laws sr_stat.sent_octets,
  )

  -- A receiver report comes back from the network's order as it was; the fraction, the number of lost
  -- packets and the two times of the last report are the same in both orders.
  pub rtcp_rr_n_to_h-rtcp_rr_h_to_n :
      (rr_stat : RtcpRrStat)
      → rr_stat.ssrc < 4294967296
      → rr_stat.last_seq < 4294967296
      → rr_stat.jitter < 4294967296
      → (rtcp_rr_n_to_h b (rtcp_rr_h_to_n b rr_stat) ≡ rr_stat)
        × ((rtcp_rr_h_to_n b rr_stat).fraction ≡ rr_stat.fraction)
        × ((rtcp_rr_h_to_n b rr_stat).lost ≡ rr_stat.lost)
        × ((rtcp_rr_h_to_n b rr_stat).lsr ≡ rr_stat.lsr)
        × ((rtcp_rr_h_to_n b rr_stat).dlsr ≡ rr_stat.dlsr)
  unfolding rtcp_rr_n_to_h rtcp_rr_h_to_n
  rtcp_rr_n_to_h-rtcp_rr_h_to_n rr_stat p q r = (
    ground (
      arith,
      n_to_hl-h_to_nl b laws rr_stat.ssrc,
      n_to_hl-h_to_nl b laws rr_stat.last_seq,
      n_to_hl-h_to_nl b laws rr_stat.jitter,
    ),
    refl,
    refl,
    refl,
    refl,
  )

  -- A packet of `words` words of 32 bits, at least one and no more than fit in the field, has that
  -- number less one in its header, in the network's order, and the bytes after the last full word do
  -- not count. A packet of fewer than four bytes gets the largest length there is.
  pub rtcp_header_length_set_lem :
      (header : RtcpHeader) (words rest : ℕ)
      → rest < 4
      → words < 16384
      → n_to_hs b (rtcp_header_length_set b header (4 * words + rest)).length
        ≡ (words + 65535) % 65536
  unfolding rtcp_header_length_set
  rtcp_header_length_set_lem header words rest p q =
      n_to_hs-h_to_ns b laws (words_minus_one (4 * words + rest))
        (unfold words_minus_one in omega arith)
      ∙ (unfold words_minus_one in omega arith)
