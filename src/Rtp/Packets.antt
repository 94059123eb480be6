-- ===== src/Rtp/Packets.antt =====
-- The layouts of mpf/mpf_rtcp_packet.go and mpf/mpf_rtp_header.go that no function of the repository uses.
use go_mrcp.Prelude.{ℕ, List}
use go_mrcp.Rtp.Rtcp.{RtcpHeader, RtcpSrStat, RtcpRrStat}

data RtcpType : Type 0 where
  rtcp_sr : RtcpType
  rtcp_rr : RtcpType
  rtcp_sdes : RtcpType
  rtcp_bye : RtcpType
  rtcp_app : RtcpType

unfoldable rtcp_type_number : RtcpType → ℕ
rtcp_type_number rtcp_sr = 200
rtcp_type_number rtcp_rr = 201
rtcp_type_number rtcp_sdes = 202
rtcp_type_number rtcp_bye = 203
rtcp_type_number rtcp_app = 204

data RtcpSdesType : Type 0 where
  rtcp_sdes_end : RtcpSdesType
  rtcp_sdes_cname : RtcpSdesType
  rtcp_sdes_name : RtcpSdesType
  rtcp_sdes_email : RtcpSdesType
  rtcp_sdes_phone : RtcpSdesType
  rtcp_sdes_loc : RtcpSdesType
  rtcp_sdes_tool : RtcpSdesType
  rtcp_sdes_note : RtcpSdesType
  rtcp_sdes_priv : RtcpSdesType

unfoldable rtcp_sdes_type_number : RtcpSdesType → ℕ
rtcp_sdes_type_number rtcp_sdes_end = 0
rtcp_sdes_type_number rtcp_sdes_cname = 1
rtcp_sdes_type_number rtcp_sdes_name = 2
rtcp_sdes_type_number rtcp_sdes_email = 3
rtcp_sdes_type_number rtcp_sdes_phone = 4
rtcp_sdes_type_number rtcp_sdes_loc = 5
rtcp_sdes_type_number rtcp_sdes_tool = 6
rtcp_sdes_type_number rtcp_sdes_note = 7
rtcp_sdes_type_number rtcp_sdes_priv = 8

record RtcpSdesItem : Type 0 where
  item_type : ℕ  -- int
  length : ℕ  -- byte
  contents : List ℕ  -- one byte

-- The reports of a packet stand side by side; each list of the source has one element.
record RtcpSenderReport : Type 0 where
  sr_stat : RtcpSrStat
  rr_stat : List RtcpRrStat

record RtcpReceptionReport : Type 0 where
  ssrc : ℕ  -- uint32
  rr_stat : List RtcpRrStat

record RtcpSourceDescription : Type 0 where
  ssrc : ℕ  -- uint32
  item : List RtcpSdesItem

record RtcpBye : Type 0 where
  ssrc : List ℕ  -- uint32
  length : ℕ  -- byte
  contents : List ℕ  -- one byte

record RtcpPacket : Type 0 where
  header : RtcpHeader
  sr : RtcpSenderReport
  rr : RtcpReceptionReport
  sdes : RtcpSourceDescription
  bye : RtcpBye

-- Every field is a uint32.
record RtpHeader : Type 0 where
  count : ℕ
  extension : ℕ
  padding : ℕ
  version : ℕ
  payload_type : ℕ
  marker : ℕ
  sequence : ℕ
  timestamp : ℕ
  ssrc : ℕ

-- Both fields are a uint16.
record RtpExtensionHeader : Type 0 where
  profile : ℕ
  length : ℕ
