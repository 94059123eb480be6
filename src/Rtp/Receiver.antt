-- ===== src/Rtp/Receiver.antt =====
-- mpf/mpf_rtp_defs.go and the statistics of mpf/mpf_rtp_stat.go: the state of an RTP receiver and of an
-- RTP transmitter, and their initialisation. A reset function of the source assigns a new object to
-- its parameter, so the object that it was called with stays as it is.
-- The jitter buffer of mpf/mpf_jitter_buffer.go is a parameter, since nothing here looks into it.
use go_mrcp.Prelude.{ℕ, ◌≡◌, refl, List, [], Option, none}
use go_mrcp.Rtp.Rtcp.{RtcpSrStat, RtcpRrStat}

pub record RtpRxStat : Type 0 where
  pub received_packets : ℕ  -- uint32
  pub invalid_packets : ℕ  -- uint32
  pub discarded_packets : ℕ  -- uint32
  pub ignored_packets : ℕ  -- uint32
  pub lost_packets : ℕ  -- uint32
  pub restarts : ℕ  -- byte

pub record RtpRxHistory : Type 0 where
  pub seq_cycles : ℕ  -- uint32
  pub seq_num_base : ℕ  -- uint16
  pub seq_num_max : ℕ  -- uint16
  pub ts_last : ℕ  -- uint32
  pub time_last : ℕ  -- int64
  pub ssrc_new : ℕ  -- uint32
  pub ssrc_probation : ℕ  -- byte

pub record RtpRxPeriodicHistory : Type 0 where
  pub received_prior : ℕ  -- uint32
  pub expected_prior : ℕ  -- uint32
  pub discarded_prior : ℕ  -- uint32
  pub jitter_min : ℕ  -- uint32
  pub jitter_max : ℕ  -- uint32

-- The parameter of a reset function is a local variable: what it points to does not change.
unfoldable pub rtcp_sr_stat_reset : RtcpSrStat → RtcpSrStat
rtcp_sr_stat_reset sr_stat = sr_stat

unfoldable pub rtcp_rr_stat_reset : RtcpRrStat → RtcpRrStat
rtcp_rr_stat_reset rr_stat = rr_stat

unfoldable pub rtp_rx_stat_reset : RtpRxStat → RtpRxStat
rtp_rx_stat_reset rx_stat = rx_stat

unfoldable pub rtp_rx_history_reset : RtpRxHistory → RtpRxHistory
rtp_rx_history_reset rx_history = rx_history

unfoldable pub rtp_rx_periodic_history_reset : RtpRxPeriodicHistory → RtpRxPeriodicHistory
rtp_rx_periodic_history_reset rx_periodic_history = rx_periodic_history

pub record RtpReceiver (JitterBuffer : Type 0) : Type 0 where
  pub jb : Option JitterBuffer
  pub rr_stat : RtcpRrStat
  pub stat : RtpRxStat
  pub history : RtpRxHistory
  pub periodic_history : RtpRxPeriodicHistory

pub record RtpTransmitter : Type 0 where
  pub ptime : ℕ  -- uint16
  pub packet_frames : ℕ  -- uint16
  pub current_frames : ℕ  -- uint16
  pub samples_per_frame : ℕ  -- uint32
  pub inactivity : ℕ  -- byte
  pub last_seq_num : ℕ  -- uint16
  pub timestamp : ℕ  -- uint32
  pub timestamp_base : ℕ  -- uint32
  pub packet_data : List ℕ
  pub packet_size : ℕ  -- int64
  pub sr_stat : RtcpSrStat

unfoldable pub rtp_receiver_init : {J : Type 0} → RtpReceiver J → RtpReceiver J
unfolding rtcp_rr_stat_reset rtp_rx_stat_reset rtp_rx_history_reset rtp_rx_periodic_history_reset
rtp_receiver_init receiver = record {
  jb = none;
  rr_stat = rtcp_rr_stat_reset receiver.rr_stat;
  stat = rtp_rx_stat_reset receiver.stat;
  history = rtp_rx_history_reset receiver.history;
  periodic_history = rtp_rx_periodic_history_reset receiver.periodic_history;
}

unfoldable pub rtp_transmitter_init : RtpTransmitter → RtpTransmitter
unfolding rtcp_sr_stat_reset
rtp_transmitter_init transmitter = record {
  ptime = 0;
  packet_frames = 0;
  current_frames = 0;
  samples_per_frame = 0;
  inactivity = 0;
  last_seq_num = 0;
  timestamp = 0;
  timestamp_base = 0;
  packet_data = [];
  packet_size = 0;
  sr_stat = rtcp_sr_stat_reset transmitter.sr_stat;
}

-- Initialisation changes nothing of a receiver but its jitter buffer.
pub rtp_receiver_init_keeps :
    {J : Type 0} (receiver : RtpReceiver J)
    → rtp_receiver_init receiver ≡ record receiver { jb = none }
unfolding rtp_receiver_init
rtp_receiver_init_keeps receiver = refl
