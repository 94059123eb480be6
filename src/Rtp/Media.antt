-- ===== src/Rtp/Media.antt =====
-- mpf/mpf_rtp_descriptor.go: media, stream and termination descriptors, the settings of RTP, and how
-- they are initialised, copied and compared.
-- A codec list whose array is nil, as CodecListReset and a new object leave it, is `none`.
use go_mrcp.Prelude.{ℕ, Bool, true, false, not, ◌==◌, if◌then◌else◌, [], Option, none, some}
use go_mrcp.Prelude.Text.{Text, equal_fold}
use go_mrcp.Codec.Capabilities.{CodecCapabilities}
use go_mrcp.Codec.Compare.{Compared, ret, panic, lists_compare}
use go_mrcp.Codec.Lists.{CodecList, list_init}

abbrev pub media_disabled : ℕ
media_disabled = 0

abbrev pub stream_direction_none : ℕ
stream_direction_none = 0

abbrev pub rtcp_bye_disable : ℕ
rtcp_bye_disable = 0

pub record RtpMediaDescriptor : Type 0 where
  pub state : ℕ  -- MediaState
  pub ip : Text
  pub ext_ip : Text
  pub port : ℕ  -- uint16
  pub direction : ℕ  -- StreamDirection
  pub ptime : ℕ  -- uint16
  pub codec_list : Option CodecList
  pub mid : ℕ  -- int64
  pub id : ℕ  -- int64

pub record JbConfig : Type 0 where
  pub min_play_out_delay : ℕ  -- uint32
  pub initial_play_out_delay : ℕ  -- uint32
  pub max_play_out_delay : ℕ  -- uint32
  pub adaptive : ℕ  -- byte
  pub time_skew_detection : ℕ  -- byte

pub record RtpConfig : Type 0 where
  pub ip : Text
  pub ext_ip : Text
  pub rtp_port_min : ℕ  -- uint16
  pub rtp_port_max : ℕ  -- uint16
  pub rtp_port_cur : ℕ  -- uint16

pub record RtpSettings : Type 0 where
  pub ptime : ℕ  -- uint16
  pub codec_list : Option CodecList
  pub own_preference : Bool
  pub rtcp : Bool
  pub rtcp_bye_policy : ℕ  -- ByePolicy
  pub rtcp_tx_interval : ℕ  -- uint16
  pub rtcp_rx_resolution : ℕ  -- uint16
  pub jb_config : JbConfig

pub record StreamCapabilities : Type 0 where
  pub direction : ℕ  -- StreamDirection
  pub codecs : CodecCapabilities

pub record RtpStreamDescriptor : Type 0 where
  pub capabilities : Option StreamCapabilities
  pub local : Option RtpMediaDescriptor
  pub remote : Option RtpMediaDescriptor
  pub settings : Option RtpSettings

pub record RtpTerminationDescriptor : Type 0 where
  pub audio : RtpStreamDescriptor
  pub video : RtpStreamDescriptor

unfoldable pub codec_list_reset : Option CodecList
codec_list_reset = none

-- Each initialisation sets every field of the object that it is given.
unfoldable pub rtp_media_descriptor_init : RtpMediaDescriptor
unfolding codec_list_reset
rtp_media_descriptor_init = record {
  state = media_disabled;
  ip = [];
  ext_ip = [];
  port = 0;
  direction = stream_direction_none;
  ptime = 0;
  codec_list = codec_list_reset;
  mid = 0;
  id = 0;
}

unfoldable pub rtp_stream_descriptor_init : RtpStreamDescriptor
rtp_stream_descriptor_init = record {
  capabilities = none;
  local = none;
  remote = none;
  settings = none;
}

unfoldable pub rtp_termination_descriptor_init : RtpTerminationDescriptor
unfolding rtp_stream_descriptor_init
rtp_termination_descriptor_init = record {
  audio = rtp_stream_descriptor_init;
  video = rtp_stream_descriptor_init;
}

unfoldable pub jb_config_init : JbConfig
jb_config_init = record {
  min_play_out_delay = 0;
  initial_play_out_delay = 0;
  max_play_out_delay = 0;
  adaptive = 0;
  time_skew_detection = 1;
}

unfoldable pub rtp_config_alloc : RtpConfig
rtp_config_alloc = record {
  ip = [];
  ext_ip = [];
  rtp_port_min = 0;
  rtp_port_max = 0;
  rtp_port_cur = 0;
}

unfoldable pub rtp_settings_alloc : RtpSettings
unfolding jb_config_init
rtp_settings_alloc = record {
  ptime = 0;
  codec_list = some list_init;
  own_preference = false;
  rtcp = false;
  rtcp_bye_policy = rtcp_bye_disable;
  rtcp_tx_interval = 0;
  rtcp_rx_resolution = 0;
  jb_config = jb_config_init;
}

unfoldable pub rtp_termination_descriptor_alloc : RtpTerminationDescriptor
rtp_termination_descriptor_alloc = rtp_termination_descriptor_init

unfoldable pub rtp_media_descriptor_alloc : RtpMediaDescriptor
unfolding rtp_media_descriptor_init
rtp_media_descriptor_alloc = rtp_media_descriptor_init

-- A new object's fields are zero, which is what RtpMediaDescriptorInit sets them to as well.
unfoldable pub rtp_media_descriptor_copy : Option RtpMediaDescriptor → RtpMediaDescriptor
unfolding rtp_media_descriptor_init
rtp_media_descriptor_copy none = rtp_media_descriptor_init
rtp_media_descriptor_copy (some src_media) = record {
  state = src_media.state;
  ip = src_media.ip;
  ext_ip = src_media.ext_ip;
  port = src_media.port;
  direction = src_media.direction;
  ptime = src_media.ptime;
  codec_list = src_media.codec_list;
  mid = src_media.mid;
  id = src_media.id;
}

-- The function CodecListsCompare on two lists, each of which it reads for its size.
unfoldable pub compare_lists : Option CodecList → Option CodecList → Compared
compare_lists none c2 = panic
compare_lists (some c1) none = panic
compare_lists (some c1) (some c2) = lists_compare c1.descriptor_arr c2.descriptor_arr

-- What is left to test once the codec lists are compared.
unfoldable pub compare_ids : Compared → RtpMediaDescriptor → RtpMediaDescriptor → Compared
compare_ids (ret true) media1 media2 =
    if not (media1.mid == media2.mid)
    then ret false
    else if not (media1.id == media2.id)
    then ret false
    else ret true
compare_ids (ret false) media1 media2 = ret false
compare_ids panic media1 media2 = panic
compare_ids Compared.stuck media1 media2 = Compared.stuck

unfoldable pub rtp_media_descriptors_compare :
    Option RtpMediaDescriptor → Option RtpMediaDescriptor → Compared
unfolding compare_lists compare_ids
rtp_media_descriptors_compare none media2 = ret false
rtp_media_descriptors_compare (some media1) none = ret false
rtp_media_descriptors_compare (some media1) (some media2) =
    if not (media1.state == media2.state)
    then ret false
    else if not (equal_fold media1.ip media2.ip)
    then ret false
    else if not (equal_fold media1.ext_ip media2.ext_ip)
    then ret false
    else if not (media1.port == media2.port)
    then ret false
    else if not (media1.direction == media2.direction)
    then ret false
    else if not (media1.ptime == media2.ptime)
    then ret false
    else compare_ids (compare_lists media1.codec_list media2.codec_list) media1 media2
