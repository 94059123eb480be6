-- ===== src/Rtp/MediaLaws.antt =====
-- When two RTP media descriptors are found identical.
use go_mrcp.Prelude.{
  ◌≡◌, ◌↔◌, refl, arith, true, if◌then◌else◌, Option, none, some, length, drop, ◌≤◌,
}
use go_mrcp.Prelude.Text.{equal_fold, equal_fold_refl}
use go_mrcp.Codec.Compare.{ret, panic, lists_compare}
use go_mrcp.Codec.Compare.Foreign.{none_enabled, lists_compare_lem}
use go_mrcp.Codec.Compare.Laws.{lists_compare_same_length}
use go_mrcp.Codec.Capabilities.{is_some}
use go_mrcp.Codec.Lists.{CodecList}
use go_mrcp.Rtp.Media.{RtpMediaDescriptor, rtp_media_descriptor_copy, rtp_media_descriptors_compare}

-- The fields but the codec lists agree, the addresses up to case.
pub record SameFields (m1 m2 : RtpMediaDescriptor) : Type 0 where
  pub state_eq : m1.state ≡ m2.state
  pub ip_eq : equal_fold m1.ip m2.ip ≡ true
  pub ext_ip_eq : equal_fold m1.ext_ip m2.ext_ip ≡ true
  pub port_eq : m1.port ≡ m2.port
  pub direction_eq : m1.direction ≡ m2.direction
  pub ptime_eq : m1.ptime ≡ m2.ptime
  pub mid_eq : m1.mid ≡ m2.mid
  pub id_eq : m1.id ≡ m2.id

-- Two descriptors that have codec lists are found identical exactly when their other fields agree, the
-- addresses up to case, and the first list is no shorter than the second and has no enabled descriptor
-- from the size of the second on: the codecs of the second do not matter.
pub compare_true_iff :
    (m1 m2 : RtpMediaDescriptor) (c1 c2 : CodecList)
    → m1.codec_list ≡ some c1
    → m2.codec_list ≡ some c2
    → (rtp_media_descriptors_compare (some m1) (some m2) ≡ ret true) ↔ (
        SameFields m1 m2
        × (length c2.descriptor_arr ≤ length c1.descriptor_arr)
        × (none_enabled (drop (length c2.descriptor_arr) c1.descriptor_arr) ≡ true))
unfolding rtp_media_descriptors_compare
compare_true_iff m1 m2 c1 c2 e f = (
  λ h. ground (arith, lists_compare_lem c1.descriptor_arr c2.descriptor_arr),
  λ h. ground (arith, lists_compare_lem c1.descriptor_arr c2.descriptor_arr),
)

same_list : (c : CodecList) → lists_compare c.descriptor_arr c.descriptor_arr ≡ ret true
same_list c = lists_compare_same_length c.descriptor_arr c.descriptor_arr refl

compare-copy_of :
    (m : RtpMediaDescriptor) (c : Option CodecList)
    → m.codec_list ≡ c
    → rtp_media_descriptors_compare (some m) (some (rtp_media_descriptor_copy (some m)))
      ≡ (if is_some c then ret true else panic)
unfolding rtp_media_descriptors_compare rtp_media_descriptor_copy
compare-copy_of m none e = rw (e) (ground (arith, equal_fold_refl m.ip, equal_fold_refl m.ext_ip))
compare-copy_of m (some c) e =
    rw (e) (ground (arith, equal_fold_refl m.ip, equal_fold_refl m.ext_ip, same_list c))

-- A descriptor is found identical to its copy if its codec list has an array, and the comparison
-- panics if it has none.
pub compare-copy :
    (m : RtpMediaDescriptor)
    → rtp_media_descriptors_compare (some m) (some (rtp_media_descriptor_copy (some m)))
      ≡ (if is_some m.codec_list then ret true else panic)
compare-copy m = compare-copy_of m m.codec_list refl
