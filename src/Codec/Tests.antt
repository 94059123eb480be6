-- ===== src/Codec/Tests.antt =====
-- Runs of the codec functions of mpf/mpf_codec_descriptor.go and mpf/mpf_codec_manager.go on concrete
-- input.
use go_mrcp.Prelude.{
  false, ◌↔◌, List, arith, ltb, length, drop, ◌≡◌, refl, true, [], ◌∷◌, none, some, if◌then◌else◌,
}
use go_mrcp.Codec.Intersect.Agreement.{Agreement, lists_intersect-Agreement}
use go_mrcp.Prelude.Text.{codes, equal_fold, split, atoi}
use go_mrcp.Codec.Descriptor.{CodecDescriptor, descriptor_init}
use go_mrcp.Codec.Lists.{CodecList, list_init, list_add, lists_intersect}
use go_mrcp.Codec.Compare.{ret, panic, lists_compare, lists_compare_method}
use go_mrcp.Codec.Compare.Foreign.{none_enabled, lists_compare_lem}
use go_mrcp.Codec.Compare.Laws.{enabled_of, all_match, lists_compare_method_lem}
use go_mrcp.Codec.Manager.{
  Codec, CodecManager, Candidate, codec_register, codec_list_load, codec_find, codec_parse,
  named_descriptor, set_options, manager_create,
}
use go_mrcp.Prelude.Decimal.{decimal, join}
use go_mrcp.Codec.Manager.Unknown.{all_known, codec_list_load-none_iff}
use go_mrcp.Codec.Manager.Load.{
  IsWritten, Configured, IsConfigured, entry_text, config_text, with_configured,
  codec_list_load-config_text,
}

abbrev pcmu : CodecDescriptor
pcmu = record {
  payload_type = 0;
  name = codes "PCMU";
  sampling_rate = 8000;
  channel_count = 1;
  format = [];
  enabled = true;
}

abbrev l16 : CodecDescriptor
l16 = record pcmu { payload_type = 96; name = codes "L16"; sampling_rate = 16000 }

abbrev a_list : CodecList
a_list = record {
  descriptor_arr = l16 ∷ pcmu ∷ [];
  primary_descriptor = none;
  event_descriptor = none;
}

abbrev b_list : CodecList
b_list = record a_list { descriptor_arr = pcmu ∷ [] }

lists_compare_method_lem_example :
    lists_compare_method (l16 ∷ pcmu ∷ []) (pcmu ∷ [])
    ≡ ret (all_match (enabled_of (l16 ∷ pcmu ∷ [])) (enabled_of (pcmu ∷ [])))
lists_compare_method_lem_example = lists_compare_method_lem (l16 ∷ pcmu ∷ []) (pcmu ∷ [])

lists_compare_lem_example : lists_compare (l16 ∷ pcmu ∷ []) (pcmu ∷ []) ≡ (
    if ltb (length (l16 ∷ pcmu ∷ [])) (length (pcmu ∷ []))
    then panic
    else ret (none_enabled (drop (length (pcmu ∷ [])) (l16 ∷ pcmu ∷ []))))
lists_compare_lem_example = lists_compare_lem (l16 ∷ pcmu ∷ []) (pcmu ∷ [])

abbrev g711u : Candidate
g711u = record {
  vtable = 1;
  attribs = some (record { name = codes "PCMU"; bits_per_sample = 8; sample_rates = 1 });
  static_descriptor = some pcmu;
}

abbrev the_codec : Codec
the_codec = record {
  vtable = 1;
  attribs = record { name = codes "PCMU"; bits_per_sample = 8; sample_rates = 1 };
  static_descriptor = some pcmu;
}

abbrev with_codec : CodecManager
with_codec = record { codec_arr = the_codec ∷ []; event_descriptor = none }

with_codec-registered : codec_register manager_create (some g711u) ≡ some with_codec
unfolding codec_register manager_create
with_codec-registered = refl

with_codec-found : codec_find with_codec (codes "PCMU") ≡ some the_codec
unfolding codec_find equal_fold
with_codec-found = refl

parsed_options :
    codec_parse with_codec list_init (codes "PCMU/0/8000/1")
    ≡ some (record {
      descriptor_arr = record pcmu { name = codes "PCMU" } ∷ [];
      primary_descriptor = none;
      event_descriptor = none;
    })
unfolding codec_parse list_init codec_find equal_fold split named_descriptor list_add set_options
    atoi descriptor_init
parsed_options = refl

abbrev entries : List Configured
entries =
    record { name = codes "PCMU"; payload_type = 0; sampling_rate = 8000; channel_count = 1 }
    ∷ record { name = codes "pcmu"; payload_type = 107; sampling_rate = 16000; channel_count = 2 }
    ∷ []

the_text : config_text entries ≡ codes "PCMU/0/8000/1 pcmu/107/16000/2"
unfolding config_text entry_text join decimal
the_text = refl

upper-IsWritten :
    IsWritten
      (record { name = codes "PCMU"; payload_type = 0; sampling_rate = 8000; channel_count = 1 })
upper-IsWritten = record {
  named = refl;
  plain = ground arith;
  payload_fits = omega arith;
  rate_fits = omega arith;
  count_fits = omega arith;
}

upper-IsConfigured :
    IsConfigured with_codec
      (record { name = codes "PCMU"; payload_type = 0; sampling_rate = 8000; channel_count = 1 })
unfolding codec_find equal_fold
upper-IsConfigured = record { written = upper-IsWritten; known = refl }

lower-IsWritten :
    IsWritten
      (record { name = codes "pcmu"; payload_type = 107; sampling_rate = 16000; channel_count = 2 })
lower-IsWritten = record {
  named = refl;
  plain = ground arith;
  payload_fits = omega arith;
  rate_fits = omega arith;
  count_fits = omega arith;
}

lower-IsConfigured :
    IsConfigured with_codec
      (record { name = codes "pcmu"; payload_type = 107; sampling_rate = 16000; channel_count = 2 })
unfolding codec_find equal_fold
lower-IsConfigured = record { written = lower-IsWritten; known = refl }

codec_list_load-config_text_example :
    codec_list_load with_codec b_list (config_text entries) ≡ some (with_configured b_list entries)
codec_list_load-config_text_example =
    codec_list_load-config_text with_codec b_list entries
      (upper-IsConfigured, (lower-IsConfigured, tt))

codec_list_load-none_iff_example :
    (codec_list_load manager_create b_list (config_text entries) ≡ none)
    ↔ (all_known manager_create entries ≡ false)
codec_list_load-none_iff_example =
    codec_list_load-none_iff manager_create b_list entries (upper-IsWritten, (lower-IsWritten, tt))

lists_intersect-Agreement_example : Agreement (lists_intersect a_list b_list)
lists_intersect-Agreement_example = lists_intersect-Agreement a_list b_list
