-- ===== src/Codec/Manager.antt =====
-- The codec manager of mpf/mpf_codec_manager.go: registering, getting and finding codecs, and the
-- parser of a configured codec list; with the Codec of mpf/mpf_codec.go as far as the manager uses it.
-- The manager's default event descriptor comes from EventDescriptorCreate, which returns nil.
pub mod Laws
pub mod Load
pub mod Unknown
use go_mrcp.Prelude.{
  ℕ, zero, suc, ◌%◌, Bool, true, false, ltb, ◌==◌, if◌then◌else◌, List, [], ◌∷◌, Option, none, some,
  length,
}
use go_mrcp.Prelude.Words.{u8, u16}
use go_mrcp.Prelude.Text.{Text, equal_fold, split, atoi}
use go_mrcp.Apr.{push}
use go_mrcp.Codec.Descriptor.{
  CodecDescriptor, CodecAttribs, descriptor_init, descriptor_match_by_attribs, rtp_pt_dynamic,
}
use go_mrcp.Codec.Lists.{CodecList, list_init, list_add}

-- A codec; `vtable` stands for the pointer to its virtual methods.
pub record Codec : Type 0 where
  pub vtable : ℕ
  pub attribs : CodecAttribs
  pub static_descriptor : Option CodecDescriptor

pub record CodecManager : Type 0 where
  pub codec_arr : List Codec
  pub event_descriptor : Option CodecDescriptor

-- EventDescriptorCreate of mpf/mpf_named_event.go.
unfoldable pub event_descriptor_create : ℕ → Option CodecDescriptor
event_descriptor_create sampling_rate = none

unfoldable pub manager_create : CodecManager
unfolding event_descriptor_create
manager_create = record { codec_arr = []; event_descriptor = event_descriptor_create 8000 }

-- A codec as the caller of CodecManagerCodecRegister has it: it or its attributes may be nil.
pub record Candidate : Type 0 where
  pub vtable : ℕ
  pub attribs : Option CodecAttribs
  pub static_descriptor : Option CodecDescriptor

register_attribs : CodecManager → Candidate → Option CodecAttribs → Option CodecManager
register_attribs cm codec none = none
register_attribs cm codec (some attribs) =
    if length attribs.name == 0
    then none
    else some (record cm {
      codec_arr = push cm.codec_arr (record {
        vtable = codec.vtable;
        attribs = attribs;
        static_descriptor = codec.static_descriptor;
      });
    })

-- `none` is the error that is returned.
unfoldable pub codec_register : CodecManager → Option Candidate → Option CodecManager
unfolding register_attribs push
codec_register cm none = none
codec_register cm (some codec) = register_attribs cm codec codec.attribs

unfoldable pub codec_clone : Codec → Codec
codec_clone c = record {
  vtable = c.vtable;
  attribs = c.attribs;
  static_descriptor = c.static_descriptor;
}

-- The loop of CodecManagerCodecGet: the codec, and the descriptor that a match may have changed.
unfoldable pub get_loop : List Codec → CodecDescriptor → CodecDescriptor × Option Codec
unfolding codec_clone
get_loop [] descriptor = (descriptor, none)
get_loop (codec ∷ arr) descriptor =
    let (changed, match) =
      descriptor_match_by_attribs descriptor codec.static_descriptor codec.attribs in
    if match then (changed, some (codec_clone codec)) else get_loop arr descriptor

-- `none` is the error for a nil descriptor.
unfoldable pub codec_get :
    CodecManager → Option CodecDescriptor → Option (CodecDescriptor × Option Codec)
unfolding get_loop
codec_get cm none = none
codec_get cm (some descriptor) = some (get_loop cm.codec_arr descriptor)

-- The loop of CodecManagerCodecListGet.
unfoldable pub list_get_loop : List Codec → CodecList → CodecList
list_get_loop [] codec_list = codec_list
list_get_loop (codec ∷ arr) codec_list =
    list_get_loop arr
      (elim codec.static_descriptor [ none ↦ codec_list | some d ↦ list_add codec_list d ])

unfoldable pub codec_list_get : CodecManager → CodecList
unfolding list_get_loop
codec_list_get cm = list_get_loop cm.codec_arr list_init

-- The loop of CodecManagerCodecFind.
unfoldable pub find_loop : List Codec → Text → Option Codec
find_loop [] codec_name = none
find_loop (codec ∷ arr) codec_name =
    if equal_fold codec.attribs.name codec_name then some codec else find_loop arr codec_name

unfoldable pub codec_find : CodecManager → Text → Option Codec
unfolding find_loop
codec_find cm codec_name = find_loop cm.codec_arr codec_name

-- The descriptor that a parsed name begins with: the defaults of its codec.
unfoldable pub default_of : Codec → Text → CodecDescriptor
default_of codec name = elim codec.static_descriptor [
  | none ↦ record descriptor_init {
    name = name;
    payload_type = rtp_pt_dynamic;
    sampling_rate = 8000;
    channel_count = 1;
  }
  | some s ↦ record descriptor_init {
    name = name;
    payload_type = s.payload_type;
    sampling_rate = s.sampling_rate;
    channel_count = s.channel_count;
  }
]

event_of : Option CodecDescriptor → Text → Option CodecDescriptor
event_of none name = none
event_of (some event) name = if equal_fold event.name name then some event else none

unfoldable pub named_descriptor : CodecManager → Text → Option CodecDescriptor
unfolding default_of event_of
named_descriptor cm name = elim (codec_find cm name) [
  | some codec ↦ some (default_of codec name)
  | none ↦ event_of cm.event_descriptor name
]

-- `if len(codecDescs) > i { str = codecDescs[i] }`: without that part `str` stays what it was.
unfoldable pub part_or : List Text → Text → Text
part_or [] str = str
part_or (part ∷ parts) str = part

abbrev rest_of : List Text → List Text
rest_of [] = []
rest_of (part ∷ parts) = parts

-- The optional parts after the name, `str` being the name: payload type, sampling rate and channel
-- count, each read only if the text before it was not empty.
unfoldable pub set_options : CodecDescriptor → Text → List Text → CodecDescriptor
unfolding part_or
set_options d str parts =
    let str1 = part_or parts str in
    let str2 = part_or (rest_of parts) str1 in
    let str3 = part_or (rest_of (rest_of parts)) str2 in
    if length str1 == 0
    then d
    else (let d1 = record d { payload_type = u8 (atoi str1) } in
        if length str2 == 0
        then d1
        else (let d2 = record d1 { sampling_rate = u16 (atoi str2) } in
            if length str3 == 0 then d2 else record d2 { channel_count = u8 (atoi str3) }))

parse_parts : CodecManager → CodecList → List Text → Option CodecList
parse_parts cm codec_list [] = some codec_list
parse_parts cm codec_list (name ∷ parts) =
    if length name == 0 then some codec_list else elim (named_descriptor cm name) [
      | none ↦ none
      | some d ↦ some (list_add codec_list (set_options d name parts))
    ]

-- `none` is the error for a name that no codec has.
unfoldable pub codec_parse : CodecManager → CodecList → Text → Option CodecList
unfolding parse_parts
codec_parse cm codec_list str = parse_parts cm codec_list (split b'/' str)

-- The loop of CodecManagerCodecListLoad, which stops at the first error.
unfoldable pub load_loop : CodecManager → CodecList → List Text → Option CodecList
load_loop cm codec_list [] = some codec_list
load_loop cm codec_list (desc ∷ descs) = elim (codec_parse cm codec_list desc) [
  | none ↦ none
  | some codec_list' ↦ load_loop cm codec_list' descs
]

unfoldable pub codec_list_load : CodecManager → CodecList → Text → Option CodecList
unfolding load_loop
codec_list_load cm codec_list str = load_loop cm codec_list (split b' ' str)
