-- ===== src/Codec/Manager/Laws.antt =====
-- What the codec manager of mpf/mpf_codec_manager.go finds, gets and parses.
use go_mrcp.Prelude.{
  ℕ, ◌≡◌, ◌≢◌, refl, inl, inr, arith, false, ◌==◌, if◌then◌else◌, List, [], ◌∷◌, ◌++◌, none, some,
  All, Option-cases,
}
use go_mrcp.Prelude.Text.{Text, equal_fold, split-one, atoi, atoi-name, is_digit}
use go_mrcp.Codec.Descriptor.{CodecDescriptor, CodecAttribs}
use go_mrcp.Codec.Lists.{CodecList, list_add}
use go_mrcp.Codec.Manager.{
  Codec, CodecManager, Candidate, codec_register, codec_find, find_loop, default_of,
  named_descriptor, set_options, codec_parse, parse_parts,
}

find_loop-append :
    (arr : List Codec) (codec : Codec) (name : Text)
    → find_loop (arr ++ (codec ∷ [])) name ≡ elim (find_loop arr name) [
      | some found ↦ some found
      | none ↦ if equal_fold codec.attribs.name name then some codec else none
    ]
unfolding find_loop
find_loop-append [] codec name = refl
find_loop-append (c ∷ arr) codec name = ground (arith, find_loop-append arr codec name)

register_arr :
    (cm cm' : CodecManager) (codec : Candidate) (a : CodecAttribs)
    → codec.attribs ≡ some a
    → codec_register cm (some codec) ≡ some cm'
    → cm'.codec_arr
      ≡ cm.codec_arr
        ++ (record {
          vtable = codec.vtable;
          attribs = a;
          static_descriptor = codec.static_descriptor;
        }
            ∷ [])
unfolding codec_register
register_arr cm cm' codec a h e = ground arith

register_some :
    (cm cm' : CodecManager) (codec : Candidate)
    → codec_register cm (some codec) ≡ some cm'
    → codec.attribs ≢ none
unfolding codec_register
register_some cm cm' codec e h = ground arith

-- A codec that was registered is found by its name, in any case, unless an earlier codec has that
-- name, and all other names are found as before.
pub find-register :
    (cm cm' : CodecManager) (codec : Candidate) (name : Text)
    → codec_register cm (some codec) ≡ some cm'
    → (registered : Codec) × (codec.attribs ≡ some registered.attribs)
      × (codec_find cm' name ≡ elim (codec_find cm name) [
        | some found ↦ some found
        | none ↦ if equal_fold registered.attribs.name name then some registered else none
      ])
unfolding codec_find
find-register cm cm' codec name e = elim (Option-cases codec.attribs) [
  | inl z ↦ absurd (register_some cm cm' codec e z)
  | inr (a, h) ↦ (
    record { vtable = codec.vtable; attribs = a; static_descriptor = codec.static_descriptor },
    h,
    rw (register_arr cm cm' codec a h e) (find_loop-append cm.codec_arr _ name),
  )
]

set_options-name :
    (d : CodecDescriptor) (c : ℕ) (s : Text)
    → atoi (c ∷ s) ≡ 0
    → set_options d (c ∷ s) [] ≡ record d { payload_type = 0; sampling_rate = 0; channel_count = 0 }
unfolding set_options
set_options-name d c s z = ground arith

named-found :
    (cm : CodecManager) (name : Text) (codec : Codec)
    → codec_find cm name ≡ some codec
    → named_descriptor cm name ≡ some (default_of codec name)
unfolding named_descriptor
named-found cm name codec e = ground arith

parse_parts-found :
    (cm : CodecManager) (codec_list : CodecList) (c : ℕ) (s : Text) (parts : List Text)
    (d : CodecDescriptor)
    → named_descriptor cm (c ∷ s) ≡ some d
    → parse_parts cm codec_list ((c ∷ s) ∷ parts)
      ≡ some (list_add codec_list (set_options d (c ∷ s) parts))
unfolding parse_parts
parse_parts-found cm codec_list c s parts d e = ground arith

-- A name with no options, whose codec is registered, gets payload type, sampling rate and channel
-- count 0 in place of the codec's: with no further part the parser reads the name as each number.
pub parse_name_only :
    (cm : CodecManager) (codec_list : CodecList) (c : ℕ) (s : Text) (codec : Codec)
    → All (λ b. b ≢ b'/') (c ∷ s)
    → is_digit c ≡ false
    → (c == b'-') ≡ false
    → (c == b'+') ≡ false
    → codec_find cm (c ∷ s) ≡ some codec
    → codec_parse cm codec_list (c ∷ s)
      ≡ some (
          list_add codec_list (record (default_of codec (c ∷ s)) {
            payload_type = 0;
            sampling_rate = 0;
            channel_count = 0;
          }))
unfolding codec_parse
parse_name_only cm codec_list c s codec slash digit minus plus found =
    rw
      (
        split-one b'/' (c ∷ s) slash,
        parse_parts-found cm codec_list c s [] (default_of codec (c ∷ s))
            (named-found cm (c ∷ s) codec found),
        set_options-name (default_of codec (c ∷ s)) c s (atoi-name c s digit minus plus),
      )
      refl
