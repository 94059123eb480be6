-- ===== src/Codec/Manager/Unknown.antt =====
-- The error of CodecManagerCodecListLoad of mpf/mpf_codec_manager.go: a name that no codec has.
use go_mrcp.Prelude.{
  ◌≡◌, ◌↔◌, refl, sym, ◌∙◌, inl, inr, Bool, true, false, ◌&&◌, List, [], ◌∷◌, map, Option, none,
  some, All, Option-cases,
}
use go_mrcp.Prelude.Text.{Text, split}
use go_mrcp.Prelude.Decimal.{join, split-join}
use go_mrcp.Codec.Capabilities.{is_some}
use go_mrcp.Codec.Lists.{CodecList, list_add}
use go_mrcp.Codec.Manager.{
  CodecManager, named_descriptor, codec_parse, parse_parts, load_loop, codec_list_load,
}
use go_mrcp.Codec.Manager.Load.{
  Configured, IsWritten, entry_text, config_text, codec_parse-entry_text, entries_no_space,
  load_loop-parsed,
}

-- Is every name that of a codec of the manager or of its event descriptor?
abbrev pub all_known : CodecManager → List Configured → Bool
all_known cm [] = true
all_known cm (c ∷ entries) = is_some (named_descriptor cm c.name) && all_known cm entries

load_loop-rejected :
    (cm : CodecManager) (codec_list : CodecList) (desc : Text) (descs : List Text)
    → codec_parse cm codec_list desc ≡ none
    → load_loop cm codec_list (desc ∷ descs) ≡ none
unfolding load_loop
load_loop-rejected cm codec_list desc descs e = rw (load_loop, e) refl

load_loop-known :
    (cm : CodecManager) (codec_list : CodecList) (entries : List Configured)
    → All IsWritten entries
    → is_some (load_loop cm codec_list (map entry_text entries)) ≡ all_known cm entries
unfolding load_loop
load_loop-known cm codec_list [] h = refl
load_loop-known cm codec_list (c ∷ entries) h =
    let parse = codec_parse-entry_text c h.0 cm codec_list in
    elim (Option-cases (named_descriptor cm c.name)) [
      | inl z ↦
          let e : codec_parse cm codec_list (entry_text c) ≡ none = parse ∙ rw z refl in
          rw (load_loop-rejected cm codec_list (entry_text c) (map entry_text entries) e, z) refl
      | inr (d, z) ↦
          let after = list_add codec_list (record d {
            payload_type = c.payload_type;
            sampling_rate = c.sampling_rate;
            channel_count = c.channel_count;
          }) in
          let e : codec_parse cm codec_list (entry_text c) ≡ some after = parse ∙ rw z refl in
          rw (load_loop-parsed cm codec_list after (entry_text c) (map entry_text entries) e, z)
            (load_loop-known cm after entries h.1)
    ]

load-known :
    (cm : CodecManager) (codec_list : CodecList) (entries : List Configured)
    → All IsWritten entries
    → is_some (codec_list_load cm codec_list (config_text entries)) ≡ all_known cm entries
unfolding codec_list_load config_text load_loop codec_parse parse_parts join split
load-known cm codec_list [] h = refl
load-known cm codec_list (c ∷ entries) h =
    rw (split-join b' ' (entry_text c) (map entry_text entries) (entries_no_space (c ∷ entries) h))
      (load_loop-known cm codec_list (c ∷ entries) h)

is_some-none_iff : {A : Type 0} (o : Option A) (b : Bool) → is_some o ≡ b → (o ≡ none) ↔ (b ≡ false)
is_some-none_iff none b e = (λ h. sym e, λ h. refl)
is_some-none_iff (some x) b e = (λ h. absurd (cc), λ h. absurd (let q = e ∙ h in cc))

-- A configuration written in full, with names that are not empty and have no separator and numbers
-- that fit, is rejected exactly when a name in it is neither that of a codec of the manager nor that of
-- its event descriptor, wherever it stands.
pub codec_list_load-none_iff :
    (cm : CodecManager) (codec_list : CodecList) (entries : List Configured)
    → All IsWritten entries
    → (codec_list_load cm codec_list (config_text entries) ≡ none) ↔ (all_known cm entries ≡ false)
codec_list_load-none_iff cm codec_list entries h =
    is_some-none_iff (codec_list_load cm codec_list (config_text entries)) (all_known cm entries)
      (load-known cm codec_list entries h)
