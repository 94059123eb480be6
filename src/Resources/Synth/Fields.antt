-- ===== src/Resources/Synth/Fields.antt =====
-- The header fields of mrcp/resources/mrcp_synth.go with their numbers.
use go_mrcp.Prelude.{ℕ, ◌≡◌, refl, List, [], ◌∷◌, some, get_elem?}

pub data SynthesizerHeaderId : Type 0 where
  synthesizer_header_jump_size : SynthesizerHeaderId
  synthesizer_header_kill_on_barge_in : SynthesizerHeaderId
  synthesizer_header_speaker_profile : SynthesizerHeaderId
  synthesizer_header_completion_cause : SynthesizerHeaderId
  synthesizer_header_completion_reason : SynthesizerHeaderId
  synthesizer_header_voice_gender : SynthesizerHeaderId
  synthesizer_header_voice_age : SynthesizerHeaderId
  synthesizer_header_voice_variant : SynthesizerHeaderId
  synthesizer_header_voice_name : SynthesizerHeaderId
  synthesizer_header_prosody_volume : SynthesizerHeaderId
  synthesizer_header_prosody_rate : SynthesizerHeaderId
  synthesizer_header_speech_marker : SynthesizerHeaderId
  synthesizer_header_speech_language : SynthesizerHeaderId
  synthesizer_header_fetch_hint : SynthesizerHeaderId
  synthesizer_header_audio_fetch_hint : SynthesizerHeaderId
  synthesizer_header_failed_uri : SynthesizerHeaderId
  synthesizer_header_failed_uri_cause : SynthesizerHeaderId
  synthesizer_header_speak_restart : SynthesizerHeaderId
  synthesizer_header_speak_length : SynthesizerHeaderId
  synthesizer_header_load_lexicon : SynthesizerHeaderId
  synthesizer_header_lexicon_search_order : SynthesizerHeaderId

unfoldable pub synthesizer_header_id_number : SynthesizerHeaderId → ℕ
synthesizer_header_id_number synthesizer_header_jump_size = 0
synthesizer_header_id_number synthesizer_header_kill_on_barge_in = 1
synthesizer_header_id_number synthesizer_header_speaker_profile = 2
synthesizer_header_id_number synthesizer_header_completion_cause = 3
synthesizer_header_id_number synthesizer_header_completion_reason = 4
synthesizer_header_id_number synthesizer_header_voice_gender = 5
synthesizer_header_id_number synthesizer_header_voice_age = 6
synthesizer_header_id_number synthesizer_header_voice_variant = 7
synthesizer_header_id_number synthesizer_header_voice_name = 8
synthesizer_header_id_number synthesizer_header_prosody_volume = 9
synthesizer_header_id_number synthesizer_header_prosody_rate = 10
synthesizer_header_id_number synthesizer_header_speech_marker = 11
synthesizer_header_id_number synthesizer_header_speech_language = 12
synthesizer_header_id_number synthesizer_header_fetch_hint = 13
synthesizer_header_id_number synthesizer_header_audio_fetch_hint = 14
synthesizer_header_id_number synthesizer_header_failed_uri = 15
synthesizer_header_id_number synthesizer_header_failed_uri_cause = 16
synthesizer_header_id_number synthesizer_header_speak_restart = 17
synthesizer_header_id_number synthesizer_header_speak_length = 18
synthesizer_header_id_number synthesizer_header_load_lexicon = 19
synthesizer_header_id_number synthesizer_header_lexicon_search_order = 20

abbrev synthesizer_header_count : ℕ
synthesizer_header_count = 21

-- All of them, in the order of their numbers.
abbrev pub synthesizer_fields : List SynthesizerHeaderId
synthesizer_fields =
    synthesizer_header_jump_size ∷ synthesizer_header_kill_on_barge_in
    ∷ synthesizer_header_speaker_profile ∷ synthesizer_header_completion_cause
    ∷ synthesizer_header_completion_reason ∷ synthesizer_header_voice_gender
    ∷ synthesizer_header_voice_age ∷ synthesizer_header_voice_variant
    ∷ synthesizer_header_voice_name ∷ synthesizer_header_prosody_volume
    ∷ synthesizer_header_prosody_rate ∷ synthesizer_header_speech_marker
    ∷ synthesizer_header_speech_language ∷ synthesizer_header_fetch_hint
    ∷ synthesizer_header_audio_fetch_hint ∷ synthesizer_header_failed_uri
    ∷ synthesizer_header_failed_uri_cause ∷ synthesizer_header_speak_restart
    ∷ synthesizer_header_speak_length ∷ synthesizer_header_load_lexicon
    ∷ synthesizer_header_lexicon_search_order ∷ []

pub get_elem?-synthesizer_header_id_number :
    (id : SynthesizerHeaderId)
    → get_elem? synthesizer_fields (synthesizer_header_id_number id) ≡ some id
unfolding synthesizer_header_id_number
get_elem?-synthesizer_header_id_number synthesizer_header_jump_size = refl
get_elem?-synthesizer_header_id_number synthesizer_header_kill_on_barge_in = refl
get_elem?-synthesizer_header_id_number synthesizer_header_speaker_profile = refl
get_elem?-synthesizer_header_id_number synthesizer_header_completion_cause = refl
get_elem?-synthesizer_header_id_number synthesizer_header_completion_reason = refl
get_elem?-synthesizer_header_id_number synthesizer_header_voice_gender = refl
get_elem?-synthesizer_header_id_number synthesizer_header_voice_age = refl
get_elem?-synthesizer_header_id_number synthesizer_header_voice_variant = refl
get_elem?-synthesizer_header_id_number synthesizer_header_voice_name = refl
get_elem?-synthesizer_header_id_number synthesizer_header_prosody_volume = refl
get_elem?-synthesizer_header_id_number synthesizer_header_prosody_rate = refl
get_elem?-synthesizer_header_id_number synthesizer_header_speech_marker = refl
get_elem?-synthesizer_header_id_number synthesizer_header_speech_language = refl
get_elem?-synthesizer_header_id_number synthesizer_header_fetch_hint = refl
get_elem?-synthesizer_header_id_number synthesizer_header_audio_fetch_hint = refl
get_elem?-synthesizer_header_id_number synthesizer_header_failed_uri = refl
get_elem?-synthesizer_header_id_number synthesizer_header_failed_uri_cause = refl
get_elem?-synthesizer_header_id_number synthesizer_header_speak_restart = refl
get_elem?-synthesizer_header_id_number synthesizer_header_speak_length = refl
get_elem?-synthesizer_header_id_number synthesizer_header_load_lexicon = refl
get_elem?-synthesizer_header_id_number synthesizer_header_lexicon_search_order = refl
