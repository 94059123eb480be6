-- ===== src/Resources/Verifier/Fields.antt =====
-- The header fields of mrcp/resources/mrcp_verifier.go with their numbers.
use go_mrcp.Prelude.{ℕ, ◌≡◌, refl, List, [], ◌∷◌, some, get_elem?}

pub data VerifierHeaderId : Type 0 where
  verifier_header_repository_uri_string : VerifierHeaderId
  verifier_header_voiceprint_identifier_string : VerifierHeaderId
  verifier_header_verification_mode_string : VerifierHeaderId
  verifier_header_adapt_model_string : VerifierHeaderId
  verifier_header_abort_model_string : VerifierHeaderId
  verifier_header_min_verification_score_string : VerifierHeaderId
  verifier_header_num_min_verification_phrases_string : VerifierHeaderId
  verifier_header_num_max_verification_phrases_string : VerifierHeaderId
  verifier_header_no_input_timeout_string : VerifierHeaderId
  verifier_header_save_waveform_string : VerifierHeaderId
  verifier_header_media_type_string : VerifierHeaderId
  verifier_header_waveform_uri_string : VerifierHeaderId
  verifier_header_voiceprint_exists_string : VerifierHeaderId
  verifier_header_ver_buffer_utterance_string : VerifierHeaderId
  verifier_header_input_waveform_uri_string : VerifierHeaderId
  verifier_header_completion_cause_string : VerifierHeaderId
  verifier_header_completion_reason_string : VerifierHeaderId
  verifier_header_speech_complete_timeout_string : VerifierHeaderId
  verifier_header_new_audio_channel_string : VerifierHeaderId
  verifier_header_abort_verification_string : VerifierHeaderId
  verifier_header_start_input_timers_string : VerifierHeaderId

unfoldable pub verifier_header_id_number : VerifierHeaderId → ℕ
verifier_header_id_number verifier_header_repository_uri_string = 0
verifier_header_id_number verifier_header_voiceprint_identifier_string = 1
verifier_header_id_number verifier_header_verification_mode_string = 2
verifier_header_id_number verifier_header_adapt_model_string = 3
verifier_header_id_number verifier_header_abort_model_string = 4
verifier_header_id_number verifier_header_min_verification_score_string = 5
verifier_header_id_number verifier_header_num_min_verification_phrases_string = 6
verifier_header_id_number verifier_header_num_max_verification_phrases_string = 7
verifier_header_id_number verifier_header_no_input_timeout_string = 8
verifier_header_id_number verifier_header_save_waveform_string = 9
verifier_header_id_number verifier_header_media_type_string = 10
verifier_header_id_number verifier_header_waveform_uri_string = 11
verifier_header_id_number verifier_header_voiceprint_exists_string = 12
verifier_header_id_number verifier_header_ver_buffer_utterance_string = 13
verifier_header_id_number verifier_header_input_waveform_uri_string = 14
verifier_header_id_number verifier_header_completion_cause_string = 15
verifier_header_id_number verifier_header_completion_reason_string = 16
verifier_header_id_number verifier_header_speech_complete_timeout_string = 17
verifier_header_id_number verifier_header_new_audio_channel_string = 18
verifier_header_id_number verifier_header_abort_verification_string = 19
verifier_header_id_number verifier_header_start_input_timers_string = 20

abbrev verifier_header_count : ℕ
verifier_header_count = 21

-- All of them, in the order of their numbers.
abbrev pub verifier_fields : List VerifierHeaderId
verifier_fields =
    verifier_header_repository_uri_string ∷ verifier_header_voiceprint_identifier_string
    ∷ verifier_header_verification_mode_string ∷ verifier_header_adapt_model_string
    ∷ verifier_header_abort_model_string ∷ verifier_header_min_verification_score_string
    ∷ verifier_header_num_min_verification_phrases_string
    ∷ verifier_header_num_max_verification_phrases_string ∷ verifier_header_no_input_timeout_string
    ∷ verifier_header_save_waveform_string ∷ verifier_header_media_type_string
    ∷ verifier_header_waveform_uri_string ∷ verifier_header_voiceprint_exists_string
    ∷ verifier_header_ver_buffer_utterance_string ∷ verifier_header_input_waveform_uri_string
    ∷ verifier_header_completion_cause_string ∷ verifier_header_completion_reason_string
    ∷ verifier_header_speech_complete_timeout_string ∷ verifier_header_new_audio_channel_string
    ∷ verifier_header_abort_verification_string ∷ verifier_header_start_input_timers_string ∷ []

pub get_elem?-verifier_header_id_number :
    (id : VerifierHeaderId) → get_elem? verifier_fields (verifier_header_id_number id) ≡ some id
unfolding verifier_header_id_number
get_elem?-verifier_header_id_number verifier_header_repository_uri_string = refl
get_elem?-verifier_header_id_number verifier_header_voiceprint_identifier_string = refl
get_elem?-verifier_header_id_number verifier_header_verification_mode_string = refl
get_elem?-verifier_header_id_number verifier_header_adapt_model_string = refl
get_elem?-verifier_header_id_number verifier_header_abort_model_string = refl
get_elem?-verifier_header_id_number verifier_header_min_verification_score_string = refl
get_elem?-verifier_header_id_number verifier_header_num_min_verification_phrases_string = refl
get_elem?-verifier_header_id_number verifier_header_num_max_verification_phrases_string = refl
get_elem?-verifier_header_id_number verifier_header_no_input_timeout_string = refl
get_elem?-verifier_header_id_number verifier_header_save_waveform_string = refl
get_elem?-verifier_header_id_number verifier_header_media_type_string = refl
get_elem?-verifier_header_id_number verifier_header_waveform_uri_string = refl
get_elem?-verifier_header_id_number verifier_header_voiceprint_exists_string = refl
get_elem?-verifier_header_id_number verifier_header_ver_buffer_utterance_string = refl
get_elem?-verifier_header_id_number verifier_header_input_waveform_uri_string = refl
get_elem?-verifier_header_id_number verifier_header_completion_cause_string = refl
get_elem?-verifier_header_id_number verifier_header_completion_reason_string = refl
get_elem?-verifier_header_id_number verifier_header_speech_complete_timeout_string = refl
get_elem?-verifier_header_id_number verifier_header_new_audio_channel_string = refl
get_elem?-verifier_header_id_number verifier_header_abort_verification_string = refl
get_elem?-verifier_header_id_number verifier_header_start_input_timers_string = refl
