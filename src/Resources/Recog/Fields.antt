-- ===== src/Resources/Recog/Fields.antt =====
-- The header fields of mrcp/resources/mrcp_recog.go with their numbers.
use go_mrcp.Prelude.{ℕ, ◌≡◌, refl, List, [], ◌∷◌, some, get_elem?}

pub data RecognizerHeaderId : Type 0 where
  recognizer_header_confidence_threshold : RecognizerHeaderId
  recognizer_header_sensitivity_level : RecognizerHeaderId
  recognizer_header_speed_vs_accuracy : RecognizerHeaderId
  recognizer_header_n_best_list_length : RecognizerHeaderId
  recognizer_header_no_input_timeout : RecognizerHeaderId
  recognizer_header_recognition_timeout : RecognizerHeaderId
  recognizer_header_waveform_uri : RecognizerHeaderId
  recognizer_header_completion_cause : RecognizerHeaderId
  recognizer_header_recognizer_context_block : RecognizerHeaderId
  recognizer_header_start_input_timers : RecognizerHeaderId
  recognizer_header_speech_complete_timeout : RecognizerHeaderId
  recognizer_header_speech_incomplete_timeout : RecognizerHeaderId
  recognizer_header_dtmf_interdigit_timeout : RecognizerHeaderId
  recognizer_header_dtmf_term_timeout : RecognizerHeaderId
  recognizer_header_dtmf_term_char : RecognizerHeaderId
  recognizer_header_failed_uri : RecognizerHeaderId
  recognizer_header_failed_uri_cause : RecognizerHeaderId
  recognizer_header_save_waveform : RecognizerHeaderId
  recognizer_header_new_audio_channel : RecognizerHeaderId
  recognizer_header_speech_language : RecognizerHeaderId
  recognizer_header_input_type : RecognizerHeaderId
  recognizer_header_input_waveform_uri : RecognizerHeaderId
  recognizer_header_completion_reason : RecognizerHeaderId
  recognizer_header_media_type : RecognizerHeaderId
  recognizer_header_ver_buffer_utterance : RecognizerHeaderId
  recognizer_header_recognition_mode : RecognizerHeaderId
  recognizer_header_cancel_if_queue : RecognizerHeaderId
  recognizer_header_hotword_max_duration : RecognizerHeaderId
  recognizer_header_hotword_min_duration : RecognizerHeaderId
  recognizer_header_interpret_text : RecognizerHeaderId
  recognizer_header_dtmf_buffer_time : RecognizerHeaderId
  recognizer_header_clear_dtmf_buffer : RecognizerHeaderId
  recognizer_header_early_no_match : RecognizerHeaderId
  recognizer_header_num_min_consistent_pronunciations : RecognizerHeaderId
  recognizer_header_consistency_threshold : RecognizerHeaderId
  recognizer_header_clash_threshold : RecognizerHeaderId
  recognizer_header_personal_grammar_uri : RecognizerHeaderId
  recognizer_header_enroll_utterance : RecognizerHeaderId
  recognizer_header_phrase_id : RecognizerHeaderId
  recognizer_header_phrase_nl : RecognizerHeaderId
  recognizer_header_weight : RecognizerHeaderId
  recognizer_header_save_best_waveform : RecognizerHeaderId
  recognizer_header_new_phrase_id : RecognizerHeaderId
  recognizer_header_confusable_phrases_uri : RecognizerHeaderId
  recognizer_header_abort_phrase_enrollment : RecognizerHeaderId

unfoldable pub recognizer_header_id_number : RecognizerHeaderId → ℕ
recognizer_header_id_number recognizer_header_confidence_threshold = 0
recognizer_header_id_number recognizer_header_sensitivity_level = 1
recognizer_header_id_number recognizer_header_speed_vs_accuracy = 2
recognizer_header_id_number recognizer_header_n_best_list_length = 3
recognizer_header_id_number recognizer_header_no_input_timeout = 4
recognizer_header_id_number recognizer_header_recognition_timeout = 5
recognizer_header_id_number recognizer_header_waveform_uri = 6
recognizer_header_id_number recognizer_header_completion_cause = 7
recognizer_header_id_number recognizer_header_recognizer_context_block = 8
recognizer_header_id_number recognizer_header_start_input_timers = 9
recognizer_header_id_number recognizer_header_speech_complete_timeout = 10
recognizer_header_id_number recognizer_header_speech_incomplete_timeout = 11
recognizer_header_id_number recognizer_header_dtmf_interdigit_timeout = 12
recognizer_header_id_number recognizer_header_dtmf_term_timeout = 13
recognizer_header_id_number recognizer_header_dtmf_term_char = 14
recognizer_header_id_number recognizer_header_failed_uri = 15
recognizer_header_id_number recognizer_header_failed_uri_cause = 16
recognizer_header_id_number recognizer_header_save_waveform = 17
recognizer_header_id_number recognizer_header_new_audio_channel = 18
recognizer_header_id_number recognizer_header_speech_language = 19
recognizer_header_id_number recognizer_header_input_type = 20
recognizer_header_id_number recognizer_header_input_waveform_uri = 21
recognizer_header_id_number recognizer_header_completion_reason = 22
recognizer_header_id_number recognizer_header_media_type = 23
recognizer_header_id_number recognizer_header_ver_buffer_utterance = 24
recognizer_header_id_number recognizer_header_recognition_mode = 25
recognizer_header_id_number recognizer_header_cancel_if_queue = 26
recognizer_header_id_number recognizer_header_hotword_max_duration = 27
recognizer_header_id_number recognizer_header_hotword_min_duration = 28
recognizer_header_id_number recognizer_header_interpret_text = 29
recognizer_header_id_number recognizer_header_dtmf_buffer_time = 30
recognizer_header_id_number recognizer_header_clear_dtmf_buffer = 31
recognizer_header_id_number recognizer_header_early_no_match = 32
recognizer_header_id_number recognizer_header_num_min_consistent_pronunciations = 33
recognizer_header_id_number recognizer_header_consistency_threshold = 34
recognizer_header_id_number recognizer_header_clash_threshold = 35
recognizer_header_id_number recognizer_header_personal_grammar_uri = 36
recognizer_header_id_number recognizer_header_enroll_utterance = 37
recognizer_header_id_number recognizer_header_phrase_id = 38
recognizer_header_id_number recognizer_header_phrase_nl = 39
recognizer_header_id_number recognizer_header_weight = 40
recognizer_header_id_number recognizer_header_save_best_waveform = 41
recognizer_header_id_number recognizer_header_new_phrase_id = 42
recognizer_header_id_number recognizer_header_confusable_phrases_uri = 43
recognizer_header_id_number recognizer_header_abort_phrase_enrollment = 44

abbrev recognizer_header_count : ℕ
recognizer_header_count = 45

-- All of them, in the order of their numbers.
abbrev pub recognizer_fields : List RecognizerHeaderId
recognizer_fields =
    recognizer_header_confidence_threshold ∷ recognizer_header_sensitivity_level
    ∷ recognizer_header_speed_vs_accuracy ∷ recognizer_header_n_best_list_length
    ∷ recognizer_header_no_input_timeout ∷ recognizer_header_recognition_timeout
    ∷ recognizer_header_waveform_uri ∷ recognizer_header_completion_cause
    ∷ recognizer_header_recognizer_context_block ∷ recognizer_header_start_input_timers
    ∷ recognizer_header_speech_complete_timeout ∷ recognizer_header_speech_incomplete_timeout
    ∷ recognizer_header_dtmf_interdigit_timeout ∷ recognizer_header_dtmf_term_timeout
    ∷ recognizer_header_dtmf_term_char ∷ recognizer_header_failed_uri
    ∷ recognizer_header_failed_uri_cause ∷ recognizer_header_save_waveform
    ∷ recognizer_header_new_audio_channel ∷ recognizer_header_speech_language
    ∷ recognizer_header_input_type ∷ recognizer_header_input_waveform_uri
    ∷ recognizer_header_completion_reason ∷ recognizer_header_media_type
    ∷ recognizer_header_ver_buffer_utterance ∷ recognizer_header_recognition_mode
    ∷ recognizer_header_cancel_if_queue ∷ recognizer_header_hotword_max_duration
    ∷ recognizer_header_hotword_min_duration ∷ recognizer_header_interpret_text
    ∷ recognizer_header_dtmf_buffer_time ∷ recognizer_header_clear_dtmf_buffer
    ∷ recognizer_header_early_no_match ∷ recognizer_header_num_min_consistent_pronunciations
    ∷ recognizer_header_consistency_threshold ∷ recognizer_header_clash_threshold
    ∷ recognizer_header_personal_grammar_uri ∷ recognizer_header_enroll_utterance
    ∷ recognizer_header_phrase_id ∷ recognizer_header_phrase_nl ∷ recognizer_header_weight
    ∷ recognizer_header_save_best_waveform ∷ recognizer_header_new_phrase_id
    ∷ recognizer_header_confusable_phrases_uri ∷ recognizer_header_abort_phrase_enrollment ∷ []

pub get_elem?-recognizer_header_id_number :
    (id : RecognizerHeaderId)
    → get_elem? recognizer_fields (recognizer_header_id_number id) ≡ some id
unfolding recognizer_header_id_number
get_elem?-recognizer_header_id_number recognizer_header_confidence_threshold = refl
get_elem?-recognizer_header_id_number recognizer_header_sensitivity_level = refl
get_elem?-recognizer_header_id_number recognizer_header_speed_vs_accuracy = refl
get_elem?-recognizer_header_id_number recognizer_header_n_best_list_length = refl
get_elem?-recognizer_header_id_number recognizer_header_no_input_timeout = refl
get_elem?-recognizer_header_id_number recognizer_header_recognition_timeout = refl
get_elem?-recognizer_header_id_number recognizer_header_waveform_uri = refl
get_elem?-recognizer_header_id_number recognizer_header_completion_cause = refl
get_elem?-recognizer_header_id_number recognizer_header_recognizer_context_block = refl
get_elem?-recognizer_header_id_number recognizer_header_start_input_timers = refl
get_elem?-recognizer_header_id_number recognizer_header_speech_complete_timeout = refl
get_elem?-recognizer_header_id_number recognizer_header_speech_incomplete_timeout = refl
get_elem?-recognizer_header_id_number recognizer_header_dtmf_interdigit_timeout = refl
get_elem?-recognizer_header_id_number recognizer_header_dtmf_term_timeout = refl
get_elem?-recognizer_header_id_number recognizer_header_dtmf_term_char = refl
get_elem?-recognizer_header_id_number recognizer_header_failed_uri = refl
get_elem?-recognizer_header_id_number recognizer_header_failed_uri_cause = refl
get_elem?-recognizer_header_id_number recognizer_header_save_waveform = refl
get_elem?-recognizer_header_id_number recognizer_header_new_audio_channel = refl
get_elem?-recognizer_header_id_number recognizer_header_speech_language = refl
get_elem?-recognizer_header_id_number recognizer_header_input_type = refl
get_elem?-recognizer_header_id_number recognizer_header_input_waveform_uri = refl
get_elem?-recognizer_header_id_number recognizer_header_completion_reason = refl
get_elem?-recognizer_header_id_number recognizer_header_media_type = refl
get_elem?-recognizer_header_id_number recognizer_header_ver_buffer_utterance = refl
get_elem?-recognizer_header_id_number recognizer_header_recognition_mode = refl
get_elem?-recognizer_header_id_number recognizer_header_cancel_if_queue = refl
get_elem?-recognizer_header_id_number recognizer_header_hotword_max_duration = refl
get_elem?-recognizer_header_id_number recognizer_header_hotword_min_duration = refl
get_elem?-recognizer_header_id_number recognizer_header_interpret_text = refl
get_elem?-recognizer_header_id_number recognizer_header_dtmf_buffer_time = refl
get_elem?-recognizer_header_id_number recognizer_header_clear_dtmf_buffer = refl
get_elem?-recognizer_header_id_number recognizer_header_early_no_match = refl
get_elem?-recognizer_header_id_number recognizer_header_num_min_consistent_pronunciations = refl
get_elem?-recognizer_header_id_number recognizer_header_consistency_threshold = refl
get_elem?-recognizer_header_id_number recognizer_header_clash_threshold = refl
get_elem?-recognizer_header_id_number recognizer_header_personal_grammar_uri = refl
get_elem?-recognizer_header_id_number recognizer_header_enroll_utterance = refl
get_elem?-recognizer_header_id_number recognizer_header_phrase_id = refl
get_elem?-recognizer_header_id_number recognizer_header_phrase_nl = refl
get_elem?-recognizer_header_id_number recognizer_header_weight = refl
get_elem?-recognizer_header_id_number recognizer_header_save_best_waveform = refl
get_elem?-recognizer_header_id_number recognizer_header_new_phrase_id = refl
get_elem?-recognizer_header_id_number recognizer_header_confusable_phrases_uri = refl
get_elem?-recognizer_header_id_number recognizer_header_abort_phrase_enrollment = refl
