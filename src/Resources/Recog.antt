-- ===== src/Resources/Recog.antt =====
-- mrcp/resources/mrcp_recog.go: the methods, the events, the completion causes and the header of the
-- recognizer.
-- The enumerations are int constants in the source. A count is a number beside its data type; an
-- unknown value that is the count is the last constructor.
use go_mrcp.Prelude.{ℕ, Bool, List, [], Option, none}
use go_mrcp.Prelude.Int.{ℤ}
use go_mrcp.Prelude.Text.{Text}
use go_mrcp.Message.Accessor.{HeaderVTable, Resource}
use go_mrcp.Message.Types.{Version}
pub mod Fields

pub data RecognizerCompletionCause : Type 0 where
  recognizer_completion_cause_success : RecognizerCompletionCause
  recognizer_completion_cause_no_match : RecognizerCompletionCause
  recognizer_completion_cause_no_input_timeout : RecognizerCompletionCause
  recognizer_completion_cause_recognition_timeout : RecognizerCompletionCause
  recognizer_completion_cause_gram_load_failure : RecognizerCompletionCause
  recognizer_completion_cause_gram_comp_failure : RecognizerCompletionCause
  recognizer_completion_cause_error : RecognizerCompletionCause
  recognizer_completion_cause_speech_too_early : RecognizerCompletionCause
  recognizer_completion_cause_too_much_speech_timeout : RecognizerCompletionCause
  recognizer_completion_cause_uri_failure : RecognizerCompletionCause
  recognizer_completion_cause_language_unsupported : RecognizerCompletionCause
  recognizer_completion_cause_semantics_failure : RecognizerCompletionCause
  recognizer_completion_cause_partial_match : RecognizerCompletionCause
  recognizer_completion_cause_partial_match_maxtime : RecognizerCompletionCause
  recognizer_completion_cause_no_match_maxtime : RecognizerCompletionCause
  recognizer_completion_cause_gram_definition_failure : RecognizerCompletionCause
  recognizer_completion_cause_cancelled : RecognizerCompletionCause
  recognizer_completion_cause_unknown : RecognizerCompletionCause

unfoldable recognizer_completion_cause_number : RecognizerCompletionCause → ℕ
recognizer_completion_cause_number recognizer_completion_cause_success = 0
recognizer_completion_cause_number recognizer_completion_cause_no_match = 1
recognizer_completion_cause_number recognizer_completion_cause_no_input_timeout = 2
recognizer_completion_cause_number recognizer_completion_cause_recognition_timeout = 3
recognizer_completion_cause_number recognizer_completion_cause_gram_load_failure = 4
recognizer_completion_cause_number recognizer_completion_cause_gram_comp_failure = 5
recognizer_completion_cause_number recognizer_completion_cause_error = 6
recognizer_completion_cause_number recognizer_completion_cause_speech_too_early = 7
recognizer_completion_cause_number recognizer_completion_cause_too_much_speech_timeout = 8
recognizer_completion_cause_number recognizer_completion_cause_uri_failure = 9
recognizer_completion_cause_number recognizer_completion_cause_language_unsupported = 10
recognizer_completion_cause_number recognizer_completion_cause_semantics_failure = 12
recognizer_completion_cause_number recognizer_completion_cause_partial_match = 13
recognizer_completion_cause_number recognizer_completion_cause_partial_match_maxtime = 14
recognizer_completion_cause_number recognizer_completion_cause_no_match_maxtime = 15
recognizer_completion_cause_number recognizer_completion_cause_gram_definition_failure = 16
recognizer_completion_cause_number recognizer_completion_cause_cancelled = 11
recognizer_completion_cause_number recognizer_completion_cause_unknown = 17

abbrev recognizer_completion_cause_count : ℕ
recognizer_completion_cause_count = 17

data RecognizerMethodId : Type 0 where
  recognizer_set_params : RecognizerMethodId
  recognizer_get_params : RecognizerMethodId
  recognizer_define_grammar : RecognizerMethodId
  recognizer_recognize : RecognizerMethodId
  recognizer_interpret : RecognizerMethodId
  recognizer_get_result : RecognizerMethodId
  recognizer_start_input_timers : RecognizerMethodId
  recognizer_stop : RecognizerMethodId
  recognizer_start_phrase_enrollment : RecognizerMethodId
  recognizer_enrollment_rollback : RecognizerMethodId
  recognizer_end_phrase_enrollment : RecognizerMethodId
  recognizer_modify_phrase : RecognizerMethodId
  recognizer_delete_phrase : RecognizerMethodId

unfoldable recognizer_method_id_number : RecognizerMethodId → ℕ
recognizer_method_id_number recognizer_set_params = 0
recognizer_method_id_number recognizer_get_params = 1
recognizer_method_id_number recognizer_define_grammar = 2
recognizer_method_id_number recognizer_recognize = 3
recognizer_method_id_number recognizer_interpret = 4
recognizer_method_id_number recognizer_get_result = 5
recognizer_method_id_number recognizer_start_input_timers = 6
recognizer_method_id_number recognizer_stop = 7
recognizer_method_id_number recognizer_start_phrase_enrollment = 8
recognizer_method_id_number recognizer_enrollment_rollback = 9
recognizer_method_id_number recognizer_end_phrase_enrollment = 10
recognizer_method_id_number recognizer_modify_phrase = 11
recognizer_method_id_number recognizer_delete_phrase = 12

abbrev recognizer_method_count : ℕ
recognizer_method_count = 13

data RecognizerEventId : Type 0 where
  recognizer_start_of_input : RecognizerEventId
  recognizer_recognition_complete : RecognizerEventId
  recognizer_interpretation_complete : RecognizerEventId

unfoldable recognizer_event_id_number : RecognizerEventId → ℕ
recognizer_event_id_number recognizer_start_of_input = 0
recognizer_event_id_number recognizer_recognition_complete = 1
recognizer_event_id_number recognizer_interpretation_complete = 2

abbrev recognizer_event_count : ℕ
recognizer_event_count = 3

-- F is the type of float64.
record RecognizerHeader (F : Type 0) : Type 0 where
  confidence_threshold : F
  sensitivity_level : F
  speed_vs_accuracy : F
  n_best_list_length : ℤ
  no_input_timeout : ℤ
  recognition_timeout : ℤ
  waveform_uri : Text
  completion_cause : RecognizerCompletionCause
  recognizer_context_block : Text
  start_input_timers : Bool
  speech_complete_timeout : ℤ
  speech_incomplete_timeout : ℤ
  dtmf_interdigit_timeout : ℤ
  dtmf_term_timeout : ℤ
  dtmf_term_char : ℕ
  failed_uri : Text
  failed_uri_cause : Text
  save_waveform : Bool
  new_audio_channel : Bool
  speech_language : Text
  input_type : Text
  input_waveform_uri : Text
  completion_reason : Text
  media_type : Text
  ver_buffer_utterance : Bool
  recognition_mode : Text
  cancel_if_queue : Bool
  hot_word_max_duration : ℤ
  hot_word_min_duration : ℤ
  interpret_text : Text
  dtmf_buffer_time : ℤ
  clear_dtmf_buffer : Bool
  early_no_match : Bool
  num_min_consistent_pronunciations : ℤ
  consistency_threshold : F
  clash_threshold : F
  personal_grammar_uri : Text
  enroll_utterance : Bool
  phrase_id : Text
  phrase_nl : Text
  weight : F
  save_best_waveform : Bool
  new_phrase_id : Text
  confusable_phrases_uri : Text
  abort_phrase_enrollment : Bool

-- The three functions return nil, an empty string and nil.
unfoldable recognizer_header_vtable_get :
    {F : Type 0} → Version → Option (HeaderVTable (RecognizerHeader F))
recognizer_header_vtable_get v = none

unfoldable recognizer_completion_cause_get : RecognizerCompletionCause → Version → Text
recognizer_completion_cause_get cause v = []

unfoldable recognizer_resource_create : Option Resource
recognizer_resource_create = none
