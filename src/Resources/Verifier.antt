-- ===== src/Resources/Verifier.antt =====
-- mrcp/resources/mrcp_verifier.go: the methods, the events, the completion causes and the header of the
-- verifier.
-- The enumerations are int constants in the source. A count is a number beside its data type; an
-- unknown value that is the count is the last constructor.
use go_mrcp.Prelude.{ℕ, Bool, List, [], Option, none}
use go_mrcp.Prelude.Int.{ℤ}
use go_mrcp.Prelude.Text.{Text}
use go_mrcp.Message.Accessor.{HeaderVTable, Resource}
use go_mrcp.Message.Types.{Version}
pub mod Fields

data VerifierCompletionCause : Type 0 where
  verifier_completion_cause_success : VerifierCompletionCause
  verifier_completion_cause_error : VerifierCompletionCause
  verifier_completion_cause_no_input_timeout : VerifierCompletionCause
  verifier_completion_cause_too_much_speech_timeout : VerifierCompletionCause
  verifier_completion_cause_speech_too_early : VerifierCompletionCause
  verifier_completion_cause_buffer_empty : VerifierCompletionCause
  verifier_completion_cause_out_of_sequence : VerifierCompletionCause
  verifier_completion_cause_repository_uri_failure : VerifierCompletionCause
  verifier_completion_cause_repository_uri_missing : VerifierCompletionCause
  verifier_completion_cause_voiceprint_id_missing : VerifierCompletionCause
  verifier_completion_cause_voiceprint_id_not_exist : VerifierCompletionCause
  verifier_completion_cause_speech_not_usable : VerifierCompletionCause
  verifier_completion_cause_unknown : VerifierCompletionCause

unfoldable verifier_completion_cause_number : VerifierCompletionCause → ℕ
verifier_completion_cause_number verifier_completion_cause_success = 0
verifier_completion_cause_number verifier_completion_cause_error = 1
verifier_completion_cause_number verifier_completion_cause_no_input_timeout = 2
verifier_completion_cause_number verifier_completion_cause_too_much_speech_timeout = 3
verifier_completion_cause_number verifier_completion_cause_speech_too_early = 4
verifier_completion_cause_number verifier_completion_cause_buffer_empty = 5
verifier_completion_cause_number verifier_completion_cause_out_of_sequence = 6
verifier_completion_cause_number verifier_completion_cause_repository_uri_failure = 7
verifier_completion_cause_number verifier_completion_cause_repository_uri_missing = 8
verifier_completion_cause_number verifier_completion_cause_voiceprint_id_missing = 9
verifier_completion_cause_number verifier_completion_cause_voiceprint_id_not_exist = 10
verifier_completion_cause_number verifier_completion_cause_speech_not_usable = 11
verifier_completion_cause_number verifier_completion_cause_unknown = 12

abbrev verifier_completion_cause_count : ℕ
verifier_completion_cause_count = 12

data VerifierMethodId : Type 0 where
  verifier_set_params : VerifierMethodId
  verifier_get_params : VerifierMethodId
  verifier_start_session : VerifierMethodId
  verifier_end_session : VerifierMethodId
  verifier_query_voiceprint : VerifierMethodId
  verifier_delete_voiceprint : VerifierMethodId
  verifier_verify : VerifierMethodId
  verifier_verify_from_buffer : VerifierMethodId
  verifier_verify_rollback : VerifierMethodId
  verifier_stop : VerifierMethodId
  verifier_clear_buffer : VerifierMethodId
  verifier_start_input_timers : VerifierMethodId
  verifier_get_intermidiate_result : VerifierMethodId

unfoldable verifier_method_id_number : VerifierMethodId → ℕ
verifier_method_id_number verifier_set_params = 0
verifier_method_id_number verifier_get_params = 1
verifier_method_id_number verifier_start_session = 2
verifier_method_id_number verifier_end_session = 3
verifier_method_id_number verifier_query_voiceprint = 4
verifier_method_id_number verifier_delete_voiceprint = 5
verifier_method_id_number verifier_verify = 6
verifier_method_id_number verifier_verify_from_buffer = 7
verifier_method_id_number verifier_verify_rollback = 8
verifier_method_id_number verifier_stop = 9
verifier_method_id_number verifier_clear_buffer = 10
verifier_method_id_number verifier_start_input_timers = 11
verifier_method_id_number verifier_get_intermidiate_result = 12

abbrev verifier_method_count : ℕ
verifier_method_count = 13

data VerifierEventId : Type 0 where
  verifier_start_of_input : VerifierEventId
  verifier_verification_complete : VerifierEventId

unfoldable verifier_event_id_number : VerifierEventId → ℕ
verifier_event_id_number verifier_start_of_input = 0
verifier_event_id_number verifier_verification_complete = 1

abbrev verifier_event_count : ℕ
verifier_event_count = 2

-- F is the type of float64.
record VerifierHeader (F : Type 0) : Type 0 where
  repository_uri : Text
  voiceprint_identifier : Text
  verification_mode : Text
  adapt_model : Bool
  abort_model : Bool
  min_verification_score : F
  num_min_verification_phrases : ℤ
  num_max_verification_phrases : ℤ
  no_input_timeout : ℤ
  save_waveform : Bool
  media_type : Text
  waveform_uri : Text
  voiceprint_exists : Bool
  ver_buffer_utterance : Bool
  input_waveform_uri : Text
  completion_cause : VerifierCompletionCause
  completion_reason : Text
  speech_complete_timeout : ℤ
  new_audio_channel : Bool
  abort_verification : Bool
  start_input_timers : Bool

-- The three functions return nil, an empty string and nil.
unfoldable verifier_header_vtable_get :
    {F : Type 0} → Version → Option (HeaderVTable (VerifierHeader F))
verifier_header_vtable_get v = none

unfoldable verifier_completion_cause_get : VerifierCompletionCause → Version → Text
verifier_completion_cause_get cause v = []

unfoldable verifier_resource_create : Option Resource
verifier_resource_create = none
