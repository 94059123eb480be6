-- ===== src/Resources/Recorder.antt =====
-- mrcp/resources/mrcp_recorder.go: the methods, the events, the completion causes and the header of the
-- recorder.
-- The enumerations are int constants in the source. A count is a number beside its data type; an
-- unknown value that is the count is the last constructor.
use go_mrcp.Prelude.{ℕ, Bool, List, [], Option, none}
use go_mrcp.Prelude.Int.{ℤ}
use go_mrcp.Prelude.Text.{Text}
use go_mrcp.Message.Accessor.{HeaderVTable, Resource}
use go_mrcp.Message.Types.{Version}
use go_mrcp.Resources.Recog.{RecognizerCompletionCause}
pub mod Fields

data RecorderCompletionCause : Type 0 where
  recorder_completion_cause_success_silence : RecorderCompletionCause
  recorder_completion_cause_success_maxtime : RecorderCompletionCause
  recorder_completion_cause_no_input_timeout : RecorderCompletionCause
  recorder_completion_cause_uri_failure : RecorderCompletionCause
  recorder_completion_cause_error : RecorderCompletionCause
  recorder_completion_cause_unknown : RecorderCompletionCause

unfoldable recorder_completion_cause_number : RecorderCompletionCause → ℕ
recorder_completion_cause_number recorder_completion_cause_success_silence = 0
recorder_completion_cause_number recorder_completion_cause_success_maxtime = 1
recorder_completion_cause_number recorder_completion_cause_no_input_timeout = 2
recorder_completion_cause_number recorder_completion_cause_uri_failure = 3
recorder_completion_cause_number recorder_completion_cause_error = 4
recorder_completion_cause_number recorder_completion_cause_unknown = 5

abbrev recorder_completion_cause_count : ℕ
recorder_completion_cause_count = 5

data RecorderMethodId : Type 0 where
  recorder_set_params : RecorderMethodId
  recorder_get_params : RecorderMethodId
  recorder_record : RecorderMethodId
  recorder_stop : RecorderMethodId
  recorder_start_input_timers : RecorderMethodId

unfoldable recorder_method_id_number : RecorderMethodId → ℕ
recorder_method_id_number recorder_set_params = 0
recorder_method_id_number recorder_get_params = 1
recorder_method_id_number recorder_record = 2
recorder_method_id_number recorder_stop = 3
recorder_method_id_number recorder_start_input_timers = 4

abbrev recorder_method_count : ℕ
recorder_method_count = 5

data RecorderEventId : Type 0 where
  recorder_start_of_input : RecorderEventId
  recorder_record_complete : RecorderEventId

unfoldable recorder_event_id_number : RecorderEventId → ℕ
recorder_event_id_number recorder_start_of_input = 0
recorder_event_id_number recorder_record_complete = 1

abbrev recorder_event_count : ℕ
recorder_event_count = 2

-- F is the type of float64.
record RecorderHeader (F : Type 0) : Type 0 where
  sensitivity_level : F
  no_input_timeout : ℤ
  completion_cause : RecognizerCompletionCause
  completion_reason : Text
  failed_uri : Text
  failed_uri_cause : Text
  record_uri : Text
  media_type : Text
  max_time : ℤ
  trim_length : ℤ
  final_silence : ℤ
  capture_on_speech : Bool
  ver_buffer_utterance : Bool
  start_input_timers : Bool
  new_audio_channel : Bool

-- The three functions return nil, an empty string and nil.
unfoldable recorder_header_vtable_get :
    {F : Type 0} → Version → Option (HeaderVTable (RecorderHeader F))
recorder_header_vtable_get v = none

unfoldable recorder_completion_cause_get : RecorderCompletionCause → Version → Text
recorder_completion_cause_get cause v = []

unfoldable recorder_resource_create : Option Resource
recorder_resource_create = none
