-- ===== src/Resources/Recorder/Fields.antt =====
-- The header fields of mrcp/resources/mrcp_recorder.go with their numbers.
use go_mrcp.Prelude.{ℕ, ◌≡◌, refl, List, [], ◌∷◌, some, get_elem?}

pub data RecorderHeaderId : Type 0 where
  recorder_header_sensitivity_level : RecorderHeaderId
  recorder_header_no_input_timeout : RecorderHeaderId
  recorder_header_completion_cause : RecorderHeaderId
  recorder_header_completion_reason : RecorderHeaderId
  recorder_header_failed_uri : RecorderHeaderId
  recorder_header_failed_uri_cause : RecorderHeaderId
  recorder_header_record_uri : RecorderHeaderId
  recorder_header_media_type : RecorderHeaderId
  recorder_header_max_time : RecorderHeaderId
  recorder_header_trim_length : RecorderHeaderId
  recorder_header_final_silence : RecorderHeaderId
  recorder_header_capture_on_speech : RecorderHeaderId
  recorder_header_ver_buffer_utterance : RecorderHeaderId
  recorder_header_start_input_timers : RecorderHeaderId
  recorder_header_new_audio_channel : RecorderHeaderId

unfoldable pub recorder_header_id_number : RecorderHeaderId → ℕ
recorder_header_id_number recorder_header_sensitivity_level = 0
recorder_header_id_number recorder_header_no_input_timeout = 1
recorder_header_id_number recorder_header_completion_cause = 2
recorder_header_id_number recorder_header_completion_reason = 3
recorder_header_id_number recorder_header_failed_uri = 4
recorder_header_id_number recorder_header_failed_uri_cause = 5
recorder_header_id_number recorder_header_record_uri = 6
recorder_header_id_number recorder_header_media_type = 7
recorder_header_id_number recorder_header_max_time = 8
recorder_header_id_number recorder_header_trim_length = 9
recorder_header_id_number recorder_header_final_silence = 10
recorder_header_id_number recorder_header_capture_on_speech = 11
recorder_header_id_number recorder_header_ver_buffer_utterance = 12
recorder_header_id_number recorder_header_start_input_timers = 13
recorder_header_id_number recorder_header_new_audio_channel = 14

abbrev recorder_header_count : ℕ
recorder_header_count = 15

-- All of them, in the order of their numbers.
abbrev pub recorder_fields : List RecorderHeaderId
recorder_fields =
    recorder_header_sensitivity_level ∷ recorder_header_no_input_timeout
    ∷ recorder_header_completion_cause ∷ recorder_header_completion_reason
    ∷ recorder_header_failed_uri ∷ recorder_header_failed_uri_cause ∷ recorder_header_record_uri
    ∷ recorder_header_media_type ∷ recorder_header_max_time ∷ recorder_header_trim_length
    ∷ recorder_header_final_silence ∷ recorder_header_capture_on_speech
    ∷ recorder_header_ver_buffer_utterance ∷ recorder_header_start_input_timers
    ∷ recorder_header_new_audio_channel ∷ []

pub get_elem?-recorder_header_id_number :
    (id : RecorderHeaderId) → get_elem? recorder_fields (recorder_header_id_number id) ≡ some id
unfolding recorder_header_id_number
get_elem?-recorder_header_id_number recorder_header_sensitivity_level = refl
get_elem?-recorder_header_id_number recorder_header_no_input_timeout = refl
get_elem?-recorder_header_id_number recorder_header_completion_cause = refl
get_elem?-recorder_header_id_number recorder_header_completion_reason = refl
get_elem?-recorder_header_id_number recorder_header_failed_uri = refl
get_elem?-recorder_header_id_number recorder_header_failed_uri_cause = refl
get_elem?-recorder_header_id_number recorder_header_record_uri = refl
get_elem?-recorder_header_id_number recorder_header_media_type = refl
get_elem?-recorder_header_id_number recorder_header_max_time = refl
get_elem?-recorder_header_id_number recorder_header_trim_length = refl
get_elem?-recorder_header_id_number recorder_header_final_silence = refl
get_elem?-recorder_header_id_number recorder_header_capture_on_speech = refl
get_elem?-recorder_header_id_number recorder_header_ver_buffer_utterance = refl
get_elem?-recorder_header_id_number recorder_header_start_input_timers = refl
get_elem?-recorder_header_id_number recorder_header_new_audio_channel = refl
