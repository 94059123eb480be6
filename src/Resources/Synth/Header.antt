-- ===== src/Resources/Synth/Header.antt =====
-- mrcp/resources/mrcp_synth.go: the methods, the events, the completion causes and the header of the
-- synthesizer.
-- The enumerations are int constants in the source. A count is a number beside its data type; an
-- unknown value that is the count is the last constructor.
use go_mrcp.Prelude.{ℕ, Bool, [], Option, none}
use go_mrcp.Prelude.Text.{Text}
use go_mrcp.Message.Accessor.{HeaderVTable, Resource}
use go_mrcp.Message.Types.{Version}
use go_mrcp.Resources.Synth.{SpeechLengthValue, VoiceParam, ProsodyParam}

data SynthCompletionCause : Type 0 where
  synthesizer_completion_cause_normal : SynthCompletionCause
  synthesizer_completion_cause_barge_in : SynthCompletionCause
  synthesizer_completion_cause_parse_failure : SynthCompletionCause
  synthesizer_completion_cause_uri_failure : SynthCompletionCause
  synthesizer_completion_cause_error : SynthCompletionCause
  synthesizer_completion_cause_language_unsupported : SynthCompletionCause
  synthesizer_completion_cause_lexicon_load_failure : SynthCompletionCause
  synthesizer_completion_cause_cancelled : SynthCompletionCause
  synthesizer_completion_cause_unknown : SynthCompletionCause

unfoldable synth_completion_cause_number : SynthCompletionCause → ℕ
synth_completion_cause_number synthesizer_completion_cause_normal = 0
synth_completion_cause_number synthesizer_completion_cause_barge_in = 1
synth_completion_cause_number synthesizer_completion_cause_parse_failure = 2
synth_completion_cause_number synthesizer_completion_cause_uri_failure = 3
synth_completion_cause_number synthesizer_completion_cause_error = 4
synth_completion_cause_number synthesizer_completion_cause_language_unsupported = 5
synth_completion_cause_number synthesizer_completion_cause_lexicon_load_failure = 6
synth_completion_cause_number synthesizer_completion_cause_cancelled = 7
synth_completion_cause_number synthesizer_completion_cause_unknown = 8

abbrev synthesizer_completion_cause_count : ℕ
synthesizer_completion_cause_count = 8

data SynthesizerMethodId : Type 0 where
  synthesizer_set_params : SynthesizerMethodId
  synthesizer_get_params : SynthesizerMethodId
  synthesizer_speak : SynthesizerMethodId
  synthesizer_stop : SynthesizerMethodId
  synthesizer_pause : SynthesizerMethodId
  synthesizer_resume : SynthesizerMethodId
  synthesizer_barge_in_occurred : SynthesizerMethodId
  synthesizer_control : SynthesizerMethodId
  synthesizer_define_lexicon : SynthesizerMethodId

unfoldable synthesizer_method_id_number : SynthesizerMethodId → ℕ
synthesizer_method_id_number synthesizer_set_params = 0
synthesizer_method_id_number synthesizer_get_params = 1
synthesizer_method_id_number synthesizer_speak = 2
synthesizer_method_id_number synthesizer_stop = 3
synthesizer_method_id_number synthesizer_pause = 4
synthesizer_method_id_number synthesizer_resume = 5
synthesizer_method_id_number synthesizer_barge_in_occurred = 6
synthesizer_method_id_number synthesizer_control = 7
synthesizer_method_id_number synthesizer_define_lexicon = 8

abbrev synthesizer_method_count : ℕ
synthesizer_method_count = 9

data SynthesizerEventId : Type 0 where
  synthesizer_speech_marker : SynthesizerEventId
  synthesizer_speak_complete : SynthesizerEventId

unfoldable synthesizer_event_id_number : SynthesizerEventId → ℕ
synthesizer_event_id_number synthesizer_speech_marker = 0
synthesizer_event_id_number synthesizer_speak_complete = 1

abbrev synthesizer_event_count : ℕ
synthesizer_event_count = 2

-- F is the type of float64.
record SynthHeader (F : Type 0) : Type 0 where
  jump_size : SpeechLengthValue
  kill_on_barge_in : Bool
  speaker_profile : Text
  completion_cause : SynthCompletionCause
  completion_reason : Text
  voice_param : VoiceParam
  prosody_param : ProsodyParam F
  speech_marker : Text
  speech_language : Text
  fetch_hint : Text
  audio_fetch_hint : Text
  failed_uri : Text
  failed_uri_cause : Text
  speak_restart : Bool
  speak_length : SpeechLengthValue
  load_lexicon : Bool
  lexicon_search_order : Text

-- The three functions return nil, an empty string and nil.
unfoldable synth_header_vtable_get : {F : Type 0} → Version → Option (HeaderVTable (SynthHeader F))
synth_header_vtable_get v = none

unfoldable synth_completion_cause_get : SynthCompletionCause → Version → Text
synth_completion_cause_get cause v = []

unfoldable synth_resource_create : Option Resource
synth_resource_create = none
