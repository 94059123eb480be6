-- ===== src/Context/Message.antt =====
-- The messages to the media engine of mpf/mpf_message.go, and the results of the jitter buffer of
-- mpf/mpf_jitter_buffer.go, whose functions have no body.
use go_mrcp.Prelude.{ℕ, List, Option}

abbrev max_message_count : ℕ
max_message_count = 5

data MediaMessageType : Type 0 where
  media_message_type_request : MediaMessageType
  media_message_type_response : MediaMessageType
  media_message_type_event : MediaMessageType

unfoldable media_message_type_number : MediaMessageType → ℕ
media_message_type_number media_message_type_request = 0
media_message_type_number media_message_type_response = 1
media_message_type_number media_message_type_event = 2

data MediaStatusCode : Type 0 where
  media_status_code_success : MediaStatusCode
  media_status_code_failure : MediaStatusCode

unfoldable media_status_code_number : MediaStatusCode → ℕ
media_status_code_number media_status_code_success = 0
media_status_code_number media_status_code_failure = 1

data CommandType : Type 0 where
  add_termination : CommandType
  modify_termination : CommandType
  subtract_termination : CommandType
  add_association : CommandType
  remove_association : CommandType
  reset_associations : CommandType
  apply_topology : CommandType
  destroy_topology : CommandType

unfoldable command_type_number : CommandType → ℕ
command_type_number add_termination = 0
command_type_number modify_termination = 1
command_type_number subtract_termination = 2
command_type_number add_association = 3
command_type_number remove_association = 4
command_type_number reset_associations = 5
command_type_number apply_topology = 6
command_type_number destroy_topology = 7

-- The context and the terminations are known by number; the descriptor is left open.
record MediaMessage (Descriptor : Type 0) : Type 0 where
  message_type : MediaMessageType
  command_id : CommandType
  status_code : MediaStatusCode
  context : Option ℕ
  termination : Option ℕ
  assoc_termination : Option ℕ
  descriptor : Option Descriptor

-- `messages` has `max_message_count` elements, of which `count` are in use.
record MessageContainer (Descriptor : Type 0) : Type 0 where
  count : ℕ
  messages : List (MediaMessage Descriptor)

data JbResult : Type 0 where
  jb_ok : JbResult
  jb_discard_not_alligned : JbResult
  jb_discard_too_late : JbResult
  jb_discard_too_early : JbResult

unfoldable jb_result_number : JbResult → ℕ
jb_result_number jb_ok = 0
jb_result_number jb_discard_not_alligned = 1
jb_result_number jb_discard_too_late = 2
jb_result_number jb_discard_too_early = 3
