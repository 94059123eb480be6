-- ===== src/Message/Types.antt =====
-- The enumerations of mrcp/types.go and mrcp/message/constant.go and the start line of
-- mrcp/message/mrcp_start_line.go, whose functions return nil without a change.
use go_mrcp.Prelude.{ℕ}
use go_mrcp.Prelude.Int.{ℤ}
use go_mrcp.Prelude.Text.{Text}

pub data Version : Type 0 where
  version_unknown : Version
  version_1 : Version
  version_2 : Version

unfoldable version_number : Version → ℕ
version_number version_unknown = 0
version_number version_1 = 1
version_number version_2 = 2

pub data ResourceType : Type 0 where
  synthesizer_resource : ResourceType
  recognizer_resource : ResourceType
  recorder_resource : ResourceType
  verifier_resource : ResourceType

unfoldable resource_type_number : ResourceType → ℕ
resource_type_number synthesizer_resource = 0
resource_type_number recognizer_resource = 1
resource_type_number recorder_resource = 2
resource_type_number verifier_resource = 3

abbrev resource_type_count : ℕ
resource_type_count = 4

pub data MessageType : Type 0 where
  message_type_unknown : MessageType
  message_type_request : MessageType
  message_type_response : MessageType
  message_type_event : MessageType

unfoldable message_type_number : MessageType → ℕ
message_type_number message_type_unknown = 0
message_type_number message_type_request = 1
message_type_number message_type_response = 2
message_type_number message_type_event = 3

pub data StatusCode : Type 0 where
  status_code_unknown : StatusCode
  status_code_success : StatusCode
  status_code_success_with_ignore : StatusCode
  status_code_method_not_allowed : StatusCode
  status_code_method_not_valid : StatusCode
  status_code_unsupported_param : StatusCode
  status_code_illegal_param_value : StatusCode
  status_code_not_found : StatusCode
  status_code_missing_param : StatusCode
  status_code_method_failed : StatusCode
  status_code_unrecognized_message : StatusCode
  status_code_unsupported_param_value : StatusCode
  status_code_out_of_order : StatusCode
  status_code_resource_specific_failure : StatusCode

unfoldable status_code_number : StatusCode → ℕ
status_code_number status_code_unknown = 0
status_code_number status_code_success = 200
status_code_number status_code_success_with_ignore = 201
status_code_number status_code_method_not_allowed = 401
status_code_number status_code_method_not_valid = 402
status_code_number status_code_unsupported_param = 403
status_code_number status_code_illegal_param_value = 404
status_code_number status_code_not_found = 405
status_code_number status_code_missing_param = 406
status_code_number status_code_method_failed = 407
status_code_number status_code_unrecognized_message = 408
status_code_number status_code_unsupported_param_value = 409
status_code_number status_code_out_of_order = 410
status_code_number status_code_resource_specific_failure = 421

pub data RequestState : Type 0 where
  request_state_complete : RequestState
  request_state_inprogress : RequestState
  request_state_pending : RequestState
  request_state_unknown : RequestState

unfoldable request_state_number : RequestState → ℕ
request_state_number request_state_complete = 0
request_state_number request_state_inprogress = 1
request_state_number request_state_pending = 2
request_state_number request_state_unknown = 3

abbrev request_state_count : ℕ
request_state_count = 3

-- Request identifiers are uint32, method identifiers int64.
pub record StartLine : Type 0 where
  pub message_type : MessageType
  pub version : Version
  pub length : ℤ
  pub request_id : ℕ
  pub method_name : Text
  pub method_id : ℤ
  pub status_code : StatusCode
  pub request_state : RequestState
