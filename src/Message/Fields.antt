-- ===== src/Message/Fields.antt =====
-- The generic header fields of mrcp/message/header/mrcp_generic_header.go with their numbers.
use go_mrcp.Prelude.{ℕ, ◌<◌, arith}

pub data GenericHeaderId : Type 0 where
  generic_header_active_request_id_list : GenericHeaderId
  generic_header_proxy_sync_id : GenericHeaderId
  generic_header_accept_charset : GenericHeaderId
  generic_header_content_type : GenericHeaderId
  generic_header_content_id : GenericHeaderId
  generic_header_content_base : GenericHeaderId
  generic_header_content_encoding : GenericHeaderId
  generic_header_content_location : GenericHeaderId
  generic_header_content_length : GenericHeaderId
  generic_header_cache_control : GenericHeaderId
  generic_header_logging_tag : GenericHeaderId
  generic_header_vendor_specific_params : GenericHeaderId
  generic_header_accept : GenericHeaderId
  generic_header_fetch_timeout : GenericHeaderId
  generic_header_set_cookie : GenericHeaderId
  generic_header_set_cookie2 : GenericHeaderId

unfoldable pub generic_header_id_number : GenericHeaderId → ℕ
generic_header_id_number generic_header_active_request_id_list = 0
generic_header_id_number generic_header_proxy_sync_id = 1
generic_header_id_number generic_header_accept_charset = 2
generic_header_id_number generic_header_content_type = 3
generic_header_id_number generic_header_content_id = 4
generic_header_id_number generic_header_content_base = 5
generic_header_id_number generic_header_content_encoding = 6
generic_header_id_number generic_header_content_location = 7
generic_header_id_number generic_header_content_length = 8
generic_header_id_number generic_header_cache_control = 9
generic_header_id_number generic_header_logging_tag = 10
generic_header_id_number generic_header_vendor_specific_params = 11
generic_header_id_number generic_header_accept = 12
generic_header_id_number generic_header_fetch_timeout = 13
generic_header_id_number generic_header_set_cookie = 14
generic_header_id_number generic_header_set_cookie2 = 15

pub generic_header_id_number-lt : (id : GenericHeaderId) → generic_header_id_number id < 16
unfolding generic_header_id_number
generic_header_id_number-lt generic_header_active_request_id_list = omega arith
generic_header_id_number-lt generic_header_proxy_sync_id = omega arith
generic_header_id_number-lt generic_header_accept_charset = omega arith
generic_header_id_number-lt generic_header_content_type = omega arith
generic_header_id_number-lt generic_header_content_id = omega arith
generic_header_id_number-lt generic_header_content_base = omega arith
generic_header_id_number-lt generic_header_content_encoding = omega arith
generic_header_id_number-lt generic_header_content_location = omega arith
generic_header_id_number-lt generic_header_content_length = omega arith
generic_header_id_number-lt generic_header_cache_control = omega arith
generic_header_id_number-lt generic_header_logging_tag = omega arith
generic_header_id_number-lt generic_header_vendor_specific_params = omega arith
generic_header_id_number-lt generic_header_accept = omega arith
generic_header_id_number-lt generic_header_fetch_timeout = omega arith
generic_header_id_number-lt generic_header_set_cookie = omega arith
generic_header_id_number-lt generic_header_set_cookie2 = omega arith
