-- ===== src/Message/Create.antt =====
-- The messages of mrcp/message/mrcp_message.go with their creation, and the functions of it and of
-- mrcp/message/header/mrcp_header.go that return nil without a change. A header section of a message that
-- was created has a nil ring, which no function reaches while the array is empty; the model has an
-- empty one.
use go_mrcp.Prelude.{Bool, true, [], Option, none}
use go_mrcp.Prelude.Int.{ℤ}
use go_mrcp.Prelude.Text.{Text}
use go_mrcp.Message.Header.{HeaderField}
use go_mrcp.Message.Types.{Version, StartLine}
use go_mrcp.Message.Accessor.{
  HeaderVTable, MessageHeader, message_header_init, Resource, resource_create,
}

record ChannelId : Type 0 where
  session_id : Text
  resource_name : Text

-- Generic and ResourceHeader are the types of the two allocated headers.
record Message (Generic ResourceHeader : Type 0) : Type 0 where
  start_line : Option StartLine
  channel_id : ChannelId
  header : MessageHeader Generic ResourceHeader
  body : Text
  resource : Resource

module _ {Generic ResourceHeader : Type 0} where
  unfoldable message_create : Message Generic ResourceHeader
  unfolding message_header_init resource_create
  message_create = record {
    start_line = none;
    channel_id = record { session_id = []; resource_name = [] };
    header = message_header_init;
    body = [];
    resource = resource_create;
  }

  -- The resource, the version, the method and the request are not used.
  unfoldable request_create : Option Resource → Version → ℤ → Message Generic ResourceHeader
  unfolding message_create
  request_create res v mid = message_create

  unfoldable response_create : Message Generic ResourceHeader → Message Generic ResourceHeader
  unfolding message_create
  response_create req_message = message_create

  unfoldable event_create : Message Generic ResourceHeader → ℤ → Message Generic ResourceHeader
  unfolding message_create
  event_create req_message event_id = message_create

  -- The message after a call, and whether the error is nil: nothing is set, added or checked.
  unfoldable message_resource_set :
      Message Generic ResourceHeader → Option Resource → Message Generic ResourceHeader × Bool
  message_resource_set m resource = (m, true)

  unfoldable message_validate :
      Message Generic ResourceHeader → Message Generic ResourceHeader × Bool
  message_validate m = (m, true)

  unfoldable message_destroy :
      Message Generic ResourceHeader → Message Generic ResourceHeader × Bool
  message_destroy m = (m, true)

  unfoldable generic_header_property_add :
      Message Generic ResourceHeader → ℤ → Message Generic ResourceHeader × Bool
  generic_header_property_add m id = (m, true)

  unfoldable generic_header_name_property_add :
      Message Generic ResourceHeader → ℤ → Message Generic ResourceHeader × Bool
  generic_header_name_property_add m id = (m, true)

  unfoldable resource_header_property_add :
      Message Generic ResourceHeader → ℤ → Message Generic ResourceHeader × Bool
  resource_header_property_add m id = (m, true)

  unfoldable resource_header_name_property_add :
      Message Generic ResourceHeader → ℤ → Message Generic ResourceHeader × Bool
  resource_header_name_property_add m id = (m, true)

  unfoldable header_field_add :
      MessageHeader Generic ResourceHeader
      → HeaderField
      → MessageHeader Generic ResourceHeader × Bool
  header_field_add header field = (header, true)

  unfoldable message_header_field_add :
      Message Generic ResourceHeader → HeaderField → Message Generic ResourceHeader × Bool
  unfolding header_field_add
  message_header_field_add m field =
      let (header, done) = header_field_add m.header field in (record m { header = header }, done)

  unfoldable message_next_header_field_get :
      Message Generic ResourceHeader → Option HeaderField → Option HeaderField
  message_next_header_field_get m field = none

  unfoldable message_header_create :
      Option (HeaderVTable Generic)
      → Option (HeaderVTable ResourceHeader)
      → Option (MessageHeader Generic ResourceHeader)
  message_header_create generic resource = none

  -- The fields of another header, and the mask, are not read.
  unfoldable header_fields_set :
      MessageHeader Generic ResourceHeader
      → MessageHeader Generic ResourceHeader
      → MessageHeader Generic ResourceHeader × Bool
  header_fields_set header src_header = (header, true)

  unfoldable header_fields_get :
      MessageHeader Generic ResourceHeader
      → MessageHeader Generic ResourceHeader
      → MessageHeader Generic ResourceHeader
      → MessageHeader Generic ResourceHeader × Bool
  header_fields_get header src_header mask_header = (header, true)

  unfoldable header_fields_inherit :
      MessageHeader Generic ResourceHeader
      → MessageHeader Generic ResourceHeader
      → MessageHeader Generic ResourceHeader × Bool
  header_fields_inherit header src_header = (header, true)
