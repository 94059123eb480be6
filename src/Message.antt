-- ===== src/Message.antt =====
-- MRCP messages as far as they have code: the header section of toolkit/apt_header_field.go, the
-- properties of mrcp/message/mrcp_message.go, the accessors of mrcp/message/header and the resources of
-- mrcp/control/resource.
pub mod Header
pub mod HeaderLaws
pub mod Accessor
pub mod Types
pub mod Fields
pub mod Create
mod Tests
