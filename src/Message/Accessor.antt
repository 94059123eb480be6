-- ===== src/Message/Accessor.antt =====
-- The header accessors of mrcp/message/header/mrcp_header_accessor.go, the message header of
-- mrcp/message/header/mrcp_header.go and the validation of a resource in mrcp/control/resource.
-- The methods of a table are parameters. `Header` is the type of an allocated header, the interface{}
-- of the source, nil or not. A method that is passed its accessor returns it as it leaves it.
use go_mrcp.Prelude.{
  ℕ, ◌≡◌, arith, Bool, true, false, ltb, ◌&&◌, if◌then◌else◌, [], Option, none, some, length,
}
use go_mrcp.Prelude.Text.{Text}
use go_mrcp.Codec.Capabilities.{is_some}
use go_mrcp.Message.Header.{HeaderSection, header_section_init}

-- The accessor's data before and after stands for the accessor in the methods. Of the methods for
-- fields the code reads whether they are set.
pub record HeaderVTable (Header : Type 0) : Type 0 where
  pub allocate : Option (Option Header → Option Header × Option Header)
  pub destroy : Option (Option Header → Option Header)
  pub parse_field : Bool
  pub generate_field : Bool
  pub duplicate_field : Bool
  pub field_table : Bool

pub record HeaderAccessor (Header : Type 0) : Type 0 where
  pub header : Option Header
  pub vtable : Option (HeaderVTable Header)

module _ {Header : Type 0} where
  unfoldable pub header_vtable_init : HeaderVTable Header
  header_vtable_init = record {
    allocate = none;
    destroy = none;
    parse_field = false;
    generate_field = false;
    duplicate_field = false;
    field_table = false;
  }

  unfoldable pub header_vtable_validate : HeaderVTable Header → Bool
  header_vtable_validate vtable =
      if is_some vtable.allocate
        && (is_some vtable.destroy
            && (vtable.parse_field
                && (vtable.generate_field && (vtable.duplicate_field && vtable.field_table))))
      then true
      else false

  unfoldable pub header_accessor_init : HeaderAccessor Header
  header_accessor_init = record { header = none; vtable = none }

  abbrev with_header :
      HeaderAccessor Header → Option Header × Option Header → HeaderAccessor Header × Option Header
  with_header accessor (own, result) = (record accessor { header = own }, result)

  -- A nil table and a nil method return nil.
  abbrev allocate_by :
      HeaderAccessor Header → Option (HeaderVTable Header) → HeaderAccessor Header × Option Header
  allocate_by accessor none = (accessor, none)
  allocate_by accessor (some t) = elim t.allocate [
    | none ↦ (accessor, none)
    | some f ↦ with_header accessor (f accessor.header)
  ]

  unfoldable pub header_allocate : HeaderAccessor Header → HeaderAccessor Header × Option Header
  header_allocate accessor = elim accessor.header [
    | some h ↦ (accessor, some h)
    | none ↦ allocate_by accessor accessor.vtable
  ]

  abbrev destroy_by : HeaderAccessor Header → Option (HeaderVTable Header) → HeaderAccessor Header
  destroy_by accessor none = accessor
  destroy_by accessor (some t) = elim t.destroy [
    | none ↦ accessor
    | some f ↦ record accessor { header = f accessor.header }
  ]

  unfoldable pub header_destroy : HeaderAccessor Header → HeaderAccessor Header
  header_destroy accessor = destroy_by accessor accessor.vtable

pub record MessageHeader (Generic Resource : Type 0) : Type 0 where
  pub generic_header_accessor : HeaderAccessor Generic
  pub resource_header_accessor : HeaderAccessor Resource
  pub header_section : HeaderSection

module _ {Generic Resource : Type 0} where
  unfoldable pub message_header_init : MessageHeader Generic Resource
  unfolding header_accessor_init
  message_header_init = record {
    generic_header_accessor = header_accessor_init;
    resource_header_accessor = header_accessor_init;
    header_section = header_section_init;
  }

  unfoldable pub message_header_destroy :
      MessageHeader Generic Resource → MessageHeader Generic Resource
  unfolding header_destroy
  message_header_destroy header = record header {
    generic_header_accessor = header_destroy header.generic_header_accessor;
    resource_header_accessor = header_destroy header.resource_header_accessor;
  }

  -- The type assertion on the header panics on nil: `none`.
  unfoldable pub generic_header_get : MessageHeader Generic Resource → Option Generic
  generic_header_get header = header.generic_header_accessor.header

  unfoldable pub generic_header_prepare :
      MessageHeader Generic Resource → MessageHeader Generic Resource × Option Generic
  unfolding header_allocate
  generic_header_prepare header =
      let (accessor, result) = header_allocate header.generic_header_accessor in
      (record header { generic_header_accessor = accessor }, result)

  unfoldable pub resource_header_get : MessageHeader Generic Resource → Option Resource
  resource_header_get header = header.resource_header_accessor.header

  unfoldable pub resource_header_prepare :
      MessageHeader Generic Resource → MessageHeader Generic Resource × Option Resource
  unfolding header_allocate
  resource_header_prepare header =
      let (accessor, result) = header_allocate header.resource_header_accessor in
      (record header { resource_header_accessor = accessor }, result)

-- MRCPResource; of its functions the code reads whether they are set.
pub record Resource : Type 0 where
  pub id : ℕ
  pub name : Text
  pub get_method_str_table : Bool
  pub method_count : ℕ
  pub get_event_str_table : Bool
  pub event_count : ℕ
  pub get_resource_header_vtable : Bool

unfoldable pub resource_create : Resource
resource_create = record {
  id = 0;
  name = [];
  get_method_str_table = false;
  method_count = 0;
  get_event_str_table = false;
  event_count = 0;
  get_resource_header_vtable = false;
}

unfoldable pub resource_validate : Resource → Bool
resource_validate resource =
    if ltb 0 resource.method_count
      && (ltb 0 resource.event_count
          && (resource.get_method_str_table
              && (resource.get_event_str_table
                  && (resource.get_resource_header_vtable && ltb 0 (length resource.name)))))
    then true
    else false

-- What is prepared is kept: where the allocation of an accessor without a header stores what it
-- returns, preparing the generic header a second time changes nothing and returns the same, and so does
-- getting it; the resource header and the header section stay as they were.
pub generic_header_prepare_twice :
    {Generic Resource : Type 0} (header : MessageHeader Generic Resource) (t : HeaderVTable Generic)
    (f : Option Generic → Option Generic × Option Generic) (g : Generic)
    → header.generic_header_accessor.vtable ≡ some t
    → t.allocate ≡ some f
    → header.generic_header_accessor.header ≡ none
    → f none ≡ (some g, some g)
    → ((generic_header_prepare (generic_header_prepare header).0) ≡ generic_header_prepare header)
      × ((generic_header_prepare header).1 ≡ some g)
      × (generic_header_get (generic_header_prepare header).0 ≡ some g)
      × ((generic_header_prepare header).0.resource_header_accessor
          ≡ header.resource_header_accessor)
      × ((generic_header_prepare header).0.header_section ≡ header.header_section)
unfolding generic_header_prepare generic_header_get
generic_header_prepare_twice header t f g v a n s = ground (arith)
