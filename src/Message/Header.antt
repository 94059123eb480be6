-- ===== src/Message/Header.antt =====
-- toolkit/apt_header_section.go, toolkit/apt_header_field.go and the header properties of
-- mrcp/message/mrcp_message.go.
-- An element of the ring is known by a number, its pointer. A header section is one that
-- AptHeaderSectionInit has made, so its ring is not nil.
use go_mrcp.Prelude.{
  ℕ, ◌+◌, ◌-◌, ◌^◌, Bool, true, false, ltb, ◌==◌, if◌then◌else◌, List, [], ◌∷◌, Option, none, some,
  length, get_elem?, set,
}
use go_mrcp.Prelude.Int.{ℤ, pos, negsuc, ◌+ℤ◌}
use go_mrcp.Prelude.Text.{Text}

-- The field Link is not used.
pub record HeaderField : Type 0 where
  pub name : Text
  pub value : Text
  pub id : ℤ  -- int64

pub record Element : Type 0 where
  pub pointer : ℕ
  pub value : HeaderField

pub record HeaderSection : Type 0 where
  pub ring : List Element
  pub arr : List (Option Element)

-- `panic` is an index out of range or a nil pointer.
pub data Result {ℓ} (A : Type ℓ) : Type ℓ where
  ok : A → Result A
  panic : Result A

unfoldable pub header_section_init : HeaderSection
header_section_init = record { ring = []; arr = [] }

abbrev is_set : Option (Option Element) → Bool
is_set none = false
is_set (some none) = false
is_set (some (some e)) = true

-- An index below the length is out of range only if it is negative.
unfoldable pub field_check : HeaderSection → ℤ → Result Bool
field_check header (negsuc n) = panic
field_check header (pos id) =
    if ltb id (length header.arr) then ok (is_set (get_elem? header.arr id)) else ok false

-- `header.Arr[id].Value`
abbrev value_of : Option (Option Element) → Result (Option HeaderField)
value_of none = panic
value_of (some none) = panic
value_of (some (some e)) = ok (some e.value)

unfoldable pub field_get : HeaderSection → ℤ → Result (Option HeaderField)
field_get header (negsuc n) = panic
field_get header (pos id) =
    if ltb id (length header.arr) then value_of (get_elem? header.arr id) else ok none

-- `Ring.Remove(e)` takes out the element, if it is in the ring.
unfoldable pub ring_remove : List Element → ℕ → List Element
ring_remove [] pointer = []
ring_remove (e ∷ ring) pointer = if e.pointer == pointer then ring else e ∷ ring_remove ring pointer

-- A nil element panics.
abbrev remove_element : HeaderSection → Option (Option Element) → Result HeaderSection
remove_element header none = panic
remove_element header (some none) = panic
remove_element header (some (some e)) =
    ok (record header { ring = ring_remove header.ring e.pointer })

unfoldable pub field_remove : HeaderSection → HeaderField → Result HeaderSection
unfolding ring_remove
field_remove header field = elim field.id [
  | negsuc n ↦ panic
  | pos id ↦
      if ltb id (length header.arr)
      then remove_element (record header { arr = set header.arr id none }) (get_elem? header.arr id)
      else panic
]

abbrev pub generic_header_count : ℕ
generic_header_count = 16

-- What is done with the field that was found.
abbrev remove_found : HeaderSection → Result (Option HeaderField) → Result HeaderSection
remove_found header (ok none) = ok header
remove_found header (ok (some field)) = field_remove header field
remove_found header panic = panic

unfoldable pub generic_property_remove : HeaderSection → ℤ → Result HeaderSection
unfolding field_get field_remove
generic_property_remove header id = remove_found header (field_get header id)

unfoldable pub generic_property_check : HeaderSection → ℤ → Result Bool
unfolding field_check
generic_property_check header id = field_check header id

-- `id + int64(GENERIC_HEADER_COUNT)`, on int64.
abbrev pub resource_field_id : ℤ → ℤ
resource_field_id (pos n) =
    if ltb (n + 16) (2 ^ 63) then pos (n + 16) else negsuc (2 ^ 64 - 1 - (n + 16))
resource_field_id (negsuc n) = negsuc n +ℤ pos generic_header_count

unfoldable pub resource_property_remove : HeaderSection → ℤ → Result HeaderSection
unfolding field_get field_remove
resource_property_remove header id = remove_found header (field_get header (resource_field_id id))

unfoldable pub resource_property_check : HeaderSection → ℤ → Result Bool
unfolding field_check
resource_property_check header id = field_check header (resource_field_id id)
