-- ===== src/Codec/Lists.antt =====
-- Codec lists of mpf/mpf_codec_descriptor.go: building, searching, matching against capabilities,
-- intersecting and comparing.
-- The descriptors of one array are distinct objects, as CodecListAdd makes them, and the two lists
-- of an intersection or comparison share none; a pointer into an array is an index.
use go_mrcp.Prelude.{
  ℕ, ◌+◌, Bool, true, false, not, ◌==◌, ◌||◌, if◌then◌else◌, List, [], ◌∷◌, Option, none, some,
  length, get_elem?,
}
use go_mrcp.Apr.{push, index, clone}
use go_mrcp.Codec.Descriptor.{CodecDescriptor, descriptors_match, event_descriptor_check}
use go_mrcp.Codec.Capabilities.{CodecCapabilities, attribs_find, is_some}

pub record CodecList : Type 0 where
  pub descriptor_arr : List CodecDescriptor
  pub primary_descriptor : Option ℕ
  pub event_descriptor : Option ℕ

unfoldable pub list_init : CodecList
list_init = record { descriptor_arr = []; primary_descriptor = none; event_descriptor = none }

-- CodecListCopy copies the array of pointers only.
unfoldable pub list_copy : CodecList → CodecList → CodecList
unfolding clone
list_copy c src = record c { descriptor_arr = clone src.descriptor_arr }

-- CodecListAdd returns the new descriptor for the caller to fill; here the caller passes it.
unfoldable pub list_add : CodecList → CodecDescriptor → CodecList
unfolding push
list_add c descriptor = record c { descriptor_arr = push c.descriptor_arr descriptor }

unfoldable pub list_is_empty : CodecList → Bool
list_is_empty c = length c.descriptor_arr == 0

unfoldable pub list_descriptor_get : CodecList → ℕ → Option CodecDescriptor
unfolding index
list_descriptor_get c id = index c.descriptor_arr id

-- The loop of CodecListDescriptorFind from index `i` on.
unfoldable pub find_from : List CodecDescriptor → ℕ → CodecDescriptor → Option (ℕ × CodecDescriptor)
find_from [] i descriptor = none
find_from (d ∷ arr) i descriptor =
    if descriptors_match descriptor d then some (i, d) else find_from arr (i + 1) descriptor

unfoldable pub list_descriptor_find :
    List CodecDescriptor → CodecDescriptor → Option (ℕ × CodecDescriptor)
unfolding find_from
list_descriptor_find arr descriptor = find_from arr 0 descriptor

-- The loop of CodecListMatch: the array with what is not supported disabled, and the status.
unfoldable pub match_loop : CodecCapabilities → List CodecDescriptor → List CodecDescriptor × Bool
match_loop capabilities [] = ([], false)
match_loop capabilities (d ∷ arr) =
    let (rest, status) = match_loop capabilities arr in
    if not d.enabled
    then (d ∷ rest, status)
    else (if is_some (attribs_find capabilities d)
        then (d ∷ rest, true)
        else (record d { enabled = false } ∷ rest, status))

unfoldable pub list_match : CodecList → Option CodecCapabilities → CodecList × Bool
unfolding match_loop
list_match c none = (c, false)
list_match c (some capabilities) =
    let (arr, status) = match_loop capabilities c.descriptor_arr in
    (record c { descriptor_arr = arr }, status)

-- The preferred descriptors of the two lists during CodecListsIntersect.
pub record Preferred : Type 0 where
  pub primary1 : Option ℕ
  pub event1 : Option ℕ
  pub primary2 : Option ℕ
  pub event2 : Option ℕ

abbrev disable : CodecDescriptor → CodecDescriptor
disable d = record d { enabled = false }

-- One enabled descriptor of the first list at index `i`: what becomes of it, of the preferred
-- descriptor of its kind and of its counterpart in the second list.
unfoldable pub prefer :
    List CodecDescriptor
    → CodecDescriptor
    → ℕ
    → Option ℕ
    → Option ℕ
    → CodecDescriptor × Option ℕ × Option ℕ
unfolding list_descriptor_find
prefer arr2 d i (some p) peer = (disable d, some p, peer)
prefer arr2 d i none peer = elim (list_descriptor_find arr2 d) [
  | none ↦ (disable d, none, peer)
  | some (j, d2) ↦
      if d2.enabled then (record d { enabled = true }, some i, some j) else (disable d, none, peer)
]

unfoldable pub intersect_one :
    List CodecDescriptor → CodecDescriptor → ℕ → Preferred → CodecDescriptor × Preferred
unfolding prefer event_descriptor_check
intersect_one arr2 d i p =
    if not d.enabled
    then (d, p)
    else (if event_descriptor_check d
        then (let (d', own, peer) = prefer arr2 d i p.event1 p.event2 in
            (d', record p { event1 = own; event2 = peer }))
        else (let (d', own, peer) = prefer arr2 d i p.primary1 p.primary2 in
            (d', record p { primary1 = own; primary2 = peer })))

-- The first loop of CodecListsIntersect from index `i` on.
unfoldable pub intersect_loop :
    List CodecDescriptor → List CodecDescriptor → ℕ → Preferred → List CodecDescriptor × Preferred
intersect_loop arr2 [] i p = ([], p)
intersect_loop arr2 (d ∷ arr1) i p =
    let (d', p') = intersect_one arr2 d i p in
    let (rest, last) = intersect_loop arr2 arr1 (i + 1) p' in (d' ∷ rest, last)

abbrev is_index : Option ℕ → ℕ → Bool
is_index none j = false
is_index (some i) j = i == j

-- The second loop, over the second list from index `j` on.
unfoldable pub enable_loop : List CodecDescriptor → ℕ → Preferred → List CodecDescriptor
enable_loop [] j p = []
enable_loop (d ∷ arr2) j p =
    record d { enabled = is_index p.primary2 j || is_index p.event2 j } ∷ enable_loop arr2 (j + 1) p

-- `cl.PrimaryDescriptor != nil && cl.PrimaryDescriptor.Enabled`
unfoldable pub primary_enabled : List CodecDescriptor → Option ℕ → Bool
primary_enabled arr none = false
primary_enabled arr (some i) = elim (get_elem? arr i) [ none ↦ false | some d ↦ d.enabled ]

unfoldable pub lists_intersect : CodecList → CodecList → CodecList × CodecList × Bool
unfolding intersect_loop enable_loop primary_enabled
lists_intersect cl c =
    let start : Preferred = record {
      primary1 = none;
      event1 = none;
      primary2 = none;
      event2 = none;
    } in
    let (arr1, p) = intersect_loop c.descriptor_arr cl.descriptor_arr 0 start in
    let arr2 = enable_loop c.descriptor_arr 0 p in
    (
      record {
        descriptor_arr = arr1;
        primary_descriptor = p.primary1;
        event_descriptor = p.event1;
      },
      record {
        descriptor_arr = arr2;
        primary_descriptor = p.primary2;
        event_descriptor = p.event2;
      },
      primary_enabled arr1 p.primary1,
    )
