-- ===== src/Message/Tests.antt =====
-- Header properties on a section with two fields.
use go_mrcp.Prelude.{
  ℕ, ◌+◌, ◌≡◌, ◌↔◌, refl, arith, true, false, ◌==◌, if◌then◌else◌, [], ◌∷◌, none, some, length,
  get_elem?,
}
use go_mrcp.Prelude.Int.{pos}
use go_mrcp.Prelude.Text.{codes}
use go_mrcp.Message.Header.{
  Element, HeaderSection, ok, panic, generic_property_remove, generic_property_check,
}
use go_mrcp.Message.HeaderLaws.{
  IsWellFormed, Unset, generic_property_remove_set, generic_property_remove-panic_iff, in_ring,
}

abbrev content_type : Element
content_type = record {
  pointer = 7;
  value = record { name = codes "Content-Type"; value = codes "text/plain"; id = pos 0 };
}

abbrev cookie : Element
cookie = record {
  pointer = 9;
  value = record { name = codes "Set-Cookie"; value = codes "a=b"; id = pos 2 };
}

abbrev section : HeaderSection
section = record {
  ring = content_type ∷ cookie ∷ [];
  arr = some content_type ∷ none ∷ some cookie ∷ [];
}

section-IsWellFormed : IsWellFormed section
unfolding in_ring
section-IsWellFormed = record { indexed = indexed; linked = linked; distinct = distinct }
  where
    indexed : (i : ℕ) (e : Element) → get_elem? section.arr i ≡ some (some e) → e.value.id ≡ pos i
    indexed i e h = ground arith

    linked :
        (i : ℕ) (e : Element)
        → get_elem? section.arr i ≡ some (some e)
        → in_ring section.ring e.pointer ≡ true
    linked i e h = ground arith

    distinct :
        (i j : ℕ) (e f : Element)
        → get_elem? section.arr i ≡ some (some e)
        → get_elem? section.arr j ≡ some (some f)
        → e.pointer ≡ f.pointer
        → i ≡ j
    distinct i j e f h k p = ground arith

generic_property_remove_set_example :
    (after : HeaderSection) × (generic_property_remove section (pos 2) ≡ ok after)
    × IsWellFormed after
    × ((j : ℕ)
        → generic_property_check after (pos j)
          ≡ (if j == 2 then ok false else generic_property_check section (pos j)))
    × (length after.ring + 1 ≡ length section.ring)
generic_property_remove_set_example =
    generic_property_remove_set section section-IsWellFormed 2 cookie refl

generic_property_remove-panic_iff_example :
    (generic_property_remove section (pos 1) ≡ panic) ↔ Unset section (pos 1)
generic_property_remove-panic_iff_example =
    generic_property_remove-panic_iff section (pos 1) section-IsWellFormed
