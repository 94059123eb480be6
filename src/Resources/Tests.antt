-- ===== src/Resources/Tests.antt =====
-- A header field of the synthesizer on a section that has no other field.
use go_mrcp.Prelude.{
  ℕ, zero, suc, ◌≡◌, ◌≢◌, refl, arith, false, [], ◌∷◌, ◌++◌, replicate, none, some, get_elem?,
}
use go_mrcp.Prelude.Int.{pos}
use go_mrcp.Prelude.Text.{codes}
use go_mrcp.Message.Header.{
  Element, HeaderSection, ok, generic_property_check, resource_property_remove,
  resource_property_check,
}
use go_mrcp.Message.HeaderLaws.{IsWellFormed, in_ring}
use go_mrcp.Message.Types.{synthesizer_resource}
use go_mrcp.Message.Fields.{GenericHeaderId, generic_header_id_number}
use go_mrcp.Resources.Synth.Fields.{
  synthesizer_header_kill_on_barge_in, synthesizer_header_id_number,
}
use go_mrcp.Resources.Properties.{HeaderId, header_id_number, resource_field_removed}

abbrev barge_in : Element
barge_in = record {
  pointer = 7;
  value = record { name = codes "Kill-On-Barge-In"; value = codes "true"; id = pos 17 };
}

abbrev section : HeaderSection
section = record { ring = barge_in ∷ []; arr = replicate 17 none ++ (some barge_in ∷ []) }

behind :
    (k i : ℕ) (e : Element)
    → get_elem? (replicate k none ++ (some barge_in ∷ [])) i ≡ some (some e)
    → (i ≡ k) × (e ≡ barge_in)
behind zero zero e h = (refl, cc)
behind zero (suc i) e h = absurd (cc)
behind (suc k) zero e h = absurd (cc)
behind (suc k) (suc i) e h = let (p, q) = behind k i e h in (omega arith, q)

section-IsWellFormed : IsWellFormed section
unfolding in_ring
section-IsWellFormed = record {
  indexed = λ i e h. let (p, q) = behind 17 i e h in rw (p, q) refl;
  linked = λ i e h. let (p, q) = behind 17 i e h in rw q refl;
  distinct =
      λ i j e f h k l. let (p, q) = behind 17 i e h in let (r, s) = behind 17 j f k in omega arith;
}

resource_field_removed_example :
    (after : HeaderSection) × (resource_property_remove section
        (pos (header_id_number synthesizer_resource synthesizer_header_kill_on_barge_in))
      ≡ ok after)
    × (resource_property_check after
          (pos (header_id_number synthesizer_resource synthesizer_header_kill_on_barge_in))
        ≡ ok false)
    × ((other : HeaderId synthesizer_resource)
        → other ≢ synthesizer_header_kill_on_barge_in
        → resource_property_check after (pos (header_id_number synthesizer_resource other))
          ≡ resource_property_check section (pos (header_id_number synthesizer_resource other)))
    × ((g : GenericHeaderId)
        → generic_property_check after (pos (generic_header_id_number g))
          ≡ generic_property_check section (pos (generic_header_id_number g)))
resource_field_removed_example =
    resource_field_removed synthesizer_resource synthesizer_header_kill_on_barge_in section barge_in
      section-IsWellFormed (unfold synthesizer_header_id_number in refl)
