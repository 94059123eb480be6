-- ===== src/Resources/Properties.antt =====
-- The header properties of mrcp/message/mrcp_message.go at the header fields of a resource.
use go_mrcp.Prelude.{
  ℕ, zero, suc, ◌+◌, ◌^◌, ◌<◌, ◌≡◌, ◌≢◌, ap, sym, ◌∙◌, refl, arith, true, false, ◌==◌, some, List,
  [], ◌∷◌, length, get_elem?, Bool-cases, ==_iff, inl, inr,
}
use go_mrcp.Prelude.Int.{pos}
use go_mrcp.Message.Header.{
  Element, HeaderSection, ok, generic_header_count, generic_property_check,
  resource_property_remove, resource_property_check,
}
use go_mrcp.Message.HeaderLaws.{IsWellFormed, resource_property_remove_set}
use go_mrcp.Message.Types.{
  ResourceType, synthesizer_resource, recognizer_resource, recorder_resource, verifier_resource,
}
use go_mrcp.Message.Fields.{GenericHeaderId, generic_header_id_number, generic_header_id_number-lt}
use go_mrcp.Resources.Synth.Fields.{
  SynthesizerHeaderId, synthesizer_header_id_number, synthesizer_fields,
  get_elem?-synthesizer_header_id_number,
}
use go_mrcp.Resources.Recog.Fields.{
  RecognizerHeaderId, recognizer_header_id_number, recognizer_fields,
  get_elem?-recognizer_header_id_number,
}
use go_mrcp.Resources.Recorder.Fields.{
  RecorderHeaderId, recorder_header_id_number, recorder_fields, get_elem?-recorder_header_id_number,
}
use go_mrcp.Resources.Verifier.Fields.{
  VerifierHeaderId, verifier_header_id_number, verifier_fields, get_elem?-verifier_header_id_number,
}

-- The header fields of a resource.
abbrev pub HeaderId : ResourceType → Type 0
HeaderId synthesizer_resource = SynthesizerHeaderId
HeaderId recognizer_resource = RecognizerHeaderId
HeaderId recorder_resource = RecorderHeaderId
HeaderId verifier_resource = VerifierHeaderId

abbrev pub header_id_number : (r : ResourceType) → HeaderId r → ℕ
header_id_number synthesizer_resource id = synthesizer_header_id_number id
header_id_number recognizer_resource id = recognizer_header_id_number id
header_id_number recorder_resource id = recorder_header_id_number id
header_id_number verifier_resource id = verifier_header_id_number id

fields : (r : ResourceType) → List (HeaderId r)
fields synthesizer_resource = synthesizer_fields
fields recognizer_resource = recognizer_fields
fields recorder_resource = recorder_fields
fields verifier_resource = verifier_fields

get_elem?-header_id_number :
    (r : ResourceType) (id : HeaderId r) → get_elem? (fields r) (header_id_number r id) ≡ some id
unfolding fields
get_elem?-header_id_number synthesizer_resource id = get_elem?-synthesizer_header_id_number id
get_elem?-header_id_number recognizer_resource id = get_elem?-recognizer_header_id_number id
get_elem?-header_id_number recorder_resource id = get_elem?-recorder_header_id_number id
get_elem?-header_id_number verifier_resource id = get_elem?-verifier_header_id_number id

below_length : {A : Type 0} (xs : List A) (i : ℕ) (x : A) → get_elem? xs i ≡ some x → i < length xs
below_length [] i x h = absurd (cc)
below_length (y ∷ ys) zero x h = omega arith
below_length (y ∷ ys) (suc i) x h = omega (arith, below_length ys i x h)

few_fields : (r : ResourceType) → length (fields r) < 256
unfolding fields
few_fields synthesizer_resource = omega arith
few_fields recognizer_resource = omega arith
few_fields recorder_resource = omega arith
few_fields verifier_resource = omega arith

-- A field's number is far from the bound of int64.
header_id_number-lt : (r : ResourceType) (id : HeaderId r) → header_id_number r id + 16 < 2 ^ 63
header_id_number-lt r id =
    let n = header_id_number r id in
    let l : n < length (fields r) =
      below_length (fields r) n id (get_elem?-header_id_number r id) in
    omega (arith, few_fields r)

-- Two fields of a resource have different numbers.
header_id_number-Injective :
    (r : ResourceType) (a b : HeaderId r) → header_id_number r a ≡ header_id_number r b → a ≡ b
header_id_number-Injective r a b e =
    let x = get_elem?-header_id_number r a in
    let y = get_elem?-header_id_number r b in
    let s : some a ≡ some b = sym x ∙ ap (get_elem? (fields r)) e ∙ y in cc

-- Removing a header field of a resource that is set, from a well-formed section, succeeds: that field
-- is not set any more, every other field of the resource and every generic field is as it was.
pub resource_field_removed :
    (r : ResourceType) (id : HeaderId r) (header : HeaderSection) (e : Element)
    → IsWellFormed header
    → get_elem? header.arr (header_id_number r id + generic_header_count) ≡ some (some e)
    → (after : HeaderSection) × (resource_property_remove header (pos (header_id_number r id))
        ≡ ok after)
      × (resource_property_check after (pos (header_id_number r id)) ≡ ok false)
      × ((other : HeaderId r)
          → other ≢ id
          → resource_property_check after (pos (header_id_number r other))
            ≡ resource_property_check header (pos (header_id_number r other)))
      × ((g : GenericHeaderId)
          → generic_property_check after (pos (generic_header_id_number g))
            ≡ generic_property_check header (pos (generic_header_id_number g)))
resource_field_removed r id header e w here =
    let (after, done, generic, own) =
      resource_property_remove_set header (header_id_number r id) e (header_id_number-lt r id) w
        here in
    let same : (header_id_number r id == header_id_number r id) ≡ true = ground arith in
    (
      after,
      done,
      own (header_id_number r id) (header_id_number-lt r id) ∙ rw same refl,
      λ other ne.
          let n : (header_id_number r other == header_id_number r id) ≡ false =
            elim (Bool-cases (header_id_number r other == header_id_number r id)) [
              | inl y ↦ absurd (ne (header_id_number-Injective r other id ((==_iff _ _).0 y)))
              | inr n ↦ n
            ] in
          own (header_id_number r other) (header_id_number-lt r other) ∙ rw n refl,
      λ g. generic (generic_header_id_number g) (generic_header_id_number-lt g),
    )
