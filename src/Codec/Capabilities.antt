-- ===== src/Codec/Capabilities.antt =====
-- Codec capabilities of mpf/mpf_codec_descriptor.go: the attributes that a stream supports, and the
-- descriptor made for them.
-- An array of attributes is a list; the code never shares one between two capabilities.
use go_mrcp.Prelude.{
  ℕ, ◌≡◌, ◌↔◌, refl, arith, Bool, true, false, not, ◌&&◌, ◌||◌, if◌then◌else◌, List, [], ◌∷◌, ◌++◌,
  Option, none, some,
}
use go_mrcp.Prelude.Text.{Text, equal_fold}
use go_mrcp.Apr.{push, append, clone}
use go_mrcp.Codec.Descriptor.{
  CodecDescriptor, CodecAttribs, sample_rate_8000, lpcm_attribs, rtp_pt_unknown,
  sampling_rate_check, lpcm_descriptor_create,
}

pub record CodecCapabilities : Type 0 where
  pub attrib_arr : List CodecAttribs
  pub allow_named_events : Bool

unfoldable pub capabilities_init : CodecCapabilities
capabilities_init = record { attrib_arr = []; allow_named_events = true }

unfoldable pub capabilities_clone : CodecCapabilities → CodecCapabilities
unfolding clone
capabilities_clone src = record {
  attrib_arr = clone src.attrib_arr;
  allow_named_events = src.allow_named_events;
}

unfoldable pub capabilities_merge : CodecCapabilities → CodecCapabilities → CodecCapabilities
unfolding append
capabilities_merge c src = record {
  attrib_arr = append c.attrib_arr src.attrib_arr;
  allow_named_events =
      if not c.allow_named_events && src.allow_named_events
      then src.allow_named_events
      else c.allow_named_events;
}

unfoldable pub capabilities_add : CodecCapabilities → ℕ → Text → CodecCapabilities
unfolding push
capabilities_add c sample_rates codec_name = record c {
  attrib_arr =
      push c.attrib_arr
        (record { name = codec_name; bits_per_sample = 0; sample_rates = sample_rates });
}

-- The function CodecDefaultCapabilitiesAdd; the method of that name has an empty body.
unfoldable pub default_capabilities_add : CodecCapabilities → CodecCapabilities
unfolding capabilities_add
default_capabilities_add c = capabilities_add c sample_rate_8000 lpcm_attribs.name

-- CodecCapabilitiesValidate calls the method with the empty body.
unfoldable pub capabilities_validate : CodecCapabilities → CodecCapabilities
capabilities_validate c = c

-- The loop of CodecCapabilitiesAttribsFind.
unfoldable pub find_attribs : List CodecAttribs → ℕ → Option CodecAttribs
find_attribs [] sampling_rate = none
find_attribs (attribs ∷ arr) sampling_rate =
    if sampling_rate_check sampling_rate attribs.sample_rates
    then some attribs
    else find_attribs arr sampling_rate

unfoldable pub attribs_find : CodecCapabilities → CodecDescriptor → Option CodecAttribs
unfolding find_attribs
attribs_find capabilities descriptor = find_attribs capabilities.attrib_arr descriptor.sampling_rate

-- The descriptor for a peer whose rate the attributes support.
unfoldable pub describe : CodecDescriptor → CodecAttribs → CodecDescriptor
describe peer attribs =
    if not (equal_fold peer.name attribs.name)
    then record peer { payload_type = rtp_pt_unknown; name = attribs.name }
    else peer

-- `attribs` is nil unless both arguments are there; then CodecLPcmDescriptorCreate(8000, 1) answers.
abbrev create_from : CodecDescriptor → Option CodecAttribs → Option CodecDescriptor
create_from peer none = lpcm_descriptor_create 8000 1
create_from peer (some attribs) = some (describe peer attribs)

unfoldable pub descriptor_create_by_capabilities :
    Option CodecCapabilities → Option CodecDescriptor → Option CodecDescriptor
descriptor_create_by_capabilities none peer = lpcm_descriptor_create 8000 1
descriptor_create_by_capabilities (some capabilities) none = lpcm_descriptor_create 8000 1
descriptor_create_by_capabilities (some capabilities) (some peer) =
    create_from peer (attribs_find capabilities peer)

abbrev pub is_some {ℓ} : {A : Type ℓ} → Option A → Bool
is_some none = false
is_some (some a) = true

-- The attributes of a merge are found first among the first capabilities', then among the second's.
find_attribs-append :
    (xs ys : List CodecAttribs) (rate : ℕ)
    → find_attribs (xs ++ ys) rate
      ≡ (if is_some (find_attribs xs rate) then find_attribs xs rate else find_attribs ys rate)
unfolding find_attribs
find_attribs-append [] ys rate = refl
find_attribs-append (x ∷ xs) ys rate = ground (arith, find_attribs-append xs ys rate)

-- A merge supports what either of the capabilities supports, the first one's attributes before the
-- second's, and allows named events if either does.
pub capabilities_merge_lem :
    (c src : CodecCapabilities) (d : CodecDescriptor)
    → (attribs_find (capabilities_merge c src) d
        ≡ (if is_some (attribs_find c d) then attribs_find c d else attribs_find src d))
      × ((capabilities_merge c src).allow_named_events
          ≡ (c.allow_named_events || src.allow_named_events))
unfolding capabilities_merge attribs_find
capabilities_merge_lem c src d =
    (find_attribs-append c.attrib_arr src.attrib_arr d.sampling_rate, ground arith)

-- Given capabilities and a peer, no descriptor is made (the result is nil) exactly when no attributes of
-- the capabilities support the peer's sampling rate.
pub create_by_capabilities_lem :
    (capabilities : CodecCapabilities) (peer : CodecDescriptor)
    → (descriptor_create_by_capabilities (some capabilities) (some peer) ≡ none)
      ↔ (attribs_find capabilities peer ≡ none)
unfolding descriptor_create_by_capabilities lpcm_descriptor_create
create_by_capabilities_lem capabilities peer = (λ e. ground arith, λ e. ground arith)
