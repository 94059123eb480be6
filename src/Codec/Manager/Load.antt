-- ===== src/Codec/Manager/Load.antt =====
-- CodecManagerCodecListLoad and CodecManagerCodecParse of mpf/mpf_codec_manager.go on a configuration
-- that names all parts of each codec.
use go_mrcp.Prelude.{
  ℕ, ◌<◌, ◌≡◌, ◌≢◌, ◌==◌, refl, ap, ◌∙◌, inl, inr, arith, true, false, List, [], ◌∷◌, ◌++◌, map,
  some, none, length, All, Option-cases,
}
use go_mrcp.Prelude.Words.{u8, u16}
use go_mrcp.Prelude.Text.{Text, split, is_digit}
use go_mrcp.Prelude.Decimal.{decimal, atoi-decimal, join, split-join, All-map, All-parts, All-join}
use go_mrcp.Codec.Descriptor.{CodecDescriptor, descriptor_init}
use go_mrcp.Codec.Capabilities.{is_some}
use go_mrcp.Codec.Lists.{CodecList, list_add}
use go_mrcp.Codec.Manager.{
  Codec, CodecManager, codec_find, default_of, named_descriptor, set_options, codec_parse,
  parse_parts, load_loop, codec_list_load,
}

-- A codec of a configuration.
pub record Configured : Type 0 where
  pub name : Text
  pub payload_type : ℕ
  pub sampling_rate : ℕ
  pub channel_count : ℕ

abbrev parts_of : Configured → List Text
parts_of c =
    c.name ∷ decimal c.payload_type ∷ decimal c.sampling_rate ∷ decimal c.channel_count ∷ []

-- `name/payload type/sampling rate/channel count`
unfoldable pub entry_text : Configured → Text
entry_text c = join b'/' (parts_of c)

-- The entries with a space between each two.
unfoldable pub config_text : List Configured → Text
config_text entries = join b' ' (map entry_text entries)

abbrev pub descriptor_of : Configured → CodecDescriptor
descriptor_of c = record descriptor_init {
  payload_type = c.payload_type;
  name = c.name;
  sampling_rate = c.sampling_rate;
  channel_count = c.channel_count;
}

-- The name is not empty and has no separator, and the numbers fit.
pub record IsWritten (c : Configured) : Type 0 where
  pub named : (length c.name == 0) ≡ false
  pub plain : All (λ b. (b ≢ b'/') × (b ≢ b' ')) c.name
  pub payload_fits : c.payload_type < 256
  pub rate_fits : c.sampling_rate < 65536
  pub count_fits : c.channel_count < 256

-- The name is also that of a codec of the manager.
pub record IsConfigured (cm : CodecManager) (c : Configured) : Type 0 where
  pub written : IsWritten c
  pub known : is_some (codec_find cm c.name) ≡ true

digit_plain : (b : ℕ) → is_digit b ≡ true → (b ≢ b'/') × (b ≢ b' ')
digit_plain b h = (ground arith, ground arith)

abbrev IsPlain : ℕ → Type 0
IsPlain b = (b ≢ b'/') × (b ≢ b' ')

numeral-IsPlain : (n : ℕ) → n < 100000 → All IsPlain (decimal n)
numeral-IsPlain n h = All-map _ IsPlain digit_plain (decimal n) (atoi-decimal n h).2

module _ (c : Configured) (w : IsWritten c) where
  parts-IsPlain : All (All IsPlain) (parts_of c)
  parts-IsPlain =
      let p = w.payload_fits in
      let r = w.rate_fits in
      let n = w.count_fits in
      (
        w.plain,
        (
          numeral-IsPlain c.payload_type (omega arith),
          (
            numeral-IsPlain c.sampling_rate (omega arith),
            (numeral-IsPlain c.channel_count (omega arith), tt),
          ),
        ),
      )

  entry_no_space : All (λ b. b ≢ b' ') (entry_text c)
  unfolding entry_text
  entry_no_space =
      All-join (λ b. b ≢ b' ') b'/' (parts_of c) (ground arith)
        (All-parts IsPlain _ (λ b h. h.1) (parts_of c) parts-IsPlain)

  options_set :
      (d : CodecDescriptor)
      → set_options d c.name
          (decimal c.payload_type ∷ decimal c.sampling_rate ∷ decimal c.channel_count ∷ [])
        ≡ record d {
          payload_type = c.payload_type;
          sampling_rate = c.sampling_rate;
          channel_count = c.channel_count;
        }
  unfolding set_options
  options_set d =
      let p = w.payload_fits in
      let r = w.rate_fits in
      let n = w.count_fits in
      let a = atoi-decimal c.payload_type (omega arith) in
      let b = atoi-decimal c.sampling_rate (omega arith) in
      let e = atoi-decimal c.channel_count (omega arith) in
      let a' : u8 c.payload_type ≡ c.payload_type = ground arith in
      let b' : u16 c.sampling_rate ≡ c.sampling_rate = ground arith in
      let e' : u8 c.channel_count ≡ c.channel_count = ground arith in
      rw (a.1, b.1, e.1, a.0, b.0, e.0, a', b', e') refl

  -- An entry is parsed to the descriptor of its name with its numbers, or rejected for its name.
  pub codec_parse-entry_text :
      (cm : CodecManager) (codec_list : CodecList)
      → codec_parse cm codec_list (entry_text c) ≡ elim (named_descriptor cm c.name) [
        | none ↦ none
        | some d ↦ some (
            list_add codec_list (record d {
              payload_type = c.payload_type;
              sampling_rate = c.sampling_rate;
              channel_count = c.channel_count;
            }))
      ]
  unfolding codec_parse entry_text parse_parts
  codec_parse-entry_text cm codec_list =
      let no_slash = All-parts IsPlain (λ b. b ≢ b'/') (λ b h. h.0) (parts_of c) parts-IsPlain in
      elim (Option-cases (named_descriptor cm c.name)) [
        | inl z ↦ rw (split-join b'/' c.name _ no_slash, w.named, z) refl
        | inr (d, e) ↦ rw (split-join b'/' c.name _ no_slash, w.named, e, options_set d) refl
      ]

module _ (cm : CodecManager) (c : Configured) (w : IsConfigured cm c) where
  known_codec : (codec : Codec) × (codec_find cm c.name ≡ some codec)
  known_codec = elim (Option-cases (codec_find cm c.name)) [
    | inl z ↦ absurd (let k = w.known in ground arith)
    | inr found ↦ found
  ]

  default_overridden :
      (codec : Codec)
      → record (default_of codec c.name) {
        payload_type = c.payload_type;
        sampling_rate = c.sampling_rate;
        channel_count = c.channel_count;
      }
        ≡ descriptor_of c
  unfolding default_of
  default_overridden codec = elim (Option-cases codec.static_descriptor) [
    | inl z ↦ rw z refl
    | inr (d, e) ↦ rw e refl
  ]

  parsed :
      (codec_list : CodecList)
      → codec_parse cm codec_list (entry_text c) ≡ some (list_add codec_list (descriptor_of c))
  unfolding named_descriptor
  parsed codec_list =
      let (codec, found) = known_codec in
      let named : named_descriptor cm c.name ≡ some (default_of codec c.name) =
        rw (named_descriptor, found) refl in
      codec_parse-entry_text c w.written cm codec_list ∙ rw (named, default_overridden codec) refl

pub entries_no_space :
    (entries : List Configured)
    → All IsWritten entries
    → All (All (λ b. b ≢ b' ')) (map entry_text entries)
entries_no_space [] h = tt
entries_no_space (c ∷ entries) h = (entry_no_space c h.0, entries_no_space entries h.1)

entries-IsWritten :
    (cm : CodecManager) (entries : List Configured)
    → All (IsConfigured cm) entries
    → All IsWritten entries
entries-IsWritten cm [] h = tt
entries-IsWritten cm (c ∷ entries) h = (h.0.written, entries-IsWritten cm entries h.1)

-- A list with the descriptors of the configured codecs behind its own.
abbrev pub with_configured : CodecList → List Configured → CodecList
with_configured codec_list entries = record codec_list {
  descriptor_arr = codec_list.descriptor_arr ++ map descriptor_of entries;
}

append_one :
    (arr : List CodecDescriptor) (d : CodecDescriptor) (ds : List CodecDescriptor)
    → (arr ++ (d ∷ [])) ++ ds ≡ arr ++ (d ∷ ds)
append_one [] d ds = refl
append_one (x ∷ arr) d ds = ap (λ l. x ∷ l) (append_one arr d ds)

append_none : (arr : List CodecDescriptor) → arr ++ [] ≡ arr
append_none [] = refl
append_none (x ∷ arr) = ap (λ l. x ∷ l) (append_none arr)

-- The loop goes on with the list that an entry leaves.
pub load_loop-parsed :
    (cm : CodecManager) (codec_list after : CodecList) (desc : Text) (descs : List Text)
    → codec_parse cm codec_list desc ≡ some after
    → load_loop cm codec_list (desc ∷ descs) ≡ load_loop cm after descs
unfolding load_loop
load_loop-parsed cm codec_list after desc descs e = rw (load_loop, e) refl

load_loop-entries :
    (cm : CodecManager) (codec_list : CodecList) (entries : List Configured)
    → All (IsConfigured cm) entries
    → load_loop cm codec_list (map entry_text entries) ≡ some (with_configured codec_list entries)
unfolding load_loop list_add
load_loop-entries cm codec_list [] h = rw (append_none codec_list.descriptor_arr) refl
load_loop-entries cm codec_list (c ∷ entries) h =
    load_loop-parsed cm codec_list (list_add codec_list (descriptor_of c)) (entry_text c)
      (map entry_text entries) (parsed cm c h.0 codec_list)
    ∙ load_loop-entries cm (list_add codec_list (descriptor_of c)) entries h.1
    ∙ ap (λ arr. some (record codec_list { descriptor_arr = arr }))
        (append_one codec_list.descriptor_arr (descriptor_of c) (map descriptor_of entries))

-- A configuration written as `name/payload type/sampling rate/channel count` for each codec, in decimal
-- and with a space between each two, loads as it was meant: where every name is that of a codec of the
-- manager and has no separator, and the numbers fit their fields, the list gets one descriptor for each
-- entry, behind its own and in their order, with that name and these numbers and not the codec's.
pub codec_list_load-config_text :
    (cm : CodecManager) (codec_list : CodecList) (entries : List Configured)
    → All (IsConfigured cm) entries
    → codec_list_load cm codec_list (config_text entries)
      ≡ some (with_configured codec_list entries)
unfolding codec_list_load config_text load_loop codec_parse parse_parts join split
codec_list_load-config_text cm codec_list [] h = rw (append_none codec_list.descriptor_arr) refl
codec_list_load-config_text cm codec_list (c ∷ entries) h =
    rw
      (split-join b' ' (entry_text c) (map entry_text entries)
        (entries_no_space (c ∷ entries) (entries-IsWritten cm (c ∷ entries) h)))
      (load_loop-entries cm codec_list (c ∷ entries) h)
