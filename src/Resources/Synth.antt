-- ===== src/Resources/Synth.antt =====
-- mrcp/resources/mrcp_synth.go: the values of the synthesizer header fields.
-- The enumerations are int constants in the source. A count is a number beside its data type; an
-- unknown value that is the count is the last constructor.
use go_mrcp.Prelude.{ℕ, Bool, List, [], Option, none}
use go_mrcp.Prelude.Int.{ℤ}
use go_mrcp.Prelude.Text.{Text}
pub mod Fields
pub mod Header

pub data SpeechUnit : Type 0 where
  speech_unit_second : SpeechUnit
  speech_unit_word : SpeechUnit
  speech_unit_sentence : SpeechUnit
  speech_unit_paragraph : SpeechUnit

unfoldable speech_unit_number : SpeechUnit → ℕ
speech_unit_number speech_unit_second = 0
speech_unit_number speech_unit_word = 1
speech_unit_number speech_unit_sentence = 2
speech_unit_number speech_unit_paragraph = 3

abbrev speech_unit_count : ℕ
speech_unit_count = 4

pub data SpeechLengthType : Type 0 where
  speech_length_type_text : SpeechLengthType
  speech_length_type_numeric_positive : SpeechLengthType
  speech_length_type_numeric_negative : SpeechLengthType
  speech_length_type_unknown : SpeechLengthType

unfoldable speech_length_type_number : SpeechLengthType → ℕ
speech_length_type_number speech_length_type_text = 0
speech_length_type_number speech_length_type_numeric_positive = 1
speech_length_type_number speech_length_type_numeric_negative = 2
speech_length_type_number speech_length_type_unknown = 3

pub data VoiceGender : Type 0 where
  voice_gender_male : VoiceGender
  voice_gender_female : VoiceGender
  voice_gender_neutral : VoiceGender
  voice_gender_unknown : VoiceGender

unfoldable voice_gender_number : VoiceGender → ℕ
voice_gender_number voice_gender_male = 0
voice_gender_number voice_gender_female = 1
voice_gender_number voice_gender_neutral = 2
voice_gender_number voice_gender_unknown = 3

abbrev voice_gender_count : ℕ
voice_gender_count = 3

pub data ProsodyVolumeType : Type 0 where
  prosody_volume_type_label : ProsodyVolumeType
  prosody_volume_type_numeric : ProsodyVolumeType
  prosody_volume_type_relative_change : ProsodyVolumeType
  prosody_volume_type_unknown : ProsodyVolumeType

unfoldable prosody_volume_type_number : ProsodyVolumeType → ℕ
prosody_volume_type_number prosody_volume_type_label = 0
prosody_volume_type_number prosody_volume_type_numeric = 1
prosody_volume_type_number prosody_volume_type_relative_change = 2
prosody_volume_type_number prosody_volume_type_unknown = 3

pub data ProsodyRateType : Type 0 where
  prosody_rate_type_label : ProsodyRateType
  prosody_rate_type_relative_change : ProsodyRateType
  prosody_rate_type_unknown : ProsodyRateType

unfoldable prosody_rate_type_number : ProsodyRateType → ℕ
prosody_rate_type_number prosody_rate_type_label = 0
prosody_rate_type_number prosody_rate_type_relative_change = 1
prosody_rate_type_number prosody_rate_type_unknown = 2

pub data ProsodyVolumeLabel : Type 0 where
  prosody_volume_silent : ProsodyVolumeLabel
  prosody_volume_xsoft : ProsodyVolumeLabel
  prosody_volume_soft : ProsodyVolumeLabel
  prosody_volume_medium : ProsodyVolumeLabel
  prosody_volume_loud : ProsodyVolumeLabel
  prosody_volume_xloud : ProsodyVolumeLabel
  prosody_volume_default : ProsodyVolumeLabel
  prosody_volume_unknown : ProsodyVolumeLabel

unfoldable prosody_volume_label_number : ProsodyVolumeLabel → ℕ
prosody_volume_label_number prosody_volume_silent = 0
prosody_volume_label_number prosody_volume_xsoft = 1
prosody_volume_label_number prosody_volume_soft = 2
prosody_volume_label_number prosody_volume_medium = 3
prosody_volume_label_number prosody_volume_loud = 4
prosody_volume_label_number prosody_volume_xloud = 5
prosody_volume_label_number prosody_volume_default = 6
prosody_volume_label_number prosody_volume_unknown = 7

abbrev prosody_volume_count : ℕ
prosody_volume_count = 7

pub data ProsodyRateLabel : Type 0 where
  prosody_rate_xslow : ProsodyRateLabel
  prosody_rate_slow : ProsodyRateLabel
  prosody_rate_medium : ProsodyRateLabel
  prosody_rate_fast : ProsodyRateLabel
  prosody_rate_xfast : ProsodyRateLabel
  prosody_rate_default : ProsodyRateLabel
  prosody_rate_unknown : ProsodyRateLabel

unfoldable prosody_rate_label_number : ProsodyRateLabel → ℕ
prosody_rate_label_number prosody_rate_xslow = 0
prosody_rate_label_number prosody_rate_slow = 1
prosody_rate_label_number prosody_rate_medium = 2
prosody_rate_label_number prosody_rate_fast = 3
prosody_rate_label_number prosody_rate_xfast = 4
prosody_rate_label_number prosody_rate_default = 5
prosody_rate_label_number prosody_rate_unknown = 6

abbrev prosody_rate_count : ℕ
prosody_rate_count = 6

pub record NumericSpeechLength : Type 0 where
  pub length : ℤ
  pub unit : SpeechUnit

pub record SpeechLengthContent : Type 0 where
  pub tag : Text
  pub numeric : NumericSpeechLength

pub record SpeechLengthValue : Type 0 where
  pub length_type : SpeechLengthType
  pub value : SpeechLengthContent

pub record VoiceParam : Type 0 where
  pub gender : VoiceGender
  pub age : ℤ
  pub variant : ℤ
  pub name : Text

-- F is the type of float64.
pub record ProsodyVolumeContent (F : Type 0) : Type 0 where
  pub label : ProsodyVolumeLabel
  pub numeric : F
  pub relative : F

pub record ProsodyVolume (F : Type 0) : Type 0 where
  pub volume_type : ProsodyVolumeType
  pub value : ProsodyVolumeContent F

pub record ProsodyRateContent (F : Type 0) : Type 0 where
  pub label : ProsodyRateLabel
  pub relative : F

pub record ProsodyRate (F : Type 0) : Type 0 where
  pub rate_type : ProsodyRateType
  pub value : ProsodyRateContent F

pub record ProsodyParam (F : Type 0) : Type 0 where
  pub volume : ProsodyVolume F
  pub rate : ProsodyRate F
