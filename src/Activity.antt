-- ===== src/Activity.antt =====
-- mpf/mpf_activity_detector.go: the detector of voice activity and silence.
-- An int64 that the code only ever increases from 0 is a natural number: the duration, the level and
-- the sizes of a frame. Thresholds and timeouts, which a caller sets, are integers.
pub mod Level
pub mod Steps
pub mod Traces
pub mod Silence
mod Tests
use go_mrcp.Prelude.{
  ℕ, zero, suc, ◌+◌, ◌*◌, ◌/◌, Bool, true, false, ◌==◌, leb, if◌then◌else◌, List, [], ◌∷◌, ◌++◌,
  Option, none, some, length, bit_and,
}
use go_mrcp.Prelude.Int.{ℤ, pos, negsuc}
use go_mrcp.Prelude.Words.{abs16}

pub data DetectorState : Type 0 where
  inactivity activity_transition activity inactivity_transition : DetectorState

-- The constants MPF_DETECTOR_EVENT_*.
pub data DetectorEvent : Type 0 where
  no_event voice_activity voice_inactivity no_input : DetectorEvent

pub record ActivityDetector : Type 0 where
  pub level_threshold : ℤ
  pub speech_timeout : ℤ
  pub silence_timeout : ℤ
  pub no_input_timeout : ℤ
  pub state : DetectorState
  pub duration : ℕ

-- What the detector reads of a media frame: the type bits, the codec frame's size and its bytes.
pub record Frame : Type 0 where
  pub frame_type : ℕ
  pub size : ℕ
  pub buffer : List ℕ

abbrev pub codec_frame_time_base : ℕ
codec_frame_time_base = 10

abbrev pub media_frame_type_audio : ℕ
media_frame_type_audio = 1

-- `n >= z` for an int64 n that is not negative.
abbrev pub at_least : ℕ → ℤ → Bool
at_least n (pos m) = leb m n
at_least n (negsuc m) = true

unfoldable pub create : ActivityDetector
create = record {
  level_threshold = pos 2;
  speech_timeout = pos 300;
  silence_timeout = pos 300;
  no_input_timeout = pos 5000;
  state = inactivity;
  duration = 0;
}

unfoldable pub reset : ActivityDetector → ActivityDetector
reset ad = record ad { duration = 0; state = inactivity }

unfoldable pub level_set : ActivityDetector → ℤ → ActivityDetector
level_set ad level_threshold = record ad { level_threshold = level_threshold }

unfoldable pub no_input_timeout_set : ActivityDetector → ℤ → ActivityDetector
no_input_timeout_set ad no_input_timeout = record ad { no_input_timeout = no_input_timeout }

unfoldable pub speech_timeout_set : ActivityDetector → ℤ → ActivityDetector
speech_timeout_set ad speech_timeout = record ad { speech_timeout = speech_timeout }

unfoldable pub silence_timeout_set : ActivityDetector → ℤ → ActivityDetector
silence_timeout_set ad silence_timeout = record ad { silence_timeout = silence_timeout }

unfoldable pub state_change : ActivityDetector → DetectorState → ActivityDetector
state_change ad state = record ad { duration = 0; state = state }

-- What LevelCalculate leaves: a level, the io.EOF of an empty buffer, or the run-time panic of a
-- division by zero; each with the bytes that are left in the buffer.
pub data LevelResult : Type 0 where
  measured : ℕ → List ℕ → LevelResult
  eof : LevelResult
  div_by_zero : LevelResult

-- The loop of LevelCalculate with `left` samples to go. `Buffer.Read(tmp)` fills `tmp` as far as the
-- buffer goes and fails on an empty buffer, so a last odd byte is read with a high byte of 0.
unfoldable pub sum_samples : ℕ → ℕ → List ℕ → Option (ℕ × List ℕ)
sum_samples zero sum buffer = some (sum, buffer)
sum_samples (suc left) sum [] = none
sum_samples (suc left) sum (lo ∷ []) = sum_samples left (sum + abs16 lo) []
sum_samples (suc left) sum (lo ∷ hi ∷ buffer) =
    sum_samples left (sum + abs16 (lo + 256 * hi)) buffer

-- `sum / count`
level_of : Option (ℕ × List ℕ) → ℕ → LevelResult
level_of none count = eof
level_of (some (sum, rest)) count = if count == 0 then div_by_zero else measured (sum / count) rest

unfoldable pub level_calculate : Frame → LevelResult
unfolding level_of
level_calculate frame = level_of (sum_samples (frame.size / 2) 0 frame.buffer) (frame.size / 2)

-- The switch over the states, given the level of the frame. The branches are those of Process.
on_inactivity : ActivityDetector → ℕ → ActivityDetector × DetectorEvent
unfolding state_change
on_inactivity ad level =
    if at_least level ad.level_threshold
    then (state_change ad activity_transition, no_event)
    else (let waited = record ad { duration = ad.duration + codec_frame_time_base } in
        (waited, if at_least waited.duration ad.no_input_timeout then no_input else no_event))

on_activity_transition : ActivityDetector → ℕ → ActivityDetector × DetectorEvent
unfolding state_change
on_activity_transition ad level =
    if at_least level ad.level_threshold
    then (let waited = record ad { duration = ad.duration + codec_frame_time_base } in
        if at_least waited.duration ad.speech_timeout
        then (state_change waited activity, voice_activity)
        else (waited, no_event))
    else (state_change ad inactivity, no_event)

on_activity : ActivityDetector → ℕ → ActivityDetector × DetectorEvent
unfolding state_change
on_activity ad level =
    if at_least level ad.level_threshold
    then (record ad { duration = ad.duration + codec_frame_time_base }, no_event)
    else (state_change ad inactivity_transition, no_event)

on_inactivity_transition : ActivityDetector → ℕ → ActivityDetector × DetectorEvent
unfolding state_change
on_inactivity_transition ad level =
    if at_least level ad.level_threshold
    then (state_change ad activity, no_event)
    else (let waited = record ad { duration = ad.duration + codec_frame_time_base } in
        if at_least waited.duration ad.silence_timeout
        then (state_change waited inactivity, voice_inactivity)
        else (waited, no_event))

dispatch : DetectorState → ActivityDetector → ℕ → ActivityDetector × DetectorEvent
unfolding on_inactivity on_activity_transition on_activity on_inactivity_transition
dispatch inactivity ad level = on_inactivity ad level
dispatch activity_transition ad level = on_activity_transition ad level
dispatch activity ad level = on_activity ad level
dispatch inactivity_transition ad level = on_inactivity_transition ad level

unfoldable pub detect : ActivityDetector → ℕ → ActivityDetector × DetectorEvent
unfolding dispatch
detect ad level = dispatch ad.state ad level

-- What Process returns: an event, the error of the level, or the panic of the level.
pub data Outcome : Type 0 where
  done : ActivityDetector → DetectorEvent → Outcome
  failed : ActivityDetector → Outcome
  panic : Outcome

unfoldable pub process : ActivityDetector → Frame → Outcome
process ad frame =
    if bit_and frame.frame_type media_frame_type_audio == media_frame_type_audio
    then (elim (level_calculate frame) [
      | measured l rest ↦ let (ad', event) = detect ad l in done ad' event
      | eof ↦ failed ad
      | div_by_zero ↦ panic
    ])
    else (let (ad', event) = detect ad 0 in done ad' event)
