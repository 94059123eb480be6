-- ===== src/Activity/Steps.antt =====
-- One frame of the activity detector (ActivityDetectorProcess after the level is known).
use go_mrcp.Prelude.{ℕ, ◌+◌, ◌≡◌, ◌↔◌, ◌⊎◌, true, false, arith, bit_and}
use go_mrcp.Activity.{
  ActivityDetector, Frame, inactivity, activity_transition, activity, inactivity_transition,
  voice_activity, voice_inactivity, no_input, at_least, detect, process, failed, panic, eof,
  div_by_zero, level_calculate, media_frame_type_audio, codec_frame_time_base,
}

-- Each event is raised exactly at its transition: voice activity on the step from the activity
-- transition to activity, voice inactivity on the step from the inactivity transition to inactivity,
-- and no-input exactly when a quiet frame in inactivity brings the duration to the no-input timeout.
pub detect_event_iff :
    (ad : ActivityDetector) (l : ℕ)
    → let (ad', event) = detect ad l in
      ((event ≡ voice_activity) ↔ ((ad.state ≡ activity_transition) × (ad'.state ≡ activity)))
      × ((event ≡ voice_inactivity)
          ↔ ((ad.state ≡ inactivity_transition) × (ad'.state ≡ inactivity)))
      × ((event ≡ no_input) ↔ (
          (ad.state ≡ inactivity)
          × (at_least l ad.level_threshold ≡ false)
          × (at_least (ad.duration + codec_frame_time_base) ad.no_input_timeout ≡ true)))
unfolding detect
detect_event_iff ad l = (
  (λ e. ground arith, λ e. ground arith),
  (λ e. ground arith, λ e. ground arith),
  (λ e. ground arith, λ e. ground arith),
)

-- One frame leaves the level threshold and the timeouts as they are, and either the state stays and the
-- duration grows by the time of a frame, or the duration is 0.
pub detect_step :
    (ad : ActivityDetector) (l : ℕ)
    → let ad' = (detect ad l).0 in
      (ad'.level_threshold ≡ ad.level_threshold)
      × (ad'.speech_timeout ≡ ad.speech_timeout)
      × (ad'.silence_timeout ≡ ad.silence_timeout)
      × (ad'.no_input_timeout ≡ ad.no_input_timeout)
      × (((ad'.state ≡ ad.state) × (ad'.duration ≡ ad.duration + codec_frame_time_base))
          ⊎ (ad'.duration ≡ 0))
unfolding detect
detect_step ad l = (ground arith, ground arith, ground arith, ground arith, ground arith)

-- Process fails and leaves the detector as it was exactly for an audio frame whose level fails with
-- io.EOF, and panics exactly for an audio frame whose level divides by zero.
pub process_outcome :
    (ad : ActivityDetector) (frame : Frame)
    → ((process ad frame ≡ failed ad) ↔ (
        (bit_and frame.frame_type media_frame_type_audio ≡ media_frame_type_audio)
        × (level_calculate frame ≡ eof)))
      × ((process ad frame ≡ panic) ↔ (
          (bit_and frame.frame_type media_frame_type_audio ≡ media_frame_type_audio)
          × (level_calculate frame ≡ div_by_zero)))
unfolding process
process_outcome ad frame =
    ((λ e. ground arith, λ e. ground arith), (λ e. ground arith, λ e. ground arith))
