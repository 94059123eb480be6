-- ===== src/Activity/Tests.antt =====
-- Runs of the activity detector of mpf/mpf_activity_detector.go on concrete frames.
use go_mrcp.Prelude.{arith, ◌≡◌, refl, [], ◌∷◌, ◌++◌, replicate}
use go_mrcp.Prelude.Int.{pos}
use go_mrcp.Activity.{
  ActivityDetector, Frame, inactivity, activity, no_event, voice_activity, voice_inactivity,
  no_input, reset, detect, level_calculate, sum_samples, measured,
}
use go_mrcp.Activity.Silence.{silence_no_input}
use go_mrcp.Activity.Traces.{
  run, run-Alternates, Alternates, is_talking, speech_detected, silence_detected,
}

-- A detector that needs 20 milliseconds of voice and of silence.
abbrev quick : ActivityDetector
quick = record {
  level_threshold = pos 2;
  speech_timeout = pos 20;
  silence_timeout = pos 20;
  no_input_timeout = pos 30;
  state = inactivity;
  duration = 0;
}

abbrev talking : ActivityDetector
talking = record quick { state = activity }

abbrev a_frame : Frame
a_frame = record { frame_type = 1; size = 4; buffer = 1 ∷ 0 ∷ 255 ∷ 255 ∷ [] }

nine_frames :
    (run quick (0 ∷ 0 ∷ 0 ∷ 9 ∷ 9 ∷ 9 ∷ 0 ∷ 0 ∷ 0 ∷ [])).1
    ≡ no_event ∷ no_event ∷ no_input ∷ no_event ∷ no_event ∷ voice_activity ∷ no_event ∷ no_event
      ∷ voice_inactivity ∷ []
unfolding run detect
nine_frames = refl

a_level : level_calculate a_frame ≡ measured 1 []
unfolding level_calculate sum_samples
a_level = refl

run-Alternates_example :
    Alternates (is_talking quick.state) (run quick (9 ∷ 9 ∷ 9 ∷ 0 ∷ 0 ∷ 0 ∷ [])).1
run-Alternates_example = run-Alternates quick (9 ∷ 9 ∷ 9 ∷ 0 ∷ 0 ∷ 0 ∷ [])

speech_detected_example : run (reset quick) (9 ∷ 9 ∷ 9 ∷ []) ≡ (
  record quick { state = activity; duration = 0 },
  no_event ∷ (replicate 1 no_event ++ (voice_activity ∷ [])),
)
speech_detected_example =
    speech_detected quick 1 9 (9 ∷ 9 ∷ []) (refl, (refl, (refl, tt))) refl refl refl

silence_detected_example : run talking (0 ∷ 1 ∷ 0 ∷ []) ≡ (
  record talking { state = inactivity; duration = 0 },
  no_event ∷ (replicate 1 no_event ++ (voice_inactivity ∷ [])),
)
silence_detected_example =
    silence_detected talking 1 0 (1 ∷ 0 ∷ []) refl (refl, (refl, (refl, tt))) refl refl refl

silence_no_input_example :
    ((run talking (0 ∷ 1 ∷ 0 ∷ 0 ∷ 0 ∷ [])).0.state ≡ inactivity)
    × ((detect (run talking (0 ∷ 1 ∷ 0 ∷ 0 ∷ 0 ∷ [])).0 0).1 ≡ no_input)
silence_no_input_example =
    silence_no_input talking 1 2 0 (0 ∷ 1 ∷ 0 ∷ 0 ∷ 0 ∷ [])
      (refl, (refl, (refl, (refl, (refl, (refl, tt)))))) refl refl (omega arith)
