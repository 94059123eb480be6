-- ===== src/Dtmf/Tests.antt =====
-- Runs of the DTMF detector of mpf/mpf_dtmf_detector.go on concrete input.
use go_mrcp.Prelude.{ℕ, ◌+◌, ◌-◌, ◌*◌, ◌/◌, ◌≡◌, refl, false, [], ◌∷◌, Option, none, some}
use go_mrcp.Dtmf.{Float, DtmfDetector, AudioStream, create}
use go_mrcp.Dtmf.Queue.{
  put, get, count_lost, clear, queue_run, queue_step, detector_run, detector_run-eq-queue_run,
}

-- Numbers in place of floating-point ones.
abbrev whole : Float ℕ
whole = record {
  zero_float = 0;
  of_int16 = λ w. w;
  add = λ a b. a + b;
  sub = λ a b. a - b;
  mul = λ a b. a * b;
  coefficient = λ freq rate. freq / rate;
}

abbrev no_stream : AudioStream
no_stream = record { tx_sampling_rate = none; has_tx_event = false }

abbrev a_stream : AudioStream
a_stream = record { tx_sampling_rate = some 16000; has_tx_event = false }

abbrev or_blank : Option (DtmfDetector ℕ) → DtmfDetector ℕ → DtmfDetector ℕ
or_blank none d = d
or_blank (some detector) d = detector

abbrev blank_detector : DtmfDetector ℕ
blank_detector = record {
  band = 0;
  buf = [];
  digits = 0;
  lost_digits = 0;
  energies = [];
  total_energy = 0;
  w_samples = 0;
  n_samples = 0;
  last1 = 0;
  last2 = 0;
  curr = 0;
}

abbrev a_detector : DtmfDetector ℕ
a_detector = or_blank (create whole a_stream) blank_detector

a_detector-made : create whole a_stream ≡ some a_detector
unfolding create
a_detector-made = refl

two_digits :
    queue_run (record { waiting = []; lost = 0 }) (put 49 ∷ put 50 ∷ get ∷ get ∷ get ∷ [])
    ≡ 0 ∷ 0 ∷ 49 ∷ 50 ∷ 0 ∷ []
unfolding queue_run queue_step
two_digits = refl

detector_run-eq-queue_run_example :
    detector_run whole a_detector (put 49 ∷ put 50 ∷ clear ∷ put 51 ∷ get ∷ get ∷ count_lost ∷ [])
    ≡ queue_run
        (record { waiting = []; lost = 0 })
        (put 49 ∷ put 50 ∷ clear ∷ put 51 ∷ get ∷ get ∷ count_lost ∷ [])
detector_run-eq-queue_run_example =
    detector_run-eq-queue_run whole a_stream a_detector-made
      (put 49 ∷ put 50 ∷ clear ∷ put 51 ∷ get ∷ get ∷ count_lost ∷ [])
