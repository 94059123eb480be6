-- ===== src/Dtmf/Energy.antt =====
-- The signal energy that GoertzelSample (mpf/mpf_dtmf_detector.go) accumulates, and how detectors
-- are made.
use go_mrcp.Prelude.{ℕ, ◌*◌, ◌/◌, ◌≡◌, ◌↔◌, ap, arith, false, none, some, bit_and}
use go_mrcp.Prelude.Words.{u16}
use go_mrcp.Dtmf.{
  Float, DtmfDetector, AudioStream, inband, create, goertzel_sample, goertzel_samples_8k,
}

wrapped_square : (k : ℕ) → u16 (256 * k * (256 * k)) ≡ u16 (0 * 0)
wrapped_square k = omega arith

module _ {F : Type 0} (f : Float F) where
  -- The energy that a sample adds is that of its square modulo 2 ^ 16: a sample that is a multiple of
  -- 256, however loud, adds the energy of silence.
  pub goertzel_sample_wraps :
      (detector : DtmfDetector F) (k : ℕ)
      → (goertzel_sample f detector (256 * k)).total_energy
        ≡ (goertzel_sample f detector 0).total_energy
  unfolding goertzel_sample
  goertzel_sample_wraps detector k =
      ap (λ e. f.add detector.total_energy (f.of_int16 e)) (wrapped_square k)

  -- DtmfDetectorCreate gives no detector exactly when the stream has neither a transmit descriptor
  -- nor an event descriptor.
  pub create-none_iff :
      (stream : AudioStream)
      → (create f stream ≡ none)
        ↔ ((stream.tx_sampling_rate ≡ none) × (stream.has_tx_event ≡ false))
  unfolding create
  create-none_iff stream = (λ e. ground arith, λ e. ground arith)

  -- A detector with the in-band bit set belongs to a stream with a transmit descriptor, and its
  -- window is 102 samples for each full 8 kHz of that descriptor's rate.
  pub create-inband :
      (stream : AudioStream) (detector : DtmfDetector F)
      → create f stream ≡ some detector
      → bit_and detector.band inband ≡ inband
      → (rate : ℕ) × (stream.tx_sampling_rate ≡ some rate)
        × (detector.w_samples ≡ goertzel_samples_8k * (rate / 8000))
  unfolding create
  create-inband stream detector e b = ground arith
