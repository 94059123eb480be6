-- ===== src/Dtmf/Generator.antt =====
-- mpf/mpf_dtmf_generator.go: the DTMF generator, which has its data and no code beside its creation.
-- Its mutex is not modelled.
use go_mrcp.Prelude.{ℕ, Bool, true, false, if◌then◌else◌, Option, none}
use go_mrcp.Dtmf.{inband, outband}

abbrev generator_queue_len : ℕ
generator_queue_len = 32

abbrev event_volume : ℕ
event_volume = 10

abbrev sine_amplitude : ℕ
sine_amplitude = 12288

data DtmfGeneratorState : Type 0 where
  dtmf_gen_state_idle : DtmfGeneratorState
  dtmf_gen_state_tone : DtmfGeneratorState
  dtmf_gen_state_ending : DtmfGeneratorState
  dtmf_gen_state_silence : DtmfGeneratorState

unfoldable dtmf_generator_state_number : DtmfGeneratorState → ℕ
dtmf_generator_state_number dtmf_gen_state_idle = 0
dtmf_generator_state_number dtmf_gen_state_tone = 1
dtmf_generator_state_number dtmf_gen_state_ending = 2
dtmf_generator_state_number dtmf_gen_state_silence = 3

-- F is the type of float64.
record SineState (F : Type 0) : Type 0 where
  coef : F
  s1 : F
  s2 : F

record DtmfGenerator (F : Type 0) : Type 0 where
  state : DtmfGeneratorState
  band : ℕ
  event_id : ℕ
  tone_duration : ℕ
  silence_duration : ℕ
  counter : ℕ
  frame_duration : ℕ
  event_duration : ℕ
  new_segment : Bool
  sine1 : SineState F
  sine2 : SineState F
  sample_rate_audio : ℕ
  sample_rate_events : ℕ
  events_ptime : ℕ
  since_last_event : ℕ

-- What the creation reads of a stream: whether it receives named events.
record AudioStream : Type 0 where
  has_rx_event : Bool

-- Every way to create a generator gives nil.
unfoldable generator_create_ex : {F : Type 0} → AudioStream → ℕ → ℕ → ℕ → Option (DtmfGenerator F)
generator_create_ex stream band tone_ms silence_ms = none

unfoldable generator_create : {F : Type 0} → AudioStream → Option (DtmfGenerator F)
unfolding generator_create_ex
generator_create stream =
    generator_create_ex stream (if stream.has_rx_event then outband else inband) 70 50

-- Digits are not put into the queue, and no error is returned.
unfoldable generator_enqueue : {F : Type 0} → DtmfGenerator F → ℕ → DtmfGenerator F × Bool
generator_enqueue g digits = (g, true)

unfoldable generator_reset : {F : Type 0} → DtmfGenerator F → DtmfGenerator F
generator_reset g = g

unfoldable generator_sending : {F : Type 0} → DtmfGenerator F → Bool
generator_sending g = false
