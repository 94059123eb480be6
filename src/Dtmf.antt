-- ===== src/Dtmf.antt =====
-- mpf/mpf_dtmf_detector.go: the DTMF detector, its buffer of detected digits and the Goertzel filter.
-- `DtmfDetectorGetFrame` and `GoertzelEnergiesDigit` have empty bodies in the source. Floating-point
-- numbers are a parameter, since the language has none.
pub mod Queue
pub mod Energy
pub mod Generator
mod Tests
use go_mrcp.Prelude.{
  ℕ, zero, suc, ◌+◌, ◌-◌, ◌*◌, ◌/◌, Bool, true, false, ◌==◌, ltb, if◌then◌else◌, List, [], ◌∷◌, map,
  Option, none, some, get_or, set, replicate, bit_and, bit_or,
}
use go_mrcp.Prelude.Words.{u16}

-- The float64 operations that the detector uses. `of_int16` takes the bit pattern of an int16, and
-- `coefficient f rate` is 2 * cos(2 * pi * f / rate).
pub record Float (F : Type 0) : Type 0 where
  pub zero_float : F
  pub of_int16 : ℕ → F
  pub add : F → F → F
  pub sub : F → F → F
  pub mul : F → F → F
  pub coefficient : ℕ → ℕ → F

pub record GoertzelState (F : Type 0) : Type 0 where
  pub coef : F
  pub s1 : F
  pub s2 : F

-- `digits` and `lost_digits` are int64 that count up from 0; `digits` is only taken down where the
-- buffer is not empty (Dtmf/Queue).
pub record DtmfDetector (F : Type 0) : Type 0 where
  pub band : ℕ
  pub buf : List ℕ
  pub digits : ℕ
  pub lost_digits : ℕ
  pub energies : List (GoertzelState F)
  pub total_energy : F
  pub w_samples : ℕ
  pub n_samples : ℕ
  pub last1 : ℕ
  pub last2 : ℕ
  pub curr : ℕ

abbrev pub inband : ℕ
inband = 0x1

abbrev pub outband : ℕ
outband = 0x2

abbrev pub both_bands : ℕ
both_bands = bit_or inband outband

abbrev pub buffer_len : ℕ
buffer_len = 32

abbrev pub goertzel_samples_8k : ℕ
goertzel_samples_8k = 102

abbrev pub dtmf_freqs : List ℕ
dtmf_freqs = 697 ∷ 770 ∷ 852 ∷ 941 ∷ 1209 ∷ 1336 ∷ 1477 ∷ 1633 ∷ []

-- What the detector reads of an AudioStream: the sampling rate of its transmit descriptor, if it has
-- one, and whether it has a transmit event descriptor.
pub record AudioStream : Type 0 where
  pub tx_sampling_rate : Option ℕ
  pub has_tx_event : Bool

-- `copy(buf[:], buf[1:])`: each byte moves down by one, and the last one stays.
unfoldable pub copy_down : List ℕ → List ℕ
copy_down [] = []
copy_down (x ∷ []) = x ∷ []
copy_down (x ∷ y ∷ r) = y ∷ copy_down (y ∷ r)

-- The digit of a row and a column; it is not read, since GoertzelEnergiesDigit has no body.
abbrev freq_to_digits : List (List ℕ)
freq_to_digits =
    (b'1' ∷ b'2' ∷ b'3' ∷ b'A' ∷ [])
    ∷ (b'4' ∷ b'5' ∷ b'6' ∷ b'B' ∷ [])
    ∷ (b'7' ∷ b'8' ∷ b'9' ∷ b'C' ∷ [])
    ∷ (b'*' ∷ b'0' ∷ b'#' ∷ b'D' ∷ [])
    ∷ []

abbrev event_id_max : ℕ
event_id_max = 15

unfoldable goertzel_energies_digit : {F : Type 0} → DtmfDetector F → DtmfDetector F
goertzel_energies_digit detector = detector

-- DtmfDetectorGetFrame does nothing with any frame.
unfoldable get_frame : {F Frame : Type 0} → DtmfDetector F → Frame → DtmfDetector F
get_frame detector frame = detector

module _ {F : Type 0} (f : Float F) where
  open f use {zero_float, of_int16, add, sub, mul, coefficient}

  -- The value that `new(DtmfDetector)` gives.
  abbrev blank : DtmfDetector F
  blank = record {
    band = 0;
    buf = replicate (buffer_len + 1) 0;
    digits = 0;
    lost_digits = 0;
    energies = replicate 8 (record { coef = zero_float; s1 = zero_float; s2 = zero_float });
    total_energy = zero_float;
    w_samples = 0;
    n_samples = 0;
    last1 = 0;
    last2 = 0;
    curr = 0;
  }

  -- The loop over the frequencies, and the window, at a sampling rate.
  abbrev tuned : ℕ → DtmfDetector F → DtmfDetector F
  tuned rate det = record det {
    energies =
        map (λ freq. record { coef = coefficient freq rate; s1 = zero_float; s2 = zero_float })
          dtmf_freqs;
    n_samples = 0;
    w_samples = goertzel_samples_8k * (rate / 8000);
    last1 = 0;
    last2 = 0;
    curr = 0;
  }

  -- `none` is a nil detector. With no transmit descriptor `flgBand &= ^INBAND` clears the in-band
  -- bit, so that the descriptor is read only where there is one.
  unfoldable pub create_ex : AudioStream → ℕ → Option (DtmfDetector F)
  create_ex stream band = elim stream.tx_sampling_rate [
    | none ↦
        let flags = band - bit_and band inband in
        if flags == 0 then none else some (record blank { band = flags })
    | some rate ↦
        if band == 0
        then none
        else (let det = record blank { band = band } in
            some (if ltb 0 (bit_and band inband) then tuned rate det else det))
  ]

  unfoldable pub create : AudioStream → Option (DtmfDetector F)
  unfolding create_ex
  create stream = create_ex stream (if stream.has_tx_event then both_bands else inband)

  unfoldable pub reset : DtmfDetector F → DtmfDetector F
  reset detector = record detector {
    buf = set detector.buf 0 0;
    lost_digits = 0;
    digits = 0;
    curr = 0;
    last1 = 0;
    last2 = 0;
    n_samples = 0;
    total_energy = zero_float;
  }

  -- s(t) = x(t) + coef * s(t-1) - s(t-2), on one frequency
  abbrev filter_step : F → GoertzelState F → GoertzelState F
  filter_step x g = record g { s1 = g.s2; s2 = sub (add x (mul g.coef g.s2)) g.s1 }

  -- `sample * sample` is a product of int16, which wraps.
  unfoldable pub goertzel_sample : DtmfDetector F → ℕ → DtmfDetector F
  goertzel_sample detector sample = record detector {
    energies = map (filter_step (of_int16 sample)) detector.energies;
    total_energy = add detector.total_energy (of_int16 (u16 (sample * sample)));
  }

module _ {F : Type 0} where
  unfoldable pub digit_get : DtmfDetector F → DtmfDetector F × ℕ
  unfolding copy_down
  digit_get detector =
      let digit = get_or detector.buf 0 0 in
      if ltb 0 digit
      then (record detector { buf = copy_down detector.buf; digits = detector.digits - 1 }, digit)
      else (detector, digit)

  unfoldable pub digits_lost : DtmfDetector F → ℕ
  digits_lost detector = detector.lost_digits

  unfoldable pub add_digit : DtmfDetector F → ℕ → DtmfDetector F
  add_digit detector digit =
      if digit == 0
      then detector
      else (if ltb detector.digits buffer_len
          then record detector {
            buf = set (set detector.buf detector.digits digit) (detector.digits + 1) 0;
            digits = detector.digits + 1;
          }
          else record detector { lost_digits = detector.lost_digits + 1 })
