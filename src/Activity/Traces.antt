-- ===== src/Activity/Traces.antt =====
-- The activity detector over a sequence of frames, given by their levels.
use go_mrcp.Prelude.{
  ℕ, zero, suc, ◌+◌, ◌*◌, ◌≡◌, refl, Bool, true, false, arith, List, [], ◌∷◌, ◌++◌, length,
  replicate, All, ◌≤◌,
}
use mathlib.Core.Path.{subst}
use go_mrcp.Prelude.Int.{ℤ, pos, negsuc}
use go_mrcp.Activity.{
  ActivityDetector, DetectorState, DetectorEvent, inactivity, activity_transition, activity,
  inactivity_transition, no_event, voice_activity, voice_inactivity, no_input, at_least, detect,
  reset,
}

-- Process called for each frame in turn, with the events that it returns.
unfoldable pub run : ActivityDetector → List ℕ → ActivityDetector × List DetectorEvent
run ad [] = (ad, [])
run ad (l ∷ ls) =
    let (ad', event) = detect ad l in let (last, events) = run ad' ls in (last, event ∷ events)

-- Has the detector reported voice that it has not reported the end of?
abbrev pub is_talking : DetectorState → Bool
is_talking inactivity = false
is_talking activity_transition = false
is_talking activity = true
is_talking inactivity_transition = true

-- Activity and inactivity events take turns, the next one being inactivity if `talking`; no-input
-- comes only where no voice is reported.
abbrev pub Alternates : Bool → List DetectorEvent → Type 0
Alternates talking [] = Unit {0}
Alternates talking (no_event ∷ events) = Alternates talking events
Alternates talking (voice_activity ∷ events) = (talking ≡ false) × Alternates true events
Alternates talking (voice_inactivity ∷ events) = (talking ≡ true) × Alternates false events
Alternates talking (no_input ∷ events) = (talking ≡ false) × Alternates talking events

Alternates-step :
    (ad : ActivityDetector) (l : ℕ) (events : List DetectorEvent)
    → Alternates (is_talking (detect ad l).0.state) events
    → Alternates (is_talking ad.state) ((detect ad l).1 ∷ events)
unfolding detect
Alternates-step ad l events h = ground arith

-- Over any frames, from any state, the detector reports voice activity and voice inactivity in turns,
-- and a no-input only outside voice.
pub run-Alternates :
    (ad : ActivityDetector) (ls : List ℕ) → Alternates (is_talking ad.state) (run ad ls).1
unfolding run
run-Alternates ad [] = tt
run-Alternates ad (l ∷ ls) =
    Alternates-step ad l (run (detect ad l).0 ls).1 (run-Alternates (detect ad l).0 ls)

at_least_mono : (m n : ℕ) (z : ℤ) → m ≤ n → at_least n z ≡ false → at_least m z ≡ false
at_least_mono m n (pos k) h e = ground arith
at_least_mono m n (negsuc k) h e = cc

-- A transition in progress: `phase d` is the detector after `d` milliseconds of it, `Fits` says which
-- levels continue it, and it ends with `event` in `last` when `timeout` is met.
module _ (phase : ℕ → ActivityDetector) (Fits : ℕ → Type 0) (timeout : ℤ) (last : ActivityDetector)
    (event : DetectorEvent)
    (wait : (d l : ℕ)
      → Fits l
      → at_least (d + 10) timeout ≡ false
      → detect (phase d) l ≡ (phase (d + 10), no_event))
    (finish : (d l : ℕ)
      → Fits l
      → at_least (d + 10) timeout ≡ true
      → detect (phase d) l ≡ (last, event)) where
  transition :
      (k d : ℕ) (ls : List ℕ)
      → All Fits ls
      → length ls ≡ suc k
      → at_least (d + 10 * k) timeout ≡ false
      → at_least (d + 10 * suc k) timeout ≡ true
      → run (phase d) ls ≡ (last, replicate k no_event ++ (event ∷ []))
  unfolding run
  transition k d [] fits len low high = absurd (omega arith)
  transition zero d (l ∷ l' ∷ ls) fits len low high = absurd (omega arith)
  transition zero d (l ∷ []) fits len low high =
      let e : d + 10 * 1 ≡ d + 10 = omega arith in rw (finish d l fits.0 (rw e at high)) refl
  transition (suc k) d (l ∷ ls) fits len low high =
      let e : d + 10 * suc k ≡ d + 10 + 10 * k = omega arith in
      let e' : d + 10 * suc (suc k) ≡ d + 10 + 10 * suc k = omega arith in
      rw
        (
          wait d l fits.0 (at_least_mono (d + 10) (d + 10 * suc k) timeout (omega arith) low),
          transition k (d + 10) ls fits.1 (omega arith) (rw e at low) (rw e' at high),
        )
        refl

abbrev pub AreLoud : ActivityDetector → List ℕ → Type 0
AreLoud ad = All (λ l. at_least l ad.level_threshold ≡ true)

abbrev pub AreQuiet : ActivityDetector → List ℕ → Type 0
AreQuiet ad = All (λ l. at_least l ad.level_threshold ≡ false)

module _ (ad : ActivityDetector) where
  speech_transition :
      (k d : ℕ) (ls : List ℕ)
      → AreLoud ad ls
      → length ls ≡ suc k
      → at_least (d + 10 * k) ad.speech_timeout ≡ false
      → at_least (d + 10 * suc k) ad.speech_timeout ≡ true
      → run (record ad { state = activity_transition; duration = d }) ls ≡ (
        record ad { state = activity; duration = 0 },
        replicate k no_event ++ (voice_activity ∷ []),
      )
  unfolding detect
  speech_transition =
      transition (λ d. record ad { state = activity_transition; duration = d })
        (λ l. at_least l ad.level_threshold ≡ true) ad.speech_timeout
        (record ad { state = activity; duration = 0 }) voice_activity (λ d l h e. ground arith)
        (λ d l h e. ground arith)

  silence_transition :
      (k d : ℕ) (ls : List ℕ)
      → AreQuiet ad ls
      → length ls ≡ suc k
      → at_least (d + 10 * k) ad.silence_timeout ≡ false
      → at_least (d + 10 * suc k) ad.silence_timeout ≡ true
      → run (record ad { state = inactivity_transition; duration = d }) ls ≡ (
        record ad { state = inactivity; duration = 0 },
        replicate k no_event ++ (voice_inactivity ∷ []),
      )
  unfolding detect
  silence_transition =
      transition (λ d. record ad { state = inactivity_transition; duration = d })
        (λ l. at_least l ad.level_threshold ≡ false) ad.silence_timeout
        (record ad { state = inactivity; duration = 0 }) voice_inactivity (λ d l h e. ground arith)
        (λ d l h e. ground arith)

  on_first_loud :
      (l : ℕ)
      → at_least l ad.level_threshold ≡ true
      → detect (reset ad) l ≡ (record ad { state = activity_transition; duration = 0 }, no_event)
  unfolding detect reset
  on_first_loud l h = ground arith

  on_first_quiet :
      (l : ℕ)
      → ad.state ≡ activity
      → at_least l ad.level_threshold ≡ false
      → detect ad l ≡ (record ad { state = inactivity_transition; duration = 0 }, no_event)
  unfolding detect
  on_first_quiet l s h = ground arith

  -- After a reset, one loud frame and then k + 1 more raise voice activity with the last of them and
  -- no event before, if 10 k milliseconds are below the speech timeout and 10 (k + 1) are not; the
  -- detector is then in activity with duration 0.
  pub speech_detected :
      (k l : ℕ) (ls : List ℕ)
      → AreLoud ad (l ∷ ls)
      → length ls ≡ suc k
      → at_least (10 * k) ad.speech_timeout ≡ false
      → at_least (10 * suc k) ad.speech_timeout ≡ true
      → run (reset ad) (l ∷ ls) ≡ (
        record ad { state = activity; duration = 0 },
        no_event ∷ (replicate k no_event ++ (voice_activity ∷ [])),
      )
  unfolding run
  speech_detected k l ls loud len low high =
      rw
        (
          on_first_loud l loud.0,
          speech_transition k 0 ls loud.1 len
              (subst (λ n. at_least n ad.speech_timeout ≡ false) (omega arith) low)
              (subst (λ n. at_least n ad.speech_timeout ≡ true) (omega arith) high),
        )
        refl

  -- From activity, one quiet frame and then k + 1 more raise voice inactivity with the last of them
  -- and no event before, if 10 k milliseconds are below the silence timeout and 10 (k + 1) are not;
  -- the detector is then in inactivity with duration 0.
  pub silence_detected :
      (k l : ℕ) (ls : List ℕ)
      → ad.state ≡ activity
      → AreQuiet ad (l ∷ ls)
      → length ls ≡ suc k
      → at_least (10 * k) ad.silence_timeout ≡ false
      → at_least (10 * suc k) ad.silence_timeout ≡ true
      → run ad (l ∷ ls) ≡ (
        record ad { state = inactivity; duration = 0 },
        no_event ∷ (replicate k no_event ++ (voice_inactivity ∷ [])),
      )
  unfolding run
  silence_detected k l ls s quiet len low high =
      rw
        (
          on_first_quiet l s quiet.0,
          silence_transition k 0 ls quiet.1 len
              (subst (λ n. at_least n ad.silence_timeout ≡ false) (omega arith) low)
              (subst (λ n. at_least n ad.silence_timeout ≡ true) (omega arith) high),
        )
        refl
