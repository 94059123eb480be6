-- ===== src/Activity/Silence.antt =====
-- What a lasting silence leads the detector of mpf/mpf_activity_detector.go to, from any state.
use go_mrcp.Prelude.{
  ℕ, zero, suc, ◌+◌, ◌-◌, ◌*◌, ◌≤◌, ◌≡◌, refl, inl, inr, arith, true, false, List, [], ◌∷◌, length,
  Bool-cases, if◌then◌else◌,
}
use go_mrcp.Prelude.Int.{ℤ, pos, negsuc}
use go_mrcp.Activity.{
  ActivityDetector, DetectorState, inactivity, activity_transition, activity, inactivity_transition,
  no_input, at_least, detect,
}
use go_mrcp.Activity.Traces.{run, AreQuiet}

at_least_more : (m n : ℕ) (z : ℤ) → m ≤ n → at_least m z ≡ true → at_least n z ≡ true
at_least_more m n (pos k) h e = ground arith
at_least_more m n (negsuc k) h e = refl

module _ (c : ActivityDetector) where
  -- The detector in a state, for `m` milliseconds.
  abbrev in_state : DetectorState → ℕ → ActivityDetector
  in_state s m = record c { state = s; duration = m }

  abbrev IsQuiet : ℕ → Type 0
  IsQuiet l = at_least l c.level_threshold ≡ false

  on_inactivity :
      (m l : ℕ) → IsQuiet l → (detect (in_state inactivity m) l).0 ≡ in_state inactivity (m + 10)
  unfolding detect
  on_inactivity m l q = ground arith

  on_activity_transition :
      (m l : ℕ) → IsQuiet l → (detect (in_state activity_transition m) l).0 ≡ in_state inactivity 0
  unfolding detect
  on_activity_transition m l q = ground arith

  on_activity :
      (m l : ℕ) → IsQuiet l → (detect (in_state activity m) l).0 ≡ in_state inactivity_transition 0
  unfolding detect
  on_activity m l q = ground arith

  on_inactivity_transition :
      (m l : ℕ)
      → IsQuiet l
      → (detect (in_state inactivity_transition m) l).0 ≡ (
          if at_least (m + 10) c.silence_timeout
          then in_state inactivity 0
          else in_state inactivity_transition (m + 10))
  unfolding detect
  on_inactivity_transition m l q = ground arith

  -- After the frames the detector is in inactivity, for `m` milliseconds at least.
  abbrev Settles : ActivityDetector → List ℕ → ℕ → Type 0
  Settles ad ls m = (d : ℕ) × ((run ad ls).0 ≡ in_state inactivity d) × (m ≤ d)

  from_inactivity :
      (m n : ℕ) (ls : List ℕ)
      → AreQuiet c ls
      → n ≤ length ls
      → Settles (in_state inactivity m) ls (m + 10 * n)
  unfolding run
  from_inactivity m n [] q h = (m, refl, omega arith)
  from_inactivity m n (l ∷ ls) q h =
      let (d, e, le) = from_inactivity (m + 10) (n - 1) ls q.1 (omega arith) in
      (d, rw (on_inactivity m l q.0) e, omega arith)

  from_inactivity_transition :
      (k m n : ℕ) (ls : List ℕ)
      → AreQuiet c ls
      → at_least (m + 10 * suc k) c.silence_timeout ≡ true
      → suc k + n ≤ length ls
      → Settles (in_state inactivity_transition m) ls (10 * n)
  unfolding run
  from_inactivity_transition k m n [] q t h = absurd (omega arith)
  from_inactivity_transition zero m n (l ∷ ls) q t h =
      let e : m + 10 * 1 ≡ m + 10 = omega arith in
      let (d, r, le) = from_inactivity 0 n ls q.1 (omega arith) in
      (d, rw (on_inactivity_transition m l q.0, rw e at t) r, omega arith)
  from_inactivity_transition (suc k) m n (l ∷ ls) q t h =
      elim (Bool-cases (at_least (m + 10) c.silence_timeout)) [
        | inl y ↦
            let (d, r, le) = from_inactivity 0 n ls q.1 (omega arith) in
            (d, rw (on_inactivity_transition m l q.0, y) r, omega arith)
        | inr low ↦
            let e : m + 10 * suc (suc k) ≡ m + 10 + 10 * suc k = omega arith in
            let (d, r, le) =
              from_inactivity_transition k (m + 10) n ls q.1 (rw e at t) (omega arith) in
            (d, rw (on_inactivity_transition m l q.0, low) r, le)
      ]

  from_state :
      (k m n : ℕ) (s : DetectorState) (ls : List ℕ)
      → AreQuiet c ls
      → at_least (10 * suc k) c.silence_timeout ≡ true
      → suc (suc k) + n ≤ length ls
      → Settles (in_state s m) ls (10 * n)
  unfolding run
  from_state k m n s [] q t h = absurd (omega arith)
  from_state k m n inactivity (l ∷ ls) q t h =
      let (d, e, le) = from_inactivity m n (l ∷ ls) q (omega arith) in (d, e, omega arith)
  from_state k m n activity_transition (l ∷ ls) q t h =
      let (d, e, le) = from_inactivity 0 n ls q.1 (omega arith) in
      (d, rw (on_activity_transition m l q.0) e, omega arith)
  from_state k m n activity (l ∷ ls) q t h =
      let z : 0 + 10 * suc k ≡ 10 * suc k = omega arith in
      let (d, e, le) = from_inactivity_transition k 0 n ls q.1 (rw z t) (omega arith) in
      (d, rw (on_activity m l q.0) e, omega arith)
  from_state k m n inactivity_transition (l ∷ ls) q t h =
      from_inactivity_transition k m n (l ∷ ls) q
        (at_least_more (10 * suc k) (m + 10 * suc k) c.silence_timeout (omega arith) t)
        (omega arith)

-- Silence that lasts is always noticed: whatever state the detector is in, after k + 2 + n quiet frames
-- or more, if 10 (k + 1) milliseconds meet the silence timeout and 10 (n + 1) the no-input timeout, it
-- is in inactivity and raises a no-input on the next quiet frame, so on every quiet frame from then on.
pub silence_no_input :
    (ad : ActivityDetector) (k n l : ℕ) (ls : List ℕ)
    → AreQuiet ad (l ∷ ls)
    → at_least (10 * suc k) ad.silence_timeout ≡ true
    → at_least (10 * suc n) ad.no_input_timeout ≡ true
    → suc (suc k) + n ≤ length ls
    → ((run ad ls).0.state ≡ inactivity) × ((detect (run ad ls).0 l).1 ≡ no_input)
unfolding detect
silence_no_input ad k n l ls q silent waited h =
    let (d, e, le) = from_state ad k ad.duration n ad.state ls q.1 silent h in
    let enough : at_least (d + 10) ad.no_input_timeout ≡ true =
      at_least_more (10 * suc n) (d + 10) ad.no_input_timeout (omega arith) waited in
    (rw e refl, rw (e, q.0, enough) refl)
