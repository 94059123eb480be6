-- ===== src/Dtmf/Queue.antt =====
-- The digit buffer of mpf/mpf_dtmf_detector.go refines a bounded queue of digits.
use go_mrcp.Prelude.{
  ℕ, suc, ◌+◌, ◌≤◌, ◌<◌, ◌≡◌, ◌≢◌, refl, ap, ◌==◌, ltb, if◌then◌else◌, arith, List, [], ◌∷◌, ◌++◌,
  some, length, get_or, set, length-set, length-append, Bool-cases, inl, inr, ltb→lt, lt→ltb,
  replicate, ◌∙◌,
}
use go_mrcp.Dtmf.{
  Float, DtmfDetector, AudioStream, buffer_len, copy_down, create, reset, digit_get, digits_lost,
  add_digit,
}

-- What a client sees: the digits that wait, oldest first, and how many were lost.
pub record DigitQueue : Type 0 where
  pub waiting : List ℕ
  pub lost : ℕ

pub data Op : Type 0 where
  put : ℕ → Op
  get : Op
  count_lost : Op
  clear : Op

-- One call on the queue, with what it returns (0 for a call that returns nothing).
unfoldable pub queue_step : DigitQueue → Op → DigitQueue × ℕ
queue_step q (put digit) =
    if digit == 0
    then (q, 0)
    else (if ltb (length q.waiting) buffer_len
        then (record q { waiting = q.waiting ++ (digit ∷ []) }, 0)
        else (record q { lost = q.lost + 1 }, 0))
queue_step q get = elim q.waiting [ [] ↦ (q, 0) | x ∷ r ↦ (record q { waiting = r }, x) ]
queue_step q count_lost = (q, q.lost)
queue_step q clear = (record { waiting = []; lost = 0 }, 0)

unfoldable pub queue_run : DigitQueue → List Op → List ℕ
queue_run q [] = []
queue_run q (op ∷ ops) = let (q', out) = queue_step q op in out ∷ queue_run q' ops

-- A buffer that holds the digits `q` and the terminating 0 after them.
abbrev pub Holds : List ℕ → List ℕ → Type 0
Holds q [] = ⊥
Holds [] (b ∷ buf) = b ≡ 0
Holds (x ∷ q) (b ∷ buf) = (b ≡ x) × (x ≢ 0) × Holds q buf

Holds-copy_down_cons :
    (q : List ℕ) (b : ℕ) (buf : List ℕ) → Holds q (b ∷ buf) → Holds q (b ∷ copy_down (b ∷ buf))
unfolding copy_down
Holds-copy_down_cons [] b buf h = h
Holds-copy_down_cons (x ∷ []) b [] h = absurd h.2
Holds-copy_down_cons (x ∷ y ∷ q) b [] h = absurd h.2
Holds-copy_down_cons (x ∷ q) b (c ∷ buf) h = (h.0, h.1, Holds-copy_down_cons q c buf h.2)

Holds-copy_down : (x : ℕ) (q buf : List ℕ) → Holds (x ∷ q) buf → Holds q (copy_down buf)
unfolding copy_down
Holds-copy_down x q [] h = absurd h
Holds-copy_down x [] (b ∷ []) h = absurd h.2
Holds-copy_down x (y ∷ q) (b ∷ []) h = absurd h.2
Holds-copy_down x q (b ∷ c ∷ buf) h = Holds-copy_down_cons q c buf h.2

length-copy_down : (buf : List ℕ) → length (copy_down buf) ≡ length buf
unfolding copy_down
length-copy_down [] = refl
length-copy_down (x ∷ []) = refl
length-copy_down (x ∷ y ∷ r) = ap suc (length-copy_down (y ∷ r))

Holds-set :
    (q buf : List ℕ) (digit : ℕ)
    → Holds q buf
    → digit ≢ 0
    → suc (length q) < length buf
    → Holds (q ++ (digit ∷ [])) (set (set buf (length q) digit) (suc (length q)) 0)
Holds-set q [] digit h nz lt = absurd (omega arith)
Holds-set [] (b ∷ []) digit h nz lt = absurd (omega arith)
Holds-set [] (b ∷ c ∷ buf) digit h nz lt = (refl, nz, refl)
Holds-set (x ∷ q) (b ∷ buf) digit h nz lt = (h.0, h.1, Holds-set q buf digit h.2 nz (omega arith))

first-nil : (buf : List ℕ) → Holds [] buf → get_or buf 0 0 ≡ 0
first-nil [] h = absurd h
first-nil (b ∷ buf) h = h

first-cons : (x : ℕ) (q buf : List ℕ) → Holds (x ∷ q) buf → (get_or buf 0 0 ≡ x) × (x ≢ 0)
first-cons x q [] h = absurd h
first-cons x q (b ∷ buf) h = (h.0, h.1)

-- The detector holds the queue.
pub record Represents {F : Type 0} (detector : DtmfDetector F) (q : DigitQueue) : Type 0 where
  pub holds : Holds q.waiting detector.buf
  pub counted : detector.digits ≡ length q.waiting
  pub bounded : length q.waiting ≤ buffer_len
  pub sized : length detector.buf ≡ buffer_len + 1
  pub losses : detector.lost_digits ≡ q.lost

module _ {F : Type 0} (f : Float F) where
  -- One call on the detector.
  pub detector_step : DtmfDetector F → Op → DtmfDetector F × ℕ
  detector_step detector (put digit) = (add_digit detector digit, 0)
  detector_step detector get = digit_get detector
  detector_step detector count_lost = (detector, digits_lost detector)
  detector_step detector clear = (reset f detector, 0)

  pub detector_run : DtmfDetector F → List Op → List ℕ
  detector_run detector [] = []
  detector_run detector (op ∷ ops) =
      let (detector', out) = detector_step detector op in out ∷ detector_run detector' ops

  stored :
      (detector : DtmfDetector F) (q : DigitQueue) (digit : ℕ)
      → Represents detector q
      → digit ≢ 0
      → length q.waiting < buffer_len
      → Holds
          (q.waiting ++ (digit ∷ []))
          (set (set detector.buf (length q.waiting) digit) (length q.waiting + 1) 0)
  stored detector q digit r nz lt =
      let e : length q.waiting + 1 ≡ suc (length q.waiting) = omega arith in
      rw e (Holds-set q.waiting detector.buf digit r.holds nz (omega (arith, r.sized)))

  put-Represents :
      (detector : DtmfDetector F) (q : DigitQueue) (digit : ℕ)
      → Represents detector q
      → Represents (add_digit detector digit) (queue_step q (put digit)).0
  unfolding add_digit queue_step
  put-Represents detector q digit r = elim (Bool-cases (digit == 0)) [
    | inl z ↦ rw z r
    | inr nz ↦ elim (Bool-cases (ltb (length q.waiting) buffer_len)) [
      | inl room ↦
          rw (nz, r.counted, room)
            (record {
              holds = stored detector q digit r (λ z. ground arith) (ltb→lt _ _ room);
              counted = omega (arith, length-append q.waiting (digit ∷ []));
              bounded = omega (arith, length-append q.waiting (digit ∷ []), ltb→lt _ _ room);
              sized =
                  length-set (set detector.buf (length q.waiting) digit) (length q.waiting + 1) 0
                  ∙ length-set detector.buf (length q.waiting) digit
                  ∙ r.sized;
              losses = r.losses;
            })
      | inr full ↦
          rw (nz, r.counted, full)
            (record {
              holds = r.holds;
              counted = refl;
              bounded = r.bounded;
              sized = r.sized;
              losses = omega (arith, r.losses);
            })
    ]
  ]

  get_split :
      (detector : DtmfDetector F) (w : List ℕ) (n : ℕ)
      → let q : DigitQueue = record { waiting = w; lost = n } in
        Represents detector q
        → Represents (digit_get detector).0 (queue_step q get).0
          × ((digit_get detector).1 ≡ (queue_step q get).1)
  unfolding digit_get queue_step
  get_split detector [] n r = rw (first-nil detector.buf r.holds) (r, refl)
  get_split detector (x ∷ w) n r =
      let (e, nz) = first-cons x w detector.buf r.holds in
      rw (e, lt→ltb 0 x (omega (arith, nz)))
        (
          record {
            holds = Holds-copy_down x w detector.buf r.holds;
            counted = omega (arith, r.counted);
            bounded = omega (arith, r.bounded);
            sized = length-copy_down detector.buf ∙ r.sized;
            losses = r.losses;
          },
          refl,
        )

  get-Represents :
      (detector : DtmfDetector F) (q : DigitQueue)
      → Represents detector q
      → Represents (digit_get detector).0 (queue_step q get).0
        × ((digit_get detector).1 ≡ (queue_step q get).1)
  get-Represents detector q r = get_split detector q.waiting q.lost r

  cleared : (buf : List ℕ) → length buf ≡ buffer_len + 1 → Holds [] (set buf 0 0)
  cleared [] h = absurd (omega arith)
  cleared (b ∷ buf) h = refl

  clear-Represents :
      (detector : DtmfDetector F) (q : DigitQueue)
      → Represents detector q
      → Represents (reset f detector) (queue_step q clear).0
  unfolding reset queue_step
  clear-Represents detector q r = record {
    holds = cleared detector.buf r.sized;
    counted = refl;
    bounded = omega arith;
    sized = omega (arith, length-set detector.buf 0 0, r.sized);
    losses = refl;
  }

  put_silent : (q : DigitQueue) (digit : ℕ) → 0 ≡ (queue_step q (put digit)).1
  unfolding queue_step
  put_silent q digit = ground arith

  created_fields :
      (stream : AudioStream) (detector : DtmfDetector F)
      → create f stream ≡ some detector
      → (detector.buf ≡ replicate (buffer_len + 1) 0)
        × (detector.digits ≡ 0)
        × (detector.lost_digits ≡ 0)
  unfolding create
  created_fields stream detector e = (ground arith, ground arith, ground arith)

  created-Represents :
      (stream : AudioStream) (detector : DtmfDetector F)
      → create f stream ≡ some detector
      → Represents detector (record { waiting = []; lost = 0 })
  created-Represents stream detector e =
      let (b, d, l) = created_fields stream detector e in
      record {
        holds = rw b refl;
        counted = d;
        bounded = omega arith;
        sized = rw b refl;
        losses = l;
      }

  -- The operation keeps the queue that the detector holds, and returns what it does.
  step-Represents :
      (detector : DtmfDetector F) (q : DigitQueue) (op : Op)
      → Represents detector q
      → Represents (detector_step detector op).0 (queue_step q op).0
        × ((detector_step detector op).1 ≡ (queue_step q op).1)
  unfolding detector_step queue_step digits_lost
  step-Represents detector q (put digit) r = (put-Represents detector q digit r, put_silent q digit)
  step-Represents detector q get r = get-Represents detector q r
  step-Represents detector q count_lost r = (r, r.losses)
  step-Represents detector q clear r = (clear-Represents detector q r, refl)

  run-Represents :
      (detector : DtmfDetector F) (q : DigitQueue) (ops : List Op)
      → Represents detector q
      → detector_run detector ops ≡ queue_run q ops
  unfolding detector_run queue_run
  run-Represents detector q [] r = refl
  run-Represents detector q (op ∷ ops) r =
      let (r', e) = step-Represents detector q op r in
      rw (e, run-Represents (detector_step detector op).0 (queue_step q op).0 ops r') refl

  -- From creation on, every sequence of calls that add digits, get them, count the lost ones or
  -- reset returns what a first-in first-out queue of at most 32 digits returns: digits come out in
  -- the order in which they were detected, and those that find the queue full are counted as lost.
  pub detector_run-eq-queue_run :
      (stream : AudioStream) {detector : DtmfDetector F}
      → create f stream ≡ some detector
      → (ops : List Op)
      → detector_run detector ops ≡ queue_run (record { waiting = []; lost = 0 }) ops
  detector_run-eq-queue_run stream {detector} e ops =
      run-Represents detector _ ops (created-Represents stream detector e)
