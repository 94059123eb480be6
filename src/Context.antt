-- ===== src/Context.antt =====
-- The media context of mpf/mpf_context.go: terminations in numbered slots, and the association matrix
-- with the counts of transmitters and receivers of each slot.
-- A termination is known by an identifier, its pointer; the fields that the context reads or writes
-- (the slot and the direction of the audio stream) are in a store. The slices of the context have
-- `capacity` elements, so an index of them is tested against it: out of range is a panic.
pub mod Counts
pub mod Associations
pub mod Slots
pub mod Reset
pub mod ResetLaws
pub mod Factory
pub mod FactoryLaws
pub mod Message
mod Tests
use go_mrcp.Prelude.{
  ℕ, zero, suc, ◌+◌, ◌-◌, ◌%◌, Bool, true, false, ltb, leb, ◌==◌, ◌&&◌, ◌||◌, not, if◌then◌else◌,
  List, [], ◌∷◌, ◌++◌, Option, none, some, bit_and,
}
use go_mrcp.Prelude.Int.{ℤ, pos, negsuc}
use go_mrcp.Prelude.Words.{u8}

-- The slot (-1 is no slot) and the direction of the audio stream, `none` for no stream.
pub record Termination : Type 0 where
  pub slot : ℤ
  pub direction : Option ℕ

abbrev pub Store : Type 0
Store = ℕ → Termination

pub record HeaderItem : Type 0 where
  pub termination : Option ℕ
  pub tx_count : ℕ  -- uint8
  pub rx_count : ℕ  -- uint8

-- `link` is how many entries the factory's list has for this context; `has_element` says whether the
-- entry that `Element` points to is one of them.
pub record Context : Type 0 where
  pub capacity : ℕ
  pub count : ℕ
  pub header : ℕ → HeaderItem
  pub matrix : ℕ → ℕ → ℕ
  pub link : ℕ
  pub has_element : Bool

abbrev pub stream_direction_send : ℕ
stream_direction_send = 0x1

abbrev pub stream_direction_receive : ℕ
stream_direction_receive = 0x2

abbrev pub update {ℓ} : {A : Type ℓ} → (ℕ → A) → ℕ → A → ℕ → A
update f i a j = if j == i then a else f j

abbrev pub update2 : (ℕ → ℕ → ℕ) → ℕ → ℕ → ℕ → ℕ → ℕ → ℕ
update2 f i j a k l = if (k == i) && (l == j) then a else f k l

-- ContextCreate: every slot free, no association, and one entry in the factory's list.
unfoldable pub create : ℕ → Context
create max_termination_count = record {
  capacity = max_termination_count;
  count = 0;
  header = λ i. record { termination = none; tx_count = 0; rx_count = 0 };
  matrix = λ i j. 0;
  link = 1;
  has_element = true;
}

-- What a call leaves; `panic` is an index out of range.
pub data Outcome (A : Type 0) : Type 0 where
  done : Context → Store → A → Outcome A
  panic : Outcome A

abbrev pub is_nil : Option ℕ → Bool
is_nil none = true
is_nil (some t) = false

abbrev pub is_termination : Option ℕ → ℕ → Bool
is_termination none t = false
is_termination (some s) t = s == t

-- The first free slot from `i` on, of `left` slots.
unfoldable pub first_free : (ℕ → HeaderItem) → ℕ → ℕ → Option ℕ
first_free header i zero = none
first_free header i (suc left) =
    let rest = first_free header (i + 1) left in
    if is_nil (header i).termination then some i else rest

-- ContextTerminationAdd. A first termination pushes the context on the factory's list once more.
unfoldable pub termination_add : Context → Store → ℕ → Outcome Bool
unfolding first_free
termination_add context store termination = elim (first_free context.header 0 context.capacity) [
  | none ↦ done context store false
  | some i ↦
      done
        (record context {
          link = if context.count == 0 then context.link + 1 else context.link;
          header =
              update context.header i
                (record { termination = some termination; tx_count = 0; rx_count = 0 });
          count = context.count + 1;
        })
        (update store termination (record (store termination) { slot = pos i })) true
]

-- The two slots of an association, or why there are none: the test `slot >= Capacity` lets -1 pass.
abbrev pub slot_index : ℕ → ℤ → Option (Option ℕ)
slot_index capacity (negsuc n) = none
slot_index capacity (pos i) = if leb capacity i then some none else some (some i)

-- `compatible` is StreamDirectionCompatibilityCheck.
abbrev receives : Option ℕ → Bool
receives none = false
receives (some d) = bit_and d stream_direction_receive == stream_direction_receive

abbrev sends : Option ℕ → Bool
sends none = false
sends (some d) = bit_and d stream_direction_send == stream_direction_send

unfoldable pub compatible : Termination → Termination → Bool
compatible source sink = receives source.direction && sends sink.direction

-- `headerItem.TXCount++`, `RXCount++` on slot i, and `--` for `k` = 255: the counts are of type uint8.
abbrev tx_add : ℕ → Context → ℕ → Context
tx_add k c i = record c {
  header = update c.header i (record (c.header i) { tx_count = u8 ((c.header i).tx_count + k) });
}

abbrev rx_add : ℕ → Context → ℕ → Context
rx_add k c i = record c {
  header = update c.header i (record (c.header i) { rx_count = u8 ((c.header i).rx_count + k) });
}

-- One direction of an association put in or taken out: the matrix item, the transmitter's count at
-- `i` and the receiver's count at `j`.
unfoldable pub switch : ℕ → ℕ → Context → ℕ → ℕ → Context
switch on k c i j = rx_add k (tx_add k (record c { matrix = update2 c.matrix i j on }) i) j

unfoldable pub associate_one : Store → Context → ℕ → ℕ → ℕ → ℕ → Context
associate_one store c i j t u =
    if (c.matrix i j == 0) && compatible (store t) (store u) then switch 1 1 c i j else c

unfoldable pub dissociate_one : Context → ℕ → ℕ → Context
dissociate_one c i j = if c.matrix i j == 0 then c else switch 0 255 c i j

-- ContextAssociationAdd and ContextAssociationRemove share their checks: `body` is what follows them.
-- `false` is a returned error.
unfoldable pub with_slots :
    Context
    → Store
    → ℕ
    → ℕ
    → (ℕ → ℕ → Context)
    → Option (Option ℕ)
    → Option (Option ℕ)
    → Outcome Bool
with_slots c store t u body none none = panic
with_slots c store t u body none (some none) = done c store false
with_slots c store t u body none (some (some j)) = panic
with_slots c store t u body (some none) y = done c store false
with_slots c store t u body (some (some i)) none = panic
with_slots c store t u body (some (some i)) (some none) = done c store false
with_slots c store t u body (some (some i)) (some (some j)) =
    if not (is_termination (c.header i).termination t)
      || not (is_termination (c.header j).termination u)
    then done c store false
    else done (body i j) store true

unfoldable pub association_add : Context → Store → ℕ → ℕ → Outcome Bool
unfolding with_slots
association_add c store t u =
    with_slots c store t u (λ i j. associate_one store (associate_one store c i j t u) j i u t)
      (slot_index c.capacity (store t).slot) (slot_index c.capacity (store u).slot)

unfoldable pub association_remove : Context → Store → ℕ → ℕ → Outcome Bool
unfolding with_slots
association_remove c store t u =
    with_slots c store t u (λ i j. dissociate_one (dissociate_one c i j) j i)
      (slot_index c.capacity (store t).slot) (slot_index c.capacity (store u).slot)

-- The loop of ContextTerminationSubtract, from slot `j` on, of `left` slots: it handles the slots with
-- no termination, `count` of them at most.
unfoldable pub subtract_from : Context → ℕ → ℕ → ℕ → ℕ → Context
unfolding dissociate_one
subtract_from c i j k zero = c
subtract_from c i j k (suc left) =
    let free = is_nil (c.header j).termination in
    let next = if free then dissociate_one (dissociate_one c i j) j i else c in
    let rest = subtract_from next i (j + 1) (if free then k + 1 else k) left in
    if ltb k c.count then rest else c

-- What follows the loop. An element that is not in the list is not removed.
unfoldable pub free_slot : Context → ℕ → Context
free_slot c i =
    let last = leb (c.count - 1) 0 in
    record c {
      header = update c.header i (record (c.header i) { termination = none });
      count = c.count - 1;
      link = if last && c.has_element then c.link - 1 else c.link;
      has_element = c.has_element && not last;
    }

-- ContextTerminationSubtract.
unfoldable pub termination_subtract : Context → Store → ℕ → Outcome Bool
unfolding subtract_from free_slot
termination_subtract c store t = elim (slot_index c.capacity (store t).slot) [
  | none ↦ panic
  | some none ↦ done c store false
  | some (some i) ↦
      if is_termination (c.header i).termination t
      then done (free_slot (subtract_from c i 0 0 c.capacity) i)
          (update store t (record (store t) { slot = negsuc 0 })) true
      else done c store false
]
