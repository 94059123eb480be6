-- ===== src/Context/Tests.antt =====
-- Runs of the media context of mpf/mpf_context.go on concrete input.
use go_mrcp.Prelude.{
  ℕ, ◌+◌, ◌<◌, ◌≡◌, refl, arith, Bool, true, false, none, some, if◌then◌else◌, ◌==◌, [], ◌∷◌,
}
use go_mrcp.Prelude.Int.{pos, negsuc}
use go_mrcp.Context.Reset.{Placed, context_destroy, associations_reset}
use go_mrcp.Context.Factory.{ContextFactory, context_factory_destroy, ended}
use go_mrcp.Context.FactoryLaws.{IsEmpty, Shares, listed, context_factory_destroy-IsEmpty}
use go_mrcp.Context.ResetLaws.{associations_reset-empty}
use go_mrcp.Context.{
  Context, Store, Outcome, done, panic, update, create, first_free, termination_add,
  termination_subtract, association_remove, associate_one, compatible, switch,
}
use go_mrcp.Context.Counts.{IsWellFormed}
use go_mrcp.Context.Slots.Reach.{Reach, created, then_call, added, Reach-IsWellFormed}
use go_mrcp.Context.Slots.Stale.{termination_subtract-add-stale}
use go_mrcp.Context.Associations.{associate_one-IsWellFormed}
use go_mrcp.Context.Slots.{
  create-IsWellFormed, with_termination, with_termination-IsWellFormed, termination_subtract-matrix,
}

-- Two terminations, 7 in slot 0 and 8 in slot 1, each sending and receiving.
abbrev store : Store
store t = record { slot = if t == 7 then pos 0 else pos 1; direction = some 3 }

abbrev single : Context
single = with_termination (create 2) 0 7

abbrev pair : Context
pair = with_termination single 1 8

single-IsWellFormed : IsWellFormed single
single-IsWellFormed =
    with_termination-IsWellFormed (create 2) 0 7 (create-IsWellFormed 2)
      (unfold create in omega arith) (unfold create in refl)

pair-IsWellFormed : IsWellFormed pair
pair-IsWellFormed =
    with_termination-IsWellFormed single 1 8 single-IsWellFormed (unfold create in omega arith)
      (unfold create in refl)

abbrev linked : Context
linked = associate_one store pair 0 1 7 8

linked-IsWellFormed : IsWellFormed linked
linked-IsWellFormed = associate_one-IsWellFormed store pair 0 1 7 8 pair-IsWellFormed (record {
  first_lt = unfold create in omega arith;
  second_lt = unfold create in omega arith;
  first = refl;
  second = refl;
})

linked_counts :
    (linked.matrix 0 1 ≡ 1) × ((linked.header 0).tx_count ≡ 1) × ((linked.header 1).rx_count ≡ 1)
unfolding associate_one create compatible switch
linked_counts = (refl, refl, refl)

-- What a call leaves of a slot's transmitters and of an item of the matrix.
abbrev left_over : Outcome Bool → ℕ → ℕ → ℕ × ℕ
left_over panic i j = (0, 0)
left_over (done c after ok) i j = ((c.header i).tx_count, c.matrix i j)

-- Association, subtraction of termination 7, termination 9 in its slot: the slot counts no
-- transmitter and the association of 7 is still on.
stale_association :
    left_over
      (elim (termination_subtract linked store 7) [
        | panic ↦ panic
        | done c after ok ↦ termination_add c after 9
      ])
      0
      1
    ≡ (0, 1)
unfolding termination_subtract termination_add associate_one create compatible switch
stale_association = refl

termination_subtract-matrix_example :
    (d : Context) × (after : Store) × (termination_subtract linked store 7 ≡ done d after true)
    × ((d.header 0).termination ≡ none)
    × ((after 7).slot ≡ negsuc 0)
    × (d.count + 1 ≡ linked.count)
    × (d.matrix ≡ linked.matrix)
    × ((k : ℕ)
        → ((d.header k).tx_count ≡ (linked.header k).tx_count)
          × ((d.header k).rx_count ≡ (linked.header k).rx_count))
termination_subtract-matrix_example =
    termination_subtract-matrix linked store 7 0 linked-IsWellFormed refl
      (unfold associate_one in unfold create in unfold compatible in unfold switch in omega arith)
      (unfold associate_one in unfold create in unfold compatible in unfold switch in refl)

pair-Placed : Placed pair store
unfolding create
pair-Placed i t lt h = ground arith

associations_reset-empty_example :
    (d : Context) × (after : Store) × (associations_reset pair store ≡ done d after true)
    × (context_destroy pair store ≡ done d after true)
    × ((k : ℕ) → k < pair.capacity → (d.header k).termination ≡ none)
associations_reset-empty_example = associations_reset-empty pair store pair-Placed

-- The context of the two terminations, with the entry that ContextCreate made and the one that the
-- first termination added.
abbrev factory : ContextFactory
factory = record {
  link = record { own = true; context = 0 } ∷ record { own = false; context = 0 } ∷ [];
  contexts = λ i. if i == 0 then pair else create 2;
}

factory-Placed : (i : ℕ) (here : Bool) → Placed (if here then pair else create 2) store
factory-Placed i true = pair-Placed
factory-Placed i false = unfold create in λ k t p h. absurd (cc)

factory_owned :
    (here : Bool) (k t : ℕ)
    → ((if here then pair else create 2).header k).termination ≡ some t
    → here ≡ true
factory_owned true k t h = refl
factory_owned false k t h = unfold create in absurd (cc)

factory-Shares : Shares (λ t. 0) factory.contexts store
factory-Shares = record {
  placed = λ i. factory-Placed i (i == 0);
  owned = λ i k t p h. let y = factory_owned (i == 0) k t h in ground arith;
}

context_factory_destroy-IsEmpty_example :
    (g : ContextFactory) × (after : Store) × (context_factory_destroy factory store ≡ ended g after)
    × (g.link ≡ [])
    × ((i : ℕ) → listed i factory.link ≡ true → IsEmpty (g.contexts i))
context_factory_destroy-IsEmpty_example =
    context_factory_destroy-IsEmpty (λ t. 0) factory store factory-Shares

stored : Store
stored = update store 7 (record (store 7) { slot = pos 0 })

single-Reach : Reach 2 single stored
unfolding stored termination_add first_free create
single-Reach = then_call (created store) (added 7 true (λ k p h. cc) refl)

Reach-IsWellFormed_example :
    IsWellFormed single
    × Placed single stored
    × ((d : Context) × (after : Store) × (context_destroy single stored ≡ done d after true)
        × ((k : ℕ) → k < single.capacity → (d.header k).termination ≡ none))
Reach-IsWellFormed_example = Reach-IsWellFormed single-Reach

linked_full :
    (linked.count ≡ linked.capacity)
    × (0 < linked.capacity)
    × (1 < linked.capacity)
    × ((linked.header 0).termination ≡ some 7)
    × ((linked.header 1).termination ≡ some 8)
    × (linked.matrix 0 1 ≡ 1)
unfolding associate_one create compatible switch
linked_full = (refl, omega arith, omega arith, refl, refl, refl)

termination_subtract-add-stale_example :
    (d e f : Context) × (after last : Store) × (termination_subtract linked store 7
      ≡ done d after true)
    × (termination_add d after 9 ≡ done e last true)
    × ((e.header 0).termination ≡ some 9)
    × (e.matrix 0 1 ≡ 1)
    × ((e.header 0).tx_count ≡ 0)
    × (association_remove e last 9 8 ≡ done f last true)
    × ((f.header 0).tx_count ≡ 255)
termination_subtract-add-stale_example =
    termination_subtract-add-stale linked store 7 8 9 0 1 linked-IsWellFormed linked_full.0 refl
      refl linked_full.1 linked_full.2 linked_full.3 linked_full.4 (omega arith) (omega arith)
      linked_full.5
