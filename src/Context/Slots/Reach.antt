-- ===== src/Context/Slots/Reach.antt =====
-- The states that a media context of mpf/mpf_context.go comes to, from its creation on, by the calls
-- that change it, of which those that take terminations out are made once their associations are gone.
use go_mrcp.Prelude.{
  ℕ, zero, suc, ◌+◌, ◌<◌, ◌≡◌, refl, sym, ◌∙◌, inl, inr, Bool, true, leb, Option-cases, Bool-cases,
  none,
}
use go_mrcp.Prelude.Int.{ℤ, pos, negsuc}
use go_mrcp.Context.{
  Context, Store, done, create, termination_add, termination_subtract, association_add,
  association_remove, is_termination, free_slot, Outcome, panic,
}
use go_mrcp.Context.Counts.{IsWellFormed}
use go_mrcp.Context.Reset.{
  Placed, context_destroy, destroy_from, associations_reset, after_subtract,
}
use go_mrcp.Context.ResetLaws.{Apart, context_destroy-empty, associations_reset-empty}
use go_mrcp.Context.Slots.{create-IsWellFormed, subtract_from_lem}
use go_mrcp.Context.Slots.Soundness.{
  Sound, Unlinked, association_add-Sound, association_remove-Sound, termination_add-Sound,
  termination_subtract-Sound,
}

-- No termination is associated with another.
abbrev pub NoAssociations : Context → Type 0
NoAssociations c = (i j : ℕ) → c.matrix i j ≡ 0

termination_subtract-same_matrix :
    (c d : Context) (store after : Store) (t : ℕ) (ok : Bool) (z : ℤ)
    → (store t).slot ≡ z
    → IsWellFormed c
    → termination_subtract c store t ≡ done d after ok
    → d.matrix ≡ c.matrix
unfolding termination_subtract free_slot
termination_subtract-same_matrix c d store after t ok (negsuc n) e w h =
    absurd (let h' = rw (termination_subtract, e) at h in cc)
termination_subtract-same_matrix c d store after t ok (pos i) e w h =
    elim (Bool-cases (leb c.capacity i)) [
      | inl y ↦
          (let h' = rw (termination_subtract, e, y) at h in let d_is : d ≡ c = cc in rw d_is refl)
      | inr n ↦ elim (Bool-cases (is_termination (c.header i).termination t)) [
        | inr gone ↦
            (let h' = rw (termination_subtract, e, n, gone) at h in
              let d_is : d ≡ c = cc in rw d_is refl)
        | inl there ↦
            (let h' =
                rw (termination_subtract, e, n, there, subtract_from_lem c i 0 0 c.capacity w.idle)
                  at h in
              let d_is : d ≡ free_slot c i = cc in rw d_is refl)
      ]
    ]

-- A subtraction that is followed by a call that returns has returned.
after_subtract-eq-done :
    (next : Context → Store → Outcome Bool) (o : Outcome Bool) (d : Context) (after : Store)
    (ok : Bool)
    → after_subtract next o ≡ done d after ok
    → (e : Context) × (last : Store) × (b : Bool) × (o ≡ done e last b)
      × (next e last ≡ done d after ok)
after_subtract-eq-done next (done e last b) d after ok h = (e, last, b, refl, h)
after_subtract-eq-done next panic d after ok h = absurd (cc)

destroy_from-Sound :
    (i left : ℕ) (c d : Context) (store after : Store) (ok : Bool)
    → NoAssociations c
    → Sound c store
    → destroy_from i left c store ≡ done d after ok
    → Sound d after
unfolding destroy_from
destroy_from-Sound i zero c d store after ok free s h =
    let d_is : d ≡ c = cc in let after_is : after ≡ store = cc in rw (d_is, after_is) s
destroy_from-Sound i (suc left) c d store after ok free s h =
    elim (Option-cases (c.header i).termination) [
      | inl e ↦
          destroy_from-Sound (i + 1) left c d store after ok free s (rw (e, destroy_from) at h)
      | inr (t, e) ↦
          let (c', last, b, first, rest) =
            after_subtract-eq-done (destroy_from (i + 1) left) (termination_subtract c store t) d
              after ok (rw (e, destroy_from) at h) in
          let same =
            termination_subtract-same_matrix c c' store last t b (store t).slot refl s.well_formed
              first in
          destroy_from-Sound (i + 1) left c' d last after ok (λ k l. rw same (free k l))
            (termination_subtract-Sound c c' store last t b (store t).slot refl
              (λ k l p. (free k l, free l k)) s first)
            rest
    ]

context_destroy-Sound :
    (c d : Context) (store after : Store) (ok : Bool)
    → NoAssociations c
    → Sound c store
    → context_destroy c store ≡ done d after ok
    → Sound d after
unfolding context_destroy
context_destroy-Sound c d store after ok free s h =
    destroy_from-Sound 0 c.capacity c d store after ok free s h

-- The reset does what destroying the context does.
associations_reset-Sound :
    (c d : Context) (store after : Store) (ok : Bool)
    → NoAssociations c
    → Sound c store
    → associations_reset c store ≡ done d after ok
    → Sound d after
associations_reset-Sound c d store after ok free s h =
    let (e, last, reset, destroyed, empty) = associations_reset-empty c store s.placed in
    let same : done e last true ≡ done d after ok = sym reset ∙ h in
    context_destroy-Sound c d store after ok free s (destroyed ∙ same)

-- A call that changes a context returns, and takes the context and the store of terminations to
-- another. A termination is added that no slot holds, and one is taken out, or all are by destroying
-- the context or resetting it, once their associations are removed.
pub data Step (c : Context) (store : Store) (d : Context) (after : Store) : Type 0 where
  added :
      (t : ℕ) (ok : Bool)
      → Apart c t
      → termination_add c store t ≡ done d after ok
      → Step c store d after
  taken_out :
      (t : ℕ) (ok : Bool)
      → Unlinked c (store t).slot
      → termination_subtract c store t ≡ done d after ok
      → Step c store d after
  associated :
      (t u : ℕ) (ok : Bool) → association_add c store t u ≡ done d after ok → Step c store d after
  dissociated :
      (t u : ℕ) (ok : Bool)
      → association_remove c store t u ≡ done d after ok
      → Step c store d after
  destroyed :
      (ok : Bool)
      → NoAssociations c
      → context_destroy c store ≡ done d after ok
      → Step c store d after
  reset :
      (ok : Bool)
      → NoAssociations c
      → associations_reset c store ≡ done d after ok
      → Step c store d after

-- What these calls lead to from the creation of a context of `n` slots.
pub data Reach (n : ℕ) : Context → Store → Type 0 where
  created : (store : Store) → Reach n (create n) store
  then_call :
      {c d : Context} {store after : Store}
      → Reach n c store
      → Step c store d after
      → Reach n d after

pub Step-Sound :
    (c d : Context) (store after : Store) → Step c store d after → Sound c store → Sound d after
Step-Sound c d store after (added t ok apart h) s =
    termination_add-Sound c d store after t ok apart s h
Step-Sound c d store after (taken_out t ok unlinked h) s =
    termination_subtract-Sound c d store after t ok (store t).slot refl unlinked s h
Step-Sound c d store after (associated t u ok h) s =
    association_add-Sound c d store after t u ok s h
Step-Sound c d store after (dissociated t u ok h) s =
    association_remove-Sound c d store after t u ok s h
Step-Sound c d store after (destroyed ok free h) s =
    context_destroy-Sound c d store after ok free s h
Step-Sound c d store after (reset ok free h) s =
    associations_reset-Sound c d store after ok free s h

pub Reach-Sound : {n : ℕ} {c : Context} {store : Store} → Reach n c store → Sound c store
unfolding create
Reach-Sound {n} (created store) = record {
  well_formed = create-IsWellFormed n;
  placed = λ i t lt h. absurd (cc);
}
Reach-Sound (then_call {c} {d} {store} {after} r step) =
    Step-Sound c d store after step (Reach-Sound r)

-- After any sequence of calls that return, from the creation of a context on, by which terminations are
-- added and taken out, associations added and removed, the context destroyed and its associations
-- reset, if a termination is added only while no slot holds it, taken out only once its associations
-- are removed, and the context destroyed or reset only once all associations are removed: the counts
-- of each slot, of type uint8, are the sums of its associations modulo 256, free slots have no
-- associations, the count of the context is that of the terminations, and each termination in a slot
-- knows which; so the context can be destroyed, without an error and with every slot free.
pub Reach-IsWellFormed :
    {n : ℕ} {c : Context} {store : Store}
    → Reach n c store
    → IsWellFormed c
      × Placed c store
      × ((d : Context) × (after : Store) × (context_destroy c store ≡ done d after true)
          × ((k : ℕ) → k < c.capacity → (d.header k).termination ≡ none))
Reach-IsWellFormed {n} {c} {store} r =
    let s = Reach-Sound r in
    let (d, after, runs, same, empty, kept) = context_destroy-empty c store s.placed in
    (s.well_formed, s.placed, (d, after, runs, empty))
