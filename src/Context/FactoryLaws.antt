-- ===== src/Context/FactoryLaws.antt =====
-- What ContextFactoryDestroy of mpf/mpf_context.go leaves of a factory's contexts.
use go_mrcp.Prelude.{
  ℕ, zero, suc, ◌<◌, ◌≤◌, ◌≡◌, ◌≢◌, ◌⊎◌, refl, sym, ◌∙◌, inl, inr, arith, Bool, true, false, ◌==◌,
  ◌||◌, List, [], ◌∷◌, Option, none, some, length, Bool-cases,
}
use go_mrcp.Context.{Context, Store, update}
use go_mrcp.Context.Reset.{Placed}
use go_mrcp.Context.ResetLaws.{Apart, context_destroy-empty}
use go_mrcp.Context.Factory.{
  Entry, ContextFactory, ended, remove_own, remove_head, unlink, destroy_loop,
  context_factory_destroy,
}

abbrev pub listed : ℕ → List Entry → Bool
listed i [] = false
listed i (e ∷ l) = (e.context == i) || listed i l

abbrev pub IsEmpty : Context → Type 0
IsEmpty c = (k : ℕ) → k < c.capacity → (c.header k).termination ≡ none

-- Each termination that a context holds knows its slot, and is held by one context only: `owner` tells
-- which.
pub record Shares (owner : ℕ → ℕ) (contexts : ℕ → Context) (store : Store) : Type 0 where
  pub placed : (i : ℕ) → Placed (contexts i) store
  pub owned :
      (i k t : ℕ)
      → k < (contexts i).capacity
      → ((contexts i).header k).termination ≡ some t
      → owner t ≡ i

remove_own-listed : (c i : ℕ) (l : List Entry) → c ≢ i → listed i (remove_own c l) ≡ listed i l
unfolding remove_own
remove_own-listed c i [] h = refl
remove_own-listed c i (e ∷ l) h = ground (arith, remove_own-listed c i l h)

length-remove_own : (c : ℕ) (l : List Entry) → length (remove_own c l) ≤ length l
unfolding remove_own
length-remove_own c [] = omega arith
length-remove_own c (e ∷ l) = ground (arith, length-remove_own c l)

remove_head-listed :
    (head : Entry) (rest : List Entry) (d : Context) (i : ℕ)
    → head.context ≢ i
    → listed i (remove_head head rest d) ≡ listed i rest
unfolding remove_head
remove_head-listed head rest d i h = ground (arith, remove_own-listed head.context i rest h)

length-remove_head :
    (head : Entry) (rest : List Entry) (d : Context)
    → length (remove_head head rest d) ≤ length rest
unfolding remove_head
length-remove_head head rest d = ground (arith, length-remove_own head.context rest)

-- The fields that `unlink` does not write.
unlink-header : (head : Entry) (d : Context) → (unlink head d).header ≡ d.header
unfolding unlink
unlink-header head d = ground arith

unlink-capacity : (head : Entry) (d : Context) → (unlink head d).capacity ≡ d.capacity
unfolding unlink
unlink-capacity head d = ground arith

-- What is left of a context is empty and has its terminations' slots as before.
unlink-IsEmpty :
    (head : Entry) (c d : Context)
    → d.capacity ≡ c.capacity
    → ((k : ℕ) → k < c.capacity → (d.header k).termination ≡ none)
    → IsEmpty (unlink head d)
unlink-IsEmpty head c d same empty k p =
    rw (unlink-header head d) (empty k (omega (arith, same, rw (unlink-capacity head d) at p)))

-- A context in the place of `c` that is empty, and the others as they were.
update_here : (contexts : ℕ → Context) (c : ℕ) (d : Context) → update contexts c d c ≡ d
update_here contexts c d = let y : (c == c) ≡ true = ground arith in rw y refl

update_other :
    (contexts : ℕ → Context) (c i : ℕ) (d : Context) → i ≢ c → update contexts c d i ≡ contexts i
update_other contexts c i d h = let n : (i == c) ≡ false = ground arith in rw n refl

not_none : (x : Option ℕ) (t : ℕ) → x ≡ none → x ≢ some t
not_none x t gone h = let bad = sym gone ∙ h in cc

module _ (owner : ℕ → ℕ) (contexts : ℕ → Context) (store after : Store) (c : ℕ) (d : Context)
    (empty : IsEmpty d) (kept : (u : ℕ) → Apart (contexts c) u → after u ≡ store u)
    (shares : Shares owner contexts store) where
  apart :
      (i k t : ℕ)
      → i ≢ c
      → k < (contexts i).capacity
      → ((contexts i).header k).termination ≡ some t
      → Apart (contexts c) t
  apart i k t n p h k' p' h' = n (sym (shares.owned i k t p h) ∙ shares.owned c k' t p' h')

  Shares-update : Shares owner (update contexts c d) after
  Shares-update = record {
    placed = λ i k t p h. elim (Bool-cases (i == c)) [
      | inl y ↦ absurd (not_none (d.header k).termination t (empty k (rw y at p)) (rw y at h))
      | inr n ↦
          let other : i ≢ c = ground arith in
          let p' : k < (contexts i).capacity = rw n at p in
          let h' : ((contexts i).header k).termination ≡ some t = rw n at h in
          rw (kept t (apart i k t other p' h')) (shares.placed i k t p' h')
    ];
    owned = λ i k t p h. elim (Bool-cases (i == c)) [
      | inl y ↦ absurd (not_none (d.header k).termination t (empty k (rw y at p)) (rw y at h))
      | inr n ↦ shares.owned i k t (rw n at p) (rw n at h)
    ];
  }

-- What the loop leaves: it ends with an empty list, and every context is empty that was listed or was
-- empty before.
abbrev Emptied : ℕ → List Entry → (ℕ → Context) → Store → Type 0
Emptied fuel l contexts store =
    (f : ContextFactory) × (after : Store) × (destroy_loop fuel l contexts store ≡ ended f after)
    × (f.link ≡ [])
    × ((i : ℕ) → (listed i l ≡ true) ⊎ IsEmpty (contexts i) → IsEmpty (f.contexts i))

emptied :
    (owner : ℕ → ℕ) (fuel : ℕ) (l : List Entry) (contexts : ℕ → Context) (store : Store)
    → length l ≤ fuel
    → Shares owner contexts store
    → Emptied fuel l contexts store
unfolding destroy_loop
emptied owner fuel [] contexts store h shares = (
  record { link = []; contexts = contexts },
  store,
  refl,
  refl,
  λ i was. elim was [ inl bad ↦ absurd (cc) | inr e ↦ e ],
)
emptied owner zero (e ∷ l) contexts store h shares = absurd (omega (arith, h))
emptied owner (suc fuel) (e ∷ l) contexts store h shares =
    let c : ℕ = e.context in
    let (d, after, runs, same, empty, kept) =
      context_destroy-empty (contexts c) store (shares.placed c) in
    let d' : Context = unlink e d in
    let gone : IsEmpty d' = unlink-IsEmpty e (contexts c) d same empty in
    let next : ℕ → Context = update contexts c d' in
    let (f, last, ends, no_link, all) =
      emptied owner fuel (remove_head e l d) next after (omega (arith, h, length-remove_head e l d))
        (Shares-update owner contexts store after c d' gone kept shares) in
    (
      f,
      last,
      rw runs ends,
      no_link,
      λ i was. elim (Bool-cases (i == c)) [
        | inl y ↦ all i (inr (rw y gone))
        | inr n ↦
            let other : i ≢ c = ground arith in
            all i (elim was [
              | inl here ↦ inl (
                  remove_head-listed e l d i (λ q. other (sym q))
                  ∙ (let n' : (c == i) ≡ false = ground arith in rw n' at here))
              | inr was_empty ↦ inr (rw n was_empty)
            ])
      ],
    )

-- Destroying a factory ends, after a round for each entry of its list at most, if every termination
-- that a context holds knows its slot and is held by one context only. The list is then empty, and
-- each context that it had holds no termination any more.
pub context_factory_destroy-IsEmpty :
    (owner : ℕ → ℕ) (f : ContextFactory) (store : Store)
    → Shares owner f.contexts store
    → (g : ContextFactory) × (after : Store) × (context_factory_destroy f store ≡ ended g after)
      × (g.link ≡ [])
      × ((i : ℕ) → listed i f.link ≡ true → IsEmpty (g.contexts i))
unfolding context_factory_destroy
context_factory_destroy-IsEmpty owner f store shares =
    let (g, after, ends, no_link, all) =
      emptied owner (length f.link) f.link f.contexts store (omega arith) shares in
    (g, after, ends, no_link, λ i h. all i (inl h))
