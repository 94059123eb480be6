-- ===== src/Engine/FactoryLaws.antt =====
-- What a factory of engines answers after engines were registered.
use go_mrcp.Prelude.{
  ℕ, suc, ◌+◌, ◌≡◌, refl, inl, inr, arith, Bool, true, false, not, if◌then◌else◌, List, [], ◌∷◌,
  ◌++◌, Option, none, some, length, get_elem?, length-append, All, Bool-cases, ◌&&◌, ◌||◌, ◌∙◌,
}
use mathlib.Core.List.{append-nil, append_assoc}
use native.Mathlib.Decide.{ℕ_discrete}
use go_mrcp.Prelude.Text.{Text, text_eq}
use go_mrcp.Engine.Factory.{
  MrcpEngine, EngineMap, MrcpEngineFactory, Outcome, ok, panic, invalid_engine, no_id,
  no_state_machine, factory, engine_factory_create, is_empty_text, engine_register, map_lookup,
  element_value, engine_get, find_engine, engine_find, map_delete, delete_all, destroy_parts,
  engine_factory_destroy,
}

-- A run of registrations, those that return an error left out.
unfoldable pub registered : MrcpEngine → Bool
registered engine = not (is_empty_text engine.id) && engine.create_state_machine

register_next : MrcpEngineFactory → Outcome MrcpEngineFactory → MrcpEngineFactory
register_next f (ok g) = g
register_next f panic = f
register_next f invalid_engine = f
register_next f no_id = f
register_next f no_state_machine = f

unfoldable pub register_all : MrcpEngineFactory → List MrcpEngine → MrcpEngineFactory
unfolding register_next
register_all f [] = f
register_all f (engine ∷ engines) =
    register_all (register_next f (engine_register f (some engine))) engines

-- The reference: the engines that can be registered, in order, the last of a name, and the first of
-- a resource.
pub accepted : List MrcpEngine → List MrcpEngine
accepted [] = []
accepted (engine ∷ engines) =
    if registered engine then engine ∷ accepted engines else accepted engines

pub last_named : Option MrcpEngine → List MrcpEngine → Text → Option MrcpEngine
last_named found [] name = found
last_named found (engine ∷ engines) name =
    last_named (if text_eq engine.id name then some engine else found) engines name

pub answer : Option MrcpEngine → Outcome MrcpEngine
answer none = panic
answer (some engine) = ok engine

pub first_with : List MrcpEngine → ℕ → Option MrcpEngine
first_with [] rid = none
first_with (engine ∷ engines) rid =
    let later = first_with engines rid in
    elim (ℕ_discrete engine.resource_id rid) [ yes e ↦ some engine | no e ↦ later ]

-- The map after engines from position `n` on were registered.
entries_from : ℕ → List MrcpEngine → EngineMap → EngineMap
entries_from n [] entries = entries
entries_from n (engine ∷ engines) entries = entries_from (n + 1) engines ((engine.id, n) ∷ entries)

register_one :
    (engines : List MrcpEngine) (entries : EngineMap) (engine : MrcpEngine)
    → register_next
        (factory engines entries)
        (engine_register (factory engines entries) (some engine))
      ≡ (if registered engine
          then factory (engines ++ (engine ∷ [])) ((engine.id, length engines) ∷ entries)
          else factory engines entries)
unfolding registered register_next engine_register
register_one engines entries engine = ground arith

register_all_from :
    (engines es : List MrcpEngine) (entries : EngineMap)
    → register_all (factory engines entries) es
      ≡ factory (engines ++ accepted es) (entries_from (length engines) (accepted es) entries)
unfolding register_all accepted entries_from
register_all_from engines [] entries = rw (append-nil engines) refl
register_all_from engines (e ∷ es) entries =
    rw (register_one engines entries e) (elim (Bool-cases (registered e)) [
      | inl y ↦
          let n : length (engines ++ (e ∷ [])) ≡ length engines + 1 =
            omega (arith, length-append engines (e ∷ [])) in
          simp y (
            register_all_from (engines ++ (e ∷ [])) es ((e.id, length engines) ∷ entries)
            ∙ rw (n, append_assoc engines (e ∷ []) (accepted es)) refl)
      | inr n ↦ simp n (register_all_from engines es entries)
    ])

get_from :
    (all es : List MrcpEngine) (n : ℕ) (entries : EngineMap) (found : Option MrcpEngine)
    (name : Text)
    → ((i : ℕ) → get_elem? all (n + i) ≡ get_elem? es i)
    → element_value (some all) (map_lookup entries name) ≡ answer found
    → element_value (some all) (map_lookup (entries_from n es entries) name)
      ≡ answer (last_named found es name)
unfolding element_value map_lookup entries_from answer last_named
get_from all [] n entries found name h e = e
get_from all (x ∷ es) n entries found name h e =
    get_from all es (n + 1) ((x.id, n) ∷ entries) (if text_eq x.id name then some x else found) name
      (λ i. let p : n + 1 + i ≡ n + suc i = omega arith in rw p (h (suc i)))
      (let p : n + 0 ≡ n = omega arith in
        let q : get_elem? all n ≡ some x = rw p at (h 0) in ground (arith))

find_engine-first_with :
    (engines : List MrcpEngine) (rid : ℕ) → find_engine engines rid ≡ first_with engines rid
unfolding find_engine first_with
find_engine-first_with [] rid = refl
find_engine-first_with (engine ∷ engines) rid = ground (arith, find_engine-first_with engines rid)

from_create :
    (es : List MrcpEngine)
    → register_all engine_factory_create es
      ≡ factory (accepted es) (entries_from 0 (accepted es) [])
unfolding engine_factory_create
from_create es = register_all_from [] es []

-- After any run of registrations into a new factory, a name gets the engine that was accepted last
-- under it, and a name that no accepted engine has panics; a resource gets the engine that was accepted
-- first for it, or none. An engine is accepted that has a name and a CreateStateMachine.
pub engine_get-register_all :
    (es : List MrcpEngine) (name : Text) (rid : ℕ)
    → (engine_get (register_all engine_factory_create es) name
        ≡ answer (last_named none (accepted es) name))
      × (engine_find (register_all engine_factory_create es) rid
          ≡ ok (first_with (accepted es) rid))
unfolding engine_get engine_find
engine_get-register_all es name rid = rw (from_create es) (
  get_from (accepted es) (accepted es) 0 [] none name
      (λ i. let p : 0 + i ≡ i = omega arith in rw p refl)
      (unfold map_lookup element_value answer in refl),
  rw (find_engine-first_with (accepted es) rid) refl,
)

text_eq_refl : (s : Text) → text_eq s s ≡ true
text_eq_refl [] = refl
text_eq_refl (c ∷ s) = ground (arith, text_eq_refl s)

named : List MrcpEngine → Text → Bool
named [] key = false
named (engine ∷ engines) key = text_eq key engine.id || named engines key

delete_named :
    (engines : List MrcpEngine) (key : Text) (e : ℕ) (entries : EngineMap)
    → named engines key ≡ true
    → delete_all engines ((key, e) ∷ entries) ≡ delete_all engines entries
unfolding named delete_all map_delete
delete_named [] key e entries h = cc
delete_named (engine ∷ engines) key e entries h = elim (Bool-cases (text_eq key engine.id)) [
  | inl y ↦ simp y
  | inr n ↦
      let later : named engines key ≡ true = ground arith in
      simp n (delete_named engines key e (map_delete entries engine.id) later)
]

delete_nil : (engines : List MrcpEngine) → delete_all engines [] ≡ []
unfolding delete_all map_delete
delete_nil [] = refl
delete_nil (engine ∷ engines) = delete_nil engines

delete_entries :
    (engines es : List MrcpEngine) (n : ℕ) (entries : EngineMap)
    → All (λ engine. named engines engine.id ≡ true) es
    → delete_all engines (entries_from n es entries) ≡ delete_all engines entries
unfolding entries_from
delete_entries engines [] n entries h = refl
delete_entries engines (e ∷ es) n entries h =
    delete_entries engines es (n + 1) ((e.id, n) ∷ entries) h.1
    ∙ delete_named engines e.id n entries h.0

named_cons :
    (engine : MrcpEngine) (engines es : List MrcpEngine)
    → All (λ e. named engines e.id ≡ true) es
    → All (λ e. named (engine ∷ engines) e.id ≡ true) es
unfolding named
named_cons engine engines [] h = h
named_cons engine engines (e ∷ es) h =
    let first : named engines e.id ≡ true = h.0 in (ground arith, named_cons engine engines es h.1)

named_self : (engines : List MrcpEngine) → All (λ e. named engines e.id ≡ true) engines
unfolding named
named_self [] = tt
named_self (engine ∷ engines) = (
  let same = text_eq_refl engine.id in ground arith,
  named_cons engine engines engines (named_self engines),
)

-- Destroying a factory after any run of registrations leaves no entry in its map and drops its list
-- and its map, so that destroying it again panics.
pub engine_factory_destroy-register_all :
    (es : List MrcpEngine)
    → (engine_factory_destroy (some (register_all engine_factory_create es))
        ≡ ok (some (record { engines_list = none; engines_map = none }, some [])))
      × (engine_factory_destroy (some (record { engines_list = none; engines_map = none })) ≡ panic)
unfolding engine_factory_destroy
engine_factory_destroy-register_all es = (
  rw
      (
        from_create es,
        destroy_parts,
        delete_entries (accepted es) (accepted es) 0 [] (named_self (accepted es)),
        delete_nil (accepted es),
      )
      refl,
  refl,
)
