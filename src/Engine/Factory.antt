-- ===== src/Engine/Factory.antt =====
-- engine/mrcp_engine_factory.go: registering and finding engines.
-- The factory is a container/list of engines and a map from names to elements of that list, from which
-- no element is ever removed: an element of the list is its position. A destroyed factory has a nil
-- list and a nil map, each `none`. An engine that was registered keeps its name.
use go_mrcp.Prelude.{
  ℕ, Bool, true, false, not, ◌==◌, if◌then◌else◌, List, [], ◌∷◌, ◌++◌, Option, none, some, length,
  get_elem?,
}
use go_mrcp.Prelude.Text.{Text, text_eq}

-- What the factory reads of an engine; `create_state_machine` says whether CreateStateMachine is set.
pub record MrcpEngine : Type 0 where
  pub id : Text
  pub resource_id : ℕ  -- MRCPResourceId, an int64
  pub create_state_machine : Bool

-- A Go map: the first entry with a key is the one that counts.
abbrev pub EngineMap : Type 0
EngineMap = List (Text × ℕ)

pub record MrcpEngineFactory : Type 0 where
  pub engines_list : Option (List MrcpEngine)
  pub engines_map : Option EngineMap

-- An error of the source, or the panic of a nil pointer.
pub data Outcome {ℓ} (A : Type ℓ) : Type ℓ where
  ok : A → Outcome A
  invalid_engine no_id no_state_machine panic : Outcome A

abbrev pub factory : List MrcpEngine → EngineMap → MrcpEngineFactory
factory engines entries = record { engines_list = some engines; engines_map = some entries }

unfoldable pub engine_factory_create : MrcpEngineFactory
engine_factory_create = factory [] []

unfoldable pub is_empty_text : Text → Bool
is_empty_text [] = true
is_empty_text (c ∷ s) = false

-- `f.enginesList.PushBack(engine)` and the entry of the map.
unfoldable pub push_engine :
    Option (List MrcpEngine) → Option EngineMap → MrcpEngine → Outcome MrcpEngineFactory
push_engine none entries engine = panic
push_engine (some engines) none engine = panic
push_engine (some engines) (some entries) engine =
    ok (factory (engines ++ (engine ∷ [])) ((engine.id, length engines) ∷ entries))

-- The switch on the resource has no effect: its cases are empty.
unfoldable pub engine_register : MrcpEngineFactory → Option MrcpEngine → Outcome MrcpEngineFactory
unfolding is_empty_text push_engine
engine_register f none = invalid_engine
engine_register f (some engine) =
    if is_empty_text engine.id
    then no_id
    else if not engine.create_state_machine
    then no_state_machine
    else push_engine f.engines_list f.engines_map engine

unfoldable pub map_lookup : EngineMap → Text → Option ℕ
map_lookup [] name = none
map_lookup ((key, e) ∷ entries) name = if text_eq key name then some e else map_lookup entries name

-- The element of the list, and its value: the map has nil for a name that it does not know.
unfoldable pub element_value : Option (List MrcpEngine) → Option ℕ → Outcome MrcpEngine
element_value engines none = panic
element_value none (some e) = panic
element_value (some engines) (some e) = elim (get_elem? engines e) [
  | none ↦ panic
  | some engine ↦ ok engine
]

unfoldable pub engine_get : MrcpEngineFactory → Text → Outcome MrcpEngine
unfolding map_lookup element_value
engine_get f name = elim f.engines_map [
  | none ↦ panic
  | some entries ↦ element_value f.engines_list (map_lookup entries name)
]

unfoldable pub find_engine : List MrcpEngine → ℕ → Option MrcpEngine
find_engine [] rid = none
find_engine (engine ∷ engines) rid =
    if engine.resource_id == rid then some engine else find_engine engines rid

unfoldable pub engine_find : MrcpEngineFactory → ℕ → Outcome (Option MrcpEngine)
unfolding find_engine
engine_find f rid = elim f.engines_list [
  | none ↦ panic
  | some engines ↦ ok (find_engine engines rid)
]

unfoldable pub map_delete : EngineMap → Text → EngineMap
map_delete [] name = []
map_delete ((key, e) ∷ entries) name =
    let rest = map_delete entries name in if text_eq key name then rest else (key, e) ∷ rest

-- The loop of MRCPEngineFactoryDestroy, on the map.
unfoldable pub delete_all : List MrcpEngine → EngineMap → EngineMap
unfolding map_delete
delete_all [] entries = entries
delete_all (engine ∷ engines) entries = delete_all engines (map_delete entries engine.id)

-- The factory and, for whoever still holds it, the map that was emptied.
unfoldable pub destroy_parts :
    Option (List MrcpEngine) → Option EngineMap → Outcome (MrcpEngineFactory × Option EngineMap)
unfolding delete_all
destroy_parts none entries = panic
destroy_parts (some engines) none = ok (record { engines_list = none; engines_map = none }, none)
destroy_parts (some engines) (some entries) =
    ok (record { engines_list = none; engines_map = none }, some (delete_all engines entries))

-- A nil factory is left alone.
unfoldable pub engine_factory_destroy :
    Option MrcpEngineFactory → Outcome (Option (MrcpEngineFactory × Option EngineMap))
unfolding destroy_parts
engine_factory_destroy none = ok none
engine_factory_destroy (some f) = elim (destroy_parts f.engines_list f.engines_map) [
  | ok r ↦ ok (some r)
  | invalid_engine ↦ invalid_engine
  | no_id ↦ no_id
  | no_state_machine ↦ no_state_machine
  | panic ↦ panic
]
