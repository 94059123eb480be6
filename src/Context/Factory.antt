-- ===== src/Context/Factory.antt =====
-- The factory of media contexts of mpf/mpf_context.go and its loop that destroys them.
-- A context is known by a number, its pointer. Its counts of the entries that the factory's list has
-- for it are those of the list.
use go_mrcp.Prelude.{
  ℕ, zero, suc, ◌-◌, Bool, false, ◌==◌, ◌&&◌, ◌||◌, if◌then◌else◌, List, [], ◌∷◌, length,
}
use go_mrcp.Context.{Context, Store, Outcome, done, panic, update}
use go_mrcp.Context.Reset.{context_destroy}

-- An element of the factory's list; `own` says that it is the one `Element` of its context points to.
pub record Entry : Type 0 where
  pub own : Bool
  pub context : ℕ

pub record ContextFactory : Type 0 where
  pub link : List Entry
  pub contexts : ℕ → Context

-- ContextFactoryCreate, among the contexts there are.
unfoldable pub context_factory_create : (ℕ → Context) → ContextFactory
context_factory_create contexts = record { link = []; contexts = contexts }

-- What ContextFactoryDestroy leaves; `panic` is that of ContextDestroy, `stuck` a loop that goes on.
pub data Destroyed : Type 0 where
  ended : ContextFactory → Store → Destroyed
  panicked : Destroyed
  stuck : Destroyed

-- `Link.Remove(context.Element)` for the context `i`.
unfoldable pub remove_own : ℕ → List Entry → List Entry
remove_own i [] = []
remove_own i (e ∷ l) = if e.own && (e.context == i) then l else e ∷ remove_own i l

-- What is left of the list, after its first entry `head`, where ContextDestroy has left `d` of the
-- context of that entry and the first entry is then removed.
unfoldable pub remove_head : Entry → List Entry → Context → List Entry
unfolding remove_own
remove_head head rest d = if head.own || d.has_element then rest else remove_own head.context rest

-- The first entry is not removed again if it was the context's own and ContextDestroy removed it.
unfoldable pub unlink : Entry → Context → Context
unlink head d =
    if head.own
    then record d { link = if d.has_element then d.link - 1 else d.link; has_element = false }
    else record d { link = d.link - 1 }

abbrev pub go_on :
    (List Entry → (ℕ → Context) → Store → Destroyed)
    → (ℕ → Context)
    → Entry
    → List Entry
    → Outcome Bool
    → Destroyed
go_on next contexts head rest panic = panicked
go_on next contexts head rest (done d store ok) =
    next (remove_head head rest d) (update contexts head.context (unlink head d)) store

-- The loop of ContextFactoryDestroy, of `fuel` rounds at most.
unfoldable pub destroy_loop : ℕ → List Entry → (ℕ → Context) → Store → Destroyed
unfolding context_destroy remove_head unlink
destroy_loop fuel [] contexts store = ended (record { link = []; contexts = contexts }) store
destroy_loop zero (head ∷ rest) contexts store = stuck
destroy_loop (suc fuel) (head ∷ rest) contexts store =
    go_on (destroy_loop fuel) contexts head rest (context_destroy (contexts head.context) store)

unfoldable pub context_factory_destroy : ContextFactory → Store → Destroyed
unfolding destroy_loop
context_factory_destroy f store = destroy_loop (length f.link) f.link f.contexts store
