-- ===== src/Topology/Factory.antt =====
-- ContextFactoryProcess of mpf/mpf_context.go: the topologies of the contexts of a factory, processed in
-- the order of its list.
use go_mrcp.Prelude.{ℕ, List, [], ◌∷◌}
use go_mrcp.Binaryx.{Binary}
use go_mrcp.Context.Factory.{Entry, ContextFactory}
use go_mrcp.Bridge.Stream.{Media, Run, ok, ◌>>=◌, Done, done}
use go_mrcp.Bridge.Process.{Object}
use go_mrcp.Topology.{drop_error, context_process}

module _ {World : Type 0} (b : Binary) (objects : ℕ → List Object) where
  -- The loop over the list; what ContextProcess returns is dropped.
  unfoldable pub process_entries : List Entry → Media World → Run (Media World) Done
  unfolding context_process
  process_entries [] m = ok m done
  process_entries (head ∷ rest) m =
      drop_error (context_process b (record { objects = objects head.context; media = m }))
      >>= λ m' _. process_entries rest m'

  unfoldable pub context_factory_process : ContextFactory → Media World → Run (Media World) Done
  unfolding process_entries
  context_factory_process f m = process_entries f.link m
