-- ===== src/Engine/Channel.antt =====
-- The channels of engine/mrcp_engine_iface.go and the state machines of engine/mrcp_state_machine.go.
-- The virtual methods are parameters: a method acts on the channel that it is given, of which the model
-- has IsOpen and a part `World` that is left open.
use go_mrcp.Prelude.{Bool, true, false, not, if◌then◌else◌, Option, none, some}

pub record EngineChannel (World : Type 0) : Type 0 where
  pub is_open : Bool
  pub world : World

-- `true` is a nil error.
abbrev pub ChannelMethod : Type 0 → Type 0
ChannelMethod World = EngineChannel World → EngineChannel World × Bool

pub record ChannelVTable (World Message : Type 0) : Type 0 where
  pub destroy : Option (ChannelMethod World)
  pub open_channel : Option (ChannelMethod World)
  pub close_channel : Option (ChannelMethod World)
  pub process_request : Option (Message → ChannelMethod World)

-- The channel after a call, with a nil error or an error, or the panic of a nil method.
pub data Called (World : Type 0) : Type 0 where
  ok err : EngineChannel World → Called World
  panic : Called World

module _ {World : Type 0} where
  -- What follows `channel.MethodVTable.Open(channel)`.
  abbrev opened : EngineChannel World × Bool → Called World
  opened (channel, true) = ok (record channel { is_open = true })
  opened (channel, false) = err (record channel { is_open = false })

  abbrev closed : EngineChannel World × Bool → Called World
  closed (channel, true) = ok (record channel { is_open = false })
  closed (channel, false) = err channel

  abbrev pub answered : EngineChannel World × Bool → Called World
  answered (channel, true) = ok channel
  answered (channel, false) = err channel

  -- A nil table and a nil method panic alike.
  abbrev pub method {ℓ} :
      {Message : Type 0} {A : Type ℓ}
      → Option (ChannelVTable World Message)
      → (ChannelVTable World Message → Option A)
      → Option A
  method none read = none
  method (some t) read = read t

  unfoldable pub channel_virtual_open :
      {Message : Type 0} → Option (ChannelVTable World Message) → EngineChannel World → Called World
  channel_virtual_open vtable channel =
      if not channel.is_open
      then elim (method vtable (λ t. t.open_channel)) [ none ↦ panic | some f ↦ opened (f channel) ]
      else ok (record channel { is_open = true })

  unfoldable pub channel_virtual_close :
      {Message : Type 0} → Option (ChannelVTable World Message) → EngineChannel World → Called World
  channel_virtual_close vtable channel =
      if channel.is_open
      then elim (method vtable (λ t. t.close_channel)) [
        | none ↦ panic
        | some f ↦ closed (f channel)
      ]
      else ok channel

  unfoldable pub channel_request_process :
      {Message : Type 0}
      → Option (ChannelVTable World Message)
      → EngineChannel World
      → Message
      → Called World
  channel_request_process vtable channel message = elim (method vtable (λ t. t.process_request)) [
    | none ↦ panic
    | some f ↦ answered (f message channel)
  ]

-- MRCPStateMachine: whether it is active, its own part of the state, and its methods.
pub record StateMachine (World Message : Type 0) : Type 0 where
  pub active : Bool
  pub world : World
  pub update : Option (Message → World → World × Bool)
  pub deactivate : Option (World → World × Bool)
  pub on_dispatch : Option (Message → World → World × Bool)
  pub on_deactivate : Option (World → World × Bool)

module _ {World Message : Type 0} where
  -- The object and every method are set; `obj` is the first argument of the source.
  unfoldable pub state_machine_init : World → StateMachine World Message
  state_machine_init obj = record {
    active = true;
    world = obj;
    update = none;
    deactivate = none;
    on_dispatch = none;
    on_deactivate = none;
  }

  abbrev with_world : StateMachine World Message → World × Bool → StateMachine World Message × Bool
  with_world m (w, e) = (record m { world = w }, e)

  unfoldable pub state_machine_update :
      StateMachine World Message → Message → StateMachine World Message × Bool
  state_machine_update m message = elim m.update [
    | none ↦ (m, true)
    | some f ↦ with_world m (f message m.world)
  ]

  unfoldable pub state_machine_deactivate :
      StateMachine World Message → StateMachine World Message × Bool
  state_machine_deactivate m = elim m.deactivate [
    | none ↦ (m, true)
    | some f ↦ with_world m (f m.world)
  ]
