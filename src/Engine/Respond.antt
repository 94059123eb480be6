-- ===== src/Engine/Respond.antt =====
-- engine/mrcp_engine_impl.go: the responses that an engine and its channels send by their event handlers,
-- with the tables of engine/mrcp_engine_types.go.
-- The handlers are parameters. A handler acts on the engine or the channel that it is given; `true` is a
-- nil error, and a nil table panics like a nil handler.
use go_mrcp.Prelude.{Bool, Option, none, some, List, []}
use go_mrcp.Prelude.Int.{ℤ, pos}
use go_mrcp.Prelude.Text.{Text}
use go_mrcp.Engine.Channel.{EngineChannel, Called, panic, answered}

pub record EngineConfig : Type 0 where
  pub max_channel_count : ℤ
  pub params : List (Text × Text)

-- What the responses read of an engine; `world` is left open.
pub record Engine (World : Type 0) : Type 0 where
  pub config : Option EngineConfig
  pub cur_channel_count : ℤ
  pub is_open : Bool
  pub world : World

pub record EngineEventVTable (World : Type 0) : Type 0 where
  pub on_open : Option (Bool → Engine World → Engine World × Bool)
  pub on_close : Option (Engine World → Engine World × Bool)

pub record ChannelEventVTable (World Message : Type 0) : Type 0 where
  pub on_open : Option (Bool → EngineChannel World → EngineChannel World × Bool)
  pub on_close : Option (EngineChannel World → EngineChannel World × Bool)
  pub on_message : Option (Message → EngineChannel World → EngineChannel World × Bool)

-- The engine after a call with whether the error is nil; `none` is a panic.
abbrev pub EngineCalled : Type 0 → Type 0
EngineCalled World = Option (Engine World × Bool)

abbrev handler {ℓ κ} : {T : Type ℓ} {A : Type κ} → Option T → (T → Option A) → Option A
handler none read = none
handler (some t) read = read t

unfoldable engine_config_alloc : EngineConfig
engine_config_alloc = record { max_channel_count = pos 0; params = [] }

module _ {World : Type 0} where
  unfoldable engine_open_respond :
      Option (EngineEventVTable World) → Engine World → Bool → EngineCalled World
  engine_open_respond vtable engine status = elim (handler vtable (λ t. t.on_open)) [
    | none ↦ none
    | some f ↦ some (f status engine)
  ]

  unfoldable engine_close_respond :
      Option (EngineEventVTable World) → Engine World → EngineCalled World
  engine_close_respond vtable engine = elim (handler vtable (λ t. t.on_close)) [
    | none ↦ none
    | some f ↦ some (f engine)
  ]

  unfoldable engine_config_get : Engine World → Option EngineConfig
  engine_config_get engine = engine.config

  unfoldable engine_param_get : Engine World → Text → Text
  engine_param_get engine name = []

  unfoldable pub channel_open_respond :
      {Message : Type 0}
      → Option (ChannelEventVTable World Message)
      → EngineChannel World
      → Bool
      → Called World
  channel_open_respond vtable channel status = elim (handler vtable (λ t. t.on_open)) [
    | none ↦ panic
    | some f ↦ answered (f status channel)
  ]

  unfoldable pub channel_close_respond :
      {Message : Type 0}
      → Option (ChannelEventVTable World Message)
      → EngineChannel World
      → Called World
  channel_close_respond vtable channel = elim (handler vtable (λ t. t.on_close)) [
    | none ↦ panic
    | some f ↦ answered (f channel)
  ]

  unfoldable pub channel_message_send :
      {Message : Type 0}
      → Option (ChannelEventVTable World Message)
      → EngineChannel World
      → Message
      → Called World
  channel_message_send vtable channel message = elim (handler vtable (λ t. t.on_message)) [
    | none ↦ panic
    | some f ↦ answered (f message channel)
  ]
