-- ===== src/Engine/ChannelLaws.antt =====
-- A channel of an engine over any run of openings, closings and requests.
use go_mrcp.Prelude.{ℕ, ◌+◌, ◌-◌, ◌≡◌, arith, if◌then◌else◌, List, [], ◌∷◌, none, some}
use go_mrcp.Engine.Channel.{
  EngineChannel, ChannelVTable, ChannelMethod, Called, ok, err, panic, channel_virtual_open,
  channel_virtual_close, channel_request_process,
}

pub data Command (Message : Type 0) : Type 0 where
  open_it close_it : Command Message
  request : Message → Command Message

module _ {World Message : Type 0} (open_f close_f : ChannelMethod World)
    (request_f : Message → ChannelMethod World) where
  abbrev pub table : ChannelVTable World Message
  table = record {
    destroy = none;
    open_channel = some open_f;
    close_channel = some close_f;
    process_request = some request_f;
  }

  abbrev pub command : Command Message → EngineChannel World → Called World
  command open_it channel = channel_virtual_open (some table) channel
  command close_it channel = channel_virtual_close (some table) channel
  command (request message) channel = channel_request_process (some table) channel message

  -- The channel after a call, whether it returned an error or not.
  abbrev pub left_by : EngineChannel World → Called World → EngineChannel World
  left_by channel (ok c) = c
  left_by channel (err c) = c
  left_by channel panic = channel

  pub run : EngineChannel World → List (Command Message) → EngineChannel World
  run channel [] = channel
  run channel (c ∷ commands) = run (left_by channel (command c channel)) commands

  -- The contract of the methods: `count` counts what a channel has open. Opening counts one more if it
  -- succeeds, closing one less, and whatever fails nothing; requests open and close nothing. A method
  -- does not touch IsOpen.
  pub record Counts (count : World → ℕ) : Type 0 where
    pub open_count :
        (c : EngineChannel World)
        → count (open_f c).0.world ≡ (if (open_f c).1 then count c.world + 1 else count c.world)
    pub close_count :
        (c : EngineChannel World)
        → count (close_f c).0.world ≡ (if (close_f c).1 then count c.world - 1 else count c.world)
    pub close_keeps : (c : EngineChannel World) → (close_f c).0.is_open ≡ c.is_open
    pub request_count :
        (message : Message) (c : EngineChannel World)
        → count (request_f message c).0.world ≡ count c.world
    pub request_keeps :
        (message : Message) (c : EngineChannel World) → (request_f message c).0.is_open ≡ c.is_open

  abbrev Balanced : (World → ℕ) → EngineChannel World → Type 0
  Balanced count c = count c.world ≡ (if c.is_open then 1 else 0)

  module _ (count : World → ℕ) (counts : Counts count) where
    command-Balanced :
        (x : Command Message) (c : EngineChannel World)
        → Balanced count c
        → Balanced count (left_by c (command x c))
    unfolding channel_virtual_open channel_virtual_close channel_request_process
    command-Balanced open_it c h = ground (arith, counts.open_count c)
    command-Balanced close_it c h = ground (arith, counts.close_count c, counts.close_keeps c)
    command-Balanced (request message) c h =
        ground (arith, counts.request_count message c, counts.request_keeps message c)

    -- Over any run of openings, closings and requests, some of which may fail, a channel that starts
    -- closed with nothing open has one thing open while IsOpen is set and nothing while it is not: an
    -- open channel is not opened again, and a closed one not closed again.
    pub run-Balanced :
        (c : EngineChannel World) (commands : List (Command Message))
        → count c.world ≡ (if c.is_open then 1 else 0)
        → count (run c commands).world ≡ (if (run c commands).is_open then 1 else 0)
    unfolding run
    run-Balanced c [] h = h
    run-Balanced c (x ∷ commands) h =
        run-Balanced (left_by c (command x c)) commands (command-Balanced x c h)
