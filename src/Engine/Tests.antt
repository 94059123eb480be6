-- ===== src/Engine/Tests.antt =====
-- Runs of the engine factory and of a channel on concrete input.
use go_mrcp.Prelude.{ℕ, ◌+◌, ◌-◌, ◌≡◌, refl, true, false, if◌then◌else◌, List, [], ◌∷◌, none}
use go_mrcp.Prelude.Text.{codes}
use go_mrcp.Engine.Factory.{
  MrcpEngine, ok, engine_factory_create, engine_get, engine_find, engine_register,
}
use go_mrcp.Engine.FactoryLaws.{
  register_all, accepted, last_named, first_with, answer, engine_get-register_all,
}
use go_mrcp.Engine.Channel.{EngineChannel, ChannelMethod}
use go_mrcp.Engine.ChannelLaws.{Command, open_it, close_it, request, run, Counts, run-Balanced}

abbrev synth : MrcpEngine
synth = record { id = codes "synth"; resource_id = 0; create_state_machine = true }

abbrev recog : MrcpEngine
recog = record { id = codes "recog"; resource_id = 1; create_state_machine = true }

abbrev newer : MrcpEngine
newer = record { id = codes "synth"; resource_id = 1; create_state_machine = true }

abbrev unfinished : MrcpEngine
unfinished = record { id = codes "recog"; resource_id = 1; create_state_machine = false }

-- The last engine of a name is found by the name, the first of a resource by the resource.
found_by_name :
    engine_get
      (register_all engine_factory_create (synth ∷ recog ∷ newer ∷ unfinished ∷ []))
      (codes "synth")
    ≡ ok newer
unfolding engine_get register_all engine_factory_create engine_register
found_by_name = refl

engine_get-register_all_example :
    (engine_get
        (register_all engine_factory_create (synth ∷ recog ∷ newer ∷ unfinished ∷ []))
        (codes "synth")
      ≡ answer
          (last_named none (accepted (synth ∷ recog ∷ newer ∷ unfinished ∷ [])) (codes "synth")))
    × (engine_find (register_all engine_factory_create (synth ∷ recog ∷ newer ∷ unfinished ∷ [])) 1
        ≡ ok (first_with (accepted (synth ∷ recog ∷ newer ∷ unfinished ∷ [])) 1))
engine_get-register_all_example =
    engine_get-register_all (synth ∷ recog ∷ newer ∷ unfinished ∷ []) (codes "synth") 1

abbrev open_one : ChannelMethod ℕ
open_one c = (record c { world = c.world + 1 }, true)

abbrev close_one : ChannelMethod ℕ
close_one c = (record c { world = c.world - 1 }, true)

abbrev refuse : ℕ → ChannelMethod ℕ
refuse message c = (c, false)

abbrev number : ℕ → ℕ
number n = n

counts : Counts open_one close_one refuse number
counts = record {
  open_count = λ c. refl;
  close_count = λ c. refl;
  close_keeps = λ c. refl;
  request_count = λ message c. refl;
  request_keeps = λ message c. refl;
}

abbrev closed : EngineChannel ℕ
closed = record { is_open = false; world = 0 }

abbrev commands : List (Command ℕ)
commands = open_it ∷ open_it ∷ request 5 ∷ close_it ∷ open_it ∷ []

run-Balanced_example :
    number ((run open_one close_one refuse closed commands).world)
    ≡ (if (run open_one close_one refuse closed commands).is_open then 1 else 0)
run-Balanced_example = run-Balanced open_one close_one refuse number counts closed commands refl
