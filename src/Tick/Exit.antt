-- ===== src/Tick/Exit.antt =====
-- RosaServer/hooks.cpp: which ticks end the process, and what they do before.
use rosa_server.Base.{◌≡◌, ◌⊎◌, true, false, List, [], ◌∷◌, ◌++◌, codes}
use rosa_server.Hooks.Keys
use rosa_server.Hooks.World.{World, Answer, Happening, asked, error_printed}
use rosa_server.Console.State.{Console}
use rosa_server.Tick.{Lua, Game, serve}

-- What Lua answers to the signal.
abbrev pub to_signal : Lua → World → Answer
to_signal l w = l.outside.lua w (codes "InterruptSignal") []

-- What happens before the process ends: nothing, if InterruptSignal is switched off or there is no
-- `hook.run`; else Lua is told, and an error of it printed.
pub data Signalled (l : Lua) (w : World) : List Happening → Type 0 where
  unheard : (w.enabled Keys.interrupt_signal ≡ false) ⊎ (w.run_set ≡ false) → Signalled l w []
  heard :
      w.enabled Keys.interrupt_signal ≡ true
      → w.run_set ≡ true
      → (to_signal l w).failed ≡ false
      → Signalled l w (asked (codes "InterruptSignal") [] ∷ [])
  heard_badly :
      w.enabled Keys.interrupt_signal ≡ true
      → w.run_set ≡ true
      → (to_signal l w).failed ≡ true
      → Signalled l w (asked (codes "InterruptSignal") [] ∷ error_printed ∷ [])

-- From one world to another, this is all that happens.
abbrev pub EndsAfter : Lua → World → World → Type 0
EndsAfter l v w = (f : List Happening) × (w.happened ≡ v.happened ++ f) × Signalled l v f

-- The two ways of a tick behind the reset.
abbrev pub EndsOrServes : Lua → (Console → Console) → Game → Game → Type 0
EndsOrServes l meanwhile h t =
    ((t.exited ≡ false) × (t ≡ serve l meanwhile h))
    ⊎ ((t.exited ≡ true)
        × EndsAfter l h.world t.world
        × (t.console.command_queue ≡ h.console.command_queue))
