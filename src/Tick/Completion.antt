-- ===== src/Tick/Completion.antt =====
-- RosaServer/hooks.cpp: the answer to a line that is to be completed.
use rosa_server.Base.{
  ◌≡◌, refl, sym, subst, inl, inr, false, ◌&&◌, [], ◌∷◌, Text, codes, if◌then◌else◌, Bool-cases,
  Bool-split,
}
use rosa_server.Hooks.Keys
use rosa_server.Hooks.World.{text}
use rosa_server.Console.State.{Console}
use rosa_server.Console.Keys.{respond}
use rosa_server.Tick.{Lua, Game, ask_completion, complete}
use rosa_server.Tick.Quiet.{KeepsOn, Passes, Passes-none}
use rosa_server.Tick.Commands.{tell-console, tell-Passes}

-- The engine's state is kept, and the console but for the line and the answer.
ask_completion-Passes :
    (l : Lua) (g : Game) → KeepsOn l.outside → Passes [] g.world (ask_completion l g).world
ask_completion-Passes l g k =
    tell-Passes l Keys.console_auto_complete (codes "ConsoleAutoComplete")
      (text g.console.auto_complete_input ∷ []) g k refl

pub complete-Passes :
    (l : Lua) (g : Game) → KeepsOn l.outside → Passes [] g.world (complete l g).world
unfolding complete
complete-Passes l g k =
    let asked = ask_completion l g in
    let quiet = record g { console = respond g.console g.console.auto_complete_input } in
    let told = g.world.enabled Keys.console_auto_complete && g.world.run_set in
    Bool-split (λ b. Passes [] g.world (if b then (if told then asked else quiet) else g).world)
      g.console.awaiting_auto_complete
      (λ e.
        (Bool-split (λ b. Passes [] g.world (if b then asked else quiet).world) told
          (λ t. (ask_completion-Passes l g k)) (λ t. (Passes-none g.world))))
      (λ e. (Passes-none g.world))

-- No line is awaited, and the queue is the same.
abbrev pub IsAnswered : Console → Console → Type 0
IsAnswered c d = (d.awaiting_auto_complete ≡ false) × (d.command_queue ≡ c.command_queue)

respond-IsAnswered : (c : Console) (line : Text) → IsAnswered c (respond c line)
unfolding respond
respond-IsAnswered c line = elim (Bool-cases c.awaiting_auto_complete) [
  | inl e ↦ (rw e refl, rw e refl)
  | inr e ↦ (rw e refl, rw e refl)
]

ask_completion-IsAnswered : (l : Lua) (g : Game) → IsAnswered g.console (ask_completion l g).console
ask_completion-IsAnswered l g =
    let input = g.console.auto_complete_input in
    subst (λ c. IsAnswered g.console (respond c (l.completes g.world input)))
      (sym (
        tell-console l Keys.console_auto_complete (codes "ConsoleAutoComplete") (text input ∷ [])
          g))
      (respond-IsAnswered g.console (l.completes g.world input))

pub complete-IsAnswered : (l : Lua) (g : Game) → IsAnswered g.console (complete l g).console
unfolding complete
complete-IsAnswered l g =
    let asked = ask_completion l g in
    let quiet = record g { console = respond g.console g.console.auto_complete_input } in
    let told = g.world.enabled Keys.console_auto_complete && g.world.run_set in
    Bool-split
      (λ b. IsAnswered g.console (if b then (if told then asked else quiet) else g).console)
      g.console.awaiting_auto_complete
      (λ e.
        (Bool-split (λ b. IsAnswered g.console (if b then asked else quiet).console) told
          (λ t. (ask_completion-IsAnswered l g))
          (λ t. (respond-IsAnswered g.console g.console.auto_complete_input))))
      (λ e. (e, refl))
