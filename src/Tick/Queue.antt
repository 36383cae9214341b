-- ===== src/Tick/Queue.antt =====
-- RosaServer/hooks.cpp: what a tick does with the commands that wait, and with a line to complete.
use rosa_server.Base.{
  ℕ, ◌≡◌, refl, sym, ap, subst, ◌∙◌, true, false, List, [], ◌++◌, append_nil, Text, if◌then◌else◌,
  Bool-split,
}
use rosa_server.Base.Int.{pos}
use rosa_server.Hooks.Standard.{standard}
use rosa_server.Hooks.Server.{hook_and_reset}
use rosa_server.Console.State.{Console}
use rosa_server.Tick.{
  Lua, Game, moved, lua_init, reset_engine, logic_simulation, take_commands, reset_if_flagged,
  finish, serve, tick,
}
use rosa_server.Tick.Quiet.{
  passed, IsOn, KeepsOn, Passes, Passes-none, Passes-then, standard-Passes,
}
use rosa_server.Tick.Commands.{to_pass, take_commands-Passes, take_commands-queue}
use rosa_server.Tick.Completion.{complete-Passes, complete-IsAnswered}
use rosa_server.Tick.Start.{KeepsInput, lua_init_leaves, lua_init_counts}

-- The queue when it is locked.
abbrev pub locked_queue : Lua → (Console → Console) → Game → List Text
locked_queue l meanwhile g = (meanwhile (reset_if_flagged l g).console).command_queue

pub reset_engine-Passes :
    (l : Lua) (reason : ℕ) (g : Game)
    → KeepsOn l.outside
    → Passes [] g.world (reset_engine l reason g).world
reset_engine-Passes l reason g k =
    standard-Passes l.outside (hook_and_reset (pos reason)) g.world k
      (record { event_silent = refl; post_silent = refl })

-- Until the simulation, Lua stays to be told of commands, and is told of none.
pub reset_if_flagged-Passes :
    (l : Lua) (g : Game) → KeepsInput l → Passes [] g.world (reset_if_flagged l g).world
reset_if_flagged-Passes l g k =
    let made = lua_init l true (record g { should_reset = false }) in
    let (on, same) = lua_init_leaves l true (record g { should_reset = false }) k.script_runs in
    let start : Passes [] g.world made.world = record {
      on = λ i. on;
      more_passed = same ∙ sym (append_nil (passed g.world.happened));
    } in
    Bool-split (λ b. Passes [] g.world (if b then reset_engine l 2 made else g).world)
      g.should_reset (λ e. (Passes-then start (reset_engine-Passes l 2 made k.outside_keeps)))
      (λ e. (Passes-none g.world))

pub reset_if_flagged-should_exit :
    (l : Lua) (g : Game) → (reset_if_flagged l g).console.should_exit ≡ g.console.should_exit
reset_if_flagged-should_exit l g =
    let made = lua_init l true (record g { should_reset = false }) in
    let counts = lua_init_counts l true (record g { should_reset = false }) in
    Bool-split
      (λ b. (if b then reset_engine l 2 made else g).console.should_exit ≡ g.console.should_exit)
      g.should_reset (λ e. counts.1) (λ e. refl)

pub tick_serves :
    (l : Lua) (meanwhile : Console → Console) (g : Game)
    → g.console.should_exit ≡ false
    → tick l meanwhile g ≡ serve l meanwhile (reset_if_flagged l g)
unfolding tick
tick_serves l meanwhile g e =
    ap
      (λ b. if b then finish l (reset_if_flagged l g) else serve l meanwhile (reset_if_flagged l g))
      (reset_if_flagged-should_exit l g ∙ e)

-- The state at the lock of the queue.
abbrev pub locked : Lua → (Console → Console) → Game → Game
locked l meanwhile g =
    let simulated = moved l g (standard l.outside logic_simulation g.world).0 in
    record simulated { console = meanwhile simulated.console }

pub serve-Passes :
    (l : Lua) (meanwhile : Console → Console) (g : Game)
    → KeepsInput l
    → IsOn g.world
    → Passes (to_pass (meanwhile g.console).command_queue) g.world (serve l meanwhile g).world
serve-Passes l meanwhile g k i =
    let h = locked l meanwhile g in
    let simulated : Passes [] g.world h.world =
      standard-Passes l.outside logic_simulation g.world k.outside_keeps
        (record { event_silent = refl; post_silent = refl }) in
    let served =
      take_commands-Passes l h.console.command_queue h k.outside_keeps (simulated.on i) in
    let completed = complete-Passes l (take_commands l h.console.command_queue h) k.outside_keeps in
    subst (λ ts. Passes ts g.world (serve l meanwhile g).world)
      (append_nil (to_pass (meanwhile g.console).command_queue))
      (Passes-then simulated (Passes-then served completed))

serve-queue :
    (l : Lua) (meanwhile : Console → Console) (g : Game)
    → ((serve l meanwhile g).console.awaiting_auto_complete ≡ false)
      × ((serve l meanwhile g).console.command_queue ≡ [])
serve-queue l meanwhile g =
    let h = locked l meanwhile g in
    let (answered, same) = complete-IsAnswered l (take_commands l h.console.command_queue h) in
    (answered, same ∙ take_commands-queue l h.console.command_queue h refl)

-- If the process is not to exit, `hook.run` is there, ConsoleInput is switched on, and neither Lua, a
-- script nor the engine's calls change that: a tick leaves the queue empty and awaits no completion, and
-- Lua was told of every command that was in the queue when it was locked, but for "resetlua", each once
-- and in order.
pub tick_passes_commands :
    (l : Lua) (meanwhile : Console → Console) (g : Game)
    → g.console.should_exit ≡ false
    → KeepsInput l
    → IsOn g.world
    → ((tick l meanwhile g).console.command_queue ≡ [])
      × ((tick l meanwhile g).console.awaiting_auto_complete ≡ false)
      × (passed (tick l meanwhile g).world.happened
          ≡ passed g.world.happened ++ to_pass (locked_queue l meanwhile g))
tick_passes_commands l meanwhile g e k i =
    let h = reset_if_flagged l g in
    let p = reset_if_flagged-Passes l g k in
    let q = Passes-then p (serve-Passes l meanwhile h k (p.on i)) in
    let s = serve-queue l meanwhile h in
    subst
      (λ t.
        (t.console.command_queue ≡ [])
        × (t.console.awaiting_auto_complete ≡ false)
        × (passed t.world.happened
            ≡ passed g.world.happened ++ to_pass (locked_queue l meanwhile g)))
      (sym (tick_serves l meanwhile g e)) (s.1, s.0, q.more_passed)
