-- ===== src/Tick/Boot.antt =====
-- RosaServer/hooks.cpp: the commands of the command line, from the start of the process to Lua.
use rosa_server.Console.State.{push_command}
use rosa_server.Base.{
  append_assoc, ◌≡◌, refl, sym, ap, subst, ◌∙◌, true, false, List, [], ◌∷◌, ◌++◌, append_nil, some,
  Text, codes, if◌then◌else◌, Bool-split,
}
use rosa_server.Console.State.{Console, log, write_text}
use rosa_server.Tick.{Lua, Game, lua_init, reset_engine, reset_if_flagged, tick}
use rosa_server.Tick.Quiet.{passed}
use rosa_server.Tick.Start.{lua_init_counts}
use rosa_server.Tick.Queue.{locked_queue}
use rosa_server.Tick.{log_rs, started_input, reset_game}
use rosa_server.Tick.CommandLine.{has_flag, unknown_command, parse_arguments}
use rosa_server.Tick.Commands.{to_pass}
use rosa_server.Tick.Start.{KeepsInput, lua_init_leaves, lua_init_counts, lua_init_queue}
use rosa_server.Tick.Queue.{locked_queue, tick_passes_commands, reset_engine-Passes}
use rosa_server.Tick.Quiet.{passed}

-- The arguments that give the commands, each behind one with "-c" in it.
abbrev pub command_line : List (Text × Text) → List Text
command_line [] = []
command_line ((flag, command) ∷ more) = flag ∷ command ∷ command_line more

abbrev pub AllFlags : List (Text × Text) → Type 0
AllFlags [] = Unit {0}
AllFlags ((flag, command) ∷ more) = (has_flag flag ≡ true) × AllFlags more

abbrev pub commands_of : List (Text × Text) → List Text
commands_of [] = []
commands_of ((flag, command) ∷ more) = command ∷ commands_of more

parse_one :
    (flag command : Text) (more : List Text) (c : Console)
    → has_flag flag ≡ true
    → parse_arguments (flag ∷ command ∷ more) c
      ≡ parse_arguments more (push_command (log c (write_text flag)) command)
unfolding parse_arguments
parse_one flag command more c e =
    ap
      (λ b. elim b [
        | true ↦ parse_arguments more (push_command (log c (write_text flag)) command)
        | false ↦
            parse_arguments (command ∷ more)
              (log (log c (write_text flag)) (write_text (unknown_command flag)))
      ])
      e

-- The two members of the console that the arguments are about.
abbrev Queued : List Text → Console → Console → Type 0
Queued cs c d = (d.command_queue ≡ c.command_queue ++ cs) × (d.should_exit ≡ c.should_exit)

push-Queued :
    (flag command : Text) (c : Console)
    → Queued (command ∷ []) c (push_command (log c (write_text flag)) command)
unfolding push_command log
push-Queued flag command c = (refl, refl)

parse_arguments-Queued :
    (pairs : List (Text × Text)) (c : Console)
    → AllFlags pairs
    → Queued (commands_of pairs) c (parse_arguments (command_line pairs) c)
unfolding parse_arguments
parse_arguments-Queued [] c f = (sym (append_nil c.command_queue), refl)
parse_arguments-Queued ((flag, command) ∷ more) c (f, fs) =
    let d = push_command (log c (write_text flag)) command in
    let (q, e) = parse_arguments-Queued more d fs in
    let (first, same) = push-Queued flag command c in
    subst (Queued (command ∷ commands_of more) c)
      (sym (parse_one flag command (command_line more) c f))
      (
        q
            ∙ ap (λ xs. xs ++ commands_of more) first
            ∙ append_assoc c.command_queue (command ∷ []) (commands_of more),
        e ∙ same,
      )

started_input-Queued :
    (pairs : List (Text × Text)) (state : Text) (c : Console)
    → AllFlags pairs
    → Queued (commands_of pairs) c (started_input (some (command_line pairs)) state c)
unfolding log
started_input-Queued pairs state c f =
    let on = record (log_rs (codes "Initializing input...") c) { input_initialized = true } in
    parse_arguments-Queued pairs (log_rs (codes "Parsing command line arguments...") on) f

-- The state when `resetGame` is entered first, before its engine call.
abbrev ready : Lua → List (Text × Text) → Text → Game → Game
ready l pairs state g =
    let made =
      lua_init l false
        (record g { initialized = true; console = log_rs (codes "Engine ready...") g.console }) in
    record made { console = started_input (some (command_line pairs)) state made.console }

reset_game_first :
    (l : Lua) (pairs : List (Text × Text)) (state : Text) (g : Game)
    → g.initialized ≡ false
    → reset_game l (some (command_line pairs)) state g ≡ reset_engine l 0 (ready l pairs state g)
unfolding reset_game
reset_game_first l pairs state g e =
    ap (λ b. if b then reset_engine l 1 g else reset_engine l 0 (ready l pairs state g)) e

ready-Queued :
    (l : Lua) (pairs : List (Text × Text)) (state : Text) (g : Game)
    → AllFlags pairs
    → Queued (commands_of pairs) g.console (ready l pairs state g).console
unfolding log
ready-Queued l pairs state g f =
    let first = record g {
      initialized = true;
      console = log_rs (codes "Engine ready...") g.console;
    } in
    let made = lua_init l false first in
    let (q, e) = started_input-Queued pairs state made.console f in
    (
      q ∙ ap (λ xs. xs ++ commands_of pairs) (lua_init_queue l false first),
      e ∙ (lua_init_counts l false first).1,
    )

reset_if_flagged-queue :
    (l : Lua) (g : Game) → (reset_if_flagged l g).console.command_queue ≡ g.console.command_queue
reset_if_flagged-queue l g =
    let made = lua_init l true (record g { should_reset = false }) in
    let kept = lua_init_queue l true (record g { should_reset = false }) in
    Bool-split
      (λ b.
        (if b then reset_engine l 2 made else g).console.command_queue ≡ g.console.command_queue)
      g.should_reset (λ e. kept) (λ e. refl)

-- The commands of a command line whose arguments come in pairs, one with "-c" in it and a command, reach
-- Lua: if the script runs, defines `hook.run` and switches ConsoleInput on, nothing switches it off, and
-- the process is not to exit, then in the first tick behind the first `resetGame` Lua is told of the
-- commands that waited before and of these, but for "resetlua", each once and in order.
pub boot_passes_commands :
    (l : Lua) (pairs : List (Text × Text)) (state : Text) (g : Game)
    → KeepsInput l
    → AllFlags pairs
    → g.initialized ≡ false
    → g.console.should_exit ≡ false
    → passed (tick l (λ c. c) (reset_game l (some (command_line pairs)) state g)).world.happened
      ≡ passed g.world.happened ++ to_pass (g.console.command_queue ++ commands_of pairs)
boot_passes_commands l pairs state g k f n e =
    let r = ready l pairs state g in
    let b = reset_engine l 0 r in
    let first = record g {
      initialized = true;
      console = log_rs (codes "Engine ready...") g.console;
    } in
    let (on, same) = lua_init_leaves l false first k.script_runs in
    let (queue, exit) = ready-Queued l pairs state g f in
    let p = reset_engine-Passes l 0 r k.outside_keeps in
    let none_yet : passed b.world.happened ≡ passed g.world.happened =
      p.more_passed ∙ append_nil (passed r.world.happened) ∙ same in
    let waiting : locked_queue l (λ c. c) b ≡ g.console.command_queue ++ commands_of pairs =
      reset_if_flagged-queue l b ∙ queue in
    subst
      (λ h.
        passed (tick l (λ c. c) h).world.happened
        ≡ passed g.world.happened ++ to_pass (g.console.command_queue ++ commands_of pairs))
      (sym (reset_game_first l pairs state g n))
      ((tick_passes_commands l (λ c. c) b (exit ∙ e) k (p.on on)).2
        ∙ ap (λ ts. ts ++ to_pass (locked_queue l (λ c. c) b)) none_yet
        ∙ ap (λ q. passed g.world.happened ++ to_pass q) waiting)
