-- ===== src/Tick.antt =====
-- RosaServer/hooks.cpp, RosaServer/rosaserver.cpp: `resetGame`, `logicSimulation` and `luaInit`, which put
-- the replacements and the console together. What Lua prints, the text of its errors too, is not kept in
-- the console here.
pub mod CommandLine
pub mod Quiet
pub mod Commands
pub mod Completion
pub mod Start
pub mod Queue
pub mod Restart
pub mod Exit
pub mod Boot
mod Tests
use rosa_server.Base.{
  ℕ, suc, Bool, true, false, ◌&&◌, ◌||◌, List, [], ◌∷◌, ◌++◌, Option, none, some, if◌then◌else◌,
  ◌==◌, Text, codes, texts_equal,
}
use rosa_server.Base.Int.{pos}
use rosa_server.Hooks.Keys
use rosa_server.Hooks.Detours
use rosa_server.Hooks.Names.{clear}
use rosa_server.Hooks.World.{
  Kind, Arg, text, World, Outside, Happening, error_printed, after_answer, enter,
}
use rosa_server.Hooks.Standard.{Hook, standard}
use rosa_server.Hooks.Server.{hook_and_reset}
use rosa_server.Console.State.{Console, write_text, log, push_command}
use rosa_server.Console.Keys.{respond}
use rosa_server.Tick.CommandLine.{parse_command_line}

-- What the script does to the fresh state: whether it loads and runs without an error, whether it
-- defines `hook.run`, and the switches and tables that it leaves.
pub record Script : Type 0 where
  pub loads : Bool
  pub runs : Bool
  pub defines_run : Bool
  pub enables : ℕ → Bool
  pub makes_tables : Kind → ℕ → Bool

-- Lua and the engine: what they answer; what the script does; whether Lua called `flagStateForReset`
-- on the way from one world to another; and the response that Lua leaves for an input to complete.
pub record Lua : Type 0 where
  pub outside : Outside
  pub script : World → Script
  pub flagged : World → World → Bool
  pub completes : World → Text → Text

pub record Game : Type 0 where
  pub world : World
  pub console : Console
  pub should_reset : Bool
  pub initialized : Bool
  pub states_made : ℕ
  pub exited : Bool

abbrev lua_prefix : Text
lua_prefix = 27 ∷ codes "[34;1;4m[RosaServer/Lua]" ++ 27 ∷ codes "[0m "

abbrev rs_prefix : Text
rs_prefix = 27 ∷ codes "[35;1;4m[RosaServer]" ++ 27 ∷ codes "[0m "

-- `Console::log(LUA_PREFIX "…\n")` and `Console::log(RS_PREFIX "…\n")`
abbrev pub log_lua : Text → Console → Console
log_lua line c = log c (write_text (lua_prefix ++ line ++ 10 ∷ []))

abbrev pub log_rs : Text → Console → Console
log_rs line c = log c (write_text (rs_prefix ++ line ++ 10 ∷ []))

-- The world after something that may have called Lua.
abbrev pub moved : Lua → Game → World → Game
moved l g w = record g { world = w; should_reset = g.should_reset || l.flagged g.world w }

abbrev pub no_problems : Script → Console → Console
no_problems s c =
    let d = log_lua (codes "No problems!") c in
    if s.defines_run then d else log_lua (codes "To use hooks, define hook.run!") d

abbrev pub failed : World → World
failed w = record w { happened = w.happened ++ error_printed ∷ [] }

abbrev pub left_by : Script → World → World
left_by s w = record w { enabled = s.enables; has_table = s.makes_tables }

-- The end of `luaInit`.
abbrev pub run_script : Lua → Script → Game → Game
run_script l s g =
    if s.loads
    then (if s.runs
        then moved l (record g { console = no_problems s g.console })
            (record (left_by s g.world) { run_set = s.defines_run })
        else moved l g (failed (left_by s g.world)))
    else record g { world = failed g.world }

-- The world with a Lua state in which no script was run.
abbrev pub cleared : Bool → World → World
cleared redo w = record w {
  run_set = false;
  enabled = clear w.enabled;
  has_table = if redo then (λ k n. false) else w.has_table;
}

-- `luaInit` until the script is run.
abbrev pub fresh_state : Bool → Game → Game
fresh_state redo g =
    let first = if redo then codes "Resetting state..." else codes "Initializing state..." in
    record g {
      world = cleared redo g.world;
      console =
          log_lua (codes "Running main/init.lua...")
            (log_lua (codes "Defining...") (log_lua first g.console));
      states_made = suc g.states_made;
    }

unfoldable pub lua_init : Lua → Bool → Game → Game
lua_init l redo g = let f = fresh_state redo g in run_script l (l.script f.world) f

-- `hookAndReset(reason)`
abbrev pub reset_engine : Lua → ℕ → Game → Game
reset_engine l reason g = moved l g (standard l.outside (hook_and_reset (pos reason)) g.world).0

-- The console when `resetGame` is entered first, after `luaInit` and with its input on.
abbrev pub started_input : Option (List Text) → Text → Console → Console
started_input arguments state c =
    let on = record (log_rs (codes "Initializing input...") c) { input_initialized = true } in
    log_rs (codes "Ready!")
      (parse_command_line arguments state (log_rs (codes "Parsing command line arguments...") on))

-- The arguments of the process, or none if they cannot be read.
unfoldable pub reset_game : Lua → Option (List Text) → Text → Game → Game
reset_game l arguments state g =
    if g.initialized
    then reset_engine l 1 g
    else let first = record g {
      initialized = true;
      console = log_rs (codes "Engine ready...") g.console;
    } in
      let made = lua_init l false first in
      reset_engine l 0 (record made { console = started_input arguments state made.console })

-- `if (enabledKeys[…] && run != sol::nil) { auto res = run(…); noLuaCallError(&res); }`
unfoldable pub tell : Lua → ℕ → Text → List Arg → Game → Game
tell l key name args g =
    if g.world.enabled key && g.world.run_set
    then moved l g (after_answer g.world name args (l.outside.lua g.world name args))
    else g

abbrev pub logic_simulation : Hook
logic_simulation = record {
  key = Keys.logic;
  event = codes "Logic";
  args = [];
  wrapped = [];
  detour = Detours.logic_simulation;
  call = λ vs. [];
  post_event = codes "PostLogic";
  post = λ result vs. some ([]);
  vetoed = pos 0;
}

abbrev pub reset_lua_command : Text
reset_lua_command = codes "resetlua"

abbrev pub with_queue : List Text → Game → Game
with_queue commands g = record g { console = record g.console { command_queue = commands } }

abbrev pub force_reset : List Text → Game → Game
force_reset more g =
    let popped = record (with_queue more g) { should_reset = true } in
    record popped {
      console = log_lua (codes "Force-resetting Lua state from console.") popped.console;
    }

-- One round of the loop over the commands; `more` is the queue without this one.
unfoldable pub take_command : Lua → Text → List Text → Game → Game
take_command l command more g =
    if texts_equal command reset_lua_command
    then force_reset more g
    else with_queue more (tell l Keys.console_input (codes "ConsoleInput") (text command ∷ []) g)

unfoldable pub take_commands : Lua → List Text → Game → Game
take_commands l [] g = g
take_commands l (command ∷ more) g = take_commands l more (take_command l command more g)

-- The response is read from the table that Lua was given.
abbrev pub ask_completion : Lua → Game → Game
ask_completion l g =
    let input = g.console.auto_complete_input in
    let told =
      tell l Keys.console_auto_complete (codes "ConsoleAutoComplete") (text input ∷ []) g in
    record told { console = respond told.console (l.completes g.world input) }

unfoldable pub complete : Lua → Game → Game
complete l g =
    if g.console.awaiting_auto_complete
    then (if g.world.enabled Keys.console_auto_complete && g.world.run_set
        then ask_completion l g
        else record g { console = respond g.console g.console.auto_complete_input })
    else g

abbrev pub reset_if_flagged : Lua → Game → Game
reset_if_flagged l g =
    if g.should_reset
    then reset_engine l 2 (lua_init l true (record g { should_reset = false }))
    else g

-- `Lua::os::exit` ends the process.
abbrev pub finish : Lua → Game → Game
finish l g = record (tell l Keys.interrupt_signal (codes "InterruptSignal") [] g) { exited = true }

-- `meanwhile` is what the other threads do to the console until its queue is locked.
abbrev pub serve : Lua → (Console → Console) → Game → Game
serve l meanwhile g =
    let simulated = moved l g (standard l.outside logic_simulation g.world).0 in
    let locked = record simulated { console = meanwhile simulated.console } in
    complete l (take_commands l locked.console.command_queue locked)

-- `logicSimulation`
unfoldable pub tick : Lua → (Console → Console) → Game → Game
tick l meanwhile g =
    let h = reset_if_flagged l g in
    if h.console.should_exit then finish l h else serve l meanwhile h
