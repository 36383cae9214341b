-- ===== src/Tick/Tests.antt =====
-- RosaServer/hooks.cpp: a game that starts, and the theorems at it.
use rosa_server.Base.{ℕ, ◌≡◌, refl, Bool, true, false, ◌==◌, List, [], ◌∷◌, Text, codes, some}
use rosa_server.Base.Int.{pos, negsuc}
use rosa_server.Hooks.Keys
use rosa_server.Hooks.World.{World, Outside, asked, text}
use rosa_server.Console.State.{Console}
use rosa_server.Tick.{Lua, Game, tick, take_commands, take_command, reset_game, tell}
use rosa_server.Tick.CommandLine.{has_flag}
use rosa_server.Tick.Quiet.{passed, IsOn}
use rosa_server.Tick.Start.{KeepsInput}
use rosa_server.Tick.Queue.{tick_passes_commands}
use rosa_server.Tick.Restart.{resetlua_restarts}
use rosa_server.Tick.Boot.{command_line, boot_passes_commands}

abbrev only_input : ℕ → Bool
only_input key = key == Keys.console_input

-- Lua and an engine that leave everything as it is.
abbrev calm : Outside
calm = record {
  lua = λ w name args. record {
    failed = false;
    truthy = false;
    left_in = λ n v. v;
    enabled_after = w.enabled;
    tables_after = w.has_table;
  };
  engine =
      λ w d args. record { value = pos 0; enabled_then = w.enabled; tables_then = w.has_table };
}

abbrev calm_lua : Lua
calm_lua = record {
  outside = calm;
  script = λ w. record {
    loads = true;
    runs = true;
    defines_run = true;
    enables = only_input;
    makes_tables = λ k n. false;
  };
  flagged = λ v w. false;
  completes = λ w input. input;
}

calm_lua-KeepsInput : KeepsInput calm_lua
calm_lua-KeepsInput = record {
  outside_keeps = record { by_lua = λ w name args e. e; by_engine = λ w d args e. e };
  script_runs = λ w. record { loaded = refl; ran = refl; run_defined = refl; input_on = refl };
}

abbrev console_with : List Text → Bool → Console
console_with commands exit = record {
  buffer = [];
  cursor_col = 0;
  history = [];
  history_pos = negsuc 0;
  draft = [];
  awaiting_auto_complete = true;
  auto_complete_input = [];
  command_queue = commands;
  retry_code = negsuc 0;
  should_exit = exit;
  input_initialized = true;
  written = [];
}

abbrev playing : World
playing = record {
  enabled = only_input;
  run_set = true;
  removed = λ d. false;
  has_table = λ k n. false;
  in_bullet_simulation = false;
  happened = [];
}

abbrev game_with : List Text → Bool → Game
game_with commands exit = record {
  world = playing;
  console = console_with commands exit;
  should_reset = false;
  initialized = true;
  states_made = 1;
  exited = false;
}

abbrev commands : List Text
commands = codes "a" ∷ codes "resetlua" ∷ codes "b" ∷ []

playing-IsOn : IsOn playing
playing-IsOn = record { switched = refl; running = refl }

commands_taken :
    (take_commands calm_lua commands (game_with commands false)).world.happened
    ≡ asked (codes "ConsoleInput") (text (codes "a") ∷ [])
      ∷ asked (codes "ConsoleInput") (text (codes "b") ∷ [])
      ∷ []
unfolding take_commands take_command tell
commands_taken = refl

-- Any argument with "-c" in it takes the next one for a command.
config_taken_for_command : has_flag (codes "--config") ≡ true
config_taken_for_command = refl

tick_passes_commands_example :
    ((tick calm_lua (λ c. c) (game_with commands false)).console.command_queue ≡ [])
    × ((tick calm_lua (λ c. c) (game_with commands false)).console.awaiting_auto_complete ≡ false)
    × (passed (tick calm_lua (λ c. c) (game_with commands false)).world.happened
        ≡ codes "a" ∷ codes "b" ∷ [])
tick_passes_commands_example =
    tick_passes_commands calm_lua (λ c. c) (game_with commands false) refl calm_lua-KeepsInput
      playing-IsOn

resetlua_restarts_example :
    ((tick calm_lua (λ c. c) (game_with commands false)).states_made ≡ 1)
    × ((tick calm_lua (λ c. c) (tick calm_lua (λ c. c) (game_with commands false))).states_made ≡ 2)
resetlua_restarts_example =
    resetlua_restarts calm_lua (λ c. c) (λ c. c) (game_with commands false) refl refl refl

abbrev two_commands : List (Text × Text)
two_commands = (codes "-c", codes "a") ∷ (codes "-c", codes "b") ∷ []

abbrev unstarted : Game
unstarted = record (game_with [] false) { initialized = false; states_made = 0 }

boot_passes_commands_example :
    passed
      (tick calm_lua
        (λ c. c)
        (reset_game calm_lua
          (some (command_line two_commands))
          (codes "4")
          unstarted)).world.happened
    ≡ codes "a" ∷ codes "b" ∷ []
boot_passes_commands_example =
    boot_passes_commands calm_lua two_commands (codes "4") unstarted calm_lua-KeepsInput
      (refl, (refl, tt)) refl refl
