-- ===== src/Tick/Start.antt =====
-- RosaServer/rosaserver.cpp: what `luaInit` leaves.
use rosa_server.Base.{suc, ◌≡◌, refl, sym, subst, Bool, true, if◌then◌else◌, arith}
use rosa_server.Hooks.Keys
use rosa_server.Hooks.World.{World}
use rosa_server.Console.State.{log}
use rosa_server.Tick.{
  Script, Lua, Game, moved, left_by, failed, run_script, cleared, fresh_state, lua_init,
  no_problems,
}
use rosa_server.Tick.Quiet.{passed, IsOn, KeepsOn}

-- The script runs, defines `hook.run` and switches ConsoleInput on.
pub record Runs (s : Script) : Type 0 where
  pub loaded : s.loads ≡ true
  pub ran : s.runs ≡ true
  pub run_defined : s.defines_run ≡ true
  pub input_on : s.enables Keys.console_input ≡ true

-- Nothing that is run switches ConsoleInput off.
pub record KeepsInput (l : Lua) : Type 0 where
  pub outside_keeps : KeepsOn l.outside
  pub script_runs : (w : World) → Runs (l.script w)

script_leaves :
    (l : Lua) (s : Script) (g : Game)
    → Runs s
    → IsOn (run_script l s g).world
      × (passed (run_script l s g).world.happened ≡ passed g.world.happened)
script_leaves l s g r =
    let ran = record (left_by s g.world) { run_set = s.defines_run } in
    let broken = failed (left_by s g.world) in
    let good : Game = moved l (record g { console = no_problems s g.console }) ran in
    subst
      (λ b.
        IsOn
          (if b
            then (if s.runs then good else moved l g broken)
            else record g { world = failed g.world }).world
        × (passed
              (if b
                then (if s.runs then good else moved l g broken)
                else record g { world = failed g.world }).world.happened
            ≡ passed g.world.happened))
      (sym r.loaded)
      (subst
        (λ b.
          IsOn (if b then good else moved l g broken).world
          × (passed (if b then good else moved l g broken).world.happened
              ≡ passed g.world.happened))
        (sym r.ran) (record { switched = r.input_on; running = r.run_defined }, refl))

-- With a script that runs, Lua is told of commands then, and was told of none yet.
pub lua_init_leaves :
    (l : Lua) (redo : Bool) (g : Game)
    → ((w : World) → Runs (l.script w))
    → IsOn (lua_init l redo g).world
      × (passed (lua_init l redo g).world.happened ≡ passed g.world.happened)
unfolding lua_init
lua_init_leaves l redo g r =
    script_leaves l (l.script (cleared redo g.world)) (fresh_state redo g)
      (r (cleared redo g.world))

script_states :
    (l : Lua) (s : Script) (g : Game)
    → ((run_script l s g).states_made ≡ g.states_made)
      × ((run_script l s g).console.should_exit ≡ g.console.should_exit)
unfolding log
script_states l s g = ground arith

-- One Lua state is made, and the process is to exit exactly if it was.
pub lua_init_counts :
    (l : Lua) (redo : Bool) (g : Game)
    → ((lua_init l redo g).states_made ≡ suc g.states_made)
      × ((lua_init l redo g).console.should_exit ≡ g.console.should_exit)
unfolding lua_init log
lua_init_counts l redo g = script_states l (l.script (cleared redo g.world)) (fresh_state redo g)

script_queue :
    (l : Lua) (s : Script) (g : Game)
    → (run_script l s g).console.command_queue ≡ g.console.command_queue
unfolding log
script_queue l s g = ground arith

pub lua_init_queue :
    (l : Lua) (redo : Bool) (g : Game)
    → (lua_init l redo g).console.command_queue ≡ g.console.command_queue
unfolding lua_init log
lua_init_queue l redo g = script_queue l (l.script (cleared redo g.world)) (fresh_state redo g)

script_exited : (l : Lua) (s : Script) (g : Game) → (run_script l s g).exited ≡ g.exited
script_exited l s g = ground arith

pub lua_init_exited : (l : Lua) (redo : Bool) (g : Game) → (lua_init l redo g).exited ≡ g.exited
unfolding lua_init
lua_init_exited l redo g = script_exited l (l.script (cleared redo g.world)) (fresh_state redo g)
