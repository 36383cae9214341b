-- ===== src/Tick/Restart.antt =====
-- RosaServer/hooks.cpp, RosaServer/rosaserver.cpp: when a new Lua state is made.
use rosa_server.Base.{
  ℕ, suc, ◌≡◌, refl, ap, subst, ◌∙◌, inl, inr, Bool, true, false, ◌&&◌, ◌||◌, List, [], ◌∷◌, Text,
  codes, texts_equal, if◌then◌else◌, Bool-cases, Bool-split,
}
use rosa_server.Hooks.Keys
use rosa_server.Hooks.World.{Arg, text, World, after_answer}
use rosa_server.Hooks.Standard.{standard}
use rosa_server.Console.State.{Console}
use rosa_server.Console.Keys.{respond}
use rosa_server.Tick.{
  Lua, Game, moved, lua_init, reset_engine, tell, logic_simulation, reset_lua_command, with_queue,
  force_reset, take_command, take_commands, ask_completion, complete, reset_if_flagged, finish,
  serve, tick,
}
use rosa_server.Tick.Start.{lua_init_counts}
use rosa_server.Tick.Queue.{locked_queue, locked, tick_serves}

-- No Lua state is made on the way, a reset that is flagged stays flagged, and the process does not end.
pub record Goes (g h : Game) : Type 0 where
  pub same_states : h.states_made ≡ g.states_made
  pub stays_flagged : g.should_reset ≡ true → h.should_reset ≡ true
  pub same_exited : h.exited ≡ g.exited

Goes-none : (g : Game) → Goes g g
Goes-none g = record { same_states = refl; stays_flagged = λ e. e; same_exited = refl }

Goes-then : {g h i : Game} → Goes g h → Goes h i → Goes g i
Goes-then p q = record {
  same_states = q.same_states ∙ p.same_states;
  stays_flagged = λ e. q.stays_flagged (p.stays_flagged e);
  same_exited = q.same_exited ∙ p.same_exited;
}

moved-Goes : (l : Lua) (g : Game) (w : World) → Goes g (moved l g w)
moved-Goes l g w = record {
  same_states = refl;
  stays_flagged = λ e. ap (λ b. b || l.flagged g.world w) e;
  same_exited = refl;
}

pub tell-Goes :
    (l : Lua) (key : ℕ) (name : Text) (args : List Arg) (g : Game) → Goes g (tell l key name args g)
unfolding tell
tell-Goes l key name args g =
    let told = moved l g (after_answer g.world name args (l.outside.lua g.world name args)) in
    Bool-split (λ b. Goes g (if b then told else g)) (g.world.enabled key && g.world.run_set)
      (λ e. (moved-Goes l g (after_answer g.world name args (l.outside.lua g.world name args))))
      (λ e. (Goes-none g))

with_queue-Goes : (g h : Game) (cs : List Text) → Goes g h → Goes g (with_queue cs h)
with_queue-Goes g h cs p = record {
  same_states = p.same_states;
  stays_flagged = p.stays_flagged;
  same_exited = p.same_exited;
}

take_command-Goes :
    (l : Lua) (c : Text) (more : List Text) (g : Game) → Goes g (take_command l c more g)
unfolding take_command
take_command-Goes l c more g =
    let name = codes "ConsoleInput" in
    let telling = tell l Keys.console_input name (text c ∷ []) g in
    Bool-split (λ b. Goes g (if b then force_reset more g else with_queue more telling))
      (texts_equal c reset_lua_command)
      (λ e. (record { same_states = refl; stays_flagged = λ f. refl; same_exited = refl }))
      (λ e. (with_queue-Goes g telling more (tell-Goes l Keys.console_input name (text c ∷ []) g)))

take_commands-Goes : (l : Lua) (cs : List Text) (g : Game) → Goes g (take_commands l cs g)
unfolding take_commands
take_commands-Goes l [] g = Goes-none g
take_commands-Goes l (c ∷ cs) g =
    Goes-then (take_command-Goes l c cs g) (take_commands-Goes l cs (take_command l c cs g))

-- Whether "resetlua" is among the commands.
abbrev pub has_reset : List Text → Bool
has_reset [] = false
has_reset (c ∷ cs) = texts_equal c reset_lua_command || has_reset cs

take_command-flags :
    (l : Lua) (c : Text) (more : List Text) (g : Game)
    → texts_equal c reset_lua_command ≡ true
    → (take_command l c more g).should_reset ≡ true
unfolding take_command
take_command-flags l c more g e =
    let telling = tell l Keys.console_input (codes "ConsoleInput") (text c ∷ []) g in
    ap (λ b. (if b then force_reset more g else with_queue more telling).should_reset) e

take_commands-flags :
    (l : Lua) (cs : List Text) (g : Game)
    → has_reset cs ≡ true
    → (take_commands l cs g).should_reset ≡ true
unfolding take_commands
take_commands-flags l [] g e = absurd (cc e)
take_commands-flags l (c ∷ cs) g e = elim (Bool-cases (texts_equal c reset_lua_command)) [
  | inl f ↦
      (take_commands-Goes l cs (take_command l c cs g)).stays_flagged
        (take_command-flags l c cs g f)
  | inr f ↦
      take_commands-flags l cs (take_command l c cs g) (subst (λ b. (b || has_reset cs) ≡ true) f e)
]

complete-Goes : (l : Lua) (g : Game) → Goes g (complete l g)
unfolding complete
complete-Goes l g =
    let asked = ask_completion l g in
    let quiet = record g { console = respond g.console g.console.auto_complete_input } in
    let told = g.world.enabled Keys.console_auto_complete && g.world.run_set in
    let p =
      tell-Goes l Keys.console_auto_complete (codes "ConsoleAutoComplete")
        (text g.console.auto_complete_input ∷ []) g in
    Bool-split (λ b. Goes g (if b then (if told then asked else quiet) else g))
      g.console.awaiting_auto_complete
      (λ e.
        (Bool-split (λ b. Goes g (if b then asked else quiet)) told
          (λ t. (record {
            same_states = p.same_states;
            stays_flagged = p.stays_flagged;
            same_exited = p.same_exited;
          }))
          (λ t. (record { same_states = refl; stays_flagged = λ f. f; same_exited = refl }))))
      (λ e. (Goes-none g))

pub serve-Goes : (l : Lua) (meanwhile : Console → Console) (g : Game) → Goes g (serve l meanwhile g)
serve-Goes l meanwhile g =
    let h = locked l meanwhile g in
    let p = moved-Goes l g (standard l.outside logic_simulation g.world).0 in
    let start : Goes g h = record {
      same_states = p.same_states;
      stays_flagged = p.stays_flagged;
      same_exited = refl;
    } in
    Goes-then start (
      Goes-then (take_commands-Goes l h.console.command_queue h)
        (complete-Goes l (take_commands l h.console.command_queue h)))

serve-flags :
    (l : Lua) (meanwhile : Console → Console) (g : Game)
    → has_reset (meanwhile g.console).command_queue ≡ true
    → (serve l meanwhile g).should_reset ≡ true
serve-flags l meanwhile g e =
    let h = locked l meanwhile g in
    (complete-Goes l (take_commands l h.console.command_queue h)).stays_flagged
      (take_commands-flags l h.console.command_queue h e)

-- How many Lua states are made before the rest of a tick.
reset_if_flagged-states :
    (l : Lua) (g : Game)
    → (reset_if_flagged l g).states_made
      ≡ (if g.should_reset then suc g.states_made else g.states_made)
reset_if_flagged-states l g =
    let made = lua_init l true (record g { should_reset = false }) in
    let counts = lua_init_counts l true (record g { should_reset = false }) in
    Bool-split
      (λ b.
        (if b then reset_engine l 2 made else g).states_made
        ≡ (if b then suc g.states_made else g.states_made))
      g.should_reset (λ e. counts.0) (λ e. refl)

tick-states :
    (l : Lua) (meanwhile : Console → Console) (g : Game)
    → (tick l meanwhile g).states_made
      ≡ (if g.should_reset then suc g.states_made else g.states_made)
unfolding tick
tick-states l meanwhile g =
    let h = reset_if_flagged l g in
    let p = tell-Goes l Keys.interrupt_signal (codes "InterruptSignal") [] h in
    let count = if g.should_reset then suc g.states_made else g.states_made in
    Bool-split (λ b. (if b then finish l h else serve l meanwhile h).states_made ≡ count)
      h.console.should_exit (λ e. (p.same_states ∙ reset_if_flagged-states l g))
      (λ e. ((serve-Goes l meanwhile h).same_states ∙ reset_if_flagged-states l g))

-- If "resetlua" is in the queue when a tick locks it, and neither a reset is flagged before that tick nor
-- the process is to exit, then this tick makes no Lua state, and the next one makes exactly one, whatever
-- Lua and the engine do, and also if the process is to exit then.
pub resetlua_restarts :
    (l : Lua) (meanwhile after : Console → Console) (g : Game)
    → g.console.should_exit ≡ false
    → g.should_reset ≡ false
    → has_reset (locked_queue l meanwhile g) ≡ true
    → ((tick l meanwhile g).states_made ≡ g.states_made)
      × ((tick l after (tick l meanwhile g)).states_made ≡ suc g.states_made)
resetlua_restarts l meanwhile after g e f r =
    let t = tick l meanwhile g in
    let same : t.states_made ≡ g.states_made =
      tick-states l meanwhile g ∙ ap (λ b. if b then suc g.states_made else g.states_made) f in
    let flagged : t.should_reset ≡ true =
      ap (λ t. t.should_reset) (tick_serves l meanwhile g e)
      ∙ serve-flags l meanwhile (reset_if_flagged l g) r in
    (
      same,
      tick-states l after t
          ∙ ap (λ b. if b then suc t.states_made else t.states_made) flagged
          ∙ ap suc same,
    )
