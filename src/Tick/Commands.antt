-- ===== src/Tick/Commands.antt =====
-- RosaServer/hooks.cpp: the loop over the commands that wait.
use rosa_server.Base.{
  ℕ, ◌≡◌, refl, sym, subst, inl, inr, true, false, ◌&&◌, List, [], ◌∷◌, ◌++◌, Text, codes,
  texts_equal, if◌then◌else◌, Bool-cases, Bool-split,
}
use rosa_server.Hooks.Keys
use rosa_server.Hooks.World.{Arg, text, after_answer}
use rosa_server.Console.State.{log}
use rosa_server.Tick.{
  Lua, Game, moved, tell, reset_lua_command, with_queue, force_reset, take_command, take_commands,
}
use rosa_server.Tick.Quiet.{
  IsOn, KeepsOn, Passes, Passes-none, Passes-then, answer-Passes, silent-Passes,
}

-- The commands that are for Lua.
abbrev pub to_pass : List Text → List Text
to_pass [] = []
to_pass (c ∷ cs) = if texts_equal c reset_lua_command then to_pass cs else c ∷ to_pass cs

pub tell-console :
    (l : Lua) (key : ℕ) (name : Text) (args : List Arg) (g : Game)
    → (tell l key name args g).console ≡ g.console
unfolding tell
tell-console l key name args g = elim (Bool-cases (g.world.enabled key && g.world.run_set)) [
  | inl e ↦ rw e refl
  | inr e ↦ rw e refl
]

take_command-queue :
    (l : Lua) (c : Text) (more : List Text) (g : Game)
    → (take_command l c more g).console.command_queue ≡ more
unfolding take_command log
take_command-queue l c more g = elim (Bool-cases (texts_equal c reset_lua_command)) [
  | inl e ↦ rw e refl
  | inr e ↦ rw e refl
]

pub take_commands-queue :
    (l : Lua) (cs : List Text) (g : Game)
    → g.console.command_queue ≡ cs
    → (take_commands l cs g).console.command_queue ≡ []
unfolding take_commands
take_commands-queue l [] g e = e
take_commands-queue l (c ∷ cs) g e =
    take_commands-queue l cs (take_command l c cs g) (take_command-queue l c cs g)

pub tell-Passes :
    (l : Lua) (key : ℕ) (name : Text) (args : List Arg) (g : Game)
    → KeepsOn l.outside
    → texts_equal name (codes "ConsoleInput") ≡ false
    → Passes [] g.world (tell l key name args g).world
unfolding tell
tell-Passes l key name args g k s =
    let told = moved l g (after_answer g.world name args (l.outside.lua g.world name args)) in
    Bool-split (λ b. Passes [] g.world (if b then told else g).world)
      (g.world.enabled key && g.world.run_set)
      (λ e. (silent-Passes l.outside g.world name args k s)) (λ e. (Passes-none g.world))

tell-on :
    (l : Lua) (key : ℕ) (name : Text) (args : List Arg) (g : Game)
    → g.world.enabled key ≡ true
    → g.world.run_set ≡ true
    → tell l key name args g
      ≡ moved l g (after_answer g.world name args (l.outside.lua g.world name args))
unfolding tell
tell-on l key name args g e r = rw e (rw r refl)

-- What Lua is told of one command.
abbrev passed_of : Text → List Text
passed_of c = if texts_equal c reset_lua_command then [] else c ∷ []

to_pass-cons : (c : Text) (cs : List Text) → passed_of c ++ to_pass cs ≡ to_pass (c ∷ cs)
to_pass-cons c cs = elim (Bool-cases (texts_equal c reset_lua_command)) [
  | inl e ↦ rw e refl
  | inr e ↦ rw e refl
]

take_command-Passes :
    (l : Lua) (c : Text) (more : List Text) (g : Game)
    → KeepsOn l.outside
    → IsOn g.world
    → Passes (passed_of c) g.world (take_command l c more g).world
unfolding take_command
take_command-Passes l c more g k i =
    let name = codes "ConsoleInput" in
    let args = text c ∷ [] in
    let telling = tell l Keys.console_input name args g in
    Bool-split
      (λ b.
        Passes (if b then [] else c ∷ []) g.world
          (if b then force_reset more g else with_queue more telling).world)
      (texts_equal c reset_lua_command) (λ e. (Passes-none g.world))
      (λ e.
        (subst (λ h. Passes (c ∷ []) g.world h.world)
          (sym (tell-on l Keys.console_input name args g i.switched i.running))
          (answer-Passes l.outside g.world name args k)))

pub take_commands-Passes :
    (l : Lua) (cs : List Text) (g : Game)
    → KeepsOn l.outside
    → IsOn g.world
    → Passes (to_pass cs) g.world (take_commands l cs g).world
unfolding take_commands
take_commands-Passes l [] g k i = Passes-none g.world
take_commands-Passes l (c ∷ cs) g k i =
    let first = take_command-Passes l c cs g k i in
    subst (λ ts. Passes ts g.world (take_commands l cs (take_command l c cs g)).world)
      (to_pass-cons c cs)
      (Passes-then first (take_commands-Passes l cs (take_command l c cs g) k (first.on i)))
