-- ===== src/Hooks/Standard.antt =====
-- RosaServer/hooks.cpp: the shape that most of the replacements have.
use rosa_server.Base.{Text, ℕ, Option, none, some, List, if◌then◌else◌}
use rosa_server.Base.Int.{ℤ}
use rosa_server.Hooks.World.{Arg, World, Answer, Outside, Detour, after_answer, vetoes, left, enter}

-- One call of a replacement: its switch, the event and its arguments, the values of the wrappers
-- that Lua can reach, the detour and the engine's arguments by those values, the event behind and
-- its arguments by the engine's result and those values (or no such event), and what the
-- replacement returns if Lua keeps the engine from being called.
pub record Hook : Type 0 where
  pub key : ℕ
  pub event : Text
  pub args : List Arg
  pub wrapped : List ℤ
  pub detour : Detour
  pub call : List ℤ → List Arg
  pub post_event : Text
  pub post : ℤ → List ℤ → Option (List Arg)
  pub vetoed : ℤ

-- `if (run != sol::nil) { auto res = run("Post…", …); noLuaCallError(&res); }`
abbrev pub ask_post : Outside → Text → Option (List Arg) → World → World
ask_post o name none w = w
ask_post o name (some args) w =
    if w.run_set then after_answer w name args (o.lua w name args) else w

-- The call of the engine and of the event behind it.
abbrev pub go_on : Outside → Hook → List ℤ → World → World × ℤ
go_on o h values w =
    let (w', result) = enter o h.detour (h.call values) w in
    (ask_post o h.post_event (h.post result values) w', result)

abbrev pub asked_first : Outside → Hook → World → Answer → World × ℤ
asked_first o h w a =
    let w' = after_answer w h.event h.args a in
    if vetoes a then (w', h.vetoed) else go_on o h (left a 0 h.wrapped) w'

unfoldable pub standard : Outside → Hook → World → World × ℤ
standard o h w =
    if w.enabled h.key
    then (if w.run_set then asked_first o h w (o.lua w h.event h.args) else go_on o h h.wrapped w)
    else enter o h.detour (h.call h.wrapped) w
