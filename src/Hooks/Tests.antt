-- ===== src/Hooks/Tests.antt =====
-- RosaServer/hooks.cpp: the theorems at one Lua and one engine, and runs of replacements.
use rosa_server.Base.{◌≡◌, refl, true, false, List, [], ◌∷◌, ◌++◌, codes, Text, texts_equal}
use rosa_server.Base.Int.{pos}
use rosa_server.Hooks.Detours
use rosa_server.Hooks.World.{
  player, item, int, shared, enter, Arg, Happening, asked, error_printed, entered, World, Answer,
  Outcome, Outside, Detour,
}
use rosa_server.Hooks.Names.{disable, clear}
use rosa_server.Hooks.Standard.{standard}
use rosa_server.Hooks.Simulation
use rosa_server.Hooks.Server
use rosa_server.Hooks.Entities
use rosa_server.Hooks.Protocol.{Course, standard-Course}
use rosa_server.Hooks.Tables
use rosa_server.Hooks.Fresh.{IsFresh, makes_player, creating-IsFresh}
use rosa_server.Hooks.Switches.{EntersOnly, before, silent_off}

-- This Lua keeps traffic from being made, fails when it is asked of a reset, leaves the wrappers, and
-- stores a table for everything.
abbrev lua : World → Text → List Arg → Answer
lua w name args = record {
  failed = texts_equal name (codes "ResetGame");
  truthy = texts_equal name (codes "CreateTraffic");
  left_in = λ n v. v;
  enabled_after = w.enabled;
  tables_after = λ k n. true;
}

-- This engine gives back 3.
abbrev engine : World → Detour → List Arg → Outcome
engine w d args = record { value = pos 3; enabled_then = w.enabled; tables_then = w.has_table }

abbrev outside : Outside
outside = record { lua = lua; engine = engine }

abbrev all_on : World
all_on = record {
  enabled = λ k. true;
  run_set = true;
  removed = λ d. false;
  has_table = λ k n. true;
  in_bullet_simulation = false;
  happened = [];
}

standard-veto :
    (standard outside (Simulation.create_traffic (pos 5)) all_on).0.happened
    ≡ asked (codes "CreateTraffic") (shared (pos 5) ∷ []) ∷ []
unfolding standard
standard-veto = refl

standard-error :
    (standard outside (Server.hook_and_reset (pos 0)) all_on).0.happened
    ≡ asked (codes "ResetGame") (int (pos 0) ∷ [])
      ∷ error_printed
      ∷ entered Detours.reset_game [] true
      ∷ asked (codes "PostResetGame") (int (pos 0) ∷ [])
      ∷ []
unfolding standard enter
standard-error = refl

standard-Course_example :
    let h = Server.hook_and_reset (pos 0) in
    let r = standard outside h all_on in
    (f : List Happening) × (r.0.happened ≡ [] ++ f)
    × Course h all_on (lua all_on h.event h.args) r.1 f
    × ((e : Detour) → r.0.removed e ≡ false)
standard-Course_example = standard-Course outside (Server.hook_and_reset (pos 0)) all_on

IsReplacement-IsNamed_example : Tables.IsNamed Server.server_send
IsReplacement-IsNamed_example = Tables.IsReplacement-IsNamed Tables.server_send

silent_off_example :
    let h = Server.server_send in
    let after = [] ++ entered h.detour (h.call h.wrapped) true ∷ [] in
    EntersOnly outside h (record all_on { enabled = (disable all_on.enabled h.event).0 }) after
    × EntersOnly outside h (record all_on { enabled = clear all_on.enabled }) after
silent_off_example = silent_off outside all_on Tables.server_send before

made : (Entities.creating outside Entities.create_player player all_on).1 ≡ pos 3
unfolding Entities.creating enter
made = refl

creating-IsFresh_example :
    IsFresh outside Entities.create_player player 3
      (Entities.creating outside Entities.create_player player all_on).0
creating-IsFresh_example = creating-IsFresh outside all_on 3 makes_player made

made_item :
    (Entities.creating_item outside (Entities.create_item (pos 1) 10 11 12) item all_on).1 ≡ pos 3
unfolding Entities.creating_item enter
made_item = refl
