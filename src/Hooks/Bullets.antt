-- ===== src/Hooks/Bullets.antt =====
-- RosaServer/hooks.cpp: `bulletSimulation` and `lineIntersectLevel`, which the engine calls during it.
use rosa_server.Base.{
  ℕ, ◌-◌, ◌≡◌, refl, ap, ◌∙◌, true, false, ◌&&◌, List, [], ◌∷◌, ◌++◌, Text, codes, if◌then◌else◌,
  some, Bool-cases, inl, inr,
}
use mathlib.Core.List.{append_assoc}
use rosa_server.Base.Int.{ℤ, pos}
use rosa_server.Hooks.Keys
use rosa_server.Hooks.Detours
use rosa_server.Hooks.Names.{disable}
use rosa_server.Hooks.World.{
  Arg, int, ptr, Happening, asked, entered, error_printed, World, Outside, Answer, after_answer,
  enter,
}
use rosa_server.Hooks.Standard.{Hook, standard}
use rosa_server.Hooks.Protocol.{happened-enter}

-- What `standard` does between the two assignments of `bulletSimulation`.
abbrev pub physics_bullets : Hook
physics_bullets = record {
  key = Keys.physics_bullets;
  event = codes "PhysicsBullets";
  args = [];
  wrapped = [];
  detour = Detours.bullet_simulation;
  call = λ vs. [];
  post_event = codes "PostPhysicsBullets";
  post = λ result vs. some [];
  vetoed = pos 0;
}

unfoldable pub bullet_simulation : Outside → World → World
bullet_simulation o w =
    let w' = (standard o physics_bullets (record w { in_bullet_simulation = true })).0 in
    record w' { in_bullet_simulation = false }

-- `posA` lies 0x20 behind the start of the bullet.
abbrev pub bullet_of : ℕ → List Arg
bullet_of pos_a = ptr (pos_a - 32) ∷ []

abbrev pub ask_may_hit : Outside → ℕ → World → World
ask_may_hit o pos_a w =
    let name = codes "BulletMayHit" in
    if w.in_bullet_simulation && w.run_set
    then after_answer w name (bullet_of pos_a) (o.lua w name (bullet_of pos_a))
    else w

unfoldable pub line_intersect_level : Outside → ℕ → ℕ → ℤ → World → World × ℤ
line_intersect_level o pos_a pos_b unk w =
    enter o Detours.line_intersect_level (ptr pos_a ∷ ptr pos_b ∷ int unk ∷ [])
      (ask_may_hit o pos_a w)

happened-after_answer :
    (w : World) (name : Text) (args : List Arg) (a : Answer)
    → (e : List Happening) × ((after_answer w name args a).happened
        ≡ w.happened ++ asked name args ∷ e)
happened-after_answer w name args a = elim (Bool-cases a.failed) [
  | inl t ↦ rw t (error_printed ∷ [], refl)
  | inr t ↦ rw t ([], refl)
]

ask_may_hit-after_answer :
    (o : Outside) (pos_a : ℕ) (w : World)
    → w.in_bullet_simulation ≡ true
    → w.run_set ≡ true
    → let name = codes "BulletMayHit" in
      ask_may_hit o pos_a w ≡ after_answer w name (bullet_of pos_a) (o.lua w name (bullet_of pos_a))
ask_may_hit-after_answer o pos_a w b r = rw b (rw r refl)

-- A defect of `lineIntersectLevel`: during the simulation of bullets it asks Lua with "BulletMayHit"
-- even when that name has been switched off.
pub line_intersect_level_unswitched :
    (o : Outside) (pos_a pos_b : ℕ) (unk : ℤ) (w : World)
    → w.in_bullet_simulation ≡ true
    → w.run_set ≡ true
    → let off = record w { enabled = (disable w.enabled (codes "BulletMayHit")).0 } in
      (off.enabled Keys.bullet_may_hit ≡ false)
      × ((rest : List Happening) × ((line_intersect_level o pos_a pos_b unk off).0.happened
            ≡ w.happened ++ asked (codes "BulletMayHit") (bullet_of pos_a) ∷ rest))
unfolding line_intersect_level disable
line_intersect_level_unswitched o pos_a pos_b unk w b r =
    let off = record w { enabled = (disable w.enabled (codes "BulletMayHit")).0 } in
    let name = codes "BulletMayHit" in
    let (e, first) =
      happened-after_answer off name (bullet_of pos_a) (o.lua off name (bullet_of pos_a)) in
    let args = ptr pos_a ∷ ptr pos_b ∷ int unk ∷ [] in
    let call = entered Detours.line_intersect_level args true ∷ [] in
    (
      refl,
      (
        e ++ call,
        happened-enter o Detours.line_intersect_level args (ask_may_hit o pos_a off)
            ∙ ap (λ l. l ++ call)
                (ap (λ u. u.happened) (ask_may_hit-after_answer o pos_a off b r) ∙ first)
            ∙ append_assoc w.happened (asked (codes "BulletMayHit") (bullet_of pos_a) ∷ e) call,
      ),
    )
