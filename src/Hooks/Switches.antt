-- ===== src/Hooks/Switches.antt =====
-- RosaServer/api.cpp, namespace `hook`, with RosaServer/hooks.cpp: what switching a name on or off
-- does to the replacements.
use rosa_server.Base.{
  ℕ, ◌≡◌, refl, sym, ap, ◌∙◌, ◌≢◌, inl, inr, Bool, true, false, Option, none, some, List, [], ◌∷◌,
  ◌++◌, ◌==◌, ==_self, ==→eq, Bool-cases, Text, ltb,
}
use rosa_server.Hooks.Names.{
  EnabledKeys, find, enable_names, has_post_prefix, without_post_prefix, assign, switch, enable,
  disable, clear,
}
use rosa_server.Hooks.Keys
use rosa_server.Hooks.World.{Kind, Happening, enter, Arg, World, Outside, entered}
use rosa_server.Base.Int.{ℤ, pos, negsuc}
use rosa_server.Hooks.Standard.{Hook, standard}
use rosa_server.Hooks.Entities
use rosa_server.Hooks.Protocol.{happened-enter}
use rosa_server.Hooks.Tables.{IsReplacement, IsReplacement-IsNamed}

-- A name that Lua may give for the switch of h: that of its event, or of the event behind it.
pub data Names (h : Hook) : Text → Type 0 where
  before : Names h h.event
  behind : {r : _} {vs : _} {args : _} → h.post r vs ≡ some args → Names h h.post_event

without-plain : (name : Text) → has_post_prefix name ≡ false → without_post_prefix name ≡ name
without-plain name e = rw e refl

none≢some : {args : List Arg} → none ≢ some args
none≢some e = cc

find-Names :
    {h : Hook} {name : Text}
    → IsReplacement h
    → Names h name
    → find enable_names (without_post_prefix name) ≡ some h.key
find-Names {h = h} r before =
    let named = IsReplacement-IsNamed r in
    ap (λ n. find enable_names n) (without-plain h.event named.plain) ∙ named.by_event
find-Names r (behind {r = result} {vs = vs} e) = elim (IsReplacement-IsNamed r).by_post_event [
  | inl no_event ↦ elim (none≢some (sym (no_event result vs) ∙ e)) [ ]
  | inr found ↦ found
]

-- Key k was set to b, and no other was changed.
pub record IsSwitched (keys : EnabledKeys) (k : ℕ) (b : Bool) (after : EnabledKeys) : Type 0 where
  pub at_key : after k ≡ b
  pub elsewhere : (j : ℕ) → k ≢ j → after j ≡ keys j

assign-IsSwitched : (keys : EnabledKeys) (k : ℕ) (b : Bool) → IsSwitched keys k b (assign keys k b)
assign-IsSwitched keys k b = record {
  at_key = rw (==_self k) refl;
  elsewhere =
      λ j n. elim (Bool-cases (k == j)) [ inl e ↦ elim (n (==→eq k j e)) [ ] | inr e ↦ rw e refl ];
}

switch-IsSwitched :
    (keys : EnabledKeys) (b : Bool) (k : ℕ) (o : Option ℕ)
    → o ≡ some k
    → ((switch b keys o).1 ≡ true) × IsSwitched keys k b (switch b keys o).0
switch-IsSwitched keys b k o e = rw e (refl, assign-IsSwitched keys k b)

-- Switching a replacement on or off by the name of its event, or of its event behind, gives back
-- true and sets its key, and no other.
pub switch-Names :
    {h : Hook} {name : Text} (keys : EnabledKeys)
    → IsReplacement h
    → Names h name
    → ((enable keys name).1 ≡ true)
      × IsSwitched keys h.key true (enable keys name).0
      × ((disable keys name).1 ≡ true)
      × IsSwitched keys h.key false (disable keys name).0
unfolding enable disable
switch-Names {h = h} keys r n =
    let on = switch-IsSwitched keys true h.key _ (find-Names r n) in
    let off = switch-IsSwitched keys false h.key _ (find-Names r n) in (on.0, on.1, off.0, off.1)

happened-standard_off :
    (o : Outside) (h : Hook) (w : World)
    → w.enabled h.key ≡ false
    → (standard o h w).0.happened ≡ w.happened ++ entered h.detour (h.call h.wrapped) true ∷ []
unfolding standard
happened-standard_off o h w e = rw e (happened-enter o h.detour (h.call h.wrapped) w)

clear-in_range : (h : Hook) (w : World) → ltb h.key Keys.size ≡ true → clear w.enabled h.key ≡ false
unfolding clear
clear-in_range h w e = rw e refl

happened-forget_made :
    (k : Kind) (id : ℤ) (w : World) → (Entities.forget_made k id w).happened ≡ w.happened
happened-forget_made k (pos n) w = refl
happened-forget_made k (negsuc n) w = refl

-- The replacement h enters the engine once, with the arguments that it was given, and does nothing
-- else that can be seen: in the common shape, and in those that make or delete an entity.
pub record EntersOnly (o : Outside) (h : Hook) (w : World) (after : List Happening) : Type 0 where
  pub common : (standard o h w).0.happened ≡ after
  pub making : (k : Kind) → (Entities.creating o h k w).0.happened ≡ after
  pub making_item : (k : Kind) → (Entities.creating_item o h k w).0.happened ≡ after
  pub removing : (k : Kind) (n : ℕ) → (Entities.deleting o h k n w).0.happened ≡ after

EntersOnly-off :
    (o : Outside) (h : Hook) (w : World)
    → w.enabled h.key ≡ false
    → EntersOnly o h w (w.happened ++ entered h.detour (h.call h.wrapped) true ∷ [])
unfolding Entities.creating Entities.creating_item Entities.deleting
EntersOnly-off o h w e =
    let call = h.call h.wrapped in
    let once = happened-enter o h.detour call w in
    let out = enter o h.detour call w in
    record {
      common = happened-standard_off o h w e;
      making = λ k. rw e (happened-forget_made k out.1 out.0 ∙ once);
      making_item = λ k. rw e (happened-forget_made k out.1 out.0 ∙ once);
      removing = λ k n. rw e once;
    }

-- A replacement of those that `IsReplacement` lists (of the common shape, or one that makes or deletes an
-- entity) only enters the engine, with the arguments that it was given, when a name of its own events has
-- been switched off, and after `clear`: it does not ask Lua. Of the replacements that are not listed
-- nothing is said; of these, `lineIntersectLevel` asks whatever is switched.
pub silent_off :
    (o : Outside) {h : Hook} {name : Text} (w : World)
    → IsReplacement h
    → Names h name
    → let after = w.happened ++ entered h.detour (h.call h.wrapped) true ∷ [] in
      EntersOnly o h (record w { enabled = (disable w.enabled name).0 }) after
      × EntersOnly o h (record w { enabled = clear w.enabled }) after
silent_off o {h = h} {name = name} w r n = (
  EntersOnly-off o h (record w { enabled = (disable w.enabled name).0 })
      (switch-Names w.enabled r n).3.at_key,
  EntersOnly-off o h (record w { enabled = clear w.enabled })
      (clear-in_range h w (IsReplacement-IsNamed r).in_range),
)
