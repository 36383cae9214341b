-- ===== src/Hooks/Fresh.antt =====
-- RosaServer/hooks.cpp: an entity never gets the data table of one that had its index before.
use rosa_server.Base.{
  ℕ, ◌≡◌, refl, sym, ◌∙◌, ◌≢◌, ◌⊎◌, inl, inr, Bool, true, false, Option, none, some, List,
  if◌then◌else◌, ==_self, Bool-cases,
}
use rosa_server.Base.Int.{ℤ, pos, negsuc}
use rosa_server.Hooks.World.{
  Kind, player, human, item, vehicle, Arg, World, Outside, after_answer, vetoes, enter,
}
use rosa_server.Hooks.Standard.{Hook, ask_post}
use rosa_server.Hooks.Entities

-- The replacements that make entities with data tables and that ask with an event.
pub data IsCreation : Hook → Kind → Type 0 where
  makes_player : IsCreation Entities.create_player player
  makes_human : (a b : ℕ) (c : ℤ) → IsCreation (Entities.create_human a b c) human
  makes_vehicle :
      (a : ℤ) (b c d : ℕ) (e : ℤ) → IsCreation (Entities.create_vehicle a b c d e) vehicle

-- The replacements that delete entities.
pub data IsDeletion : Hook → Kind → ℕ → Type 0 where
  deletes_player : (n : ℕ) → IsDeletion (Entities.delete_player n) player n
  deletes_human : (n : ℕ) → IsDeletion (Entities.delete_human n) human n
  deletes_item : (n : ℕ) → IsDeletion (Entities.delete_item n) item n
  deletes_vehicle : (n : ℕ) → IsDeletion (Entities.delete_vehicle n) vehicle n

-- Element n of an array has no table in w, or one that the handler of the event made, which ran
-- last and found none.
pub data IsFresh (o : Outside) (h : Hook) (k : Kind) (n : ℕ) (w : World) : Type 0 where
  without_table : w.has_table k n ≡ false → IsFresh o h k n w
  by_handler :
      (before : World) (args : List Arg)
      → before.has_table k n ≡ false
      → w ≡ after_answer before h.post_event args (o.lua before h.post_event args)
      → IsFresh o h k n w

has_table-forget :
    (k : Kind) (n : ℕ) (w : World)
    → Entities.same_kind k k ≡ true
    → (Entities.forget k n w).has_table k n ≡ false
has_table-forget k n w h = rw h (rw (==_self n) refl)

IsFresh-ask_post :
    (o : Outside) (h : Hook) (k : Kind) (n : ℕ) (w : World) (p : Option (List Arg))
    → w.has_table k n ≡ false
    → IsFresh o h k n (ask_post o h.post_event p w)
IsFresh-ask_post o h k n w none e = without_table e
IsFresh-ask_post o h k n w (some args) e = elim (Bool-cases w.run_set) [
  | inl r ↦ rw r (by_handler w args e (rw r refl))
  | inr r ↦ rw r (without_table e)
]

if-cases {ℓ ℓ'} :
    {A : Type ℓ} (P : A → Type ℓ') (b : Bool) (x y : A)
    → (b ≡ true → P x)
    → (b ≡ false → P y)
    → P (if b then x else y)
if-cases P true x y f g = f refl
if-cases P false x y f g = g refl

framed-cases :
    (o : Outside) (h : Hook) (go : List ℤ → World → World × ℤ) (plain : World → World × ℤ)
    (w : World) (P : World × ℤ → Type 0)
    → ((vs : List ℤ) (u : World) → P (go vs u))
    → ((u : World) → P (plain u))
    → (w.enabled h.key ≡ true
        → w.run_set ≡ true
        → vetoes (o.lua w h.event h.args) ≡ true
        → P (after_answer w h.event h.args (o.lua w h.event h.args), h.vetoed))
    → P (Entities.framed o h go plain w)
framed-cases o h go plain w P on_go on_plain on_veto =
    if-cases P (w.enabled h.key) _ _
      (λ on.
        if-cases P w.run_set _ _
          (λ r. if-cases P (vetoes (o.lua w h.event h.args)) _ _ (on_veto on r) (λ t. on_go _ _))
          (λ r. on_go _ _))
      (λ off. on_plain w)

forget_made-fresh :
    (k : Kind) (n : ℕ) (id : ℤ) (w : World)
    → Entities.same_kind k k ≡ true
    → id ≡ pos n
    → (Entities.forget_made k id w).has_table k n ≡ false
forget_made-fresh k n id w h e = rw e (has_table-forget k n w h)

pos≢negsuc : {n m : ℕ} → pos n ≢ negsuc m
pos≢negsuc e = cc

IsFresh-creating :
    (o : Outside) (h : Hook) (k : Kind) (w : World) (n : ℕ)
    → Entities.same_kind k k ≡ true
    → h.vetoed ≡ negsuc 0
    → (Entities.creating o h k w).1 ≡ pos n
    → IsFresh o h k n (Entities.creating o h k w).0
unfolding Entities.creating
IsFresh-creating o h k w n same vetoed =
    framed-cases o h (Entities.make_and_tell o h k) (Entities.make o h k h.wrapped) w
      (λ r. r.1 ≡ pos n → IsFresh o h k n r.0)
      (λ vs u e.
        let made = Entities.make o h k vs u in
        IsFresh-ask_post o h k n made.0 (h.post made.1 vs)
          (forget_made-fresh k n _ (enter o h.detour (h.call vs) u).0 same e))
      (λ u e.
        without_table (forget_made-fresh k n _ (enter o h.detour (h.call h.wrapped) u).0 same e))
      (λ on r t e. elim (pos≢negsuc (sym e ∙ vetoed)) [ ])

-- A player, human or vehicle is made without a data table, whether Lua is asked or not: none is left
-- from an entity that had its index before, and the only table that it can have when the replacement
-- returns is one that the handler of the event behind made.
pub creating-IsFresh :
    (o : Outside) {h : Hook} {k : Kind} (w : World) (n : ℕ)
    → IsCreation h k
    → (Entities.creating o h k w).1 ≡ pos n
    → IsFresh o h k n (Entities.creating o h k w).0
creating-IsFresh o w n makes_player = IsFresh-creating o Entities.create_player player w n refl refl
creating-IsFresh o w n (makes_human a b c) =
    IsFresh-creating o (Entities.create_human a b c) human w n refl refl
creating-IsFresh o w n (makes_vehicle a b c d e) =
    IsFresh-creating o (Entities.create_vehicle a b c d e) vehicle w n refl refl

-- An item that is made has no data table when the replacement returns, whatever the handler of the
-- event behind did: a table that the handler made for it is thrown away.
pub creating_item-drops_table :
    (o : Outside) (type : ℤ) (position velocity rotation n : ℕ) (w : World)
    → let r =
        Entities.creating_item o (Entities.create_item type position velocity rotation) item w in
      r.1 ≡ pos n → r.0.has_table item n ≡ false
unfolding Entities.creating_item
creating_item-drops_table o type position velocity rotation n w =
    let h = Entities.create_item type position velocity rotation in
    framed-cases o h (Entities.tell_and_forget o h item) (Entities.make o h item h.wrapped) w
      (λ r. r.1 ≡ pos n → r.0.has_table item n ≡ false)
      (λ vs u e. forget_made-fresh item n _ _ refl e) (λ u e. forget_made-fresh item n _ _ refl e)
      (λ on r t e. elim (pos≢negsuc (sym e)) [ ])

no_table-deleting :
    (o : Outside) (h : Hook) (k : Kind) (n : ℕ) (w : World)
    → Entities.same_kind k k ≡ true
    → (vetoes (o.lua w h.event h.args) ≡ true)
      ⊎ ((Entities.deleting o h k n w).0.has_table k n ≡ false)
unfolding Entities.deleting
no_table-deleting o h k n w same =
    framed-cases o h (Entities.remove_and_tell o h k n) (Entities.remove o h k n h.wrapped) w
      (λ r. (vetoes (o.lua w h.event h.args) ≡ true) ⊎ (r.0.has_table k n ≡ false))
      (λ vs u.
        let out = enter o h.detour (h.call vs) u in
        inr (has_table-forget k n (ask_post o h.post_event (h.post out.1 vs) out.0) same))
      (λ u. inr (has_table-forget k n (enter o h.detour (h.call h.wrapped) u).0 same))
      (λ on r t. inl t)

-- A player, human, item or vehicle that is deleted has no data table afterwards, whatever the
-- handler of the event behind did, unless Lua kept it from being deleted.
pub deleting-drops_table :
    (o : Outside) {h : Hook} {k : Kind} {n : ℕ} (w : World)
    → IsDeletion h k n
    → (vetoes (o.lua w h.event h.args) ≡ true)
      ⊎ ((Entities.deleting o h k n w).0.has_table k n ≡ false)
deleting-drops_table o w (deletes_player n) =
    no_table-deleting o (Entities.delete_player n) player n w refl
deleting-drops_table o w (deletes_human n) =
    no_table-deleting o (Entities.delete_human n) human n w refl
deleting-drops_table o w (deletes_item n) =
    no_table-deleting o (Entities.delete_item n) item n w refl
deleting-drops_table o w (deletes_vehicle n) =
    no_table-deleting o (Entities.delete_vehicle n) vehicle n w refl
