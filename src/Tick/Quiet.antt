-- ===== src/Tick/Quiet.antt =====
-- RosaServer/hooks.cpp: which commands Lua is told of, and what leaves them alone.
use rosa_server.Base.{
  ◌≡◌, refl, sym, ap, subst, ◌∙◌, inl, inr, true, false, List, [], ◌∷◌, ◌++◌, append_assoc,
  append_nil, Option, none, some, Text, codes, texts_equal, if◌then◌else◌, Bool-cases, Bool-split,
}
use rosa_server.Base.Int.{ℤ}
use rosa_server.Hooks.Keys
use rosa_server.Hooks.World.{
  Arg, text, World, Answer, Outside, Happening, asked, error_printed, entered, Detour, after_answer,
  enter, vetoes, left, put_removed,
}
use rosa_server.Hooks.Standard.{Hook, standard, ask_post, go_on, asked_first}

-- The command that a call of Lua is about, if it is one.
abbrev pub told_command : List Arg → List Text
told_command (text t ∷ []) = t ∷ []
told_command args = []

abbrev pub told : Happening → List Text
told (asked name args) = if texts_equal name (codes "ConsoleInput") then told_command args else []
told error_printed = []
told (entered d args b) = []

-- The commands that Lua was told of, in order.
abbrev pub passed : List Happening → List Text
passed [] = []
passed (h ∷ hs) = told h ++ passed hs

pub passed-append : (hs ks : List Happening) → passed (hs ++ ks) ≡ passed hs ++ passed ks
passed-append [] ks = refl
passed-append (h ∷ hs) ks =
    ap (λ ts. told h ++ ts) (passed-append hs ks)
    ∙ sym (append_assoc (told h) (passed hs) (passed ks))

-- Lua is told of commands.
pub record IsOn (w : World) : Type 0 where
  pub switched : w.enabled Keys.console_input ≡ true
  pub running : w.run_set ≡ true

-- Neither Lua nor the engine switches ConsoleInput off.
pub record KeepsOn (o : Outside) : Type 0 where
  pub by_lua :
      (w : World) (name : Text) (args : List Arg)
      → w.enabled Keys.console_input ≡ true
      → (o.lua w name args).enabled_after Keys.console_input ≡ true
  pub by_engine :
      (w : World) (d : Detour) (args : List Arg)
      → w.enabled Keys.console_input ≡ true
      → (o.engine w d args).enabled_then Keys.console_input ≡ true

-- From one world to another, Lua was told of these commands.
pub record Passes (ts : List Text) (v w : World) : Type 0 where
  pub on : IsOn v → IsOn w
  pub more_passed : passed w.happened ≡ passed v.happened ++ ts

pub Passes-none : (w : World) → Passes [] w w
Passes-none w = record { on = λ i. i; more_passed = sym (append_nil (passed w.happened)) }

pub Passes-then :
    {ts us : List Text} {u v w : World} → Passes ts u v → Passes us v w → Passes (ts ++ us) u w
Passes-then {ts} {us} {u} p q = record {
  on = λ i. q.on (p.on i);
  more_passed =
      q.more_passed ∙ ap (λ xs. xs ++ us) p.more_passed ∙ append_assoc (passed u.happened) ts us;
}

pub happened_more :
    (v : World) (hs : List Happening) (w : World)
    → w.happened ≡ v.happened ++ hs
    → passed w.happened ≡ passed v.happened ++ passed hs
happened_more v hs w e = ap passed e ∙ passed-append v.happened hs

answer_happened :
    (w : World) (name : Text) (args : List Arg) (a : Answer)
    → passed (after_answer w name args a).happened ≡ passed w.happened ++ told (asked name args)
answer_happened w name args a = elim (Bool-cases a.failed) [
  | inl e ↦
      ap
        (λ b. passed (
          if b
          then w.happened ++ (asked name args ∷ error_printed ∷ [])
          else w.happened ++ asked name args ∷ []))
        e
      ∙ passed-append w.happened (asked name args ∷ error_printed ∷ [])
      ∙ ap (λ ts. passed w.happened ++ ts) (append_nil (told (asked name args)))
  | inr e ↦
      ap
        (λ b. passed (
          if b
          then w.happened ++ (asked name args ∷ error_printed ∷ [])
          else w.happened ++ asked name args ∷ []))
        e
      ∙ passed-append w.happened (asked name args ∷ [])
      ∙ ap (λ ts. passed w.happened ++ ts) (append_nil (told (asked name args)))
]

pub answer-Passes :
    (o : Outside) (w : World) (name : Text) (args : List Arg)
    → KeepsOn o
    → Passes (told (asked name args)) w (after_answer w name args (o.lua w name args))
answer-Passes o w name args k = record {
  on = λ i. record { switched = k.by_lua w name args i.switched; running = i.running };
  more_passed = answer_happened w name args (o.lua w name args);
}

-- The world that the engine is entered in.
abbrev inside : Detour → List Arg → World → World
inside d args w = record w {
  removed = put_removed d true w.removed;
  happened = w.happened ++ entered d args (put_removed d true w.removed d) ∷ [];
}

pub enter-Passes :
    (o : Outside) (d : Detour) (args : List Arg) (w : World)
    → KeepsOn o
    → Passes [] w (enter o d args w).0
unfolding enter
enter-Passes o d args w k = record {
  on = λ i. record {
    switched = k.by_engine (inside d args w) d args i.switched;
    running = i.running;
  };
  more_passed = passed-append w.happened (entered d args (put_removed d true w.removed d) ∷ []);
}

-- The events of a replacement are no commands.
pub record IsSilent (h : Hook) : Type 0 where
  pub event_silent : texts_equal h.event (codes "ConsoleInput") ≡ false
  pub post_silent : texts_equal h.post_event (codes "ConsoleInput") ≡ false

told_none :
    (name : Text) (args : List Arg)
    → texts_equal name (codes "ConsoleInput") ≡ false
    → told (asked name args) ≡ []
told_none name args e = ap (λ b. if b then told_command args else []) e

pub silent-Passes :
    (o : Outside) (w : World) (name : Text) (args : List Arg)
    → KeepsOn o
    → texts_equal name (codes "ConsoleInput") ≡ false
    → Passes [] w (after_answer w name args (o.lua w name args))
silent-Passes o w name args k e =
    subst (λ ts. Passes ts w (after_answer w name args (o.lua w name args))) (told_none name args e)
      (answer-Passes o w name args k)

ask_post-Passes :
    (o : Outside) (name : Text) (args : Option (List Arg)) (w : World)
    → KeepsOn o
    → texts_equal name (codes "ConsoleInput") ≡ false
    → Passes [] w (ask_post o name args w)
ask_post-Passes o name none w k e = Passes-none w
ask_post-Passes o name (some args) w k e =
    Bool-split (λ b. Passes [] w (if b then after_answer w name args (o.lua w name args) else w))
      w.run_set (λ r. (silent-Passes o w name args k e)) (λ r. (Passes-none w))

go_on-Passes :
    (o : Outside) (h : Hook) (values : List ℤ) (w : World)
    → KeepsOn o
    → IsSilent h
    → Passes [] w (go_on o h values w).0
go_on-Passes o h values w k s =
    let (v, result) = enter o h.detour (h.call values) w in
    Passes-then (enter-Passes o h.detour (h.call values) w k)
      (ask_post-Passes o h.post_event (h.post result values) v k s.post_silent)

asked_first-Passes :
    (o : Outside) (h : Hook) (w : World)
    → KeepsOn o
    → IsSilent h
    → Passes [] w (asked_first o h w (o.lua w h.event h.args)).0
asked_first-Passes o h w k s =
    let a = o.lua w h.event h.args in
    let v = after_answer w h.event h.args a in
    let values = left a 0 h.wrapped in
    let p = silent-Passes o w h.event h.args k s.event_silent in
    Bool-split (λ b. Passes [] w (if b then (v, h.vetoed) else go_on o h values v).0) (vetoes a)
      (λ e. p) (λ e. (Passes-then p (go_on-Passes o h values v k s)))

-- A replacement of the common shape tells Lua of no command, if its events are other ones.
pub standard-Passes :
    (o : Outside) (h : Hook) (w : World) → KeepsOn o → IsSilent h → Passes [] w (standard o h w).0
unfolding standard
standard-Passes o h w k s =
    let asking = asked_first o h w (o.lua w h.event h.args) in
    let going = go_on o h h.wrapped w in
    let entering = enter o h.detour (h.call h.wrapped) w in
    Bool-split (λ b. Passes [] w (if b then (if w.run_set then asking else going) else entering).0)
      (w.enabled h.key)
      (λ e.
        (Bool-split (λ b. Passes [] w (if b then asking else going).0) w.run_set
          (λ r. (asked_first-Passes o h w k s)) (λ r. (go_on-Passes o h h.wrapped w k s))))
      (λ e. (enter-Passes o h.detour (h.call h.wrapped) w k))
