-- ===== src/Hooks/Protocol.antt =====
-- RosaServer/hooks.cpp: what a replacement of the common shape makes happen, whatever Lua and the
-- engine answer.
use rosa_server.Base.{
  Text, ◌≡◌, refl, sym, ap, subst, ◌∙◌, inl, inr, Bool, true, false, Option, none, some, List, [],
  ◌∷◌, ◌++◌, if◌then◌else◌, ◌==◌, ==→eq, ==_self, Bool-cases, ◌⊎◌, arith,
}
use mathlib.Core.List.{append-nil, append_assoc}
use rosa_server.Base.Int.{ℤ}
use rosa_server.Hooks.World.{
  Arg, Happening, asked, error_printed, entered, World, Answer, Outside, Detour, after_answer,
  vetoes, left, enter,
}
use rosa_server.Hooks.Standard.{Hook, ask_post, go_on, asked_first, standard}

-- The call of `run` with an error, if it had one.
abbrev pub question : Hook → Answer → List Happening
question h a =
    if a.failed then asked h.event h.args ∷ error_printed ∷ [] else asked h.event h.args ∷ []

-- What happens behind the engine's call: the event with its arguments by the result of that call
-- and the values of the wrappers, or nothing if there is no such event.
pub data Followed (h : Hook) (result : ℤ) (vs : List ℤ) : List Happening → Type 0 where
  silent : h.post result vs ≡ none → Followed h result vs []
  told :
      {args : List Arg}
      → h.post result vs ≡ some args
      → Followed h result vs (asked h.post_event args ∷ [])
  failed_told :
      {args : List Arg}
      → h.post result vs ≡ some args
      → Followed h result vs (asked h.post_event args ∷ error_printed ∷ [])

-- All that a replacement can make happen, by its switch, `run` and Lua's answer.
pub data Course (h : Hook) (w : World) (a : Answer) (result : ℤ) : List Happening → Type 0 where
  switched_off :
      w.enabled h.key ≡ false → Course h w a result (entered h.detour (h.call h.wrapped) true ∷ [])
  unheard :
      w.enabled h.key ≡ true
      → w.run_set ≡ false
      → Course h w a result (entered h.detour (h.call h.wrapped) true ∷ [])
  refused :
      w.enabled h.key ≡ true
      → w.run_set ≡ true
      → a.failed ≡ false
      → a.truthy ≡ true
      → result ≡ h.vetoed
      → Course h w a result (question h a)
  allowed :
      {f : List Happening}
      → w.enabled h.key ≡ true
      → w.run_set ≡ true
      → (a.failed ≡ true) ⊎ (a.truthy ≡ false)
      → Followed h result (left a 0 h.wrapped) f
      → Course h w a result
          (question h a ++ entered h.detour (h.call (left a 0 h.wrapped)) true ∷ f)

-- What is known of a part of a run: what it appends, and that it leaves the detours as they were.
abbrev Runs : World → World → (List Happening → Type 0) → Type 0
Runs w w' P =
    (f : List Happening) × (w'.happened ≡ w.happened ++ f)
    × P f
    × ((e : Detour) → w'.removed e ≡ w.removed e)

removed-enter :
    (o : Outside) (d e : Detour) (args : List Arg) (w : World)
    → (enter o d args w).0.removed e ≡ w.removed e
unfolding enter
removed-enter o d e args w = elim (Bool-cases (d == e)) [
  | inl t ↦ rw t (ap w.removed (==→eq d e t))
  | inr t ↦ rw t refl
]

-- The call of `run` with an event that failed or did not.
happened-after_answer :
    (h : Hook) (w : World) (a : Answer)
    → (after_answer w h.event h.args a).happened ≡ w.happened ++ question h a
happened-after_answer h w a = elim (Bool-cases a.failed) [ inl t ↦ rw t refl | inr t ↦ rw t refl ]

ask_post-set :
    (o : Outside) (name : Text) (w : World) (args : List Arg)
    → w.run_set ≡ true
    → ask_post o name (some args) w ≡ after_answer w name args (o.lua w name args)
ask_post-set o name w args r = rw r refl

ask_post-unset :
    (o : Outside) (name : Text) (w : World) (p : Option (List Arg))
    → w.run_set ≡ false
    → ask_post o name p w ≡ w
ask_post-unset o name w none r = refl
ask_post-unset o name w (some args) r = rw r refl

run_set-enter :
    (o : Outside) (d : Detour) (args : List Arg) (w : World)
    → (enter o d args w).0.run_set ≡ w.run_set
unfolding enter
run_set-enter o d args w = refl

pub happened-enter :
    (o : Outside) (d : Detour) (args : List Arg) (w : World)
    → (enter o d args w).0.happened ≡ w.happened ++ entered d args true ∷ []
unfolding enter
happened-enter o d args w =
    ap (λ b. w.happened ++ entered d args (if b then true else w.removed d) ∷ []) (==_self d)

after_answer-Runs :
    (h : Hook) (w : World) (a : Answer) (result : ℤ) (vs : List ℤ) (args : List Arg)
    → h.post result vs ≡ some args
    → Runs w (after_answer w h.post_event args a) (Followed h result vs)
after_answer-Runs h w a result vs args q = elim (Bool-cases a.failed) [
  | inl t ↦ rw t (_, refl, failed_told q, λ e. refl)
  | inr t ↦ rw t (_, refl, told q, λ e. refl)
]

ask_post-Runs :
    (o : Outside) (h : Hook) (w : World) (result : ℤ) (vs : List ℤ) (p : Option (List Arg))
    → h.post result vs ≡ p
    → w.run_set ≡ true
    → Runs w (ask_post o h.post_event p w) (Followed h result vs)
ask_post-Runs o h w result vs none q r = ([], sym (append-nil w.happened), silent q, λ e. refl)
ask_post-Runs o h w result vs (some args) q r =
    subst (λ u. Runs w u (Followed h result vs)) (sym (ask_post-set o h.post_event w args r))
      (after_answer-Runs h w (o.lua w h.post_event args) result vs args q)

go_on-Runs :
    (o : Outside) (h : Hook) (vs : List ℤ) (w : World)
    → w.run_set ≡ true
    → let r = go_on o h vs w in
      (f : List Happening) × (r.0.happened ≡ w.happened ++ entered h.detour (h.call vs) true ∷ f)
      × Followed h r.1 vs f
      × ((e : Detour) → r.0.removed e ≡ w.removed e)
go_on-Runs o h vs w r =
    let out = enter o h.detour (h.call vs) w in
    let (f, eq, followed, kept) =
      ask_post-Runs o h out.0 out.1 vs (h.post out.1 vs) refl
        (run_set-enter o h.detour (h.call vs) w ∙ r) in
    (
      f,
      eq ∙ ap (λ l. l ++ f) (happened-enter o h.detour (h.call vs) w) ∙ append_assoc w.happened _ f,
      followed,
      λ e. kept e ∙ removed-enter o h.detour e (h.call vs) w,
    )

vetoes-answered : (a : Answer) → vetoes a ≡ true → (a.failed ≡ false) × (a.truthy ≡ true)
vetoes-answered a e = ground arith

vetoes-not : (a : Answer) → vetoes a ≡ false → (a.failed ≡ true) ⊎ (a.truthy ≡ false)
vetoes-not a e = ground arith

asked_first-Course :
    (o : Outside) (h : Hook) (w : World) (a : Answer)
    → w.enabled h.key ≡ true
    → w.run_set ≡ true
    → let r = asked_first o h w a in Runs w r.0 (Course h w a r.1)
asked_first-Course o h w a on r = elim (Bool-cases (vetoes a)) [
  | inl t ↦ rw t (
    question h a,
    happened-after_answer h w a,
    refused on r (vetoes-answered a t).0 (vetoes-answered a t).1 refl,
    λ e. refl,
  )
  | inr t ↦ rw t (
      let call = entered h.detour (h.call (left a 0 h.wrapped)) true in
      let (f, eq, followed, kept) =
        go_on-Runs o h (left a 0 h.wrapped) (after_answer w h.event h.args a) r in
      (
        question h a ++ call ∷ f,
        eq
            ∙ ap (λ l. l ++ call ∷ f) (happened-after_answer h w a)
            ∙ append_assoc w.happened (question h a) (call ∷ f),
        allowed on r (vetoes-not a t) followed,
        kept,
      ))
]

if_true {ℓ} : {A : Type ℓ} (b : Bool) (x y : A) → b ≡ true → (if b then x else y) ≡ x
if_true b x y t = rw t refl

asked-Course :
    (o : Outside) (h : Hook) (w : World) (a : Answer)
    → w.enabled h.key ≡ true
    → w.run_set ≡ true
    → let r = if w.run_set then asked_first o h w a else go_on o h h.wrapped w in
      Runs w r.0 (Course h w a r.1)
asked-Course o h w a on r =
    subst (λ c. Runs w c.0 (Course h w a c.1))
      (sym (if_true w.run_set (asked_first o h w a) (go_on o h h.wrapped w) r))
      (asked_first-Course o h w a on r)

quiet-Course :
    (o : Outside) (h : Hook) (w : World) (a : Answer)
    → w.enabled h.key ≡ true
    → w.run_set ≡ false
    → let r = go_on o h h.wrapped w in Runs w r.0 (Course h w a r.1)
quiet-Course o h w a on r =
    let out = enter o h.detour (h.call h.wrapped) w in
    let unset =
      ask_post-unset o h.post_event out.0 (h.post out.1 h.wrapped)
        (run_set-enter o h.detour (h.call h.wrapped) w ∙ r) in
    (
      _,
      ap (λ u. u.happened) unset ∙ happened-enter o h.detour (h.call h.wrapped) w,
      unheard on r,
      λ e. ap (λ u. u.removed e) unset ∙ removed-enter o h.detour e (h.call h.wrapped) w,
    )

if_false {ℓ} : {A : Type ℓ} (b : Bool) (x y : A) → b ≡ false → (if b then x else y) ≡ y
if_false b x y t = rw t refl

unheard-Course :
    (o : Outside) (h : Hook) (w : World) (a : Answer)
    → w.enabled h.key ≡ true
    → w.run_set ≡ false
    → let r = if w.run_set then asked_first o h w a else go_on o h h.wrapped w in
      Runs w r.0 (Course h w a r.1)
unheard-Course o h w a on r =
    subst (λ c. Runs w c.0 (Course h w a c.1))
      (sym (if_false w.run_set (asked_first o h w a) (go_on o h h.wrapped w) r))
      (quiet-Course o h w a on r)

-- Every call of a replacement of the common shape takes one of the courses. Switched off, it
-- enters the engine once, with the arguments that it was given, and asks nothing; so it does if
-- there is no `run`. Otherwise it asks Lua first; it does not enter the engine exactly if Lua
-- answers, without an error, with a true value, and then returns its own value; else it enters the
-- engine once, with the values that Lua left in the wrappers, and asks with the event behind, if
-- it has one. When the engine is entered, the detour is taken out, and in the end every detour is
-- as it was.
pub standard-Course :
    (o : Outside) (h : Hook) (w : World)
    → let r = standard o h w in
      (f : List Happening) × (r.0.happened ≡ w.happened ++ f)
      × Course h w (o.lua w h.event h.args) r.1 f
      × ((e : Detour) → r.0.removed e ≡ w.removed e)
unfolding standard
standard-Course o h w = elim (Bool-cases (w.enabled h.key)) [
  | inl on ↦ elim (Bool-cases w.run_set) [
    | inl r ↦ rw on (asked-Course o h w (o.lua w h.event h.args) on r)
    | inr r ↦ rw on (unheard-Course o h w (o.lua w h.event h.args) on r)
  ]
  | inr off ↦ rw off (
    _,
    happened-enter o h.detour (h.call h.wrapped) w,
    switched_off off,
    λ e. removed-enter o h.detour e (h.call h.wrapped) w,
  )
]
