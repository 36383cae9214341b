-- ===== src/Child/Calls.antt =====
-- RosaServer/childprocess.cpp: which system calls are made for a process.
use rosa_server.Base.{
  ℕ, suc, ◌≡◌, refl, ap, ◌∙◌, ◌⊎◌, Bool, true, false, Option, none, some, List, [], ◌∷◌, ◌++◌, Call,
  returns, throws,
}
use rosa_server.Child.{
  SystemCall, waits, kills, limits, gets_priority, sets_priority, reads, writes, closes, Child,
  logged, Waited, exited, Reaped, reaped, reap_failed, Killed, killed, no_process, kill_failed,
  is_running, ask_running, signal, exit_code_of, after_wait, after_kill, terminate, get_exit_code,
  if_running, call_with, set_limit, get_priority, set_priority,
}
use rosa_server.Child.Pipe.{PipeCalls, send_to_child, parent_send}

-- How often the pipes were closed.
abbrev pub closings : List SystemCall → ℕ
closings [] = 0
closings (closes ∷ log) = suc (closings log)
closings (call ∷ log) = closings log

-- A call is for the process n; one that writes is made with open pipes. Of one that reads nothing is said.
abbrev pub IsFor : ℕ → SystemCall → List SystemCall → Type 0
IsFor n (waits pid) before = pid ≡ n
IsFor n (kills pid) before = pid ≡ n
IsFor n (limits pid) before = pid ≡ n
IsFor n (gets_priority pid) before = pid ≡ n
IsFor n (sets_priority pid) before = pid ≡ n
IsFor n writes before = closings before ≡ 0
IsFor n reads before = Unit {0}
IsFor n closes before = Unit {0}

abbrev pub AllFor : ℕ → List SystemCall → Type 0
AllFor n [] = Unit {0}
AllFor n (call ∷ log) = IsFor n call log × AllFor n log

-- All calls are for the process n; its pipes are open as long as it has a pid, and were closed once
-- after that.
abbrev pub IsSound : ℕ → Child → Type 0
IsSound n c =
    AllFor n c.log
    × (((c.pid ≡ some n) × (closings c.log ≡ 0)) ⊎ ((c.pid ≡ none) × (closings c.log ≡ 1)))

-- A call with the pid that closes nothing.
abbrev IsPlain : (ℕ → SystemCall) → Type 0
IsPlain call =
    (n x : ℕ) (log : List SystemCall)
    → (x ≡ n → IsFor n (call x) log) × (closings (call x ∷ log) ≡ closings log)

is_running-exited :
    (c : Child) (status : ℕ) (w : Waited)
    → c.exit_code ≡ some status
    → is_running c w ≡ (c, returns false)
unfolding is_running
is_running-exited c status w e = ap (λ code. ask_running c code c.pid w) e

is_running-some :
    (c : Child) (n : ℕ) (w : Waited)
    → c.exit_code ≡ none
    → c.pid ≡ some n
    → is_running c w ≡ after_wait (logged c (waits n)) w
unfolding is_running
is_running-some c n w e p =
    ap (λ code. ask_running c code c.pid w) e ∙ ap (λ pid. ask_running c none pid w) p

terminate-some :
    (c : Child) (n : ℕ) (k : Killed) (r : Reaped)
    → c.pid ≡ some n
    → terminate c k r ≡ after_kill (logged c (kills n)) n k r
unfolding terminate
terminate-some c n k r p = ap (λ pid. signal c pid k r) p

-- A process that is found running has its pid.
abbrev HasPid : Child × Call Bool → Type 0
HasPid (c, throws e) = Unit {0}
HasPid (c, returns false) = Unit {0}
HasPid (c, returns true) = (n : ℕ) × (c.pid ≡ some n)

-- Once the exit code of a process is known, all that can be asked but `terminate` makes no system call
-- and changes nothing: it is not running, its exit code stays, limits and priority are not set, the
-- priority is 0 and nothing is sent.
pub exited_quiet :
    {P : Type 0} (calls : PipeCalls P) (p : P) (message : List ℕ) (c : Child) (status : ℕ)
    (w : Waited) (failure : Option ℕ) (nice : ℕ)
    → c.exit_code ≡ some status
    → (is_running c w ≡ (c, returns false))
      × (get_exit_code c w ≡ (c, returns (some status)))
      × (set_limit c w failure ≡ (c, returns tt))
      × (get_priority c w failure nice ≡ (c, returns 0))
      × (set_priority c w failure ≡ (c, returns tt))
      × (send_to_child calls c w p message ≡ (c, (p, returns tt)))
unfolding get_exit_code set_limit get_priority set_priority send_to_child
exited_quiet calls p message c status w failure nice e =
    let h = is_running-exited c status w e in
    (
      h,
      ap exit_code_of h ∙ ap (λ code. (c, returns code)) e,
      ap (λ r. if_running r tt (call_with limits failure tt)) h,
      ap (λ r. if_running r 0 (call_with gets_priority failure nice)) h,
      ap (λ r. if_running r tt (call_with sets_priority failure tt)) h,
      ap (λ r. parent_send calls r p message) h,
    )

after_kill-log :
    (c : Child) (pid : ℕ) (k : Killed) (r : Reaped)
    → (later : List SystemCall) × ((after_kill c pid k r).0.log ≡ later ++ c.log)
after_kill-log c pid killed (reaped status) = (closes ∷ waits pid ∷ [], refl)
after_kill-log c pid killed (reap_failed e) = (waits pid ∷ [], refl)
after_kill-log c pid no_process r = (closes ∷ [], refl)
after_kill-log c pid (kill_failed e) r = ([], refl)

is_running-exits :
    (c : Child) (n status : ℕ)
    → c.pid ≡ some n
    → c.exit_code ≡ none
    → is_running c (exited status)
      ≡ (record c { exit_code = some status; log = waits n ∷ c.log }, returns false)
is_running-exits c n status p e = is_running-some c n (exited status) e p

-- A process that was seen to have exited, and so has no pid of its own any more, is still signalled by
-- `terminate`, whatever the system answers: after the call that collected its exit code, a signal
-- goes to its former pid.
pub terminate-after_exit :
    (c : Child) (n status : ℕ) (k : Killed) (r : Reaped)
    → c.pid ≡ some n
    → c.exit_code ≡ none
    → ((is_running c (exited status)).1 ≡ returns false)
      × (later : List SystemCall) × ((terminate (is_running c (exited status)).0 k r).0.log
          ≡ later ++ kills n ∷ waits n ∷ c.log)
terminate-after_exit c n status k r p e =
    let d : Child = record c { exit_code = some status; log = waits n ∷ c.log } in
    let h : is_running c (exited status) ≡ (d, returns false) = is_running-exits c n status p e in
    let (later, l) = after_kill-log (logged d (kills n)) n k r in
    (
      ap (λ x. x.1) h,
      later,
      ap (λ x. (terminate x.0 k r).0.log) h ∙ ap (λ x. x.0.log) (terminate-some d n k r p) ∙ l,
    )
