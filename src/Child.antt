-- ===== src/Child.antt =====
-- RosaServer/childprocess.cpp and childprocess.h: `ChildProcess` once the constructor has made the
-- process. A pid of -1 is `none`, and the exit code is there once gotExitCode is set. What the system
-- answers is an argument; `log` has the system calls, the last one first.
pub mod Pipe
pub mod Frames
pub mod Fifo
pub mod Between
pub mod Calls
mod Tests
use rosa_server.Base.{
  ℕ, ◌≡◌, Bool, true, false, Option, none, some, List, [], ◌∷◌, Call, returns, throws, Error,
}

pub data SystemCall : Type 0 where
  waits kills limits gets_priority sets_priority : ℕ → SystemCall
  reads writes closes : SystemCall

pub record Child : Type 0 where
  pub pid : Option ℕ
  pub exit_code : Option ℕ
  pub log : List SystemCall

abbrev pub logged : Child → SystemCall → Child
logged c call = record c { log = call ∷ c.log }

-- What `waitpid` answers with WNOHANG, what it answers without, and what `kill` answers.
pub data Waited : Type 0 where
  still_running : Waited
  exited wait_failed : ℕ → Waited

pub data Reaped : Type 0 where
  reaped reap_failed : ℕ → Reaped

pub data Killed : Type 0 where
  killed no_process : Killed
  kill_failed : ℕ → Killed

abbrev pub after_wait : Child → Waited → Child × Call Bool
after_wait c still_running = (c, returns true)
after_wait c (exited status) = (record c { exit_code = some status }, returns false)
after_wait c (wait_failed e) = (c, throws (Error.system e))

-- The exit code and the pid are those of the process.
abbrev pub ask_running : Child → Option ℕ → Option ℕ → Waited → Child × Call Bool
ask_running c (some status) pid answer = (c, returns false)
ask_running c none none answer = (c, returns false)
ask_running c none (some pid) answer = after_wait (logged c (waits pid)) answer

unfoldable pub is_running : Child → Waited → Child × Call Bool
is_running c answer = ask_running c c.exit_code c.pid answer

-- Both ends of the pipes that the parent has.
abbrev pub close_pipes : Child → Child
close_pipes c = record c { pid = none; log = closes ∷ c.log }

abbrev pub after_reap : Child → Reaped → Child × Call (Unit {0})
after_reap c (reaped status) = (close_pipes (record c { exit_code = some status }), returns tt)
after_reap c (reap_failed e) = (c, throws (Error.system e))

abbrev pub after_kill : Child → ℕ → Killed → Reaped → Child × Call (Unit {0})
after_kill c pid killed answer = after_reap (logged c (waits pid)) answer
after_kill c pid no_process answer = (close_pipes c, returns tt)
after_kill c pid (kill_failed e) answer = (c, throws (Error.system e))

abbrev pub signal : Child → Option ℕ → Killed → Reaped → Child × Call (Unit {0})
signal c none kill wait = (c, returns tt)
signal c (some pid) kill wait = after_kill (logged c (kills pid)) pid kill wait

unfoldable pub terminate : Child → Killed → Reaped → Child × Call (Unit {0})
terminate c kill wait = signal c c.pid kill wait

abbrev pub exit_code_of : Child × Call Bool → Child × Call (Option ℕ)
exit_code_of (c, returns running) = (c, returns c.exit_code)
exit_code_of (c, throws e) = (c, throws e)

unfoldable pub get_exit_code : Child → Waited → Child × Call (Option ℕ)
get_exit_code c answer = exit_code_of (is_running c answer)

-- `if (!isRunning()) return otherwise;`
abbrev pub if_running {ℓ} :
    {A : Type ℓ} → Child × Call Bool → A → (Child → Child × Call A) → Child × Call A
if_running (c, throws e) otherwise next = (c, throws e)
if_running (c, returns false) otherwise next = (c, returns otherwise)
if_running (c, returns true) otherwise next = next c

-- A call with the pid, which may fail with an error number.
abbrev pub call_pid {ℓ} :
    {A : Type ℓ} → (ℕ → SystemCall) → Option ℕ → A → Child → Option ℕ → Child × Call A
call_pid call failure value c none = (c, returns value)
call_pid call failure value c (some pid) =
    (logged c (call pid), elim failure [ none ↦ returns value | some e ↦ throws (Error.system e) ])

abbrev pub call_with {ℓ} : {A : Type ℓ} → (ℕ → SystemCall) → Option ℕ → A → Child → Child × Call A
call_with call failure value c = call_pid call failure value c c.pid

unfoldable pub set_limit : Child → Waited → Option ℕ → Child × Call (Unit {0})
set_limit c answer failure = if_running (is_running c answer) tt (call_with limits failure tt)

unfoldable pub get_priority : Child → Waited → Option ℕ → ℕ → Child × Call ℕ
get_priority c answer failure nice =
    if_running (is_running c answer) 0 (call_with gets_priority failure nice)

unfoldable pub set_priority : Child → Waited → Option ℕ → Child × Call (Unit {0})
set_priority c answer failure =
    if_running (is_running c answer) tt (call_with sets_priority failure tt)

-- The state of a process after `sendMessage`, which writes to the pipe if the process is running.
abbrev pub write_if_running : Child × Call Bool → Child
write_if_running (c, throws e) = c
write_if_running (c, returns false) = c
write_if_running (c, returns true) = logged c writes

-- `receiveMessage` reads from the pipe whatever the state is.
abbrev pub read_pipe : Child → Child
read_pipe c = logged c reads

-- What Lua does with a process, with the answers of the system.
pub data Action : Type 0 where
  checks asks_exit_code sends_message : Waited → Action
  receives_message : Action
  terminates : Killed → Reaped → Action
  sets_limit asks_priority changes_priority : Waited → Option ℕ → Action

unfoldable pub act : Child → Action → Child
act c (checks answer) = (is_running c answer).0
act c (asks_exit_code answer) = (get_exit_code c answer).0
act c (sends_message answer) = write_if_running (is_running c answer)
act c receives_message = read_pipe c
act c (terminates kill wait) = (terminate c kill wait).0
act c (sets_limit answer failure) = (set_limit c answer failure).0
act c (asks_priority answer failure) = (get_priority c answer failure 0).0
act c (changes_priority answer failure) = (set_priority c answer failure).0

unfoldable pub run : Child → List Action → Child
run c [] = c
run c (a ∷ actions) = run (act c a) actions

-- The process after the constructor.
abbrev pub created : ℕ → Child
created pid = record { pid = some pid; exit_code = none; log = [] }
