-- ===== src/Krun/Signals.antt =====
-- How the host stops the machine: `Stop` of pkg/libkrun/provider.go and `SendSignal` of
-- pkg/libkrun/vm.go on one end of a port, the loop of `setupGuestLogAndSignalPort` of
-- cmd/guest-agent/main.go on the other, and cmd/guest-agent/pkg/service/shutdown.go. JSON is a parameter.
use ovm_next.Base.{
  ℕ, eqb, Text, codes, ◌==◌, if◌then◌else◌, Bool, true, false, List, [], ◌∷◌, ◌++◌, Option, none,
  some, split,
}
use mathlib.Core.List.{reverse}

-- An object with one field: how it is written, and the field of that name as it is read, which is
-- empty where there is none.
pub record Json : Type 0 where
  pub encode : (field value : Text) → Text
  pub decode : (field text : Text) → Option Text

-- `SendSignal`: what is written to the pipe, if there is one
unfoldable pub send_signal : Json → Bool → Text → Text
send_signal json has_pipe name =
    if has_pipe then json.encode (codes "SignalName") name ++ b'\n' ∷ [] else []

-- `Stop`
unfoldable pub stop : Json → Bool → Text
stop json has_pipe = send_signal json has_pipe (codes "terminated")

pub data Signal : Type 0 where
  interrupt terminate quit : Signal

-- What the agent does.
pub data Act : Type 0 where
  -- `syscall.Kill(-1, sig)`, and to itself
  kill_all kill_self : Signal → Act
  sync power_off : Act

unfoldable pub signal_of_name : Text → Option Signal
signal_of_name name =
    if name == codes "interrupt"
    then some interrupt
    else if name == codes "terminated"
    then some terminate
    else if name == codes "quit"
    then some quit
    else none

abbrev pub acts_of_signal : Option Signal → List Act
acts_of_signal none = []
acts_of_signal (some s) = kill_all s ∷ kill_self s ∷ []

abbrev pub acts_of_message : Option Text → List Act
acts_of_message none = []
acts_of_message (some name) = acts_of_signal (signal_of_name name)

-- A carriage return at the end of a line is dropped.
abbrev pub drop_last_return : List ℕ → Text
drop_last_return [] = []
drop_last_return (c ∷ back) = if eqb c b'\r' then reverse back else reverse (c ∷ back)

abbrev pub complete_lines : Text → List Text → List Text
complete_lines [] [] = []
complete_lines (c ∷ first) [] = drop_last_return (reverse (c ∷ first)) ∷ []
complete_lines first (second ∷ others) =
    drop_last_return (reverse first) ∷ complete_lines second others

-- `bufio.ScanLines`
unfoldable pub scan_lines : Text → List Text
scan_lines text = let (first, others) = split b'\n' text in complete_lines first others

-- The loop over the lines of the port
unfoldable pub handle_lines : Json → List Text → List Act
handle_lines json [] = []
handle_lines json (line ∷ lines) =
    acts_of_message (json.decode (codes "signalName") line) ++ handle_lines json lines

-- The signals that `WaitAndShutdown` waits for
abbrev pub is_awaited : Act → Bool
is_awaited (kill_self interrupt) = true
is_awaited (kill_self terminate) = true
is_awaited _ = false

-- `WaitAndShutdown`: what it does once one of its signals was sent to the agent
unfoldable pub wait_and_shutdown : List Act → List Act
wait_and_shutdown [] = []
wait_and_shutdown (act ∷ acts) =
    let rest = wait_and_shutdown acts in if is_awaited act then sync ∷ power_off ∷ [] else rest

-- The agent on what is written to its port
unfoldable pub receive : Json → Text → List Act
receive json text =
    handle_lines json (scan_lines text) ++ wait_and_shutdown (handle_lines json (scan_lines text))
