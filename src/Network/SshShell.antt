-- ===== src/Network/SshShell.antt =====
-- `Output` and `ShellWith` of pkg/ssh/ssh.go: the output of a command, and a shell on a terminal. The
-- goroutine that passes the sizes of the window on is left out.
use ovm_next.Base.{ℕ, Text, if◌then◌else◌, Bool, true, false, Option, none, some, Result, ok, err}
use ovm_next.Base.Action.{Action}
use ovm_next.Network.SshClient.{
  Client, SshError, Wire, client_closed, no_session, ended, run_failed,
}

pub data ShellError : Type 0 where
  closed session pty raw_mode not_started stopped failed : ShellError

-- The calls on a session beyond those of the client, and the terminal of the host.
pub record Terminal (W : Type 0) : Type 0 where
  -- The output of a command and whether it succeeded, or `none` if the context ends first.
  pub output : ℕ → Text → W → W × Option (Text × Bool)
  pub is_terminal : Bool
  pub get_size : W → Option (ℕ × ℕ)
  pub request_pty : ℕ → ℕ → ℕ → W → W × Bool
  pub make_raw : W → W × Bool
  pub restore : W → W
  pub start_shell : ℕ → W → W × Bool
  -- The end of the shell and whether it is a success, or `none` if the context ends first.
  pub wait : ℕ → W → W × Option Bool

module _ {W : Type 0} (wire : Wire W) (term : Terminal W) where
  -- `defer session.Close()`
  abbrev pub closing : {A : Type 0} → ℕ → W × A → W × A
  closing s (w, a) = (wire.close_session s w, a)

  abbrev pub output_of : ℕ → W × Option (Text × Bool) → W × Result SshError Text
  output_of s (w, none) = (wire.terminate s w, err ended)
  output_of s (w, some (out, true)) = (w, ok out)
  output_of s (w, some (out, false)) = (w, err run_failed)

  abbrev pub output_in : Text → W × Option ℕ → W × Result SshError Text
  output_in cmd (w, none) = (w, err no_session)
  output_in cmd (w, some s) = closing s (output_of s (term.output s cmd w))

  -- `Output`; what a failing command wrote is not kept.
  unfoldable pub output : Client → Text → Action SshError W Text
  output c cmd w =
      if c.closed then (w, err client_closed) else output_in cmd (wire.new_session c.conn w)

  abbrev pub shell_ended : ℕ → W × Option Bool → W × Result ShellError (Unit {0})
  shell_ended s (w, none) = (wire.terminate s w, err stopped)
  shell_ended s (w, some true) = (w, ok tt)
  shell_ended s (w, some false) = (w, err failed)

  abbrev pub shell_started : ℕ → W × Bool → W × Result ShellError (Unit {0})
  shell_started s (w, false) = (w, err not_started)
  shell_started s (w, true) = shell_ended s (term.wait s w)

  -- `defer restoreFunc()`
  abbrev pub restoring : {A : Type 0} → W × A → W × A
  restoring (w, a) = (term.restore w, a)

  abbrev pub in_raw_mode : ℕ → W × Bool → W × Result ShellError (Unit {0})
  in_raw_mode s (w, false) = (w, err raw_mode)
  in_raw_mode s (w, true) = restoring (shell_started s (term.start_shell s w))

  abbrev pub with_pty : ℕ → W × Bool → W × Result ShellError (Unit {0})
  with_pty s (w, false) = (w, err pty)
  with_pty s (w, true) =
      if term.is_terminal
      then in_raw_mode s (term.make_raw w)
      else shell_started s (term.start_shell s w)

  abbrev pub size_or_default : Option (ℕ × ℕ) → ℕ × ℕ
  size_or_default none = (80, 24)
  size_or_default (some size) = size

  -- The width and the height that the shell is given
  unfoldable pub shell_size : W → ℕ × ℕ
  shell_size w = if term.is_terminal then size_or_default (term.get_size w) else (80, 24)

  abbrev pub shell_in : W × Option ℕ → W × Result ShellError (Unit {0})
  shell_in (w, none) = (w, err session)
  shell_in (w, some s) =
      closing s (with_pty s (term.request_pty s (shell_size w).1 (shell_size w).0 w))

  -- `ShellWith`
  unfoldable pub shell_with : Client → Action ShellError W (Unit {0})
  shell_with c w = if c.closed then (w, err closed) else shell_in (wire.new_session c.conn w)
