-- ===== src/Streaming.antt =====
-- pkg/server/streaming.go: the streaming server and what it calls back.
pub mod ExitCode
use text.Mathlib.Text.{find?}
use cri_containerd.Base.{
  ℕ, ◌==◌, ◌||◌, nat_eq, string_eq, is_some, String, Bool, true, false, Option, none, some, List,
  [], ◌∷◌, ◌++◌, Error, Result, ok, err, panic, errorf, wrap, ltb, if◌then◌else◌,
}
use cri_containerd.Base.Int.{pos}
use cri_containerd.Base.Text.{◌+s+◌}
use cri_containerd.Base.Decimal.{show_decimal}
use cri_containerd.Exec.{Exec, pure, wrap_error, raise, ◌>>=◌, ◌>>◌}
use cri_containerd.Service.{State, Env, call}
use cri_containerd.Containers.Common.{ignore}
use cri_containerd.Containers.ExecSync.{TerminalSize, exec_in_container}

-- What the streaming server gets back as an `error`: an `exec.CodeExitError`, or any other.
pub data StreamError : Type 0 where
  failed : Error → StreamError
  code_exit : Error → ℕ → StreamError

-- what `streamRuntime.Exec` makes of the exit code; `none` is a nil error
unfoldable pub of_exit_code : List String → ℕ → Option StreamError
of_exit_code cmd code =
    if code == 0
    then none
    else some (
        code_exit
          (errorf "error executing command %v, exit code %d" (cmd ++ show_decimal code ∷ [])) code)

-- `net.JoinHostPort`
unfoldable pub join_host_port : String → String → String
join_host_port host port =
    if is_some (find? host ":") || is_some (find? host "%")
    then "[" +s+ host +s+ "]:" +s+ port
    else host +s+ ":" +s+ port

-- `streamRuntime.Attach` and `PortForward`
unfoldable pub attach : Result (Unit {0})
attach = err (errorf "not implemented" [])

unfoldable pub port_forward : Result (Unit {0})
port_forward = err (errorf "not implemented" [])

module _ (env : Env) where
  open env use {World, process_resize}

  -- The goroutine of `handleResizing`, over the sizes that its channel delivers until it is closed. A
  -- size without height or width is passed over.
  unfoldable pub apply_sizes :
      (TerminalSize → Exec (State World) (Unit {0}))
      → List TerminalSize
      → Exec (State World) (Unit {0})
  apply_sizes resize [] = pure tt
  apply_sizes resize (size ∷ sizes) =
      let rest = apply_sizes resize sizes in
      if ltb size.height 1 || ltb size.width 1 then rest else resize size >> rest

  -- `handleResizing`: a nil channel starts no goroutine
  unfoldable pub handle_resizing :
      Option (List TerminalSize)
      → (TerminalSize → Exec (State World) (Unit {0}))
      → Exec (State World) (Unit {0})
  unfolding apply_sizes
  handle_resizing none resize = pure tt
  handle_resizing (some sizes) resize = apply_sizes resize sizes

  -- the function that `execInContainer` gives to `handleResizing`: its error is only logged
  unfoldable pub resize_process : ℕ → TerminalSize → Exec (State World) (Unit {0})
  resize_process process size = ignore (call (process_resize process size.width size.height))

  -- what `streamRuntime.Exec` makes of the outcome of `execInContainer`
  finish_exec : List String → Result ℕ × State World → Result (Option StreamError) × State World
  unfolding of_exit_code
  finish_exec cmd (ok code, s) = (ok (of_exit_code cmd code), s)
  finish_exec cmd (err e, s) = (ok (some (failed (wrap "failed to exec in container: %v" [] e))), s)
  finish_exec cmd (panic, s) = (panic, s)

  -- `streamRuntime.Exec`; `none` is a nil error
  unfoldable pub stream_exec :
      String → List String → Option ℕ → ℕ → ℕ → Bool → Exec (State World) (Option StreamError)
  unfolding finish_exec
  stream_exec container_id cmd stdin stdout stderr tty s = finish_exec cmd (
      exec_in_container env container_id
        (record {
          cmd = cmd;
          stdin = stdin;
          stdout = stdout;
          stderr = stderr;
          tty = tty;
          timeout = pos 0;
        })
        s)
