-- ===== src/Containers/Stop.antt =====
-- pkg/server/container_stop.go
pub mod Outcome
pub mod Undisturbed
use cri_containerd.Base.{
  ℕ, ◌==◌, ◌*◌, not, string_eq, String, Bool, true, false, List, [], ◌∷◌, if◌then◌else◌, Result, ok,
  err, panic, Error, errorf, wrap, not_exist,
}
use cri_containerd.Base.Int.{ℤ, pos, is_positive, mul_int64}
use cri_containerd.Cri.{ContainerState, running, exited, state_eq}
use cri_containerd.Store.Status.{state}
use cri_containerd.Store.Container
use cri_containerd.Store.Container.{Container}
use cri_containerd.Store.Image
use cri_containerd.Store.Image.{Image}
use cri_containerd.Exec.{Exec, pure, raise, wrap_error, lift, unless, ◌>>=◌, ◌>>◌}
use cri_containerd.Service.{State, Env, Waits, Wakeup, cancelled, timed_out, call, outcome}
use cri_containerd.Containers.Common.{
  get_container, get_status, is_containerd_grpc_not_found_error,
  is_runc_process_already_finished_error,
}

-- nanoseconds in a second, and in the two minutes of `killContainerTimeout`
abbrev pub second : ℕ
second = 1000000000

abbrev pub kill_container_timeout : ℤ
kill_container_timeout = pos (120 * second)

abbrev pub sigkill : ℕ
sigkill = 9

abbrev pub sigterm : ℕ
sigterm = 15

-- how the wait ends if it does so before the container stops
abbrev pub wait_error : Wakeup → String → Error
wait_error cancelled id = errorf "wait container %q is cancelled" (id ∷ [])
wait_error timed_out id = errorf "wait container %q stop timeout" (id ∷ [])

module _ {W : Type 0} where
  -- One poll of `waitContainerStop`: whether the wait is over.
  poll_status : Container → Exec (State W) Bool
  poll_status c = do status ← get_status c; pure (state status == exited)

  unfoldable pub poll : String → Exec (State W) Bool
  unfolding poll_status
  poll id s = elim (Container.get id s.containers) [
    | ok c ↦ poll_status c s
    | err not_exist ↦ (ok true, s)
    | err e ↦ (err (wrap "failed to get container %q: %v" (id ∷ []) e), s)
    | panic ↦ (panic, s)
  ]

  -- the `for` loop of `waitContainerStop`, over the ticks before the last wakeup
  unfoldable pub poll_loop : String → List (State W → State W) → Wakeup → Exec (State W) (Unit {0})
  poll_loop id [] last s =
      let (r, s') = poll id s in
      elim r [
        | ok true ↦ (ok tt, s')
        | ok false ↦ (err (wait_error last id), s')
        | err e ↦ (err e, s')
        | panic ↦ (panic, s')
      ]
  poll_loop id (tick ∷ ticks) last s =
      let (r, s') = poll id s in
      elim r [
        | ok true ↦ (ok tt, s')
        | ok false ↦ poll_loop id ticks last (tick s')
        | err e ↦ (err e, s')
        | panic ↦ (panic, s')
      ]

module _ (env : Env) where
  open env use {World, waits, parse_signal, task_kill}

  unfoldable pub wait_container_stop : String → ℤ → Exec (State World) (Unit {0})
  wait_container_stop id timeout s =
      let (w, world) = waits id timeout s.world in
      poll_loop id w.ticks w.last (record s { world = world })

  -- `taskService.Kill`, where a task that is gone or finished is no error
  kill_task : String → String → ℕ → Exec (State World) (Unit {0})
  kill_task format id signal = wrap_error (wrap format (id ∷ [])) (
      unless (is_runc_process_already_finished_error env)
        (unless (is_containerd_grpc_not_found_error env) (call (task_kill id signal))))

  stop_signal : Image → Result ℕ
  stop_signal image =
      if image.config.stop_signal == ""
      then ok sigterm
      else outcome (parse_signal image.config.stop_signal)

  -- the end of `stopContainer`: SIGKILL, and a wait of two minutes
  unfoldable pub kill_container : String → Exec (State World) (Unit {0})
  unfolding kill_task
  kill_container id = do
    kill_task "failed to kill container %q: %v" id sigkill
    wrap_error (wrap "an error occurs during waiting for container %q to stop: %v" (id ∷ []))
        (wait_container_stop id kill_container_timeout)

  -- after the stop signal was sent: an error of the wait is logged, and the container is killed
  unfoldable pub wait_or_kill : String → ℤ → Exec (State World) (Unit {0})
  wait_or_kill id timeout s =
      let (r, s') = wait_container_stop id timeout s in
      elim r [ ok a ↦ (ok tt, s') | err e ↦ kill_container id s' | panic ↦ (panic, s') ]

  -- the grace period: the stop signal of the image, and a wait
  unfoldable pub stop_gracefully : Container → ℤ → Exec (State World) (Unit {0})
  unfolding stop_signal kill_task
  stop_gracefully c timeout = do
    image ←
        wrap_error (wrap "failed to get image metadata %q: %v" (c.metadata.image_ref ∷ []))
          (λ s. (Image.get c.metadata.image_ref s.images, s))
    signal ←
        wrap_error (wrap "failed to parse stop signal %q: %v" (image.config.stop_signal ∷ []))
          (lift (stop_signal image))
    kill_task "failed to stop container %q: %v" c.metadata.id signal
    wait_or_kill c.metadata.id timeout

  -- `stopContainer`
  unfoldable pub run_stop : Container → ℤ → Exec (State World) (Unit {0})
  run_stop c timeout = do
    status ← get_status c
    if not (state status == running)
        then pure tt
        else if is_positive timeout
        then stop_gracefully c timeout
        else kill_container c.metadata.id

  -- `StopContainer`, with the timeout of the request in seconds
  unfoldable pub stop_container : String → ℤ → Exec (State World) (Unit {0})
  unfolding run_stop
  stop_container container_id timeout = do
    c ←
        wrap_error (wrap "an error occurred when try to find container %q: %v" (container_id ∷ []))
          (get_container container_id)
    run_stop c (mul_int64 timeout second)
