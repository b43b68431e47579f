-- ===== src/Streaming/ExitCode.antt =====
-- How the two ways to run a command report its exit code.
use cri_containerd.Base.{
  ℕ, String, Bool, false, ◌≡◌, ◌≢◌, ◌↔◌, Option, none, some, List, [], ◌∷◌, ◌++◌, refl, errorf,
  Error, ok, arith, nat_eq,
}
use cri_containerd.Base.Int.{ℤ, to_int32, mul_int64, pos}
use cri_containerd.Base.Decimal.{show_decimal}
use cri_containerd.Service.{State, Env}
use cri_containerd.Containers.Stop.{second}
use cri_containerd.Containers.ExecSync.{ExecOptions, ExecSyncResponse, exec_in_container, exec_sync}
use cri_containerd.Streaming.{code_exit, stream_exec}

module _ (env : Env) (id : String) (cmd : List String) where
  open env use {World, new_buffer, buffer_bytes}

  abbrev buffered : ℕ → ℕ → ℤ → ExecOptions
  buffered out errors timeout = record {
    cmd = cmd;
    stdin = none;
    stdout = out;
    stderr = errors;
    tty = false;
    timeout = mul_int64 timeout second;
  }

  -- A command that ran to its end is no error to `ExecSync`, whatever its exit code: the response has
  -- the code, as an `int32`. To the streaming server it is an error exactly if the code is not zero,
  -- and the error has the code.
  pub exit_code_lem :
      (timeout : ℤ) (stdin : Option ℕ) (out errors code : ℕ) (tty : Bool) (s t : State World)
      → let b1 = new_buffer s.world in
        let b2 = new_buffer b1.1 in
        let s2 = record s { world = b2.1 } in
        (exec_in_container env id (buffered b1.0 b2.0 timeout) s2).0 ≡ ok code
        → (exec_in_container env id
            (record {
              cmd = cmd;
              stdin = stdin;
              stdout = out;
              stderr = errors;
              tty = tty;
              timeout = pos 0;
            })
            t).0
          ≡ ok code
        → ((r : ExecSyncResponse) × ((exec_sync env id cmd timeout s).0 ≡ ok r)
            × (r.exit_code ≡ to_int32 code))
          × (((stream_exec env id cmd stdin out errors tty t).0 ≡ ok none) ↔ (code ≡ 0))
          × (code ≢ 0
              → (e : Error) × ((stream_exec env id cmd stdin out errors tty t).0
                  ≡ ok (some (code_exit e code))))
  unfolding exec_sync stream_exec
  exit_code_lem timeout stdin out errors code tty s t ran streamed =
      let b1 : ℕ × World = new_buffer s.world in
      let b2 : ℕ × World = new_buffer b1.1 in
      let s2 : State World = record s { world = b2.1 } in
      let after : World = (exec_in_container env id (buffered b1.0 b2.0 timeout) s2).1.world in
      let got : String × World = buffer_bytes b1.0 after in
      (
        (
          record {
            stdout = got.0;
            stderr = (buffer_bytes b2.0 got.1).0;
            exit_code = to_int32 code;
          },
          ground (arith, ran),
          refl,
        ),
        (λ h. ground (arith, streamed, h), λ h. ground (arith, streamed, h)),
        λ n. (
          errorf "error executing command %v, exit code %d" (cmd ++ show_decimal code ∷ []),
          ground (arith, streamed, n),
        ),
      )
