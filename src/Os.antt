-- ===== src/Os.antt =====
-- pkg/os/os.go: the operations of the operating system that do more than one call. The others pass
-- their arguments on, and stand for themselves in the world outside.
use cri_containerd.Base.{ℕ, String, Bool, if◌then◌else◌}
use cri_containerd.Exec.{Exec, pure, finally, ◌>>=◌}
use cri_containerd.Service.{Op, outcome}

-- the calls of the standard library, of golang.org/x/sys and of docker's mount package
pub record Kernel (W : Type 0) : Type 0 where
  pub open_read : String → Op W ℕ
  pub create_truncated : String → ℕ → Op W ℕ
  pub copy : ℕ → ℕ → Op W (Unit {0})
  pub close : ℕ → Op W (Unit {0})
  pub mounted : String → Op W Bool
  pub unmount : String → ℕ → Op W (Unit {0})

module _ {W : Type 0} (kernel : Kernel W) where
  ask : {A : Type 0} → Op W A → Exec W A
  ask op w = (outcome (op w).0, (op w).1)

  -- `CopyFile`; both files are closed, the destination first
  unfoldable pub copy_file : String → String → ℕ → Exec W (Unit {0})
  unfolding ask
  copy_file source destination mode = do
    from ← ask (kernel.open_read source)
    finally (ask (kernel.close from)) do
      to ← ask (kernel.create_truncated destination mode)
      finally (ask (kernel.close to)) (ask (kernel.copy to from))

  -- `Unmount`: a target that is not mounted is left alone, without an error
  unfoldable pub unmount : String → ℕ → Exec W (Unit {0})
  unfolding ask
  unmount target flags = do
    is_mounted ← ask (kernel.mounted target)
    if is_mounted then ask (kernel.unmount target flags) else pure tt
