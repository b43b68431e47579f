-- ===== src/Service/Stream.antt =====
-- The loops of pkg/server over an event stream of containerd, `waitSandboxContainer` and
-- `waitContainerExec`: they differ in the exit that they look for.
pub mod Delivered
use cri_containerd.Base.{Bool, List, [], ◌∷◌, if◌then◌else◌, Error, Result, ok, err}
use cri_containerd.Service.Outside.{TaskExit, StreamEvent, exited, other, undecodable}

-- The first exit that passes the test. The stream ends in the error `last`.
unfoldable pub wait_for : (TaskExit → Bool) → List StreamEvent → Error → Result TaskExit
wait_for test [] last = err last
wait_for test (exited e ∷ events) last =
    let rest = wait_for test events last in if test e then ok e else rest
wait_for test (other ∷ events) last = wait_for test events last
wait_for test (undecodable e ∷ events) last = err e
