-- ===== src/Store/Status.antt =====
-- pkg/store/container/status.go: the status of a container and the state that it stands for.
use cri_containerd.Base.{ℕ, String, Bool, not, ◌==◌, if◌then◌else◌, Error}
use cri_containerd.Base.Int.{ℤ, pos, int_eq}
use cri_containerd.Cri.{ContainerState, created, running, exited, unknown}

-- What `Status.Message` holds: nothing, or the text of an error, which is kept unrendered.
pub data Message : Type 0 where
  empty : Message
  text_of : Error → Message

pub record Status : Type 0 where
  pub pid : ℕ  -- uint32
  pub created_at : ℤ  -- int64
  pub started_at : ℤ  -- int64
  pub finished_at : ℤ  -- int64
  pub exit_code : ℤ  -- int32
  pub reason : String
  pub message : Message
  pub removing : Bool

-- `Status.State`
unfoldable pub state : Status → ContainerState
state c =
    if not (c.finished_at == pos 0)
    then exited
    else if not (c.started_at == pos 0)
    then running
    else if not (c.created_at == pos 0)
    then created
    else unknown
