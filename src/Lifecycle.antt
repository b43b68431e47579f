-- ===== src/Lifecycle.antt =====
-- The life of one container's status: the transactions that the handlers and the event monitor run
-- on its storage, in any order that their lock lets through.
pub mod Invariant
pub mod Refinement
use cri_containerd.Base.{ℕ, ◌≡◌, ◌≢◌, false, ok, Error}
use cri_containerd.Base.Int.{ℤ, pos}
use cri_containerd.Cri.{created}
use cri_containerd.Store.Status.{Status, state, text_of, empty}
use cri_containerd.Containers.Remove.{set_removing, reset_removing}
use cri_containerd.Service.{TaskExit}
use cri_containerd.Containers.Events.{set_exited, set_oom_killed}

-- the status that `CreateContainer` stores
abbrev pub initial : ℤ → Status
initial at = record {
  pid = 0;
  created_at = at;
  started_at = pos 0;
  finished_at = pos 0;
  exit_code = pos 0;
  reason = "";
  message = empty;
  removing = false;
}

-- what `startContainer` makes of a status when it succeeds
abbrev pub started : ℕ → ℤ → Status → Status
started pid at s = record s { pid = pid; started_at = at }

-- what it makes of a status when it fails
abbrev pub start_failed : ℤ → Error → Status → Status
start_failed at e s = record s {
  pid = 0;
  finished_at = at;
  exit_code = pos 128;
  reason = "StartError";
  message = text_of e;
}

-- One transaction that ends without an error. A time is not 0, as no clock reads 1970.
pub data Step (s t : Status) : Type 0 where
  start :
      (pid : ℕ) (at : ℤ)
      → state s ≡ created
      → s.removing ≡ false
      → at ≢ pos 0
      → t ≡ started pid at s
      → Step s t
  fail :
      (at : ℤ) (e : Error)
      → state s ≡ created
      → s.removing ≡ false
      → at ≢ pos 0
      → t ≡ start_failed at e s
      → Step s t
  exit : (e : TaskExit) → e.exited_at ≢ pos 0 → set_exited e s ≡ ok t → Step s t
  oom : set_oom_killed s ≡ ok t → Step s t
  remove : set_removing s ≡ ok t → Step s t
  restore : reset_removing s ≡ ok t → Step s t

pub data Reach (s : Status) : Status → Type 0 where
  here : Reach s s
  next : {t u : Status} → Reach s t → Step t u → Reach s u
