-- ===== src/Daemon/Version.antt =====
-- pkg/version/version.go
use cri_containerd.Base.{String, [], ◌∷◌, Result, ok, err, wrap}
use cri_containerd.Exec.{Exec, pure, ◌>>◌}
use cri_containerd.Service.{value, failure}
use cri_containerd.Daemon.Host.{Host, run}

module _ {W : Type 0} (host : Host W) where
  open host use {parse_semver, print_line, print_error}

  -- `validateSemver`
  unfoldable pub validate_semver : String → Result (Unit {0})
  validate_semver sv = elim (parse_semver sv) [
    | value u ↦ ok tt
    | failure e ↦ err (wrap "couldn't parse cri-containerd version %q: %v" (sv ∷ []) e)
  ]

  report : Result (Unit {0}) → Exec W (Unit {0})
  report (err e) = run (print_error e)
  report _ = pure tt

  -- `PrintVersion`: a version that is not valid is reported, and printed all the same.
  unfoldable pub print_version : String → Exec W (Unit {0})
  unfolding validate_semver report
  print_version cri_containerd_version = do
    report (validate_semver cri_containerd_version)
    run (print_line cri_containerd_version)
