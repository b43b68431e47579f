-- ===== src/Spec/Container/Args.antt =====
-- The process of a container, `setOCIProcessArgs` of pkg/server/container_create.go.
use cri_containerd.Base.{
  String, ◌≡◌, refl, Option, none, some, List, [], ◌∷◌, ◌++◌, Result, ok, err, Error, arith, inl,
  inr, ◌⊎◌, errorf,
}
use mathlib.Core.Path.{subst}
use cri_containerd.Cri.{ContainerConfig}
use cri_containerd.Store.Image.{ImageConfig}
use cri_containerd.Service.{Generator}
use cri_containerd.Spec.Container.{process_args, set_oci_process_args}

List-cases : (xs : List String) → (xs ≡ []) ⊎ ((y : String) × (ys : List String) × (xs ≡ y ∷ ys))
List-cases [] = inl refl
List-cases (y ∷ ys) = inr (y, ys, refl)

-- The words of the process, by whether there is a command and whether there are arguments.
abbrev pub combined : Option (List String) → List String → ImageConfig → List String
combined (some (c ∷ cs)) args image = (c ∷ cs) ++ args
combined (some []) [] image = image.cmd
combined (some []) (a ∷ args) image = a ∷ args
combined none [] image = image.entrypoint ++ image.cmd
combined none (a ∷ args) image = image.entrypoint ++ a ∷ args

process_args-combined :
    (command : Option (List String)) (args : List String) (image : ImageConfig)
    → process_args command args image ≡ combined command args image
unfolding process_args
process_args-combined (some (c ∷ cs)) args image = refl
process_args-combined (some []) [] image = refl
process_args-combined (some []) (a ∷ args) image = refl
process_args-combined none [] image = refl
process_args-combined none (a ∷ args) image = refl

-- The words are set as the arguments of the process, all of them and nothing else; if there is none,
-- there is an error and the specification stays.
abbrev pub SetsArgs : (g : Generator) → g.Spec → List String → Result (Unit {0}) × g.Spec → Type 0
SetsArgs g s [] (r, s') = ((e : Error) × (r ≡ err e)) × (s' ≡ s)
SetsArgs g s (w ∷ ws) (r, s') = (r ≡ ok tt) × (s' ≡ g.set_process_args (w ∷ ws) s)

-- `setOCIProcessArgs` runs a command that is not empty with the arguments, whatever the image says. A
-- command that is given but empty hides the entrypoint of the image, and one that is not given is the
-- entrypoint; the arguments of the image follow only if there is neither a command nor arguments. All
-- of these words are set as the arguments of the process, and nothing else is; if there is none, it
-- fails and the specification stays.
pub set_oci_process_args_lem :
    (g : Generator) (config : ContainerConfig) (image : ImageConfig) (s : g.Spec)
    → SetsArgs g s
        (combined config.command config.args image)
        (set_oci_process_args g config image s)
unfolding set_oci_process_args
set_oci_process_args_lem g config image s =
    subst (λ ws. SetsArgs g s ws (set_oci_process_args g config image s))
      (process_args-combined config.command config.args image)
      (elim (List-cases (process_args config.command config.args image)) [
        | inl e ↦ rw e ((errorf "no command specified" [], ground (arith, e)), ground (arith, e))
        | inr (y, ys, e) ↦ rw e (ground (arith, e), ground (arith, e))
      ])
