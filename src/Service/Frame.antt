-- ===== src/Service/Frame.antt =====
-- Actions that change nothing of the service's own state: only the world outside goes on.
use cri_containerd.Base.{refl, arith, ◌≡◌}
use cri_containerd.Exec.{Exec}
use cri_containerd.Exec.Keeps.{Keeps, keeps_rules}
use cri_containerd.Exec.Panics.{NoPanic, panic_rules}
use cri_containerd.Service.Memory.{State, Op, call, effect}

-- `s` is `s0` but for the world.
abbrev pub Outside : {W : Type 0} → State W → State W → Type 0
Outside s0 s = s ≡ record s0 { world = s.world }

module _ {W A : Type 0} (s0 : State W) where
  pub call-Outside : (op : Op W A) → Keeps (Outside s0) (call op)
  call-Outside op = record { at = λ s h. ground (arith, h) }

  pub effect-Outside : (op : W → A × W) → Keeps (Outside s0) (effect op)
  effect-Outside op = record { at = λ s h. ground (arith, h) }

module _ {W A : Type 0} where
  pub call-NoPanic : (op : Op W A) → NoPanic (call op)
  call-NoPanic op = record { at = λ s e. ground (arith, e) }

  pub effect-NoPanic : (op : W → A × W) → NoPanic (effect op)
  effect-NoPanic op = record { at = λ s e. ground (arith, e) }

-- `P` does not read the world.
pub record WorldFree {W : Type 0} (P : State W → Type 0) : Type 0 where
  pub at : (s : State W) (w : W) → P s → P (record s { world = w })

module _ {W A : Type 0} {P : State W → Type 0} where
  pub call-WorldFree : (op : Op W A) → WorldFree P → Keeps P (call op)
  call-WorldFree op free = record { at = λ s h. free.at s (op s.world).1 h }

  pub effect-WorldFree : (op : W → A × W) → WorldFree P → Keeps P (effect op)
  effect-WorldFree op free = record { at = λ s h. free.at s (op s.world).1 h }

  -- what changes the world only keeps whatever does not read the world
  pub Outside-WorldFree :
      (m : Exec (State W) A) → ((s0 : State W) → Keeps (Outside s0) m) → WorldFree P → Keeps P m
  Outside-WorldFree m outside free = record {
    at = λ s h. rw ((outside s).at s refl) (free.at s (m s).1.world h);
  }

-- `s` is `s0` but for the world and the images.
abbrev pub ImagesOnly : {W : Type 0} → State W → State W → Type 0
ImagesOnly s0 s = s ≡ record s0 { world = s.world; images = s.images }

pub ImagesOnly-WorldFree : {W : Type 0} (s0 : State W) → WorldFree (ImagesOnly s0)
ImagesOnly-WorldFree s0 = record { at = λ s w h. ground (arith, h) }

module _ {W A : Type 0} (s0 : State W) where
  pub call-ImagesOnly : (op : Op W A) → Keeps (ImagesOnly s0) (call op)
  call-ImagesOnly op = call-WorldFree op (ImagesOnly-WorldFree s0)

  pub effect-ImagesOnly : (op : W → A × W) → Keeps (ImagesOnly s0) (effect op)
  effect-ImagesOnly op = effect-WorldFree op (ImagesOnly-WorldFree s0)

  pub Outside-ImagesOnly :
      (m : Exec (State W) A) → ((s1 : State W) → Keeps (Outside s1) m) → Keeps (ImagesOnly s0) m
  Outside-ImagesOnly m outside = Outside-WorldFree m outside (ImagesOnly-WorldFree s0)

pub ruleset images_rules = (keeps_rules, call-ImagesOnly, effect-ImagesOnly)

pub ruleset safe_rules = (panic_rules, call-NoPanic, effect-NoPanic)

pub ruleset outside_rules = (keeps_rules, call-Outside, effect-Outside)
