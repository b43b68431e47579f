-- ===== src/Agents/Logger/Lines.antt =====
-- The lines that `redirectLogs` of pkg/server/agents/logger.go writes against those that it reads.
use cri_containerd.Base.{
  ℕ, ◌≤◌, ◌≡◌, false, List, [], ◌∷◌, ◌++◌, Error, length, ◌==◌, nat_eq, if◌then◌else◌,
}
use cri_containerd.Exec.{Exec, pure, ◌>>◌}
use cri_containerd.Agents.Reader.{eol, ends_in_return}
use cri_containerd.Agents.Reader.Lines.{Lacks}
use cri_containerd.Agents.Logger.{StreamType, buf_size, Files, log_line}

-- Every line with its end.
abbrev pub unlines : List (List ℕ) → List ℕ
unlines [] = []
unlines (l ∷ ls) = l ++ eol ∷ unlines ls

-- No line holds an end of line, ends in a carriage return or is longer than the buffer.
abbrev pub AllFit : List (List ℕ) → Type 0
AllFit [] = Unit
AllFit (l ∷ ls) = Lacks l × (ends_in_return l ≡ false) × (length l ≤ buf_size) × AllFit ls

-- The lines that are logged: an empty one is made up after a line that fills the buffer.
unfoldable pub logged : List (List ℕ) → List (List ℕ)
logged [] = []
logged (l ∷ ls) = let rest = logged ls in if length l == buf_size then l ∷ [] ∷ rest else l ∷ rest

module _ {W : Type 0} (files : Files W) (stream : StreamType) (last : Error) where
  -- every line is written in turn, each with the time at which it is written
  pub log_each : List (List ℕ) → Exec W (Unit {0})
  log_each [] = pure tt
  log_each (l ∷ ls) = log_line files stream l >> log_each ls
