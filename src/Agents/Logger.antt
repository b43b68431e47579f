-- ===== src/Agents/Logger.antt =====
-- `redirectLogs` of pkg/server/agents/logger.go: the log of a container in the format of the CRI.
pub mod Outcome
pub mod Lines
use Prim.Native.Char.{code}
use Prim.Native.String
use cri_containerd.Base.{
  ℕ, zero, suc, ◌-◌, String, Option, none, some, List, [], ◌∷◌, ◌++◌, Error, ok, length,
}
use cri_containerd.Exec.{Exec, pure, ◌>>=◌, ◌>>◌}
use cri_containerd.Service.{Op}
use cri_containerd.Agents.Reader.{eol, read_line, line, failed}

-- the bytes of an ASCII text
abbrev pub bytes : String → List ℕ
bytes String.[] = []
bytes (String.◌∷◌ c s) = code c ∷ bytes s

pub data StreamType : Type 0 where
  stdout stderr : StreamType

abbrev pub text_of : StreamType → String
text_of stdout = "stdout"
text_of stderr = "stderr"

abbrev pub delimiter : ℕ
delimiter = 32

-- `time.RFC3339Nano`
abbrev pub timestamp_format : String
timestamp_format = "2006-01-02T15:04:05.999999999Z07:00"

abbrev pub pipe_buf_size : ℕ
pipe_buf_size = 4096

unfoldable pub buf_size : ℕ
buf_size = pipe_buf_size - length (bytes timestamp_format) - length (bytes (text_of stdout)) - 2 - 1

-- `bytes.Join`
unfoldable pub join_bytes : List (List ℕ) → List ℕ → List ℕ
join_bytes [] sep = []
join_bytes (x ∷ []) sep = x
join_bytes (x ∷ y ∷ ys) sep = x ++ sep ++ join_bytes (y ∷ ys) sep

-- a line of the log: the time, the stream and the text
unfoldable pub decorate : List ℕ → StreamType → List ℕ → List ℕ
unfolding join_bytes
decorate timestamp stream text =
    join_bytes (timestamp ∷ bytes (text_of stream) ∷ text ∷ []) (delimiter ∷ []) ++ eol ∷ []

-- What `redirectLogs` calls: the clock as `AppendFormat` renders it, and the two files.
pub record Files (W : Type 0) : Type 0 where
  pub timestamp : W → List ℕ × W
  pub write : List ℕ → Op W (Unit {0})
  pub close_writer : Op W (Unit {0})
  pub close_reader : Op W (Unit {0})

module _ {W : Type 0} (files : Files W) where
  open files use {timestamp, write, close_writer, close_reader}

  now_text : Exec W (List ℕ)
  now_text w = (ok (timestamp w).0, (timestamp w).1)

  -- an operation whose error is only logged, or dropped
  pub attempt : Op W (Unit {0}) → Exec W (Unit {0})
  attempt op w = (ok tt, (op w).1)

  -- the body of the loop once a line has been read
  log_line : StreamType → List ℕ → Exec W (Unit {0})
  unfolding now_text attempt
  log_line stream text = do at ← now_text; attempt (write (decorate at stream text))

  -- The loop, over the bytes to read and the error that ends them. It returns the error that ended
  -- it; `none` means that the fuel ran out.
  unfoldable pub copy_lines : StreamType → Error → ℕ → List ℕ → Exec W (Option Error)
  unfolding log_line
  copy_lines stream last zero input = pure none
  copy_lines stream last (suc fuel) input = elim (read_line buf_size input last) [
    | failed e ↦ pure (some e)
    | line text rest ↦ log_line stream text >> copy_lines stream last fuel rest
  ]

  -- `redirectLogs`: every line takes a byte of the input, so its length is enough fuel.
  unfoldable pub redirect_logs : StreamType → Error → List ℕ → Exec W (Option Error)
  unfolding copy_lines attempt
  redirect_logs stream last input = do
    e ← copy_lines stream last (suc (length input)) input
    attempt close_writer
    attempt close_reader
    pure e
