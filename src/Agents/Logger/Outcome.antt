-- ===== src/Agents/Logger/Outcome.antt =====
-- The loop of `redirectLogs` of pkg/server/agents/logger.go, and its writes.
use cri_containerd.Base.{
  ℕ, zero, suc, ◌+◌, ◌≤◌, ◌<◌, ◌≡◌, refl, some, List, [], ◌∷◌, ◌++◌, Error, ok, inl, inr, arith,
  length,
}
use cri_containerd.Exec.Keeps.{Keeps, Keeps-then, keeps_rules}
use cri_containerd.Agents.Reader.{line, read_line}
use cri_containerd.Agents.Reader.Lines.{Reads, Line-cases, read_line-Reads, read_line-failed}
use cri_containerd.Agents.Logger.{
  bytes, StreamType, stdout, stderr, text_of, timestamp_format, pipe_buf_size, buf_size, decorate,
  Files, log_line, attempt, copy_lines, redirect_logs,
}

-- `time.RFC3339Nano` renders a time in at most as many bytes as its layout has.
pub record IsTimely {W : Type 0} (files : Files W) : Type 0 where
  pub fits : (w : W) → length (files.timestamp w).0 ≤ length (bytes timestamp_format)

-- `P` is kept by reading the clock, by a write of at most `pipe_buf_size` bytes and by closing.
pub record Allows {W : Type 0} (files : Files W) (P : W → Type 0) : Type 0 where
  pub clock : (w : W) → P w → P (files.timestamp w).1
  pub writes :
      (text : List ℕ) → length text ≤ pipe_buf_size → (w : W) → P w → P (files.write text w).1
  pub writer : (w : W) → P w → P (files.close_writer w).1
  pub reader : (w : W) → P w → P (files.close_reader w).1

pub length-append : (xs ys : List ℕ) → length (xs ++ ys) ≡ length xs + length ys
length-append [] ys = omega arith
length-append (x ∷ xs) ys = omega (arith, length-append xs ys)

length-stream : (stream : StreamType) → length (bytes (text_of stream)) ≡ 6
length-stream stdout = refl
length-stream stderr = refl

decorate-le :
    (at : List ℕ) (stream : StreamType) (text : List ℕ)
    → length at ≤ length (bytes timestamp_format)
    → length text ≤ buf_size
    → length (decorate at stream text) ≤ pipe_buf_size
unfolding decorate buf_size
decorate-le at stream text h k = omega (arith, length-append, length-stream stream)

pub buf_size-ge : 2 ≤ buf_size
unfolding buf_size
buf_size-ge = omega arith

module _ {W : Type 0} (files : Files W) (stream : StreamType) (last : Error) where
  module _ (P : W → Type 0) (timely : IsTimely files) (allowed : Allows files P) where
    log_line-Keeps : (text : List ℕ) → length text ≤ buf_size → Keeps P (log_line files stream text)
    unfolding log_line
    log_line-Keeps text h = record {
      at = λ w p.
          allowed.writes _ (decorate-le _ stream text (timely.fits w) h) _ (allowed.clock w p);
    }

    copy_lines-Keeps :
        (fuel : ℕ) (input : List ℕ) → Keeps P (copy_lines files stream last fuel input)
    unfolding copy_lines
    copy_lines-Keeps zero input = record { at = λ w h. h }
    copy_lines-Keeps (suc fuel) input = elim (Line-cases (read_line buf_size input last)) [
      | inl (e, ends) ↦ rw (ends, copy_lines) (record { at = λ w h. h })
      | inr (text, rest, more) ↦
          let reads : Reads buf_size input (line text rest) =
            rw more at (read_line-Reads buf_size input last buf_size-ge) in
          rw (more, copy_lines)
            (Keeps-then (log_line files stream text) (copy_lines files stream last fuel rest)
              (log_line-Keeps text reads.0) (copy_lines-Keeps fuel rest))
    ]

    close_writer-Keeps : Keeps P (attempt files files.close_writer)
    unfolding attempt
    close_writer-Keeps = record { at = allowed.writer }

    close_reader-Keeps : Keeps P (attempt files files.close_reader)
    unfolding attempt
    close_reader-Keeps = record { at = allowed.reader }

    -- Whatever is kept by reading the clock, by closing the files and by writing at most `PIPE_BUF`
    -- bytes is kept by `redirectLogs`, whatever the input: so no write is longer, and each is atomic.
    pub redirect_logs-Keeps : (input : List ℕ) → Keeps P (redirect_logs files stream last input)
    unfolding redirect_logs
    redirect_logs-Keeps input =
        search (keeps_rules, copy_lines-Keeps, close_writer-Keeps, close_reader-Keeps) depth 8

  copy_lines-ends :
      (fuel : ℕ) (input : List ℕ) (w : W)
      → length input < fuel
      → (copy_lines files stream last fuel input w).0 ≡ ok (some last)
  unfolding copy_lines log_line
  copy_lines-ends zero input w h = absurd (omega arith)
  copy_lines-ends (suc fuel) input w h = elim (Line-cases (read_line buf_size input last)) [
    | inl (e, ends) ↦
        rw (ends, copy_lines) (ground (arith, read_line-failed buf_size input last e ends))
    | inr (text, rest, more) ↦
        let reads : Reads buf_size input (line text rest) =
          rw more at (read_line-Reads buf_size input last buf_size-ge) in
        rw (more, copy_lines) (copy_lines-ends fuel rest _ (omega (arith, reads.1)))
  ]

  -- The loop of `redirectLogs` ends for every input, by the error that ends the input.
  pub redirect_logs_ends :
      (input : List ℕ) (w : W) → (redirect_logs files stream last input w).0 ≡ ok (some last)
  unfolding redirect_logs
  redirect_logs_ends input w =
      ground (arith, copy_lines-ends (suc (length input)) input w (omega arith))
