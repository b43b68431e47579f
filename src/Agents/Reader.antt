-- ===== src/Agents/Reader.antt =====
-- The reader of pkg/server/agents/logger.go: `ReadLine` of a `bufio.Reader` with a buffer of a given
-- size, over the bytes that are still to be read and the error that ends them.
pub mod Lines
use cri_containerd.Base.{
  ℕ, zero, suc, ◌==◌, nat_eq, Bool, true, false, List, [], ◌∷◌, ◌++◌, Error, if◌then◌else◌,
}

abbrev pub eol : ℕ
eol = 10

abbrev pub carriage_return : ℕ
carriage_return = 13

-- How a `ReadSlice('\n')` ends: the buffer is full, the input has ended, or there is an end of line.
pub data Ending : Type 0 where
  full ended line_end : Ending

-- the bytes before the end, and what is left
pub record Slice : Type 0 where
  pub bytes : List ℕ
  pub ending : Ending
  pub rest : List ℕ

-- `ReadSlice('\n')` with that much room in the buffer
unfoldable pub read_slice : ℕ → List ℕ → Slice
read_slice zero input = record { bytes = []; ending = full; rest = input }
read_slice (suc room) [] = record { bytes = []; ending = ended; rest = [] }
read_slice (suc room) (b ∷ input) =
    let slice = read_slice room input in
    if b == eol
    then record { bytes = []; ending = line_end; rest = input }
    else record slice { bytes = b ∷ slice.bytes }

-- whether the last byte is a carriage return
unfoldable pub ends_in_return : List ℕ → Bool
ends_in_return [] = false
ends_in_return (b ∷ []) = b == carriage_return
ends_in_return (b ∷ c ∷ bs) = ends_in_return (c ∷ bs)

unfoldable pub drop_last : List ℕ → List ℕ
drop_last [] = []
drop_last (b ∷ []) = []
drop_last (b ∷ c ∷ bs) = b ∷ drop_last (c ∷ bs)

pub data Line : Type 0 where
  line : List ℕ → List ℕ → Line
  failed : Error → Line

-- A full buffer that ends in a carriage return puts it back; with an end of line it is dropped.
unfoldable pub finish_line : Error → Slice → Ending → Line
unfolding ends_in_return drop_last
finish_line last slice full =
    if ends_in_return slice.bytes
    then line (drop_last slice.bytes) (carriage_return ∷ slice.rest)
    else line slice.bytes slice.rest
finish_line last slice ended = elim slice.bytes [
  | [] ↦ failed last
  | b ∷ bs ↦ line (b ∷ bs) slice.rest
]
finish_line last slice line_end =
    line (if ends_in_return slice.bytes then drop_last slice.bytes else slice.bytes) slice.rest

-- `ReadLine`
unfoldable pub read_line : ℕ → List ℕ → Error → Line
unfolding read_slice finish_line
read_line size input last = let slice = read_slice size input in finish_line last slice slice.ending
