-- ===== src/Agents/Reader/Lines.antt =====
-- What the reader returns, and how it splits its input into lines.
use cri_containerd.Base.{
  ℕ, zero, suc, ◌+◌, ◌≤◌, ◌<◌, nat_eq, ◌≡◌, ◌≢◌, ◌⊎◌, inl, inr, refl, true, false, List, [], ◌∷◌,
  ◌++◌, Error, arith, length, Bool-cases,
}
use cri_containerd.Agents.Reader.{
  eol, Ending, full, ended, line_end, Slice, read_slice, ends_in_return, drop_last, Line, line,
  failed, finish_line, read_line,
}

-- What a slice has used up of its input and its room.
pub record Fits (room : ℕ) (input : List ℕ) (s : Slice) (e : Ending) : Type 0 where
  pub within : length s.bytes ≤ room
  pub shorter : length s.bytes + length s.rest ≤ length input
  pub when_full : e ≡ full → (length s.bytes ≡ room)
  pub when_line_end : e ≡ line_end → length s.bytes + length s.rest < length input

read_slice-Fits :
    (room : ℕ) (input : List ℕ)
    → Fits room input (read_slice room input) (read_slice room input).ending
unfolding read_slice
read_slice-Fits zero input = record {
  within = ground arith;
  shorter = ground arith;
  when_full = λ e. ground arith;
  when_line_end = λ e. cc;
}
read_slice-Fits (suc room) [] = record {
  within = ground arith;
  shorter = ground arith;
  when_full = λ e. cc;
  when_line_end = λ e. cc;
}
read_slice-Fits (suc room) (b ∷ input) =
    let ih : Fits room input (read_slice room input) (read_slice room input).ending =
      read_slice-Fits room input in
    record {
      within = ground (arith, ih.within);
      shorter = ground (arith, ih.shorter);
      when_full = λ e. ground (arith, ih.when_full, e);
      when_line_end = λ e. ground (arith, ih.when_line_end, e);
    }

length-drop_last : (bs : List ℕ) → ends_in_return bs ≡ true → length (drop_last bs) + 1 ≡ length bs
unfolding ends_in_return drop_last
length-drop_last [] h = cc
length-drop_last (b ∷ []) h = omega arith
length-drop_last (b ∷ c ∷ bs) h = omega (arith, length-drop_last (c ∷ bs) h)

-- A line fits into the buffer, and reading it leaves less to read.
abbrev pub Reads : ℕ → List ℕ → Line → Type 0
Reads size input (line text rest) = (length text ≤ size) × (length rest < length input)
Reads size input (failed e) = Unit

ended-Reads :
    (size : ℕ) (input bs rest : List ℕ) (last : Error)
    → length bs ≤ size
    → length bs + length rest ≤ length input
    → Reads size input (finish_line last (record { bytes = bs; ending = ended; rest = rest }) ended)
unfolding finish_line
ended-Reads size input [] rest last h k = tt
ended-Reads size input (b ∷ bs) rest last h k = omega arith

finish-Reads :
    (size : ℕ) (input : List ℕ) (last : Error) (s : Slice) (e : Ending)
    → 2 ≤ size
    → Fits size input s e
    → Reads size input (finish_line last s e)
unfolding finish_line
finish-Reads size input last s full h f = elim (Bool-cases (ends_in_return s.bytes)) [
  | inl returns ↦
      rw (returns, finish_line)
        (ground (arith, f.when_full refl, f.shorter, length-drop_last s.bytes returns))
  | inr plain ↦ rw (plain, finish_line) (ground (arith, f.when_full refl, f.shorter))
]
finish-Reads size input last s ended h f =
    ended-Reads size input s.bytes s.rest last f.within f.shorter
finish-Reads size input last s line_end h f = elim (Bool-cases (ends_in_return s.bytes)) [
  | inl returns ↦
      rw (returns, finish_line)
        (ground (arith, f.when_line_end refl, f.within, length-drop_last s.bytes returns))
  | inr plain ↦ rw (plain, finish_line) (ground (arith, f.when_line_end refl, f.within))
]

pub read_line-Reads :
    (size : ℕ) (input : List ℕ) (last : Error)
    → 2 ≤ size
    → Reads size input (read_line size input last)
unfolding read_line
read_line-Reads size input last h = finish-Reads size input last _ _ h (read_slice-Fits size input)

finish-failed :
    (last : Error) (s : Slice) (e : Ending) (f : Error) → finish_line last s e ≡ failed f → f ≡ last
unfolding finish_line
finish-failed last s full f h = ground (arith, h)
finish-failed last s ended f h = ground (arith, h)
finish-failed last s line_end f h = cc

-- The reader fails only with the error that ends its input.
pub read_line-failed :
    (size : ℕ) (input : List ℕ) (last f : Error) → read_line size input last ≡ failed f → f ≡ last
unfolding read_line
read_line-failed size input last f h =
    finish-failed last (read_slice size input) (read_slice size input).ending f h

pub Line-cases :
    (l : Line)
    → ((e : Error) × (l ≡ failed e)) ⊎ ((text : List ℕ) × (rest : List ℕ) × (l ≡ line text rest))
Line-cases (failed e) = inl (e, refl)
Line-cases (line text rest) = inr (text, rest, refl)

-- No byte of the text ends a line.
abbrev pub Lacks : List ℕ → Type 0
Lacks [] = Unit
Lacks (b ∷ bs) = (b ≢ eol) × Lacks bs

read_slice-line_end :
    (size : ℕ) (text rest : List ℕ)
    → Lacks text
    → length text < size
    → read_slice size (text ++ eol ∷ rest) ≡ record { bytes = text; ending = line_end; rest = rest }
unfolding read_slice
read_slice-line_end zero text rest h k = absurd (omega arith)
read_slice-line_end (suc size) [] rest h k = refl
read_slice-line_end (suc size) (b ∷ text) rest h k =
    ground (arith, h.0, read_slice-line_end size text rest h.1)

read_slice-full :
    (text more : List ℕ)
    → Lacks text
    → read_slice (length text) (text ++ more) ≡ record { bytes = text; ending = full; rest = more }
unfolding read_slice
read_slice-full [] more h = refl
read_slice-full (b ∷ text) more h = ground (arith, h.0, read_slice-full text more h.1)

-- A line that is shorter than the buffer is read whole, without its end.
pub read_line-short :
    (size : ℕ) (text rest : List ℕ) (last : Error)
    → Lacks text
    → ends_in_return text ≡ false
    → length text < size
    → read_line size (text ++ eol ∷ rest) last ≡ line text rest
unfolding read_line
read_line-short size text rest last h plain k =
    ground (arith, read_slice-line_end size text rest h k, plain)

-- Of a line that fills the buffer the end is left to be read.
pub read_line-full :
    (text more : List ℕ) (last : Error)
    → Lacks text
    → ends_in_return text ≡ false
    → read_line (length text) (text ++ more) last ≡ line text more
unfolding read_line
read_line-full text more last h plain = ground (arith, read_slice-full text more h, plain)

pub read_line-nil : (size : ℕ) (last : Error) → 0 < size → read_line size [] last ≡ failed last
unfolding read_line
read_line-nil zero last h = absurd (omega arith)
read_line-nil (suc size) last h = refl

pub returns-nil : ends_in_return [] ≡ false
unfolding ends_in_return
returns-nil = refl
