-- ===== src/Cli/Safe.antt =====
-- internal/cli/safe.go: the writer that keeps text from the outside world from steering the
-- terminal. A byte is a number below 256. The loop's index is a mode: plain reading, a byte
-- that is skipped, or one byte more than a number that are still to be copied. Errors of the
-- underlying writer are left out.
pub mod Output
pub mod Chunks
pub mod Controls
use better_nm.Prelude.{
  ℕ, zero, suc, ◌+◌, List, [], ◌∷◌, ◌++◌, Bool, true, false, not, ◌&&◌, ◌||◌, ltb, leb, ◌==◌,
  if◌then◌else◌, length,
}

abbrev pub esc : ℕ
esc = 27

abbrev pub is_param : ℕ → Bool
is_param c = (leb 48 c && leb c 57) || (c == 59) || (c == 58)

-- What `sgrEnd` finds behind an ESC: a sequence of one byte more than the number, something else, or the end of
-- the input while it still could be one.
pub data Scan : Type 0 where
  complete : ℕ → Scan
  broken : Scan
  ran_out : Scan

abbrev pub one_more : Scan → Scan
one_more (complete n) = complete (suc n)
one_more broken = broken
one_more ran_out = ran_out

-- The loop over the parameters.
unfoldable pub scan_params : List ℕ → Scan
scan_params [] = ran_out
scan_params (c ∷ cs) =
    let rest = scan_params cs in
    if is_param c then one_more rest else if c == 109 then complete 0 else broken

unfoldable pub sgr_end : List ℕ → Scan
unfolding scan_params
sgr_end [] = ran_out
sgr_end (c ∷ cs) = if c == 91 then one_more (scan_params cs) else broken

pub data Mode : Type 0 where
  plain : Mode
  copy : ℕ → Mode
  skip : Mode

-- The next byte is an 8-bit control's second one.
abbrev pub starts_c1 : List ℕ → Bool
starts_c1 [] = false
starts_c1 (c ∷ cs) = leb 128 c && leb c 159

-- ASCII controls other than newline and tab, and DEL
abbrev pub is_control : ℕ → Bool
is_control b = (ltb b 32 || (b == 127)) && not (b == 10) && not (b == 9)

abbrev pub emit : ℕ → List ℕ × List ℕ → List ℕ × List ℕ
emit b (out, hold) = (b ∷ out, hold)

-- Behind an ESC; the three results of the rest of the loop are those with the sequence copied, and
-- with the ESC dropped.
abbrev pub at_esc : Scan → Bool → List ℕ → (ℕ → List ℕ × List ℕ) → List ℕ × List ℕ → List ℕ × List ℕ
at_esc (complete n) final rest copied dropped = emit esc (copied n)
at_esc broken final rest copied dropped = dropped
at_esc ran_out final rest copied dropped = if final then dropped else ([], esc ∷ rest)

-- `sanitizeBytes`
unfoldable pub sanitize : Bool → Mode → List ℕ → List ℕ × List ℕ
unfolding sgr_end
sanitize final mode [] = ([], [])
sanitize final skip (b ∷ rest) = sanitize final plain rest
sanitize final (copy zero) (b ∷ rest) = emit b (sanitize final plain rest)
sanitize final (copy (suc n)) (b ∷ rest) = emit b (sanitize final (copy n) rest)
sanitize final plain (b ∷ rest) =
    let read = sanitize final plain rest in
    let skipped = sanitize final skip rest in
    if b == esc
    then at_esc (sgr_end rest) final rest (λ n. sanitize final (copy n) rest) read
    else if is_control b
    then read
    else if (b == 194) && starts_c1 rest
    then skipped
    else emit b read

-- The writer's state is `hold`; a write and a flush return it beside what reaches the terminal.
unfoldable pub write : List ℕ → List ℕ → List ℕ × List ℕ
write hold p = let (out, hold') = sanitize false plain (hold ++ p) in (hold', out)

unfoldable pub flush : List ℕ → List ℕ × List ℕ
flush hold = ([], (sanitize true plain hold).0)

-- All writes, and a flush.
unfoldable pub write_all : List ℕ → List (List ℕ) → List ℕ
write_all hold [] = (flush hold).1
write_all hold (p ∷ ps) = let (hold', out) = write hold p in out ++ write_all hold' ps
