-- ===== src/Stream/Sse.antt =====
-- Server-Sent Events: the writer of internal/api/server.go (`sseWriter`) and the reader of
-- internal/client/sse.go. A text is its bytes; errors of the connection are left out.
use Prim.Native.Char.{code}
use better_nm.Prelude.{
  ℕ, String, List, [], ◌∷◌, ◌++◌, Bool, true, false, ◌&&◌, Option, none, some, ltb, ◌==◌,
  if◌then◌else◌, map, length,
}

-- The bytes of an ASCII text
abbrev pub codes : String → List ℕ
codes String.[] = []
codes (String.◌∷◌ c s) = code c ∷ codes s

pub record SseEvent : Type 0 where
  pub name : List ℕ
  pub payload : List ℕ

-- `send` and `comment`
pub data Frame : Type 0 where
  send : List ℕ → List ℕ → Frame
  comment : List ℕ → Frame

unfoldable pub write_frame : Frame → List ℕ
write_frame (send event json) =
    codes "event: " ++ (event ++ (10 ∷ (codes "data: " ++ (json ++ (10 ∷ (10 ∷ []))))))
write_frame (comment text) = codes ": " ++ (text ++ (10 ∷ (10 ∷ [])))

unfoldable pub write_frames : List Frame → List ℕ
unfolding write_frame
write_frames [] = []
write_frames (f ∷ fs) = write_frame f ++ write_frames fs

-- `bufio.ScanLines`
abbrev pub put_byte : ℕ → List (List ℕ) → List (List ℕ)
put_byte b [] = (b ∷ []) ∷ []
put_byte b (line ∷ lines) = (b ∷ line) ∷ lines

unfoldable pub split_lines : List ℕ → List (List ℕ)
split_lines [] = []
split_lines (b ∷ bs) = let rest = split_lines bs in if b == 10 then [] ∷ rest else put_byte b rest

-- The text without a last byte of that value
unfoldable pub trim_last : ℕ → List ℕ → List ℕ
trim_last b [] = []
trim_last b (c ∷ []) = if c == b then [] else c ∷ []
trim_last b (c ∷ (d ∷ ds)) = c ∷ trim_last b (d ∷ ds)

-- `8<<20`: the size of the scanner's buffer, in which a line has to fit with its line feed.
abbrev pub max_line : ℕ
max_line = 8388608

-- A line without its carriage return; none is `bufio.ErrTooLong` in its place.
unfoldable pub token : List ℕ → Option (List ℕ)
unfolding trim_last
token line = if ltb (length line) max_line then some (trim_last 13 line) else none

unfoldable pub scan_lines : List ℕ → List (Option (List ℕ))
unfolding split_lines token
scan_lines text = map token (split_lines text)

unfoldable pub same_bytes : List ℕ → List ℕ → Bool
same_bytes [] [] = true
same_bytes (x ∷ xs) (y ∷ ys) = (x == y) && same_bytes xs ys
same_bytes _ _ = false

-- `strings.Cut` at a colon; without one all of the line is the field.
unfoldable pub cut_colon : List ℕ → List ℕ × List ℕ
cut_colon [] = ([], [])
cut_colon (b ∷ bs) =
    let (field, value) = cut_colon bs in if b == 58 then ([], bs) else (b ∷ field, value)

unfoldable pub trim_space : List ℕ → List ℕ
trim_space [] = []
trim_space (b ∷ bs) = if b == 32 then bs else b ∷ bs

-- The variables `name` and `data`.
pub record Reader : Type 0 where
  pub name : List ℕ
  pub buffer : List ℕ

abbrev pub new_reader : Reader
new_reader = record { name = []; buffer = [] }

abbrev pub is_empty : List ℕ → Bool
is_empty [] = true
is_empty (b ∷ bs) = false

unfoldable pub flush_event : Reader → List SseEvent
unfolding trim_last
flush_event r =
    if is_empty r.name && is_empty r.buffer
    then []
    else record { name = r.name; payload = trim_last 10 r.buffer } ∷ []

unfoldable pub read_field : List ℕ × List ℕ → Reader → Reader
unfolding same_bytes trim_space
read_field (field, value) r =
    if same_bytes field (codes "event")
    then record r { name = trim_space value }
    else if same_bytes field (codes "data")
    then record r { buffer = r.buffer ++ (trim_space value ++ (10 ∷ [])) }
    else r

-- What `readSSE` returns: nil, or the scanner's error.
pub data Ending : Type 0 where
  finished too_long : Ending

-- The events that reach `fn`, which asks for more by `wants`; after the last one it wants the result is
-- nil.
abbrev pub deliver :
    (SseEvent → Bool) → List SseEvent → List SseEvent × Ending → List SseEvent × Ending
deliver wants [] rest = rest
deliver wants (e ∷ es) rest =
    let (more, ending) = deliver wants es rest in
    if wants e then (e ∷ more, ending) else (e ∷ [], finished)

-- The loop, with the flush behind it; an error of the scanner ends it without that flush.
unfoldable pub read_lines :
    (SseEvent → Bool) → List (Option (List ℕ)) → Reader → List SseEvent × Ending
unfolding flush_event read_field cut_colon
read_lines wants [] r = deliver wants (flush_event r) ([], finished)
read_lines wants (none ∷ lines) r = ([], too_long)
read_lines wants (some [] ∷ lines) r =
    deliver wants (flush_event r) (read_lines wants lines new_reader)
read_lines wants (some (b ∷ line) ∷ lines) r =
    let r' = if b == 58 then r else read_field (cut_colon (b ∷ line)) r in read_lines wants lines r'

-- `readSSE`
unfoldable pub read_sse : (SseEvent → Bool) → List ℕ → List SseEvent × Ending
unfolding read_lines scan_lines
read_sse wants text = read_lines wants (scan_lines text) new_reader
