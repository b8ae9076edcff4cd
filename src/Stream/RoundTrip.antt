-- ===== src/Stream/RoundTrip.antt =====
-- What the daemon writes is what a client reads.
use better_nm.Prelude.{
  ℕ, ◌+◌, ◌<◌, List, [], ◌∷◌, ◌++◌, append_assoc, Bool, false, Option, some, ◌==◌, map, length, All,
  All-append, ◌≡◌, refl, ap, ◌∙◌, arith,
}
use better_nm.Stream.Sse.{
  codes, SseEvent, Frame, send, comment, write_frame, write_frames, put_byte, split_lines,
  trim_last, max_line, token, scan_lines, finished, same_bytes, cut_colon, trim_space, new_reader,
  is_empty, flush_event, read_field, deliver, read_lines, read_sse,
}

-- A text on one line: neither a line feed nor a carriage return.
abbrev OneLine : List ℕ → Type 0
OneLine = All (λ b. ((b == 10) ≡ false) × ((b == 13) ≡ false))

-- The texts stand on one line each, which fits in the scanner's buffer behind its field's name.
abbrev pub IsFrame : Frame → Type 0
IsFrame (send event json) =
    OneLine event × OneLine json × (length event + 7 < max_line) × (length json + 6 < max_line)
IsFrame (comment text) = OneLine text × (length text + 2 < max_line)

-- The events that were sent, without the comments.
abbrev pub sent : List Frame → List SseEvent
sent [] = []
sent (send event json ∷ fs) = record { name = event; payload = json } ∷ sent fs
sent (comment text ∷ fs) = sent fs

split_lines-line :
    (line rest : List ℕ)
    → OneLine line
    → split_lines (line ++ (10 ∷ rest)) ≡ line ∷ split_lines rest
unfolding split_lines
split_lines-line [] rest one = refl
split_lines-line (b ∷ line) rest ((nl, cr), one) =
    rw nl (ap (put_byte b) (split_lines-line line rest one))

trim_last-line : (line : List ℕ) → OneLine line → trim_last 13 line ≡ line
unfolding trim_last
trim_last-line [] one = refl
trim_last-line (b ∷ []) ((nl, cr), one) = rw cr refl
trim_last-line (b ∷ (c ∷ line)) (_, one) = ap (λ l. b ∷ l) (trim_last-line (c ∷ line) one)

trim_last-append : (b : ℕ) (bs : List ℕ) → trim_last b (bs ++ (b ∷ [])) ≡ bs
unfolding trim_last
trim_last-append b [] = ground arith
trim_last-append b (c ∷ []) = ap (λ l. c ∷ l) (trim_last-append b [])
trim_last-append b (c ∷ (d ∷ ds)) = ap (λ l. c ∷ l) (trim_last-append b (d ∷ ds))

token-line : (line : List ℕ) → OneLine line → length line < max_line → token line ≡ some line
unfolding token
token-line line one fits = ground (arith, fits, trim_last-line line one)

scan_lines-line :
    (line rest : List ℕ)
    → OneLine line
    → length line < max_line
    → scan_lines (line ++ (10 ∷ rest)) ≡ some line ∷ scan_lines rest
unfolding scan_lines
scan_lines-line line rest one fits =
    ap (map token) (split_lines-line line rest one)
    ∙ ap (λ l. l ∷ map token (split_lines rest)) (token-line line one fits)

event_plain : OneLine (codes "event: ")
event_plain = ground arith

data_plain : OneLine (codes "data: ")
data_plain = ground arith

-- The lines of a frame in front of any text
scan_lines-send :
    (event json rest : List ℕ)
    → IsFrame (send event json)
    → scan_lines (write_frame (send event json) ++ rest)
      ≡ some (codes "event: " ++ event)
        ∷ (some (codes "data: " ++ json) ∷ (some [] ∷ scan_lines rest))
unfolding write_frame
scan_lines-send event json rest (e, j, le, lj) =
    let written = codes "data: " ++ (json ++ (10 ∷ (10 ∷ []))) in
    ap scan_lines (append_assoc (codes "event: " ++ event) (10 ∷ written) rest)
    ∙ scan_lines-line (codes "event: " ++ event) (written ++ rest)
        (All-append _ (codes "event: ") event event_plain e) (omega (arith, le))
    ∙ ap (λ ls. some (codes "event: " ++ event) ∷ ls)
        (ap scan_lines (append_assoc (codes "data: " ++ json) (10 ∷ (10 ∷ [])) rest)
          ∙ scan_lines-line (codes "data: " ++ json) (10 ∷ rest)
              (All-append _ (codes "data: ") json data_plain j) (omega (arith, lj))
          ∙ ap (λ ls. some (codes "data: " ++ json) ∷ ls)
              (scan_lines-line [] rest tt (omega arith)))

scan_lines-comment :
    (text rest : List ℕ)
    → IsFrame (comment text)
    → scan_lines (write_frame (comment text) ++ rest)
      ≡ some (codes ": " ++ text) ∷ (some [] ∷ scan_lines rest)
unfolding write_frame
scan_lines-comment text rest (t, lt) =
    ap scan_lines (append_assoc (codes ": " ++ text) (10 ∷ (10 ∷ [])) rest)
    ∙ scan_lines-line (codes ": " ++ text) (10 ∷ rest) ((refl, refl), ((refl, refl), t))
        (omega (arith, lt))
    ∙ ap (λ ls. some (codes ": " ++ text) ∷ ls) (scan_lines-line [] rest tt (omega arith))

is_empty-append : (json : List ℕ) → is_empty (json ++ (10 ∷ [])) ≡ false
is_empty-append [] = refl
is_empty-append (b ∷ bs) = refl

flush_sent :
    (event json : List ℕ)
    → flush_event (record { name = event; buffer = json ++ (10 ∷ []) })
      ≡ record { name = event; payload = json } ∷ []
unfolding flush_event
flush_sent event json =
    let filled = is_empty-append json in ground (arith, filled, trim_last-append 10 json)

read_send :
    (wants : SseEvent → Bool) (event json : List ℕ) (lines : List (Option (List ℕ)))
    → read_lines wants
        (some (codes "event: " ++ event) ∷ (some (codes "data: " ++ json) ∷ (some [] ∷ lines)))
        new_reader
      ≡ deliver wants
          (record { name = event; payload = json } ∷ [])
          (read_lines wants lines new_reader)
unfolding read_lines read_field cut_colon same_bytes trim_space flush_event
read_send wants event json lines =
    ap (λ es. deliver wants es (read_lines wants lines new_reader)) (flush_sent event json)

-- As long as event names and payloads stand on one line, of less than 8 MiB with its field's name: a
-- client that reads what the daemon wrote gets the events that were sent, in order and unchanged, up
-- to the first one after which it wants no more, and ends without an error; comments, such as the
-- heartbeat's, of less than 8 MiB leave no trace.
pub read_sse-write_frames :
    (wants : SseEvent → Bool) (fs : List Frame)
    → All IsFrame fs
    → read_sse wants (write_frames fs) ≡ deliver wants (sent fs) ([], finished)
unfolding read_sse write_frames read_lines
read_sse-write_frames wants [] one = refl
read_sse-write_frames wants (send event json ∷ fs) (f, one) =
    let ev : SseEvent = record { name = event; payload = json } in
    ap (λ ls. read_lines wants ls new_reader) (scan_lines-send event json (write_frames fs) f)
    ∙ read_send wants event json (scan_lines (write_frames fs))
    ∙ ap (λ r. deliver wants (ev ∷ []) r) (read_sse-write_frames wants fs one)
read_sse-write_frames wants (comment text ∷ fs) (f, one) =
    ap (λ ls. read_lines wants ls new_reader) (scan_lines-comment text (write_frames fs) f)
    ∙ read_sse-write_frames wants fs one
