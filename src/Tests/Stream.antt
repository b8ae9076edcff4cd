-- ===== src/Tests/Stream.antt =====
-- A concrete stream.
use better_nm.Prelude.{List, [], ◌∷◌, true, All, ◌≡◌, arith}
use better_nm.Stream.Sse.{codes, Frame, send, comment, write_frames, finished, deliver, read_sse}
use better_nm.Stream.RoundTrip.{IsFrame, sent, read_sse-write_frames}

abbrev frames : List Frame
frames =
    comment (codes "connected")
    ∷ (send (codes "change") (codes "{}")
        ∷ (comment (codes "ping") ∷ (send (codes "event") (codes "{}") ∷ [])))

frames-IsFrame : All IsFrame frames
frames-IsFrame = ground arith

read_sse-write_frames_example :
    read_sse (λ e. true) (write_frames frames) ≡ deliver (λ e. true) (sent frames) ([], finished)
read_sse-write_frames_example = read_sse-write_frames (λ e. true) frames frames-IsFrame
