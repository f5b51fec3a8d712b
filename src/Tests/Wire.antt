-- ===== src/Tests/Wire.antt =====
-- Frames of the wire protocol.
use true_tick.Base.{ℕ, ◌≡◌, ◌≢◌, refl, ok, arith, List, [], ◌∷◌, ◌++◌, All}
use true_tick.Base.Bytes.{IsByte}
use true_tick.Ipc.{request_acquire}
use true_tick.Ipc.Crc.{crc32}
use true_tick.Ipc.Frame.{IpcFrame, serialize, deserialize, frame_body}
use true_tick.Ipc.Frame.Roundtrip.{IsWellFormed, deserialize-serialize}
use true_tick.Ipc.Frame.Canonical.{serialize-deserialize}
use true_tick.Ipc.Frame.Tamper.{deserialize_altered}

abbrev token : List ℕ
token =
    1 ∷ 2 ∷ 3 ∷ 4 ∷ 5 ∷ 6 ∷ 7 ∷ 8 ∷ 9 ∷ 10 ∷ 11 ∷ 12 ∷ 13 ∷ 14 ∷ 15 ∷ 16 ∷ 17 ∷ 18 ∷ 19 ∷ 20 ∷ 21
    ∷ 22 ∷ 23 ∷ 24 ∷ 25 ∷ 26 ∷ 27 ∷ 28 ∷ 29 ∷ 30 ∷ 31 ∷ 255 ∷ []

abbrev frame : IpcFrame
frame = record { token = token; verb = request_acquire; payload = 16 ∷ 39 ∷ [] }

frame-IsWellFormed : IsWellFormed frame
frame-IsWellFormed = omega arith

deserialize-serialize_example : deserialize (serialize frame) ≡ ok frame
deserialize-serialize_example = deserialize-serialize frame frame-IsWellFormed

-- The bytes of the frame, round the second byte of its payload.
abbrev before : List ℕ
before =
    84 ∷ 84 ∷ 73 ∷ 80 ∷ 1 ∷ 0 ∷ 2 ∷ 0 ∷ 1 ∷ 2 ∷ 3 ∷ 4 ∷ 5 ∷ 6 ∷ 7 ∷ 8 ∷ 9 ∷ 10 ∷ 11 ∷ 12 ∷ 13 ∷ 14
    ∷ 15 ∷ 16 ∷ 17 ∷ 18 ∷ 19 ∷ 20 ∷ 21 ∷ 22 ∷ 23 ∷ 24 ∷ 25 ∷ 26 ∷ 27 ∷ 28 ∷ 29 ∷ 30 ∷ 31 ∷ 255 ∷ 2
    ∷ 0 ∷ 0 ∷ 0 ∷ 16 ∷ []

abbrev behind : List ℕ
behind = 66 ∷ 209 ∷ 168 ∷ 185 ∷ []

frame_bytes : serialize frame ≡ before ++ 39 ∷ behind
unfolding serialize frame_body crc32
frame_bytes = refl

bytes-IsByte : All IsByte (before ++ 39 ∷ behind)
bytes-IsByte = omega arith

accepted : deserialize (before ++ 39 ∷ behind) ≡ ok frame
accepted = rw (← frame_bytes) deserialize-serialize_example

serialize-deserialize_example : (serialize frame ≡ before ++ 39 ∷ behind) × IsWellFormed frame
serialize-deserialize_example =
    serialize-deserialize (before ++ 39 ∷ behind) frame bytes-IsByte accepted

deserialize_altered_example : deserialize (before ++ 40 ∷ behind) ≢ ok frame
deserialize_altered_example =
    deserialize_altered before behind 39 40 frame frame bytes-IsByte (omega arith) (omega arith)
      accepted
