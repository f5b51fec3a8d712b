-- ===== src/Ipc/Frame/Reading.antt =====
-- What the checks of `deserialize` in crates/tick-ipc/src/lib.rs establish of the bytes.
use true_tick.Base.{ℕ, ◌+◌, ◌≤◌, ◌≡◌, List, ok, some, length, take, arith}
use true_tick.Base.Try.{◌>>◌, bind_inv}
use true_tick.Base.Bytes.{from_le_bytes, slice, bytes_eq_self, eq_of_bytes_eq}
use true_tick.Ipc.{magic_bytes, protocol_version, max_payload_len, verb_from_u32}
use true_tick.Ipc.Crc.{crc32}
use true_tick.Ipc.Frame.{check_header, check_body, read_fields, IpcFrame, deserialize}

-- What the checks establish, and the fields that are read.
pub record HasHeader (bytes : List ℕ) (len : ℕ) : Type 0 where
  pub long : 48 ≤ length bytes
  pub magic : slice 0 4 bytes ≡ magic_bytes
  pub version : from_le_bytes (slice 4 6 bytes) ≡ protocol_version
  pub payload_len : from_le_bytes (slice 6 8 bytes) ≡ len
  pub bound : len ≤ max_payload_len

pub record HasBody (len : ℕ) (bytes : List ℕ) : Type 0 where
  pub total : length bytes ≡ 48 + len
  pub checksum :
      crc32 (take (44 + len) bytes) ≡ from_le_bytes (slice (44 + len) (44 + len + 4) bytes)

pub record HasFields (len : ℕ) (bytes : List ℕ) (f : IpcFrame) : Type 0 where
  pub token : slice 8 40 bytes ≡ f.token
  pub verb : verb_from_u32 (from_le_bytes (slice 40 44 bytes)) ≡ some f.verb
  pub payload : slice 44 (44 + len) bytes ≡ f.payload

pub check_header-HasHeader :
    (bytes : List ℕ) (len : ℕ) → check_header bytes ≡ ok len → HasHeader bytes len
unfolding check_header
check_header-HasHeader bytes len h = ground (arith, eq_of_bytes_eq (take 4 bytes) magic_bytes)

check_header-of : (bytes : List ℕ) (len : ℕ) → HasHeader bytes len → check_header bytes ≡ ok len
unfolding check_header
check_header-of bytes len h = ground (arith, bytes_eq_self magic_bytes)

pub check_body-HasBody :
    (len : ℕ) (bytes : List ℕ) → check_body len bytes ≡ ok tt → HasBody len bytes
unfolding check_body
check_body-HasBody len bytes h = ground arith

check_body-of : (len : ℕ) (bytes : List ℕ) → HasBody len bytes → check_body len bytes ≡ ok tt
unfolding check_body
check_body-of len bytes h = ground arith

pub read_fields-HasFields :
    (len : ℕ) (bytes : List ℕ) (f : IpcFrame) → read_fields len bytes ≡ ok f → HasFields len bytes f
unfolding read_fields
read_fields-HasFields len bytes f h = ground arith

read_fields-of :
    (len : ℕ) (bytes : List ℕ) (f : IpcFrame) → HasFields len bytes f → read_fields len bytes ≡ ok f
unfolding read_fields
read_fields-of len bytes f h = ground arith

-- A frame is read exactly where the three hold, for one length.
pub deserialize-Reads :
    (bytes : List ℕ) (f : IpcFrame)
    → deserialize bytes ≡ ok f
    → (len : ℕ) × HasHeader bytes len × HasBody len bytes × HasFields len bytes f
unfolding deserialize
deserialize-Reads bytes f h =
    let (len, header, rest) =
      bind_inv (check_header bytes) (λ len. check_body len bytes >> read_fields len bytes) h in
    let (_, body, fields) = bind_inv (check_body len bytes) (λ _. read_fields len bytes) rest in
    (
      len,
      check_header-HasHeader bytes len header,
      check_body-HasBody len bytes body,
      read_fields-HasFields len bytes f fields,
    )

pub deserialize-of :
    (bytes : List ℕ) (f : IpcFrame) (len : ℕ)
    → HasHeader bytes len
    → HasBody len bytes
    → HasFields len bytes f
    → deserialize bytes ≡ ok f
unfolding deserialize
deserialize-of bytes f len h b r =
    ground
      (arith, check_header-of bytes len h, check_body-of len bytes b, read_fields-of len bytes f r)
