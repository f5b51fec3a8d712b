-- ===== src/Session/Classified.antt =====
-- What the tombstone of apps/true-tick/src/session.rs tells of the earlier session.
use mathlib.Core.List.{append_assoc}
use true_tick.Base.{
  ℕ, ◌≡◌, ◌<◌, ◌^◌, refl, sym, ap, ◌∙◌, ltb, not, true, some, ◌++◌, Result, ok, err, arith, length,
  take, drop, take-append, drop-append, length-append, method_inv, Option-cases, inl, inr,
}
use true_tick.Base.Bytes.{
  bytes_eq, bytes_eq_self, to_le_bytes, from_le_bytes, slice, from-to_le_bytes,
}
use true_tick.Base.Text.{Text}
use true_tick.Session.{
  SessionTombstone, checksum, encode_bytes, decode_bytes, classify_previous_session_bytes,
  PreviousSession, tombstone_magic, tombstone_version, sanitize_abort_reason, classify_session_read,
}
use true_tick.Session.Files.{
  IoError, MarkerFiles, replace_marker, cleaning, write_session_bytes_atomic,
  read_session_marker_bytes, current, write_aborted_session_marker,
}

-- The first bytes of a text, and what follows a part of known length.
take-first : (n : ℕ) (s t : Text) → length s ≡ n → take n (s ++ t) ≡ s
take-first n s t h = ap (λ k. take k (s ++ t)) (sym h) ∙ take-append s t

drop-first : (n : ℕ) (s t : Text) → length s ≡ n → drop n (s ++ t) ≡ t
drop-first n s t h = ap (λ k. drop k (s ++ t)) (sym h) ∙ drop-append s t

abbrev laid : Text → Text → Text → Text → Text
laid c p s extra = tombstone_magic ++ (tombstone_version ++ (c ++ (p ++ (s ++ extra))))

module _ (c p s extra : Text) (digest : length c ≡ 32) (pid : length p ≡ 4)
    (seconds : length s ≡ 8) where
  laid-checksum : slice 6 38 (laid c p s extra) ≡ c
  laid-checksum = take-first 32 c (p ++ (s ++ extra)) digest

  laid-pid : slice 38 42 (laid c p s extra) ≡ p
  laid-pid =
      ap (take 4) (drop-first 32 c (p ++ (s ++ extra)) digest) ∙ take-first 4 p (s ++ extra) pid

  laid-seconds : slice 42 50 (laid c p s extra) ≡ s
  laid-seconds =
      ap (λ t. take 8 (drop 36 t)) (sym (append_assoc c p (s ++ extra)))
      ∙ ap (take 8)
          (drop-first 36 (c ++ p) (s ++ extra) (omega (arith, digest, pid, length-append c p)))
      ∙ take-first 8 s extra seconds

  laid-room : not (ltb (length (laid c p s extra)) 50) ≡ true
  laid-room = ground (
    arith,
    digest,
    pid,
    seconds,
    length-append c (p ++ (s ++ extra)),
    length-append p (s ++ extra),
    length-append s extra,
  )

module _ (sha256 : Text → Text) (length-sha256 : (s : Text) → length (sha256 s) ≡ 32) where
  decode-laid :
      (t : SessionTombstone) (c p s extra : Text)
      → length c ≡ 32
      → length p ≡ 4
      → length s ≡ 8
      → from_le_bytes p ≡ t.pid
      → from_le_bytes s ≡ t.startup_timestamp_secs
      → checksum sha256 t ≡ c
      → decode_bytes sha256 (laid c p s extra) ≡ ok t
  unfolding decode_bytes bytes_eq
  decode-laid t c p s extra digest pid seconds same later summed =
      rw
        (
          laid-room c p s extra digest pid seconds,
          laid-pid c p s extra digest pid seconds,
          laid-seconds c p s extra digest pid seconds,
          laid-checksum c p s extra digest pid seconds,
          same,
          later,
          summed,
          bytes_eq_self c,
        )
        refl

  -- With a hash of 32 bytes, the tombstone of a process, whose id fits 32 bits and whose start
  -- fits 64 bits, is read back from its bytes, whatever follows them.
  pub decode-encode_bytes :
      (t : SessionTombstone) (extra : Text)
      → t.pid < 2 ^ 32
      → t.startup_timestamp_secs < 2 ^ 64
      → decode_bytes sha256 (encode_bytes sha256 t ++ extra) ≡ ok t
  unfolding encode_bytes checksum
  decode-encode_bytes t extra small early =
      let sum = checksum sha256 t in
      let pid = to_le_bytes 4 t.pid in
      let seconds = to_le_bytes 8 t.startup_timestamp_secs in
      ap (λ rest. decode_bytes sha256 (tombstone_magic ++ (tombstone_version ++ rest)))
        (append_assoc sum (pid ++ seconds) extra
          ∙ ap (λ rest. sum ++ rest) (append_assoc pid seconds extra))
      ∙ decode-laid t sum pid seconds extra (length-sha256 _) refl refl
          (from-to_le_bytes 4 t.pid small) (from-to_le_bytes 8 t.startup_timestamp_secs early) refl

  classify-encode_bytes :
      (t : SessionTombstone) (reason : Text)
      → t.pid < 2 ^ 32
      → t.startup_timestamp_secs < 2 ^ 64
      → classify_previous_session_bytes sha256 (some (encode_bytes sha256 t ++ reason))
        ≡ PreviousSession.unclean_shutdown
  unfolding classify_previous_session_bytes
  classify-encode_bytes t reason small early =
      rw (classify_previous_session_bytes, decode-encode_bytes t reason small early) refl

-- The marker that a replacement without an error leaves is the one that is read.
abbrev pub IsReadBack : {W : Type 0} → MarkerFiles W → Type 0
IsReadBack {W} files =
    (bytes : Text) (w v : W) → replace_marker files bytes w ≡ (ok tt, v) → files.read v ≡ ok bytes

module _ {W : Type 0} (files : MarkerFiles W) (sha256 : Text → Text)
    (length-sha256 : (s : Text) → length (sha256 s) ≡ 32) (read_back : IsReadBack files) where
  written-read :
      (bytes : Text) (w v : W)
      → write_session_bytes_atomic files bytes w ≡ (ok tt, v)
      → read_session_marker_bytes files v ≡ ok (some bytes)
  unfolding write_session_bytes_atomic read_session_marker_bytes
  written-read bytes w v h =
      let (u, t, made, h1) =
        method_inv files.create_dir_all (λ u t. cleaning files (replace_marker files bytes t)) w
          h in
      let replaced = cleaned (replace_marker files bytes t) h1 in
      rw (read_session_marker_bytes, read_back bytes t v replaced) refl
    where
      cleaned : (r : Result (Unit {0}) IoError × W) → cleaning files r ≡ (ok tt, v) → r ≡ (ok tt, v)
      cleaned (ok u, t) e = e
      cleaned (err x, t) e = ground (arith, ap (λ r. r.0) e)

  -- With a hash of 32 bytes, a process id of 32 bits, seconds of 64 bits and files that give back
  -- what replaced the marker, a start that was recorded as aborted, for any reason, is read by the
  -- next start as an unclean shutdown.
  pub aborted-unclean :
      (reason : Text) (w v : W)
      → files.process_id < 2 ^ 32
      → ((seconds : ℕ) → files.epoch_seconds w ≡ some seconds → seconds < 2 ^ 64)
      → write_aborted_session_marker files sha256 reason w ≡ (ok tt, v)
      → classify_session_read sha256 (read_session_marker_bytes files v)
        ≡ PreviousSession.unclean_shutdown
  unfolding write_aborted_session_marker current classify_session_read
  aborted-unclean reason w v small early h = elim (Option-cases (files.epoch_seconds w)) [
    | inl none_yet ↦ ground (arith, ap (λ r. r.0) h, none_yet)
    | inr (seconds, clock) ↦
        let t : SessionTombstone = record {
          pid = files.process_id;
          startup_timestamp_secs = seconds;
        } in
        let bytes = encode_bytes sha256 t ++ sanitize_abort_reason reason in
        let wrote : write_session_bytes_atomic files bytes w ≡ (ok tt, v) =
          ground (arith, h, clock) in
        rw (written-read bytes w v wrote) (
          classify-encode_bytes sha256 length-sha256 t (sanitize_abort_reason reason) small
            (early seconds clock))
  ]
