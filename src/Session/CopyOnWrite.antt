-- ===== src/Session/CopyOnWrite.antt =====
-- src/drive-session.ts: what a write through an open handle leaves for later reads.
use native.Mathlib.Decide.{dec_lt}
use mathlib.Core.Path.{subst}
use native.Mathlib.Nat.{mul-le-mul_right, add-mul}
use bitsby.Prelude.{
  ℕ, ◌+◌, ◌*◌, ◌<◌, ◌≤◌, ◌≡◌, ◌≢◌, ◌⊎◌, inl, inr, sym, ap, ◌∙◌, true, false, some, List, ◌==◌, ltb,
  list_eq_refl, length, take, length-take, arith,
}
use bitsby.Fdc.Protocol.{fdc_ok, max_track_len}
use bitsby.Session.Bytes.{read_span, write_span, read_span-written, read_span-apart}
use bitsby.Session.State.{SessionDrive, DriveSession, put_drive, put_file, bytes_of}
use bitsby.Session.Track.{read_track}

-- Distinct tracks of one length do not overlap.
tracks-apart :
    (t t' size : ℕ) → t ≢ t' → (t' * size + size ≤ t * size) ⊎ (t * size + size ≤ t' * size)
tracks-apart t t' size h = elim (dec_lt t' t) [
  | yes less ↦ inl (one_more t' t less)
  | no more ↦ let greater : t < t' = grind (arith, h) in inr (one_more t t' greater)
]
  where
    one_more : (a b : ℕ) → a < b → a * size + size ≤ b * size
    one_more a b less =
        let scaled : (a + 1) * size ≤ b * size = mul-le-mul_right size (omega arith) in
        omega (arith, scaled, add-mul a 1 size)

-- A drive and a span that the session can read.
abbrev pub Readable : SessionDrive → ℕ → Type 0
Readable sd size = (sd.mounted ≡ true) × (0 < size) × (size ≤ max_track_len)

pub read_track-open :
    (drive track size : ℕ) (sd : SessionDrive) (s : DriveSession)
    → s.drives drive ≡ some sd
    → Readable sd size
    → (read_track drive track size s).0
      ≡ some (read_span (bytes_of (s.files sd.handle_path)) (track * size) size)
unfolding read_track
read_track-open drive track size sd s at_drive (mounted, positive, fits) =
    let some_bytes : (size == 0) ≡ false = ground arith in
    let in_range : ltb max_track_len size ≡ false = ground arith in
    rw (at_drive, mounted, some_bytes, in_range)

module _ (drive track size : ℕ) (bytes : List ℕ) (sd : SessionDrive) (s : DriveSession) where
  -- What `writeTrack` leaves when it has written through an open handle.
  abbrev pub written : DriveSession
  written =
      record (put_drive drive (record sd { track = track; last_io = some s.now; dirty = true }) s) {
        files =
            put_file sd.handle_path
              (write_span (bytes_of (s.files sd.handle_path)) (track * size) (take size bytes))
              s.files;
        fdc_errno = fdc_ok;
      }

  pub written-drive :
      written.drives drive ≡ some (record sd { track = track; last_io = some s.now; dirty = true })
  written-drive = let here : (drive == drive) ≡ true = ground arith in rw here

  pub written-file :
      written.files sd.handle_path
      ≡ some (write_span (bytes_of (s.files sd.handle_path)) (track * size) (take size bytes))
  written-file = rw (list_eq_refl sd.handle_path)

  pub written-same_track :
      Readable sd size
      → size ≤ length bytes
      → (read_track drive track size written).0 ≡ some (take size bytes)
  written-same_track readable enough =
      let count : length (take size bytes) ≡ size = omega (arith, length-take size bytes) in
      let file = bytes_of (s.files sd.handle_path) in
      read_track-open drive track size
        (record sd { track = track; last_io = some s.now; dirty = true }) written written-drive
        readable
      ∙ ap (λ f. some (read_span (bytes_of f) (track * size) size)) written-file
      ∙ ap
          (λ n.
            some (read_span (write_span file (track * size) (take size bytes)) (track * size) n))
          (sym count)
      ∙ ap (some) (read_span-written file (track * size) (take size bytes))

  pub written-other_track :
      (track' : ℕ)
      → track ≢ track'
      → Readable sd size
      → size ≤ length bytes
      → (read_track drive track' size written).0
        ≡ some (read_span (bytes_of (s.files sd.handle_path)) (track' * size) size)
  written-other_track track' other readable enough =
      let count : length (take size bytes) ≡ size = omega (arith, length-take size bytes) in
      let file = bytes_of (s.files sd.handle_path) in
      read_track-open drive track' size
        (record sd { track = track; last_io = some s.now; dirty = true }) written written-drive
        readable
      ∙ ap (λ f. some (read_span (bytes_of f) (track' * size) size)) written-file
      ∙ ap (some) (
          read_span-apart file (track * size) (take size bytes) (track' * size) size (
            subst (λ n. (track' * size + size ≤ track * size) ⊎ (track * size + n ≤ track' * size))
              (sym count) (tracks-apart track track' size other)))
