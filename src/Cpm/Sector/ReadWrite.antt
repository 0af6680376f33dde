-- ===== src/Cpm/Sector/ReadWrite.antt =====
-- src/cpm-filesystem.ts: `readSector` after `writeSector`.
use native.Mathlib.Decide.{ℕ_discrete}
use bitsby.Prelude.{
  ℕ, ◌+◌, ◌*◌, ◌<◌, ◌≤◌, ◌≡◌, refl, ap, ◌∙◌, sym, ◌⊎◌, inl, inr, ◌≢◌, some, List, length, subarray,
  arith, length-subarray,
}
use bitsby.Cpm.Layout.{
  CpmDiskParams, sector_size, data_size, sectors_per_track, track_size, system_tracks_of,
  logical_to_physical,
}
use bitsby.Cpm.Layout.Skew.{
  logical_to_physical-defined, logical_to_physical-injective, logical_to_physical-lt,
}
use bitsby.Cpm.Exec.{CpmFilesystem, ok}
use bitsby.Cpm.Sector.{data_offset_for_track, sector_base, frame_sector, read_sector, write_sector}
use bitsby.Cpm.Sector.Frame.{length-frame_sector, frame_sector-outside, frame_sector-payload}

-- The image holds the whole of a track.
abbrev pub HasTrack : CpmFilesystem → ℕ → Type 0
HasTrack fs track = (track + 1) * track_size ≤ length fs.image_data

-- What a client of the two methods may know of a write: the sector reads back, every other
-- sector of every track reads as before, and the geometry and the image's size stay.
pub record Written (track log : ℕ) (bytes : List ℕ) (fs fs' : CpmFilesystem) : Type 0 where
  pub same_params : fs'.params ≡ fs.params
  pub same_pointers : fs'.use_large_pointers ≡ fs.use_large_pointers
  pub same_length : length fs'.image_data ≡ length fs.image_data
  pub reads : read_sector track log fs' ≡ ok bytes
  pub others :
      (track' log' : ℕ)
      → log' < sectors_per_track
      → (track' ≢ track) ⊎ (log' ≢ log)
      → HasTrack fs track'
      → read_sector track' log' fs' ≡ read_sector track' log' fs

-- A read of a sector whose position is known.
read_sector-at :
    (track log phys : ℕ) (fs : CpmFilesystem)
    → logical_to_physical track log (system_tracks_of fs.params) ≡ some phys
    → HasTrack fs track
    → read_sector track log fs
      ≡ ok (
          subarray fs.image_data
            (sector_base track phys + data_offset_for_track fs.params track)
            (sector_base track phys + data_offset_for_track fs.params track + data_size))
unfolding read_sector
read_sector-at track log phys fs place room =
    let (l32, p32) = logical_to_physical-lt track (system_tracks_of fs.params) log phys place in
    ground (arith, place)

-- Every sector of a track that the image holds can be read, and has 128 bytes.
pub read_sector-total :
    (track log : ℕ) (fs : CpmFilesystem)
    → log < sectors_per_track
    → HasTrack fs track
    → (bytes : List ℕ) × (read_sector track log fs ≡ ok bytes) × (length bytes ≡ data_size)
read_sector-total track log fs h room =
    let (phys, place, p32) = logical_to_physical-defined track (system_tracks_of fs.params) log h in
    let start = sector_base track phys + data_offset_for_track fs.params track in
    (
      subarray fs.image_data start (start + data_size),
      read_sector-at track log phys fs place room,
      ground (arith, length-subarray fs.image_data start (start + data_size)),
    )

-- Distinct positions have disjoint bytes.
sector_base-disjoint :
    (track phys track' phys' : ℕ)
    → phys < sectors_per_track
    → phys' < sectors_per_track
    → (track' ≢ track) ⊎ (phys' ≢ phys)
    → (sector_base track' phys' + sector_size ≤ sector_base track phys)
      ⊎ (sector_base track phys + sector_size ≤ sector_base track' phys')
sector_base-disjoint track phys track' phys' p p' ne = omega arith

data_offset_for_track_cases :
    (p : CpmDiskParams) (track : ℕ)
    → (data_offset_for_track p track ≡ 3) ⊎ (data_offset_for_track p track ≡ 7)
data_offset_for_track_cases p track = ground arith

data-apart :
    (base base' offset : ℕ)
    → (offset ≡ 3) ⊎ (offset ≡ 7)
    → (base' + sector_size ≤ base) ⊎ (base + sector_size ≤ base')
    → (base' + offset + data_size ≤ base) ⊎ (base + sector_size ≤ base' + offset)
data-apart base base' offset o h = omega arith

module _ (track log : ℕ) (bytes : List ℕ) (fs : CpmFilesystem) (phys : ℕ)
    (place : logical_to_physical track log (system_tracks_of fs.params) ≡ some phys)
    (size : length bytes ≡ data_size) (room : HasTrack fs track) where
  abbrev after : CpmFilesystem
  after = record fs { image_data = frame_sector fs.params track phys bytes fs.image_data }

  write_sector-at : write_sector track log bytes fs ≡ (ok tt, after)
  unfolding write_sector
  write_sector-at =
      let (l32, p32) = logical_to_physical-lt track (system_tracks_of fs.params) log phys place in
      ground (arith, place)

  length-after : length after.image_data ≡ length fs.image_data
  length-after = length-frame_sector fs.params track phys bytes fs.image_data

  reads-after : read_sector track log after ≡ ok bytes
  reads-after =
      let (l32, p32) = logical_to_physical-lt track (system_tracks_of fs.params) log phys place in
      read_sector-at track log phys after place (omega (arith, length-after))
      ∙ ap ok (frame_sector-payload fs.params track phys bytes fs.image_data (omega arith) size)

  -- Another sector lies at another place.
  place_ne :
      (track' log' phys' : ℕ)
      → logical_to_physical track' log' (system_tracks_of fs.params) ≡ some phys'
      → (track' ≢ track) ⊎ (log' ≢ log)
      → (track' ≢ track) ⊎ (phys' ≢ phys)
  place_ne track' log' phys' place' (inl n) = inl n
  place_ne track' log' phys' place' (inr n) = elim (ℕ_discrete track' track) [
    | yes e ↦ inr λ q. n (
        logical_to_physical-injective track (system_tracks_of fs.params) log' log phys
          (cc (e, q, place')) place)
    | no m ↦ inl m
  ]

  others-after :
      (track' log' : ℕ)
      → log' < sectors_per_track
      → (track' ≢ track) ⊎ (log' ≢ log)
      → HasTrack fs track'
      → read_sector track' log' after ≡ read_sector track' log' fs
  others-after track' log' h ne room' =
      let (phys', place', p32') =
        logical_to_physical-defined track' (system_tracks_of fs.params) log' h in
      let (l32, p32) = logical_to_physical-lt track (system_tracks_of fs.params) log phys place in
      let start = sector_base track' phys' + data_offset_for_track fs.params track' in
      let apart =
        sector_base-disjoint track phys track' phys' p32 p32'
          (place_ne track' log' phys' place' ne) in
      read_sector-at track' log' phys' after place' (omega (arith, length-after))
      ∙ ap ok (
          frame_sector-outside fs.params track phys bytes fs.image_data start (start + data_size)
            (data-apart (sector_base track phys) (sector_base track' phys')
              (data_offset_for_track fs.params track')
              (data_offset_for_track_cases fs.params track') apart)
            size)
      ∙ sym (read_sector-at track' log' phys' fs place' room')

-- On an image that holds the track, a write of 128 bytes to a sector of the track succeeds: that
-- sector then reads back the bytes, and every other sector reads as before.
pub write_sector-Written :
    (track log : ℕ) (bytes : List ℕ) (fs : CpmFilesystem)
    → log < sectors_per_track
    → HasTrack fs track
    → length bytes ≡ data_size
    → ((write_sector track log bytes fs).0 ≡ ok tt)
      × Written track log bytes fs (write_sector track log bytes fs).1
write_sector-Written track log bytes fs h room size =
    let (phys, place, p32) = logical_to_physical-defined track (system_tracks_of fs.params) log h in
    rw (write_sector-at track log bytes fs phys place size room) (
      refl,
      record {
        same_params = refl;
        same_pointers = refl;
        same_length = length-after track log bytes fs phys place size room;
        reads = reads-after track log bytes fs phys place size room;
        others = others-after track log bytes fs phys place size room;
      },
    )
