-- ===== src/Events/Photos/Laws.antt =====
-- Theorems on the photos of events: the quota and who may delete one.
use mahber_connect_backend.Prelude.{
  ℕ, suc, ◌+◌, ◌≤◌, String, ◌≡◌, inl, inr, false, ◌||◌, Option, none, some, List, [], ◌∷◌, arith,
  ◌==◌, if◌then◌else◌, Bool-cases, Option-cases, ==-refl, length, find, count,
}
use mahber_connect_backend.Db.{EventPhoto, Db}
use mahber_connect_backend.Exec.{is_ok, ok}
use mahber_connect_backend.Events.Photos.{
  storage_quota, max_files, File, Uploaded, files_error, check_storage_quota, upload_all, new_photo,
  store_photos, upload_photos, photo_in, is_admin, delete_photo,
}

abbrev pub photos_of : ℕ → List EventPhoto → ℕ
photos_of mahber rows = count (λ p. p.mahber_id == mahber) rows

upload_all-length :
    (upload : ℕ → File → Option Uploaded) (index : ℕ) (files : List File) (results : List Uploaded)
    → upload_all upload index files ≡ some results
    → length results ≡ length files
unfolding upload_all
upload_all-length upload index [] results h = ground arith
upload_all-length upload index (f ∷ fs) results h = elim (Option-cases (upload index f)) [
  | inl failed ↦ ground arith
  | inr (u, done) ↦ elim (Option-cases (upload_all upload (suc index) fs)) [
    | inl failed ↦ ground arith
    | inr (us, rest) ↦ ground (arith, upload_all-length upload (suc index) fs us rest)
  ]
]

module _ (now : ℕ) (ids : ℕ → ℕ) (mahber event uploader : ℕ) (caption : Option String) where
  store_photos-count :
      (other index : ℕ) (us : List Uploaded) (rows : List EventPhoto)
      → photos_of other (store_photos now ids mahber event uploader caption index us rows)
        ≡ (if mahber == other then length us else 0) + photos_of other rows
  unfolding store_photos count
  store_photos-count other index [] rows = ground arith
  store_photos-count other index (u ∷ us) rows =
      let rest =
        store_photos-count other (suc index) us
          (new_photo now ids mahber event uploader caption index u ∷ rows) in
      elim (Bool-cases (mahber == other)) [ inl same ↦ ground arith | inr differ ↦ ground arith ]

  -- If no organization has more than 1000 photos, none has after an upload, whether it returns or
  -- throws.
  pub upload_photos-quota :
      (upload : ℕ → File → Option Uploaded) (files : List File) (s : Db) (other : ℕ)
      → photos_of other s.photos ≤ storage_quota
      → photos_of other
          (upload_photos upload now ids mahber event uploader files caption s).1.photos
        ≤ storage_quota
  unfolding upload_photos check_storage_quota
  upload_photos-quota upload files s other h = elim (Option-cases (upload_all upload 0 files)) [
    | inl failed ↦ ground (arith, h)
    | inr (results, done) ↦ ground (
      arith,
      h,
      upload_all-length upload 0 files results done,
      store_photos-count other 0 results s.photos,
    )
  ]

-- An upload that returns stored one photo for each file, at least one and at most ten, all of them
-- JPEG or PNG images of at most 10 MB.
pub upload_photos-ok :
    (upload : ℕ → File → Option Uploaded) (now : ℕ) (ids : ℕ → ℕ) (mahber event uploader : ℕ)
    (files : List File) (caption : Option String) (s : Db) (n : ℕ)
    → (upload_photos upload now ids mahber event uploader files caption s).0 ≡ ok n
    → (n ≡ length files)
      × (1 ≤ n)
      × (n ≤ max_files)
      × (files_error files ≡ none)
      × (photos_of mahber
            (upload_photos upload now ids mahber event uploader files caption s).1.photos
          ≡ n + photos_of mahber s.photos)
unfolding upload_photos check_storage_quota
upload_photos-ok upload now ids mahber event uploader files caption s n h =
    elim (Option-cases (upload_all upload 0 files)) [
      | inl failed ↦ ground arith
      | inr (results, done) ↦
          let as_many = upload_all-length upload 0 files results done in
          let stored =
            store_photos-count now ids mahber event uploader caption mahber 0 results s.photos in
          let same = ==-refl mahber in
          (ground arith, ground arith, ground arith, ground arith, ground arith)
    ]

-- A photo is deleted exactly by its uploader or by an Active member who holds `manage_members`.
pub delete_photo_iff :
    (mahber event id actor : ℕ) (s : Db)
    → is_ok (delete_photo mahber event id actor s).0
      ≡ elim (find (photo_in mahber event id) s.photos) [
        | none ↦ false
        | some p ↦ (p.uploader_id == actor) || is_admin mahber actor s
      ]
unfolding delete_photo
delete_photo_iff mahber event id actor s = ground arith
