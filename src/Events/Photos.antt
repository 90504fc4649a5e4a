-- ===== src/Events/Photos.antt =====
-- src/events/photo.service.ts: photos of events under a quota. The object store is a parameter and
-- the column `thumbnail_path` is not modelled.
pub mod Laws
use mathlib.Core.Option
use mahber_connect_backend.Prelude.{
  ℕ, suc, ◌+◌, ◌*◌, String, Bool, false, not, ◌&&◌, ◌||◌, Option, none, some, List, [], ◌∷◌, map,
  str_eq, ltb, ◌==◌, if◌then◌else◌, or_else, is_some, Paged, paged, length, find, select, count,
}
use mahber_connect_backend.Db.{EventPhoto, Db}
use mahber_connect_backend.Exec.{
  Error, Exec, pure, throw, gets, or_throw, ◌>>=◌, ◌>>◌, throw_if, modify, bad_request, forbidden,
  not_found, other_error,
}
use mahber_connect_backend.Membership.Access.{includes_text, active_membership_of}
use mahber_connect_backend.Events.Schedule.{event_in}

-- `STORAGE_QUOTA`, `MAX_FILE_SIZE` and the largest batch
abbrev pub storage_quota : ℕ
storage_quota = 1000

abbrev pub max_file_size : ℕ
max_file_size = 10 * 1024 * 1024

abbrev pub max_files : ℕ
max_files = 10

pub record File : Type 0 where
  pub mimetype : String
  pub size : ℕ
  pub buffer : Option (List ℕ)

-- What the object store answers: `secure_url` and `public_id`.
pub record Uploaded : Type 0 where
  pub secure_url : String
  pub public_id : String

unfoldable pub file_error : File → Option Error
file_error f =
    if not (str_eq f.mimetype "image/jpeg" || str_eq f.mimetype "image/png")
    then some (bad_request "Invalid file type. Only JPEG and PNG images are allowed")
    else if ltb max_file_size f.size
    then some (bad_request "File size exceeds the 10MB limit")
    else if is_some f.buffer
    then none
    else some (bad_request "File buffer is missing. Upload failed.")

-- The first error of the loop over the files.
unfoldable pub files_error : List File → Option Error
unfolding file_error
files_error [] = none
files_error (f ∷ fs) = or_else (file_error f) (files_error fs)

abbrev refuse : Option Error → Exec (Unit {0})
refuse none = pure tt
refuse (some e) = throw e

unfoldable pub check_storage_quota : ℕ → ℕ → Exec (Unit {0})
check_storage_quota mahber incoming = do
  photos ← gets (λ s. count (λ p. p.mahber_id == mahber) s.photos)
  throw_if (ltb storage_quota (photos + incoming)) (bad_request "Storage quota exceeded")

-- The uploads in their order, numbered from `index`; nothing if one of them fails.
unfoldable pub upload_all : (ℕ → File → Option Uploaded) → ℕ → List File → Option (List Uploaded)
upload_all upload index [] = some []
upload_all upload index (f ∷ fs) = elim (upload index f) [
  | none ↦ none
  | some result ↦ Option.map (λ results. result ∷ results) (upload_all upload (suc index) fs)
]

abbrev pub new_photo : ℕ → (ℕ → ℕ) → ℕ → ℕ → ℕ → Option String → ℕ → Uploaded → EventPhoto
new_photo now ids mahber event uploader caption index u = record {
  id = ids index;
  event_id = event;
  mahber_id = mahber;
  uploader_id = uploader;
  file_path = u.secure_url;
  caption = caption;
  cloudinary_public_id = some u.public_id;
  created_at = now;
}

-- `eventPhoto.create` for each upload; `ids` gives the id of the row of each index.
unfoldable pub store_photos :
    ℕ → (ℕ → ℕ) → ℕ → ℕ → ℕ → Option String → ℕ → List Uploaded → List EventPhoto → List EventPhoto
store_photos now ids mahber event uploader caption index [] rows = rows
store_photos now ids mahber event uploader caption index (u ∷ us) rows =
    store_photos now ids mahber event uploader caption (suc index) us
      (new_photo now ids mahber event uploader caption index u ∷ rows)

-- `upload` is the object store: nothing where it fails, which removes the assets uploaded so far.
unfoldable pub upload_photos :
    (ℕ → File → Option Uploaded) → ℕ → (ℕ → ℕ) → ℕ → ℕ → ℕ → List File → Option String → Exec ℕ
unfolding files_error check_storage_quota upload_all store_photos
upload_photos upload now ids mahber event uploader files caption = do
  throw_if (length files == 0) (bad_request "No files uploaded")
  throw_if (ltb max_files (length files)) (bad_request "You can upload up to 10 photos at a time")
  refuse (files_error files)
  _ ← or_throw (← gets (λ s. find (event_in mahber event) s.events)) (not_found "Event not found")
  check_storage_quota mahber (length files)
  results ← or_throw (upload_all upload 0 files) (other_error "upload failed")
  modify (λ s. record s {
    photos = store_photos now ids mahber event uploader caption 0 results s.photos;
  })
  pure (length results)

unfoldable pub find_all_photos : ℕ → ℕ → ℕ → ℕ → Exec (Paged EventPhoto)
find_all_photos mahber event page limit = do
  _ ← or_throw (← gets (λ s. find (event_in mahber event) s.events)) (not_found "Event not found")
  gets (λ s.
      paged page limit (select (λ p. (p.event_id == event) && (p.mahber_id == mahber)) s.photos))

abbrev pub photo_in : ℕ → ℕ → ℕ → EventPhoto → Bool
photo_in mahber event id p = (p.id == id) && (p.event_id == event) && (p.mahber_id == mahber)

-- `isAdmin`, of an active membership
abbrev pub is_admin : ℕ → ℕ → Db → Bool
is_admin mahber actor s = elim (active_membership_of mahber actor s) [
  | none ↦ false
  | some m ↦ includes_text "manage_members" m.role.permissions
]

-- A failure of the object store is passed over.
unfoldable pub delete_photo : ℕ → ℕ → ℕ → ℕ → Exec (Unit {0})
delete_photo mahber event id actor = do
  photo ←
      or_throw (← gets (λ s. find (photo_in mahber event id) s.photos))
        (not_found "Photo not found")
  admin ← gets (is_admin mahber actor)
  throw_if (not (photo.uploader_id == actor) && not admin)
      (forbidden "Only the photo uploader or an admin can delete this photo")
  modify (λ s. record s { photos = select (λ p. not (p.id == id)) s.photos })
