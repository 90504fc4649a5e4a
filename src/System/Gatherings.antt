-- ===== src/System/Gatherings.antt =====
-- The calls of src/events that change the database.
use mahber_connect_backend.Prelude.{ap, ℕ, String, ◌≡◌, Bool, Option, List, arith}
use mahber_connect_backend.Db.{Db}
use mahber_connect_backend.System.Guarded.{
  guarded, IsIntact, event_invitations-IsIntact, attendance-IsIntact, photos-IsIntact,
}
use mahber_connect_backend.Events.Attendance.{
  VerifiedQrPayload, validate_qr_code, record_attendance, manual_check_in,
}
use mahber_connect_backend.Events.Attendance.Laws.{
  manual_check_in-IsOneCheckIn, record_attendance-IsOneCheckIn,
}
use mahber_connect_backend.Events.Sending.{send_invitations}
use mahber_connect_backend.Events.Sending.Laws.{send_invitations-IsOneInvitation}
use mahber_connect_backend.Events.Invitations.{
  respond_to_invitation, registration_error, register_for_event, cancel_registration,
}
use mahber_connect_backend.Events.Photos.{
  File, Uploaded, files_error, check_storage_quota, upload_photos, delete_photo,
}
use mahber_connect_backend.Events.Photos.Laws.{upload_photos-quota}
use mahber_connect_backend.Events.Schedule.{find_one}
use mahber_connect_backend.System.Rows.{
  respond_to_invitation-IsOneInvitation, cancel_registration-IsOneInvitation,
  register_for_event-IsOneInvitation, delete_photo-quota,
}

module _ (s : Db) where
  scan-frame :
      (verify : String → Option VerifiedQrPayload) (id : ℕ) (mahber : ℕ) (event : ℕ) (member : ℕ)
      (token : String)
      → guarded ((record_attendance verify id mahber event member token s).1) ≡ record (guarded s) {
        attendance = ((record_attendance verify id mahber event member token s).1).attendance;
      }
  unfolding record_attendance validate_qr_code
  scan-frame verify id mahber event member token = ground arith

  check_in-frame :
      (id : ℕ) (mahber : ℕ) (event : ℕ) (member : ℕ)
      → guarded ((manual_check_in id mahber event member s).1) ≡ record (guarded s) {
        attendance = ((manual_check_in id mahber event member s).1).attendance;
      }
  unfolding manual_check_in
  check_in-frame id mahber event member = ground arith

  invite-frame :
      (ids : ℕ → ℕ) (mahber : ℕ) (event : ℕ) (actor : ℕ) (members : List ℕ)
      → guarded ((send_invitations ids mahber event actor members s).1) ≡ record (guarded s) {
        event_invitations =
            ((send_invitations ids mahber event actor members s).1).event_invitations;
      }
  unfolding send_invitations find_one
  invite-frame ids mahber event actor members = ground arith

  respond-frame :
      (now : ℕ) (mahber : ℕ) (event : ℕ) (id : ℕ) (member : ℕ) (accept : Bool)
      → guarded ((respond_to_invitation now mahber event id member accept s).1)
        ≡ record (guarded s) {
          event_invitations =
              ((respond_to_invitation now mahber event id member accept s).1).event_invitations;
        }
  unfolding respond_to_invitation
  respond-frame now mahber event id member accept = ground arith

  enrol-frame :
      (now : ℕ) (id : ℕ) (mahber : ℕ) (event : ℕ) (member : ℕ)
      → guarded ((register_for_event now id mahber event member s).1) ≡ record (guarded s) {
        event_invitations = ((register_for_event now id mahber event member s).1).event_invitations;
      }
  unfolding register_for_event find_one registration_error
  enrol-frame now id mahber event member = ground arith

  withdraw-frame :
      (mahber : ℕ) (event : ℕ) (member : ℕ)
      → guarded ((cancel_registration mahber event member s).1) ≡ record (guarded s) {
        event_invitations = ((cancel_registration mahber event member s).1).event_invitations;
      }
  unfolding cancel_registration
  withdraw-frame mahber event member = ground arith

  store-frame :
      (upload : ℕ → File → Option Uploaded) (now : ℕ) (ids : ℕ → ℕ) (mahber : ℕ) (event : ℕ)
      (uploader : ℕ) (files : List File) (caption : Option String)
      → guarded ((upload_photos upload now ids mahber event uploader files caption s).1)
        ≡ record (guarded s) {
          photos = ((upload_photos upload now ids mahber event uploader files caption s).1).photos;
        }
  unfolding upload_photos files_error check_storage_quota
  store-frame upload now ids mahber event uploader files caption = ground arith

  delete-frame :
      (mahber : ℕ) (event : ℕ) (id : ℕ) (actor : ℕ)
      → guarded ((delete_photo mahber event id actor s).1)
        ≡ record (guarded s) { photos = ((delete_photo mahber event id actor s).1).photos }
  unfolding delete_photo
  delete-frame mahber event id actor = ground arith

-- A call to attendance, invitations or photos, and the database that it leaves.
pub data EventStep (s : Db) : Db → Type 0 where
  scan :
      (verify : String → Option VerifiedQrPayload) (id : ℕ) (mahber : ℕ) (event : ℕ) (member : ℕ)
      (token : String)
      → EventStep s ((record_attendance verify id mahber event member token s).1)
  check_in :
      (id : ℕ) (mahber : ℕ) (event : ℕ) (member : ℕ)
      → EventStep s ((manual_check_in id mahber event member s).1)
  invite :
      (ids : ℕ → ℕ) (mahber : ℕ) (event : ℕ) (actor : ℕ) (members : List ℕ)
      → EventStep s ((send_invitations ids mahber event actor members s).1)
  respond :
      (now : ℕ) (mahber : ℕ) (event : ℕ) (id : ℕ) (member : ℕ) (accept : Bool)
      → EventStep s ((respond_to_invitation now mahber event id member accept s).1)
  enrol :
      (now : ℕ) (id : ℕ) (mahber : ℕ) (event : ℕ) (member : ℕ)
      → EventStep s ((register_for_event now id mahber event member s).1)
  withdraw :
      (mahber : ℕ) (event : ℕ) (member : ℕ)
      → EventStep s ((cancel_registration mahber event member s).1)
  store :
      (upload : ℕ → File → Option Uploaded) (now : ℕ) (ids : ℕ → ℕ) (mahber : ℕ) (event : ℕ)
      (uploader : ℕ) (files : List File) (caption : Option String)
      → EventStep s ((upload_photos upload now ids mahber event uploader files caption s).1)
  delete :
      (mahber : ℕ) (event : ℕ) (id : ℕ) (actor : ℕ)
      → EventStep s ((delete_photo mahber event id actor s).1)

-- Each keeps the invariants.
pub EventStep-IsIntact : {s t : Db} → EventStep s t → IsIntact (guarded s) → IsIntact (guarded t)
EventStep-IsIntact {s = s} {t = t} (scan verify id mahber event member token) h =
    attendance-IsIntact s h t (scan-frame s verify id mahber event member token)
      (record_attendance-IsOneCheckIn id mahber event member s verify token h.check_ins)
EventStep-IsIntact {s = s} {t = t} (check_in id mahber event member) h =
    attendance-IsIntact s h t (check_in-frame s id mahber event member)
      (manual_check_in-IsOneCheckIn id mahber event member s h.check_ins)
EventStep-IsIntact {s = s} {t = t} (invite ids mahber event actor members) h =
    event_invitations-IsIntact s h t (invite-frame s ids mahber event actor members)
      (send_invitations-IsOneInvitation ids mahber event actor members s h.invitations)
EventStep-IsIntact {s = s} {t = t} (respond now mahber event id member accept) h =
    event_invitations-IsIntact s h t (respond-frame s now mahber event id member accept)
      (respond_to_invitation-IsOneInvitation now mahber event id member accept s h.invitations)
EventStep-IsIntact {s = s} {t = t} (enrol now id mahber event member) h =
    event_invitations-IsIntact s h t (enrol-frame s now id mahber event member)
      (register_for_event-IsOneInvitation now id mahber event member s h.invitations)
EventStep-IsIntact {s = s} {t = t} (withdraw mahber event member) h =
    event_invitations-IsIntact s h t (withdraw-frame s mahber event member)
      (cancel_registration-IsOneInvitation mahber event member s h.invitations)
EventStep-IsIntact {s = s} {t = t} (store upload now ids mahber event uploader files caption) h =
    photos-IsIntact s h t (store-frame s upload now ids mahber event uploader files caption)
      (λ m. upload_photos-quota now ids mahber event uploader caption upload files s m (h.quotas m))
EventStep-IsIntact {s = s} {t = t} (delete mahber event id actor) h =
    photos-IsIntact s h t (delete-frame s mahber event id actor)
      (λ m. delete_photo-quota mahber event id actor m s (h.quotas m))

-- The ledger is left alone.
pub EventStep-ledger : {s t : Db} → EventStep s t → t.ledger ≡ s.ledger
EventStep-ledger {s = s} (scan verify id mahber event member token) =
    ap (λ g. g.ledger) (scan-frame s verify id mahber event member token)
EventStep-ledger {s = s} (check_in id mahber event member) =
    ap (λ g. g.ledger) (check_in-frame s id mahber event member)
EventStep-ledger {s = s} (invite ids mahber event actor members) =
    ap (λ g. g.ledger) (invite-frame s ids mahber event actor members)
EventStep-ledger {s = s} (respond now mahber event id member accept) =
    ap (λ g. g.ledger) (respond-frame s now mahber event id member accept)
EventStep-ledger {s = s} (enrol now id mahber event member) =
    ap (λ g. g.ledger) (enrol-frame s now id mahber event member)
EventStep-ledger {s = s} (withdraw mahber event member) =
    ap (λ g. g.ledger) (withdraw-frame s mahber event member)
EventStep-ledger {s = s} (store upload now ids mahber event uploader files caption) =
    ap (λ g. g.ledger) (store-frame s upload now ids mahber event uploader files caption)
EventStep-ledger {s = s} (delete mahber event id actor) =
    ap (λ g. g.ledger) (delete-frame s mahber event id actor)
