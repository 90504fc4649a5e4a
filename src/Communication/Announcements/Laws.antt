-- ===== src/Communication/Announcements/Laws.antt =====
-- Theorems on announcements.
use mahber_connect_backend.Prelude.{
  ℕ, concat, ◌≡◌, inl, inr, not, ◌&&◌, none, some, List, ◌∷◌, arith, ◌==◌, if◌then◌else◌,
  Bool-cases, ==-refl, is_some, IsOnePair, IsOnePair-new, any-eq_false-count, find, select, any,
}
use mahber_connect_backend.Db.{AnnouncementRead, Db}
use mahber_connect_backend.Exec.{is_ok}
use mahber_connect_backend.Communication.Notifications.{
  NotificationType, receivers, notify_all, send_to_mahber_members,
}
use mahber_connect_backend.Communication.Announcements.{
  CreateAnnouncement, new_announcement, create_announcement, is_published_in, read_of,
  mark_announcement_read,
}

-- No member has two reads of one announcement: the table's unique key.
abbrev pub IsOneRead : List AnnouncementRead → Type 0
IsOneRead rows = IsOnePair (λ r. r.announcement_id) (λ r. r.member_id) rows

-- If no member has read an announcement twice, none has after a call of `markAsRead`, whether it
-- returns or throws.
pub mark_announcement_read-IsOneRead :
    (announcement member : ℕ) (s : Db)
    → IsOneRead s.announcement_reads
    → IsOneRead (mark_announcement_read announcement member s).1.announcement_reads
unfolding mark_announcement_read
mark_announcement_read-IsOneRead announcement member s h k l =
    elim (Bool-cases (any (read_of announcement member) s.announcement_reads)) [
      | inl known ↦ ground (arith, h k l)
      | inr new ↦ ground (
        arith,
        h k l,
        IsOnePair-new (λ r. r.announcement_id) (λ r. r.member_id)
            (record { announcement_id = announcement; member_id = member }) s.announcement_reads
            (any-eq_false-count (read_of announcement member) s.announcement_reads new) h k l,
      )
    ]

-- Marking an announcement as read returns exactly when it is there and the member has not read it
-- yet.
pub mark_announcement_read_iff :
    (announcement member : ℕ) (s : Db)
    → is_ok (mark_announcement_read announcement member s).0 ≡ (
        is_some (find (λ a. a.id == announcement) s.announcements)
        && not (any (read_of announcement member) s.announcement_reads))
unfolding mark_announcement_read
mark_announcement_read_iff announcement member s = ground arith

-- A new announcement is listed exactly when it has no time of publication, and no user gets a
-- notification of one that has.
pub create_announcement_lem :
    (now id : ℕ) (ids : ℕ → ℕ) (mahber actor : ℕ) (dto : CreateAnnouncement) (s : Db)
    → let t = (create_announcement now id ids mahber actor dto s).1 in
      (select (is_published_in mahber) t.announcements ≡ (
        if is_some dto.scheduled_at
        then select (is_published_in mahber) s.announcements
        else new_announcement now id mahber actor dto
          ∷ select (is_published_in mahber) s.announcements))
      × (t.notifications ≡ (
          if is_some dto.scheduled_at
          then s.notifications
          else notify_all ids
              (receivers mahber (some "ANNOUNCEMENT") NotificationType.info none s)
              (concat "New Announcement: " dto.title)
              dto.content
              s.notifications))
unfolding create_announcement send_to_mahber_members select
create_announcement_lem now id ids mahber actor dto s = ground (arith, ==-refl mahber)
