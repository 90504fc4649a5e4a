-- ===== src/Communication/Announcements.antt =====
-- src/communication/announcement.service.ts: announcements and who has read them. The columns
-- `priority` and `target_audience` and the socket event are not modelled.
pub mod Laws
use mahber_connect_backend.Prelude.{
  ℕ, String, concat, Bool, not, ◌&&◌, Option, none, some, List, [], ◌∷◌, ◌==◌, if◌then◌else◌,
  is_some, Paged, paged, find, select, any,
}
use mahber_connect_backend.Db.{Announcement, AnnouncementRead, Db}
use mahber_connect_backend.Exec.{
  Exec, pure, gets, or_throw, ◌>>=◌, ◌>>◌, throw_if, modify, conflict, not_found,
}
use mahber_connect_backend.Communication.Notifications.{
  NotificationType, Delivery, send_to_mahber_members, info,
}

-- CreateAnnouncementDto; `scheduled_at` is missing where its text is empty.
pub record CreateAnnouncement : Type 0 where
  pub title : String
  pub content : String
  pub scheduled_at : Option ℕ

abbrev pub new_announcement : ℕ → ℕ → ℕ → ℕ → CreateAnnouncement → Announcement
new_announcement now id mahber actor dto = record {
  id = id;
  mahber_id = mahber;
  title = dto.title;
  content = dto.content;
  scheduled_at = dto.scheduled_at;
  is_published = not (is_some dto.scheduled_at);
  created_by = actor;
  created_at = now;
}

-- The notification of an announcement that is published at once.
abbrev announce : (ℕ → ℕ) → Announcement → Exec (List Delivery)
announce ids a =
    if a.is_published
    then send_to_mahber_members ids a.mahber_id (concat "New Announcement: " a.title) a.content
        (some "ANNOUNCEMENT") NotificationType.info none
    else pure []

unfoldable pub create_announcement :
    ℕ → ℕ → (ℕ → ℕ) → ℕ → ℕ → CreateAnnouncement → Exec Announcement
unfolding send_to_mahber_members
create_announcement now id ids mahber actor dto = do
  let a = new_announcement now id mahber actor dto
  modify (λ s. record s { announcements = a ∷ s.announcements })
  announce ids a
  pure a

abbrev pub is_published_in : ℕ → Announcement → Bool
is_published_in mahber a = (a.mahber_id == mahber) && a.is_published

-- `findAll`: the published announcements, the newest first
unfoldable pub find_all_announcements : ℕ → ℕ → ℕ → Db → Paged Announcement
find_all_announcements mahber page limit s =
    paged page limit (select (is_published_in mahber) s.announcements)

-- The unique key on announcement and member.
abbrev pub read_of : ℕ → ℕ → AnnouncementRead → Bool
read_of announcement member r = (r.announcement_id == announcement) && (r.member_id == member)

-- `markAsRead`; the insert throws P2002 on a key that is there already.
unfoldable pub mark_announcement_read : ℕ → ℕ → Exec AnnouncementRead
mark_announcement_read announcement member = do
  _ ←
      or_throw (← gets (λ s. find (λ a. a.id == announcement) s.announcements))
        (not_found "Announcement not found")
  known ← gets (λ s. any (read_of announcement member) s.announcement_reads)
  throw_if known (conflict "Announcement already marked as read")
  let row : AnnouncementRead = record { announcement_id = announcement; member_id = member }
  modify (λ s. record s { announcement_reads = row ∷ s.announcement_reads })
  pure row
