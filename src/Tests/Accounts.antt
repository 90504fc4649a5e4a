-- ===== src/Tests/Accounts.antt =====
-- Tests of accounts, passwords, guards and the administration.
use mahber_connect_backend.Prelude.{
  String, concat, ◌≡◌, refl, Bool, true, false, some, [], arith, str_eq, eq_iff, find, select,
}
use mahber_connect_backend.Db.{Db}
use mahber_connect_backend.Exec.{is_ok, bad_request, ok, err}
use mahber_connect_backend.Auth.Accounts.{JwtPayload, login}
use mahber_connect_backend.Auth.Passwords.{forgot_password, reset_password}
use mahber_connect_backend.Auth.Passwords.Laws.{reset_password_once, forgot_password-login}
use mahber_connect_backend.Administration.SuperAdmin.{update_user_status}
use mahber_connect_backend.Administration.Guards.{validate_payload, role_guard, event_access_guard}
use mahber_connect_backend.Administration.Guards.Laws.{
  update_user_status-locks_out, event_access_guard-role_guard,
}
use mahber_connect_backend.Tests.Samples.{newcomer, db}

abbrev hash : String → String
hash password = concat "hash of " password

abbrev compare : String → String → Bool
compare password hashed = str_eq (concat "hash of " password) hashed

abbrev sign : JwtPayload → String
sign payload = payload.phone

accepts : (p : String) → compare p (hash p) ≡ true
accepts p = (eq_iff (concat "hash of " p) (concat "hash of " p)).1 refl

abbrev asked : Db
asked = (forgot_password hash 20 1 "123456" "+251900000000" db).1

forgot_password-login_example :
    let (r, t) = reset_password hash compare 30 "+251900000000" "123456" "better" asked in
    (r ≡ ok tt) × (is_ok (login compare sign "+251900000000" "better" t).0 ≡ true)
unfolding find
forgot_password-login_example =
    forgot_password-login hash hash compare sign 20 30 1 "+251900000000" "123456" "better" db
      newcomer accepts accepts (omega arith) refl refl

abbrev after_reset : Db
after_reset = (reset_password hash compare 30 "+251900000000" "123456" "better" asked).1

reset_password_once_example :
    reset_password hash compare 40 "+251900000000" "123456" "worse" after_reset
    ≡ (err (bad_request "Invalid or expired reset code"), after_reset)
unfolding forgot_password reset_password find select
reset_password_once_example =
    reset_password_once hash compare sign 30 "+251900000000" "123456" "better" asked 40 "123456"
      "worse" refl

abbrev token : JwtPayload
token = record { sub = 9; phone = "+251900000000"; is_super_admin = false }

update_user_status-locks_out_example :
    let t = (update_user_status 9 true db).1 in
    (is_ok (validate_payload token t).0 ≡ false)
    × (is_ok (login compare sign "+251900000000" "secret" t).0 ≡ false)
unfolding find update_user_status
update_user_status-locks_out_example =
    update_user_status-locks_out compare sign "secret" token db newcomer refl refl refl

event_access_guard-role_guard_example :
    is_ok (event_access_guard (some "manage_members") [] false (some 1) (some 1) (some 2) db).0
    ≡ is_ok (role_guard (some "manage_members") [] (some 1) (some 1) db).0
event_access_guard-role_guard_example =
    event_access_guard-role_guard (some "manage_members") [] (some 1) (some 1) (some 2) db refl
