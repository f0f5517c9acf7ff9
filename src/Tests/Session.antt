-- ===== src/Tests/Session.antt =====
-- src/api/auth.rs on two accounts, a refresh token and a pre-auth session.
use moxui.Prelude.{[], ◌∷◌, codes, str_eq, true, false, none, some, if◌then◌else◌, ◌≡◌, refl}
use moxui.Prelude.Int.{ℤ, pos, ltb_ℤ, add_i64}
use moxui.Prelude.Map
use moxui.Auth.Password.{verify_password}
use moxui.Auth.Refresh
use moxui.Auth.Refresh.{default_refresh_ttl_secs, generate_token, hash_token}
use moxui.Auth.Totp.Backup.{verify_backup_code, spend}
use moxui.Auth.Totp.Base32.{base32_decode, decode_from, letter_index, position}
use moxui.Auth.Totp.Code.{verify_totp, compute_totp, truncate, pad_digits, any_totp, to_be_bytes}
use moxui.Auth.Totp.PreAuth
use moxui.Auth.Totp.PreAuth.{PreAuthSession, PreAuthStore}
use moxui.Auth.Totp.PreAuth.SingleUse.{handed_out}
use moxui.Auth.User.{User, authenticate, get_by_id}
use moxui.Api.Session.{
  SessionState, Draws, LoginResponse, unauthorized, logged_in, view_of, claims_of, grant, login,
  second_factor, two_factor_complete,
}
use moxui.Api.Session.Login.{login-logged_in}
use moxui.Api.Session.SecondFactor.{two_factor_complete_once, two_factor_complete-logged_in}
use moxui.Tests.Refresh.{held, held-IsFresh}
use moxui.Tests.Toy.{toy, toy_jwt, ann, bob, accounts}

abbrev pending : PreAuthSession
pending = record {
  user_id = codes "2";
  username = codes "bob";
  expires_at = pos 300;
  consumed = false;
}

abbrev pub state : SessionState
state = record {
  users = accounts;
  refresh_store = held;
  preauth = record { sessions = (codes "t", pending) ∷ [] };
  jwt_lifetime_secs = pos 60;
}

abbrev pub draws : Draws
draws = record {
  preauth_buf = codes "p";
  preauth_now = pos 9;
  totp_now = 95;
  claims_now = pos 9;
  refresh_id = codes "b";
  refresh_buf = codes "new";
  expiry_now = pos 9;
  refresh_now = pos 9;
}

abbrev ann_session : LoginResponse
ann_session = record {
  token = codes "1";
  expires_in = pos 60;
  user = view_of ann;
  refresh_token = codes "new";
}

ann_logged_in :
    (login toy toy_jwt state draws (codes "ann") (codes "secret")).1 ≡ logged_in ann_session
unfolding login authenticate Map.get str_eq verify_password grant claims_of Refresh.issue
    generate_token
ann_logged_in = refl

login-logged_in_example :
    (u : User) × (authenticate toy accounts (codes "ann") (codes "secret") ≡ some u)
    × (u.totp_enabled ≡ false)
    × (ann_session.user ≡ view_of u)
    × (toy_jwt.encode (claims_of u (pos 9) (pos 60)) ≡ some ann_session.token)
    × ((t : ℤ)
        → Refresh.verify toy
            (login toy toy_jwt state draws (codes "ann") (codes "secret")).0.refresh_store
            ann_session.refresh_token
            t
          ≡ (if ltb_ℤ (add_i64 (pos 9) default_refresh_ttl_secs) t
              then none
              else some (codes "b", u.id)))
login-logged_in_example =
    login-logged_in toy toy_jwt state draws (codes "ann") (codes "secret") ann_session held-IsFresh
      ann_logged_in

two_factor_complete_once_example :
    (two_factor_complete toy toy_jwt
      (two_factor_complete toy toy_jwt state draws (codes "t") (codes "11112222")).0
      draws
      (codes "t")
      (codes "33334444")).1
    ≡ unauthorized
two_factor_complete_once_example =
    two_factor_complete_once toy toy_jwt state draws (codes "t") (codes "11112222") draws
      (codes "33334444")

abbrev bob_session : LoginResponse
bob_session = record ann_session { token = codes "2"; user = view_of bob }

bob_logged_in :
    (two_factor_complete toy toy_jwt state draws (codes "t") (codes "11112222")).1
    ≡ logged_in bob_session
unfolding two_factor_complete second_factor get_by_id PreAuth.consume Map.get Map.update Map.remove
    str_eq verify_password verify_totp base32_decode decode_from letter_index position any_totp
    compute_totp truncate pad_digits to_be_bytes verify_backup_code spend grant claims_of
    Refresh.issue generate_token
bob_logged_in = refl

two_factor_complete-logged_in_example :
    (session : PreAuthSession) × (user : User) × (handed_out
        (pos 9)
        (Map.get (codes "t") state.preauth.sessions)
      ≡ some session)
    × (get_by_id accounts session.user_id ≡ some user)
    × (second_factor toy toy_jwt user draws (codes "11112222") ≡ some true)
    × (bob_session.user ≡ view_of user)
    × (toy_jwt.encode (claims_of user (pos 9) (pos 60)) ≡ some bob_session.token)
two_factor_complete-logged_in_example =
    two_factor_complete-logged_in toy toy_jwt state draws (codes "t") (codes "11112222") bob_session
      bob_logged_in
