-- ===== src/Tests/AdminData.antt =====
-- A small administration: a signature that keeps the claims readable, times in decimal, one user.
use rag_service.Prelude.{
  ℕ, Text, codes, true, false, [], ◌∷◌, ◌++◌, take, drop, length, none, some, leb, if◌then◌else◌,
  text_eq, ◌≡◌, refl, ap, show_nat, read_nat, show_nat-ne, read-show,
}
use rag_service.Admin.Settings.{Settings, default_settings}
use rag_service.Admin.Model.{User, Role, Menu}
use rag_service.Admin.Tokens.{Claims, Decoded, payload, expired_signature, jwt_error, Jwt, Signs}
use rag_service.Admin.Tokens.Numbers.{filled_text}
use rag_service.Admin.Lockout.{Format, Formats}
use rag_service.Admin.Login.{Server, AuthState, AuthLoginParam}

abbrev pub menu : Menu
menu = record { id = 1; perms = some (codes "sys:role:add,sys:role:edit"); status = true }

abbrev pub role : Role
role = record { id = 1; status = true; is_filter_scopes = false; menus = menu ∷ []; scopes = [] }

abbrev pub user : User
user = record {
  id = 7;
  uuid = codes "u7";
  username = codes "ann";
  nickname = codes "Ann";
  password = some (codes "secret1");
  status = true;
  is_superuser = false;
  is_staff = true;
  is_multi_login = false;
  last_login_time = none;
  last_password_changed_time = some 900;
  dept_id = none;
  dept = none;
  roles = role ∷ [];
  deleted = 0;
}

-- The first code point of a token is the expiry, the second the length of the session.
unfoldable pub encode : Claims → Text
encode c = c.exp ∷ length c.session_uuid ∷ c.session_uuid ++ c.sub

unfoldable pub read_claims : ℕ → Text → Decoded
read_claims now (exp ∷ n ∷ rest) =
    if leb now exp
    then payload
        (record { session_uuid = some (take n rest); sub = some (drop n rest); exp = some exp })
    else expired_signature
read_claims now _ = jwt_error

abbrev pub jwt : Jwt
jwt = record {
  encode = encode;
  decode = read_claims;
  dump_user = λ u. u.username;
  load_user = λ text. user;
}

take-append : (s t : Text) → take (length s) (s ++ t) ≡ s
take-append [] t = refl
take-append (c ∷ s) t = ap (λ r. c ∷ r) (take-append s t)

drop-append : (s t : Text) → drop (length s) (s ++ t) ≡ t
drop-append [] t = refl
drop-append (c ∷ s) t = drop-append s t

pub signs : Signs jwt
unfolding encode read_claims
signs = record {
  nonempty = λ c. refl;
  decode-encode = λ now c. rw (take-append c.session_uuid c.sub, drop-append c.session_uuid c.sub);
}

abbrev pub format : Format
format = record { to_str = show_nat; from_str = read_nat }

pub formats : Formats format
formats = record {
  nonempty = λ t. filled_text (show_nat t) (show_nat-ne t);
  from_str-to_str = λ t. read-show t;
}

abbrev pub settings : Settings
settings = record default_settings { login_captcha_enabled = false; user_lock_threshold = 2 }

abbrev pub server : Server
server = record {
  format = format;
  jwt = jwt;
  password_verify = text_eq;
  lower = λ text. text;
  extra_info = λ u. some u.nickname;
  split = λ header. (codes "Bearer", elim header [ none ↦ [] | some text ↦ text ]);
}

abbrev pub state : AuthState
state = record { redis = []; users = user ∷ []; login_logs = []; refresh_cookie = none }

abbrev pub login_param : Text → AuthLoginParam
login_param password = record {
  username = codes "ann";
  password = password;
  uuid = none;
  captcha = none;
}
