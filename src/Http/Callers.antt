-- ===== src/Http/Callers.antt =====
-- Whom `current_user_id` of apps/api/kerislab/main.py takes a caller for.
use kerislab.Http.{
  by_header, by_token, by_headers, Caller, current_user_id, bearer_token, map_error, unauthorized,
}
use kerislab.Prelude.{
  String, ◌≡◌, true, some, Option, Bool-cases, ◌⊎◌, inl, not, ◌==◌, partition_head, inr, none, ◌||◌,
  partition_tail, refl, arith, Bool, ◌≢◌, eq_iff,
}
use kerislab.Exec.{World, ok, Result, proceed, pure, err}
use kerislab.Dict.{contains, lookup}
use kerislab.Models.Identity.{UserSession, User}
use kerislab.Services.Sessions.{session_with, user_for_session_token}
use kerislab.Services.Sessions.Validity.{Valid, user_for_session_token-Valid}

abbrev pub is_missing : Option String → Bool
is_missing none = true
is_missing (some text) = text == ""

-- The Authorization header is missing or empty, and X-KerisLab-User names a user who is in the store.
pub record Named (caller : Caller) (user_id : String) (w : World) : Type 0 where
  pub unauthorized_call : is_missing caller.authorization ≡ true
  pub given : caller.x_kerislab_user ≡ some user_id
  pub nonempty : user_id ≢ ""
  pub known : contains user_id w.store.users ≡ true

-- The Authorization header is a scheme that reads "bearer", a blank and the nonempty token of a stored session,
-- neither revoked nor expired, and the user is the stored one of that session.
pub record Opened (caller : Caller) (user_id : String) (w : World) : Type 0 where
  pub header : String
  pub given : caller.authorization ≡ some header
  pub is_bearer : w.env.lower (partition_head " " header) ≡ "bearer"
  pub nonempty : partition_tail " " header ≢ ""
  pub key : String
  pub session : UserSession
  pub user : User
  pub stored : session_with (partition_tail " " header) w.store ≡ some (key, session)
  pub own_token : session.token ≡ partition_tail " " header
  pub is_open : Valid session (w.env.clock w.ticks)
  pub owner : lookup session.user_id w.store.users ≡ some user
  pub same : user.id ≡ user_id

by_header-Named :
    (authorization x_kerislab_user : Option String) (user_id : String) (w : World)
    → is_missing authorization ≡ true
    → (by_header x_kerislab_user w).0 ≡ ok user_id
    → Named (record { authorization = authorization; x_kerislab_user = x_kerislab_user }) user_id w
unfolding by_header
by_header-Named authorization none user_id w missing returns = cc
by_header-Named authorization (some header) user_id w missing returns =
    elim (Bool-cases (header == "")) [
      | inl blank ↦ let h = rw blank at returns in cc
      | inr given ↦ elim (Bool-cases (contains header w.store.users)) [
        | inr unknown ↦ let h = rw (given, unknown) at returns in cc
        | inl known ↦
            let h = rw (given, known) at returns in
            let same : header ≡ user_id = cc in
            rw (← same) (record {
              unauthorized_call = missing;
              given = refl;
              nonempty = ground (arith, given, eq_iff header "");
              known = known;
            })
      ]
    ]

user_of :
    {user_id : String} (p : Result User × World)
    → (proceed (map_error unauthorized p.0, p.1) (λ user. pure user.id)).0 ≡ ok user_id
    → (user : User) × (p.0 ≡ ok user) × (user.id ≡ user_id)
user_of (ok user, w) h = (user, refl, cc)
user_of (err e, w) h = cc

by_token-Opened :
    (header user_id : String) (x_kerislab_user : Option String) (w : World)
    → (by_token header w).0 ≡ ok user_id
    → Opened (record { authorization = some header; x_kerislab_user = x_kerislab_user }) user_id w
unfolding by_token bearer_token
by_token-Opened header user_id x_kerislab_user w returns =
    let scheme = w.env.lower (partition_head " " header) in
    let token = partition_tail " " header in
    elim (Bool-cases (not (scheme == "bearer") || token == "")) [
      | inl refused ↦ let h = rw refused at returns in cc
      | inr fine ↦
          let h = rw fine at returns in
          let (user, opens, e) = user_of (user_for_session_token token w) h in
          let (key, session, stored, own_token, open_now, owner) =
            user_for_session_token-Valid token user w opens in
          record {
            header = header;
            given = refl;
            is_bearer = ground (arith, fine, eq_iff scheme "bearer");
            nonempty = ground (arith, fine, eq_iff token "");
            key = key;
            session = session;
            user = user;
            stored = stored;
            own_token = own_token;
            is_open = open_now;
            owner = owner;
            same = e;
          }
    ]

by_headers-known :
    (authorization x_kerislab_user : Option String) (user_id : String) (w : World)
    → (by_headers authorization x_kerislab_user w).0 ≡ ok user_id
    → let caller : Caller = record {
      authorization = authorization;
      x_kerislab_user = x_kerislab_user;
    } in
      Named caller user_id w ⊎ Opened caller user_id w
unfolding by_headers
by_headers-known none x user_id w returns = inl (by_header-Named none x user_id w refl returns)
by_headers-known (some header) x user_id w returns = elim (Bool-cases (header == "")) [
  | inl blank ↦ inl (by_header-Named (some header) x user_id w blank (rw blank at returns))
  | inr given ↦ inr (by_token-Opened header user_id x w (rw given at returns))
]

-- A caller whose Authorization header is missing or empty is taken for the user whom X-KerisLab-User names, if the
-- store has that user; any other caller for the stored user of the session whose token follows the
-- word "bearer" in it, if the session is stored, neither revoked nor expired; nobody else passes.
pub current_user_id-known :
    (caller : Caller) (user_id : String) (w : World)
    → (current_user_id caller w).0 ≡ ok user_id
    → Named caller user_id w ⊎ Opened caller user_id w
unfolding current_user_id
current_user_id-known caller user_id w returns =
    by_headers-known caller.authorization caller.x_kerislab_user user_id w returns
