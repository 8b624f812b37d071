-- ===== src/Share/Access/Rules.antt =====
-- Who gets at the content in src/business/external-share/external-share-access.service.ts.
use file_system_spike.Base.{
  ℕ, ◌+◌, ◌≡◌, refl, inl, inr, str_eq, str_eq_iff, Bool, true, false, Option, some, none, [], ◌∷◌,
  ◌++◌, arith, Result, ok, err, Bool-cases, Option-cases, ◌>>=◌,
}
use file_system_spike.Base.Dict.{lookup, set}
use file_system_spike.Share.PublicShare.{
  SharePermission, view, download, PublicShare, is_expired, is_view_limit_exceeded,
  is_download_limit_exceeded, has_permission, increment_view_count, increment_download_count,
}
use file_system_spike.Share.TokenStore.{TokenData, TokenStore}
use file_system_spike.Share.Access.{
  Denial, AccessParams, FileMeta, World, Download, check_share, count_access, authorize,
  access_content, validate_and_consume_token, log_of, blocked_by_admin, finish, after_token,
  delivered,
}

-- The limit that an action is held to.
abbrev pub limit_exceeded : SharePermission → PublicShare → Bool
limit_exceeded view s = is_view_limit_exceeded s
limit_exceeded download s = is_download_limit_exceeded s

-- What the six steps ask for.
pub record MayAccess (now : ℕ) (action : SharePermission) (user : Option Bool) (s : PublicShare)
    : Type 0 where
  pub unblocked : s.is_blocked ≡ false
  pub unrevoked : s.is_revoked ≡ false
  pub active : user ≡ some true
  pub in_time : is_expired now s ≡ false
  pub in_limit : limit_exceeded action s ≡ false
  pub permitted : has_permission action s ≡ true

check_share_sound :
    (now : ℕ) (action : SharePermission) (user : Option Bool) (s : PublicShare)
    → check_share now action user s ≡ ok tt
    → MayAccess now action user s
unfolding check_share
check_share_sound now view user s e = ground arith
check_share_sound now download user s e = ground arith

check_share_complete :
    (now : ℕ) (action : SharePermission) (user : Option Bool) (s : PublicShare)
    → MayAccess now action user s
    → check_share now action user s ≡ ok tt
unfolding check_share
check_share_complete now view user s m = ground arith
check_share_complete now download user s m = ground arith

-- The share after a successful access: the counter of the action is one more, and the name and type
-- of the file are filled in.
abbrev pub counted_share : ℕ → SharePermission → FileMeta → PublicShare → PublicShare
counted_share now view m s = record s {
  file_name = m.name;
  mime_type = m.mime_type;
  current_view_count = s.current_view_count + 1;
  updated_at = some now;
}
counted_share now download m s = record s {
  file_name = m.name;
  mime_type = m.mime_type;
  current_download_count = s.current_download_count + 1;
  updated_at = some now;
}

delivered_lem :
    (now : ℕ) (action : SharePermission) (s : PublicShare) (m : FileMeta)
    → limit_exceeded action s ≡ false
    → delivered now action s (some m) ≡ ok (counted_share now action m s)
unfolding delivered count_access increment_view_count increment_download_count
delivered_lem now view s m h = ground arith
delivered_lem now download s m h = ground arith

pub record Granted (fetch : Download) (now : ℕ) (p : AccessParams) (w : World) (d : TokenData)
    (t : PublicShare) : Type 0 where
  pub share : PublicShare
  pub meta : FileMeta
  pub matching : d.share_id ≡ p.share_id
  pub stored : lookup p.share_id w.shares ≡ some share
  pub may : MayAccess now p.action (lookup p.external_user_id w.active_users) share
  pub fetched : fetch share.file_id p.range_header p.if_range_header ≡ some meta
  pub result : t ≡ counted_share now p.action meta share

delivered_ok :
    (now : ℕ) (action : SharePermission) (s : PublicShare) (o : Option FileMeta) {t : PublicShare}
    → limit_exceeded action s ≡ false
    → delivered now action s o ≡ ok t
    → (m : FileMeta) × (o ≡ some m) × (t ≡ counted_share now action m s)
unfolding delivered
delivered_ok now action s none h e = cc
delivered_ok now action s (some m) h e = (m, refl, ground (arith, delivered_lem now action s m h))

authorize_sound :
    (fetch : Download) (now : ℕ) (p : AccessParams) (w : World) (d : TokenData) {t : PublicShare}
    → authorize fetch now p w d ≡ ok t
    → Granted fetch now p w d t
unfolding authorize
authorize_sound fetch now p w d {t} e = elim (Bool-cases (str_eq d.share_id p.share_id)) [
  | inr no_match ↦ cc (e, no_match)
  | inl match ↦ elim (Option-cases (lookup p.share_id w.shares)) [
    | inl missing ↦ cc (e, match, missing)
    | inr (s, stored) ↦
        checked s match stored
          (check_share now p.action (lookup p.external_user_id w.active_users) s) refl
          (rw (match, stored) at e)
  ]
]
  where
    checked :
        (s : PublicShare)
        → str_eq d.share_id p.share_id ≡ true
        → lookup p.share_id w.shares ≡ some s
        → (r : Result Denial (Unit {0}))
        → check_share now p.action (lookup p.external_user_id w.active_users) s ≡ r
        → (r >>= λ _. delivered now p.action s (fetch s.file_id p.range_header p.if_range_header))
          ≡ ok t
        → Granted fetch now p w d t
    checked s match stored (err x) c f = cc
    checked s match stored (ok u) c f =
        let may =
          check_share_sound now p.action (lookup p.external_user_id w.active_users) s
            (ground arith) in
        let (m, fetched, result) =
          delivered_ok now p.action s (fetch s.file_id p.range_header p.if_range_header)
            may.in_limit f in
        record {
          share = s;
          meta = m;
          matching = (str_eq_iff d.share_id p.share_id).0 match;
          stored = stored;
          may = may;
          fetched = fetched;
          result = result;
        }

authorize_complete :
    (fetch : Download) (now : ℕ) (p : AccessParams) (w : World) (d : TokenData) {t : PublicShare}
    → Granted fetch now p w d t
    → authorize fetch now p w d ≡ ok t
unfolding authorize
authorize_complete fetch now p w d g = ground (
  arith,
  str_eq_iff d.share_id p.share_id,
  check_share_complete now p.action (lookup p.external_user_id w.active_users) g.share g.may,
  delivered_lem now p.action g.share g.meta g.may.in_limit,
)

finish-ok :
    (now : ℕ) (p : AccessParams) (w : World) (r : Result Denial PublicShare) {t : PublicShare}
    → (finish now p w r).1 ≡ ok t
    → (r ≡ ok t)
      × ((finish now p w r).0 ≡ record w {
        shares = set p.share_id t w.shares;
        logs = w.logs ++ log_of now p none ∷ [];
      })
unfolding finish
finish-ok now p w (ok s) e = (e, ground arith)
finish-ok now p w (err x) e = cc

-- The world that the checks see: the token is gone.
abbrev pub after_consume : ℕ → AccessParams → World → World
after_consume now p w = record w { tokens = (validate_and_consume_token now p.token w.tokens).0 }

after_token-Granted :
    (fetch : Download) (now : ℕ) (p : AccessParams) (w : World)
    (c : TokenStore × Result Denial TokenData) {t : PublicShare}
    → (after_token fetch now p w c).1 ≡ ok t
    → let w' = record w { tokens = c.0 } in
      (d : TokenData) × (c.1 ≡ ok d)
      × Granted fetch now p w' d t
      × ((after_token fetch now p w c).0 ≡ record w' {
        shares = set p.share_id t w.shares;
        logs = w.logs ++ log_of now p none ∷ [];
      })
unfolding after_token
after_token-Granted fetch now p w (store, err x) e = cc
after_token-Granted fetch now p w (store, ok d) e =
    let w' = record w { tokens = store } in
    let f = finish-ok now p w' (authorize fetch now p w' d) e in
    (d, refl, authorize_sound fetch now p w' d f.0, f.1)

-- An access that is granted has passed every step: the token was good and is for this share; the
-- share exists, is not blocked, not revoked and not expired; the user is active; the counter of the
-- action is under its limit; the share has the permission for the action; and the file was fetched.
-- The access then saves the share with that counter one higher, logs one success and consumes the
-- token.
pub access_content-Granted :
    (fetch : Download) (now : ℕ) (p : AccessParams) (w : World) {t : PublicShare}
    → (access_content fetch now p w).1 ≡ ok t
    → (d : TokenData) × ((validate_and_consume_token now p.token w.tokens).1 ≡ ok d)
      × Granted fetch now p (after_consume now p w) d t
      × ((access_content fetch now p w).0 ≡ record (after_consume now p w) {
        shares = set p.share_id t w.shares;
        logs = w.logs ++ log_of now p none ∷ [];
      })
unfolding access_content
access_content-Granted fetch now p w {t} e =
    elim (Bool-cases (blocked_by_admin (lookup p.share_id w.shares))) [
      | inl blocked ↦ absurd (refused (rw blocked at e))
      | inr free ↦ rw free (
          after_token-Granted fetch now p w (validate_and_consume_token now p.token w.tokens)
            (rw free at e))
    ]
  where
    refused : (finish now p w (err Denial.share_blocked_by_admin)).1 ≡ ok t → ⊥
    refused f = cc (finish-ok now p w (err Denial.share_blocked_by_admin) f).0

after_token_when :
    (fetch : Download) (now : ℕ) (p : AccessParams) (w : World)
    (c : TokenStore × Result Denial TokenData) (d : TokenData) {t : PublicShare}
    → c.1 ≡ ok d
    → Granted fetch now p (record w { tokens = c.0 }) d t
    → (after_token fetch now p w c).1 ≡ ok t
unfolding after_token
after_token_when fetch now p w (store, err x) d e g = cc
after_token_when fetch now p w (store, ok d') d e g =
    ground (arith, e, authorize_complete fetch now p (record w { tokens = store }) d g)

-- Whenever those steps are passed the access is granted. Nothing else is asked: not that the share
-- is this user's, not that its start has come, and not what the token was issued for.
pub Granted-access_content :
    (fetch : Download) (now : ℕ) (p : AccessParams) (w : World) (d : TokenData) {t : PublicShare}
    → (validate_and_consume_token now p.token w.tokens).1 ≡ ok d
    → Granted fetch now p (after_consume now p w) d t
    → (access_content fetch now p w).1 ≡ ok t
unfolding access_content
Granted-access_content fetch now p w d {t} c g =
    rw (unblocked_share g.stored g.may)
      (after_token_when fetch now p w (validate_and_consume_token now p.token w.tokens) d c g)
  where
    unblocked_share :
        {s : PublicShare}
        → lookup p.share_id w.shares ≡ some s
        → MayAccess now p.action (lookup p.external_user_id w.active_users) s
        → blocked_by_admin (lookup p.share_id w.shares) ≡ false
    unblocked_share e m = ground arith

abbrev Refusal : World → Denial → ℕ → AccessParams → World → Type 0
Refusal before x now p after =
    (after.shares ≡ before.shares) × (after.logs ≡ before.logs ++ log_of now p (some x) ∷ [])

finish-err :
    (now : ℕ) (p : AccessParams) (w : World) (r : Result Denial PublicShare) {x : Denial}
    → (finish now p w r).1 ≡ err x
    → Refusal w x now p (finish now p w r).0
unfolding finish
finish-err now p w (ok s) e = cc
finish-err now p w (err y) e = (refl, ground arith)

after_token_refused :
    (fetch : Download) (now : ℕ) (p : AccessParams) (w : World)
    (c : TokenStore × Result Denial TokenData) {x : Denial}
    → (after_token fetch now p w c).1 ≡ err x
    → Refusal w x now p (after_token fetch now p w c).0
unfolding after_token
after_token_refused fetch now p w (store, err y) e =
    finish-err now p (record w { tokens = store }) (err y) e
after_token_refused fetch now p w (store, ok d) e =
    let w' = record w { tokens = store } in finish-err now p w' (authorize fetch now p w' d) e

-- An access that is refused changes no share; it logs one failure, with its reason.
denied_keeps :
    (fetch : Download) (now : ℕ) (p : AccessParams) (w : World) {x : Denial}
    → (access_content fetch now p w).1 ≡ err x
    → ((access_content fetch now p w).0.shares ≡ w.shares)
      × ((access_content fetch now p w).0.logs ≡ w.logs ++ log_of now p (some x) ∷ [])
unfolding access_content
denied_keeps fetch now p w {x} e =
    elim (Bool-cases (blocked_by_admin (lookup p.share_id w.shares))) [
      | inl blocked ↦
          rw blocked (finish-err now p w (err Denial.share_blocked_by_admin) (rw blocked at e))
      | inr free ↦ rw free (
          after_token_refused fetch now p w (validate_and_consume_token now p.token w.tokens)
            (rw free at e))
    ]
