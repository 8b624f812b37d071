-- ===== src/Share/Access/Tokens.antt =====
-- One-time content tokens of src/business/external-share/external-share-access.service.ts.
use file_system_spike.Base.{
  ℕ, ◌+◌, ◌*◌, ◌≡◌, ◌≢◌, inl, inr, String, str_eq, str_eq_iff, false, Option, some, none, arith, ok,
  err, Bool-cases, ltb, if◌then◌else◌,
}
use file_system_spike.Base.Dict.{lookup, lookup-delete, lookup-set}
use file_system_spike.Share.PublicShare.{PublicShare}
use file_system_spike.Share.TokenStore.{
  TokenData, TokenEntry, TokenStore, get_found, get_token, set_token, del_token,
}
use file_system_spike.Share.Access.{
  Denial, AccessParams, World, Download, access_content, validate_and_consume_token, consume,
  token_key, get_share_detail, detail_of, token_ttl_seconds,
}
use file_system_spike.Share.Access.Rules.{access_content-Granted}

consume_spends :
    (now : ℕ) (key : String) (o : Option TokenEntry) (store : TokenStore) {d : TokenData}
    → (consume key (get_found now key o store)).1 ≡ ok d
    → lookup key (consume key (get_found now key o store)).0 ≡ none
unfolding consume get_found del_token
consume_spends now key none store e = cc
consume_spends now key (some x) store e =
    ground (arith, lookup-delete key key store, str_eq_iff key key)

validate_spends :
    (now : ℕ) (token : String) (store : TokenStore) {d : TokenData}
    → (validate_and_consume_token now token store).1 ≡ ok d
    → lookup (token_key token) (validate_and_consume_token now token store).0 ≡ none
unfolding validate_and_consume_token get_token
validate_spends now token store e =
    consume_spends now (token_key token) (lookup (token_key token) store) store e

validate_missing :
    (now : ℕ) (token : String) (store : TokenStore)
    → lookup (token_key token) store ≡ none
    → (validate_and_consume_token now token store).1 ≡ err Denial.token_invalid
unfolding validate_and_consume_token get_token consume get_found
validate_missing now token store e = ground arith

-- A token opens the content once: after an access that was granted, no access with the same token is
-- granted, for any share, action or user and at any time.
pub single_use :
    (fetch : Download) (now later : ℕ) (p p' : AccessParams) (w : World) {t t' : PublicShare}
    → (access_content fetch now p w).1 ≡ ok t
    → p'.token ≡ p.token
    → (access_content fetch later p' (access_content fetch now p w).0).1 ≢ ok t'
single_use fetch now later p p' w e same f =
    let (d, c, g, after) = access_content-Granted fetch now p w e in
    let (d', c', g', after') =
      access_content-Granted fetch later p' (access_content fetch now p w).0 f in
    let missing =
      validate_missing later p'.token (access_content fetch now p w).0.tokens
        (rw (after, same) (validate_spends now p.token w.tokens c)) in
    cc

issued_detail :
    (now later : ℕ) (token_id user : String) (o : Option PublicShare) (w : World) {w' : World}
    {s : PublicShare}
    → detail_of now token_id user o w ≡ ok (w', s)
    → (validate_and_consume_token later token_id w'.tokens).1 ≡ (
        if ltb (now + token_ttl_seconds * 1000) later
        then err Denial.token_invalid
        else ok (record { share_id = s.id; permission = "VIEW"; used = false }))
unfolding detail_of validate_and_consume_token get_token consume get_found set_token
issued_detail now later token_id user none w e = cc
issued_detail now later token_id user (some x) w e =
    elim (Bool-cases (str_eq x.external_user_id user)) [
      | inr other ↦ cc (e, other)
      | inl same ↦ grind (arith, lookup-set, str_eq_iff (token_key token_id) (token_key token_id))
    ]

-- A token that `getShareDetail` issues is good for its share until its time is over: it is then
-- validated with the share it was issued for, and from the next millisecond on it is refused.
issued_token :
    (now later : ℕ) (token_id user share_id : String) (w : World) {w' : World} {s : PublicShare}
    → get_share_detail now token_id user share_id w ≡ ok (w', s)
    → (validate_and_consume_token later token_id w'.tokens).1 ≡ (
        if ltb (now + token_ttl_seconds * 1000) later
        then err Denial.token_invalid
        else ok (record { share_id = s.id; permission = "VIEW"; used = false }))
unfolding get_share_detail validate_and_consume_token get_token consume get_found set_token
issued_token now later token_id user share_id w e =
    issued_detail now later token_id user (lookup share_id w.shares) w e
