-- ===== src/Store/Session.antt =====
-- internal/store/session.go
use masonic_core.Prelude.{
  ℕ, Bool, ◌&&◌, ◌||◌, not, Option, none, some, List, [], ◌∷◌, ltb, ◌==◌, if◌then◌else◌, find_row,
  any_row, keep_rows, count_rows, update_rows, is_none,
}
use masonic_core.Text.{Text, text_eq}
use masonic_core.Models.{Session, NewSession}
use masonic_core.World.{
  unique_violation, foreign_key_violation, bad_inet, row_not_found, M, pure, raise, ◌>>=◌,
  refuse_if, Stamp, rows, fault, Sql, statement,
}
use masonic_core.Store.Cascade.{has_user}

-- An empty address is stored as NULL; any other has to be an `inet`.
address : Stamp → Text → Option (Option Text)
address st [] = some none
address st (c ∷ s) = elim (st.inet_text (c ∷ s)) [ none ↦ none | some t ↦ some (some t) ]

unfoldable pub new_row : Stamp → NewSession → Option Text → Session
new_row st ns ip = record {
  id = st.uuid;
  user_id = ns.user_id;
  token_hash = ns.token_hash;
  user_agent = ns.user_agent;
  ip = ip;
  created_at = st.now;
  expires_at = ns.expires_at;
  revoked_at = none;
}

-- The INSERT, with the address read.
unfoldable pub insert_with : NewSession → Option (Option Text) → Sql Session
unfolding new_row
insert_with ns none st d = fault bad_inet
insert_with ns (some ip) st d =
    if any_row (λ s. s.id == st.uuid || text_eq s.token_hash ns.token_hash) d.sessions
    then fault unique_violation
    else if not (has_user ns.user_id d)
    then fault foreign_key_violation
    else rows (new_row st ns ip) (record d { sessions = new_row st ns ip ∷ d.sessions })

unfoldable pub insert_session : NewSession → Sql Session
unfolding address insert_with
insert_session ns st d = insert_with ns (address st ns.ip) st d

unfoldable pub create : NewSession → M Session
unfolding insert_session
create ns = statement (insert_session ns)

-- revoked_at IS NULL AND expires_at > now()
unfoldable pub is_live : ℕ → Session → Bool
is_live now s = is_none s.revoked_at && ltb now s.expires_at

-- The session that a token hash stands for at a time.
unfoldable pub live_session : Text → ℕ → List Session → Option Session
unfolding is_live
live_session hash now ss = find_row (λ s. text_eq s.token_hash hash && is_live now s) ss

unfoldable pub select_session : Text → Sql (Option Session)
unfolding live_session
select_session hash st d = rows (live_session hash st.now d.sessions) d

unfoldable pub scan_session : Option Session → M Session
scan_session none = raise row_not_found
scan_session (some s) = pure s

unfoldable pub get_by_token_hash : Text → M Session
unfolding select_session scan_session
get_by_token_hash hash = do row ← statement (select_session hash); scan_session row

-- UPDATE of the session, if it is not revoked; the rows affected.
unfoldable pub update_open : ℕ → (Session → Session) → Sql ℕ
update_open id f st d =
    let open_row : Session → Bool = λ s. s.id == id && is_none s.revoked_at in
    rows (count_rows open_row d.sessions)
      (record d { sessions = update_rows open_row f d.sessions })

unfoldable pub revoke : ℕ → ℕ → M (Unit {0})
unfolding update_open
revoke id at = do
  n ← statement (update_open id (λ s. record s { revoked_at = some at }))
  refuse_if (n == 0) row_not_found

-- expires_at < now() OR revoked_at IS NOT NULL
unfoldable pub is_spent : ℕ → Session → Bool
is_spent now s = ltb s.expires_at now || not (is_none s.revoked_at)

unfoldable pub delete_spent : Sql ℕ
unfolding is_spent
delete_spent st d =
    rows (count_rows (is_spent st.now) d.sessions)
      (record d { sessions = keep_rows (λ s. not (is_spent st.now s)) d.sessions })

unfoldable pub delete_expired : M ℕ
unfolding delete_spent
delete_expired = statement delete_spent

unfoldable pub touch : ℕ → ℕ → M (Unit {0})
unfolding update_open
touch id expires_at = do
  n ← statement (update_open id (λ s. record s { expires_at = expires_at }))
  refuse_if (n == 0) row_not_found
