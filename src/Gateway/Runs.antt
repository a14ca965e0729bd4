-- ===== src/Gateway/Runs.antt =====
-- Runs of the gateway's session table, and of the check of its configuration.
use diam_gw.Prelude.{◌≡◌, refl, [], ◌∷◌, true, some, put, lookup, delete, err}
use diam_gw.Prelude.Int.{pos}
use diam_gw.Gateway.{
  Session, Sessions, no_sessions, store_session, count_stored, delete_session, find_session,
  cleanup_expired_sessions, cleanup_loop, is_expired, validate_gateway_config,
  origin_realm_required,
}
use diam_gw.Gateway.Balance.{
  Reachable, started, stepped, stores, deletes, Balanced, Reachable-Balanced,
}

abbrev first : Session
first = record { conn = 1; created_at = 100 }

-- A session is stored and deleted before the first call has counted it.
abbrev stored : Sessions
unfolding store_session no_sessions
stored = store_session 7 first no_sessions

abbrev hurried : Sessions
unfolding delete_session
hurried = (delete_session 7 stored).1

hurried-Reachable : Reachable hurried
unfolding store_session stored delete_session hurried
hurried-Reachable =
    stepped stored hurried (stepped no_sessions stored started (stores 7 first stored refl))
      (deletes 7 hurried refl)

Reachable-Balanced_example : Balanced hurried
Reachable-Balanced_example = Reachable-Balanced hurried hurried-Reachable

-- The cleaning takes the older of two sessions.
abbrev two : Sessions
two = count_stored (
    count_stored
      (store_session 8 (record { conn = 2; created_at = 150 }) (store_session 7 first no_sessions)))

cleaned_keeps :
    find_session 8 (cleanup_expired_sessions 180 50 two)
    ≡ some (record { conn = 2; created_at = 150 })
unfolding find_session cleanup_expired_sessions cleanup_loop is_expired count_stored store_session
    no_sessions put lookup delete
cleaned_keeps = refl

cleaned_active : (cleanup_expired_sessions 180 50 two).active ≡ 1
unfolding find_session cleanup_expired_sessions cleanup_loop is_expired count_stored store_session
    no_sessions put lookup delete
cleaned_active = refl

without_realm :
    validate_gateway_config (
      some (record {
        origin_host = 103 ∷ [];
        origin_realm = [];
        has_dra_pool_config = true;
        session_timeout = pos 5;
      }))
    ≡ err origin_realm_required
unfolding validate_gateway_config
without_realm = refl
