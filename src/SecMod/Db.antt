-- ===== src/SecMod/Db.antt =====
-- The table of sessions (src/sec-mod-db.c).
use ocserv.Prelude.{
  ℕ, zero, suc, ◌+◌, ◌-◌, Bool, true, false, not, ◌&&◌, ◌||◌, Option, none, some, List, [], ◌∷◌,
  Bytes, bytes_eq, ltb, leb, ◌==◌, if◌then◌else◌, take, length, map,
}
use ocserv.Table.{Htable, find, count, modify, sweep}
use ocserv.SecMod.Entry.{
  Vhost, Client, Event, acct_close, Sec, inactive, is_expired, same_sid, strlcpy,
  instance_index_put, zero_stats, stats_add, reason_user_disconnect, reason_server_disconnect,
  reason_session_timeout, auth_slack_time,
}

abbrev pub max_ip_str : ℕ
max_ip_str = 46

-- A zeroed entry with what new_client_entry fills in.
unfoldable pub fresh_client : Vhost → Bytes → ℕ → Bytes → Bytes → ℕ → Client
fresh_client vhost ip pid sid safe_id now = record {
  sid = sid;
  session_is_open = false;
  in_use = 0;
  tls_auth_ok = false;
  msg_str = none;
  passwd_counter = 0;
  saved_stats = zero_stats;
  stats = zero_stats;
  status = inactive;
  created = now;
  exptime = now + vhost.cookie_timeout + auth_slack_time;
  auth_type = 0;
  discon_reason = 0;
  username = [];
  groupname = [];
  safe_id = safe_id;
  remote_ip = strlcpy max_ip_str ip;
  id = pid;
  uptime = 0;
  req_group_name = [];
  cert_group_names = [];
  cert_user_name = [];
  amod = none;
  vhost = vhost;
}

-- sec_auth_user_deinit: the accounting session of an open session is closed.
unfoldable pub user_deinit : Client → List Event → List Event
user_deinit e events =
    if e.vhost.acct_close && e.session_is_open
    then acct_close e.sid e.saved_stats e.discon_reason ∷ events
    else events

-- The same for the entries that a loop deletes, in its order.
unfoldable pub deinit_all : List Client → List Event → List Event
deinit_all [] events = events
deinit_all (e ∷ es) events = deinit_all es (user_deinit e events)

-- The loops over all entries that delete those for which the test holds, with clean_entry.
unfoldable pub delete_where : (Client → Bool) → Sec → Sec
delete_where d s = record s {
  client_db = sweep d s.client_db;
  events = deinit_all (sweep (λ e. not (d e)) s.client_db) s.events;
}

unfoldable pub cleanup_client_entries : Sec → ℕ → Sec
cleanup_client_entries s now = delete_where (is_expired now) s

-- The final totals of an open session, where `now` is the time at its turn. (The uptime is that of a
-- clock that does not go back.)
unfoldable pub final_totals : (Client → ℕ) → Client → Client
final_totals now e = if not e.session_is_open then e else record e {
  uptime = if e.in_use == 0 then e.uptime else now e - e.created;
  saved_stats = stats_add e.saved_stats e.stats;
  stats = zero_stats;
}

-- sec_mod_client_db_deinit
unfoldable pub sec_mod_client_db_deinit : Sec → (Client → ℕ) → Sec
sec_mod_client_db_deinit s now = record s {
  client_db = [];
  events = deinit_all (map (final_totals now) s.client_db) s.events;
}

-- sec_mod_client_db_init: an empty table, if there is memory for one.
abbrev pub sec_mod_client_db_init : Bool → Sec → Option Sec
sec_mod_client_db_init memory s = if memory then some (record s { client_db = [] }) else none

-- sec_mod_client_db_elems, while there is a table
abbrev pub sec_mod_client_db_elems : Sec → ℕ
sec_mod_client_db_elems s = length s.client_db

-- htable_del finds the entry by its address, which here is its identifier.
unfoldable pub del_client_entry : Sec → Client → Sec
del_client_entry s e = record s {
  client_db = sweep (same_sid e.sid) s.client_db;
  events = user_deinit e s.events;
}

-- find_client_entry_by_pid
unfoldable pub find_client_entry_by_pid : Sec → ℕ → Option Client
find_client_entry_by_pid s pid = if pid == 0 then none else find (λ e. e.id == pid) s.client_db

-- A write through the pointer to the entry.
abbrev pub store : Client → Sec → Sec
store e s = record s { client_db = modify (same_sid e.sid) (λ _. e) s.client_db }

module _ (ht : Htable Client) where
  -- find_client_entry
  abbrev pub find_client_entry : Sec → Bytes → Option Client
  find_client_entry s sid = ht.get (same_sid sid) s.client_db

  -- The loop of new_client_entry that draws identifiers: `rnd i` is the i-th answer of gnutls_rnd.
  -- With `retries` from 3 down, `retries-- >= 0` allows five draws.
  unfoldable pub draw_sid : (ℕ → Option Bytes) → Sec → ℕ → ℕ → Option Bytes
  draw_sid rnd s zero i = none
  draw_sid rnd s (suc left) i =
      let retry = draw_sid rnd s left (i + 1) in
      elim (rnd i) [
        | none ↦ none
        | some bytes ↦
            let sid = instance_index_put s.instance_index bytes in
            elim (find_client_entry s sid) [ none ↦ some sid | some _ ↦ retry ]
      ]

  -- The entry is added; `none` stands for NULL.
  unfoldable pub add_client : Sec → Client → Option (Client × Sec)
  add_client s e = elim (ht.add e s.client_db) [
    | none ↦ none
    | some t ↦ some (e, record s { client_db = t })
  ]

  -- new_client_entry; calc_safe_id is the parameter `safe_id_of`.
  unfoldable pub new_client_entry :
      (Bytes → Bytes) → (ℕ → Option Bytes) → Sec → Vhost → Bytes → ℕ → ℕ → Option (Client × Sec)
  new_client_entry safe_id_of rnd s vhost ip pid now = elim (draw_sid rnd s 5 0) [
    | none ↦ none
    | some sid ↦ add_client s (fresh_client vhost ip pid sid (safe_id_of sid) now)
  ]

-- Whether expire_client_entry deletes an entry that no worker uses any more.
unfoldable pub invalidates : Client → Bool
invalidates e =
    not e.vhost.persistent_cookies
    && (e.discon_reason == reason_server_disconnect
        || e.discon_reason == reason_session_timeout
        || (e.session_is_open && (e.discon_reason == reason_user_disconnect)))

-- The new expiration of one that stays.
unfoldable pub linger : Client → ℕ → ℕ
linger e now =
    if e.discon_reason == reason_user_disconnect
    then (if not e.vhost.persistent_cookies || leb e.exptime (now + auth_slack_time)
        then now + auth_slack_time
        else e.exptime)
    else now + e.vhost.cookie_timeout + auth_slack_time

-- expire_client_entry
unfoldable pub expire_client_entry : Sec → Client → ℕ → Sec
expire_client_entry s e₀ now =
    let e : Client = record e₀ { in_use = e₀.in_use - 1 } in
    if e.in_use == 0
    then (if invalidates e
        then del_client_entry s e
        else store (record e { exptime = linger e now; id = 0 }) s)
    else store e s

-- terminate_user_sessions: true stands for 1, and `none` for a null name.
unfoldable pub terminate_user_sessions : Sec → Option Bytes → Bool × Sec
terminate_user_sessions s none = (false, s)
terminate_user_sessions s (some []) = (false, s)
terminate_user_sessions s (some (c ∷ name)) =
    let hit = λ (e : Client). bytes_eq e.username (c ∷ name) in
    (ltb 0 (count hit s.client_db), delete_where hit s)

abbrev pub safe_id_size : ℕ
safe_id_size = 29

-- terminate_session_by_sid: the first session with that printable identifier.
unfoldable pub terminate_session_by_sid : Sec → Option Bytes → Bool × Sec
terminate_session_by_sid s none = (false, s)
terminate_session_by_sid s (some safe_id) =
    if not (length safe_id == safe_id_size - 1)
    then (false, s)
    else elim (find (λ e. bytes_eq (take (safe_id_size - 1) e.safe_id) safe_id) s.client_db) [
      | none ↦ (false, s)
      | some e ↦ (true, del_client_entry s e)
    ]
