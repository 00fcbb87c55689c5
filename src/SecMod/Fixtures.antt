-- ===== src/SecMod/Fixtures.antt =====
-- A security module with one session, for the tests.
use ocserv.Prelude.{
  ◌≡◌, refl, true, false, none, some, List, [], ◌∷◌, Bytes, arith, replicate, bytes_eq,
}
use ocserv.Table.{find, count}
use ocserv.SecMod.Entry.{
  Client, Vhost, Sec, completed, same_sid, zero_stats, instance_index_get, session_ok, acct_open,
  Event,
}
use ocserv.SecMod.Auth.{Answers, done}
use ocserv.SecMod.Session.{OpenAnswers}
use ocserv.SecMod.Init.{InitReq, InitAnswers}
use ocserv.SecMod.Step.{Op, auth_init, session_open, session_close, cleanup}
use ocserv.SecMod.Accounting.{IsValid}
use ocserv.SecMod.Grant.{IsOwn}

abbrev pub host : Vhost
host = record {
  cookie_timeout = 300;
  persistent_cookies = false;
  auth_timeout = 240;
  max_ban_score = 80;
  ban_points_wrong_password = 10;
  cert_user_oid = none;
  cert_group_oid = none;
  acct_open = true;
  acct_close = true;
  acct_stats = true;
  methods = record { enabled = true; kind = 2; amod = none } ∷ [];
}

abbrev pub random_bytes : Bytes
random_bytes = replicate 32 7

abbrev pub my_sid : Bytes
my_sid = 0 ∷ 1 ∷ replicate 30 7

-- A session whose user has logged in, and is not connected.
abbrev pub session : Client
session = record {
  sid = my_sid;
  session_is_open = false;
  in_use = 0;
  tls_auth_ok = false;
  msg_str = none;
  passwd_counter = 0;
  saved_stats = zero_stats;
  stats = zero_stats;
  status = completed;
  created = 1000;
  exptime = 1315;
  auth_type = 2;
  discon_reason = 0;
  username = 97 ∷ [];
  groupname = [];
  safe_id = 65 ∷ [];
  remote_ip = 49 ∷ [];
  id = 77;
  uptime = 0;
  req_group_name = [];
  cert_group_names = [];
  cert_user_name = [];
  amod = none;
  vhost = host;
}

abbrev pub with_entry : Client → List Event → Sec
with_entry e vs = record {
  client_db = e ∷ [];
  auth_failures = 0;
  max_auth_time = 20;
  avg_auth_time = 10;
  total_authentications = 3;
  instance_index = 1;
  events = vs;
}

abbrev pub server : Sec
server = with_entry session []

abbrev pub empty : Sec
empty = record server { client_db = [] }

-- The same with a worker that uses the session.
abbrev pub connected : Client
connected = record session { session_is_open = true; in_use = 1 }

abbrev pub busy : Sec
busy = with_entry connected (session_ok my_sid ∷ acct_open my_sid ∷ [])

pub server-IsValid : IsValid server
unfolding count
server-IsValid = record {
  once = λ k. ground arith;
  paired = (refl, tt);
  balanced = λ k. ground arith;
}

pub busy-IsValid : IsValid busy
unfolding count
busy-IsValid = record {
  once = λ k. ground arith;
  paired = (refl, tt);
  balanced = λ k. ground arith;
}

pub empty-IsValid : IsValid empty
unfolding count
empty-IsValid = record { once = λ k. ground arith; paired = tt; balanced = λ k. refl }

abbrev pub willing : OpenAnswers
willing = record {
  accepted = true;
  seed = true;
  memory = true;
  config = true;
  sent = true;
  now = 1100;
  later = 1100;
}

abbrev pub answers : Answers
answers = record {
  msg = some (none, 0);
  group = λ r g. (true, g);
  user = λ u. u;
  sent = true;
  now = 1010;
}

pub my_sid-IsOwn : IsOwn server my_sid
unfolding instance_index_get
my_sid-IsOwn = (refl, refl)

pub server-find : find (same_sid my_sid) server.client_db ≡ some session
unfolding find bytes_eq
server-find = refl

pub busy-find : find (same_sid my_sid) busy.client_db ≡ some connected
unfolding find bytes_eq
busy-find = refl

abbrev pub request : InitReq
request = record {
  hmac_sized = true;
  hmac_ok = true;
  has_orig_remote_ip = true;
  session_start_time = 1000;
  vhost = host;
  remote_ip = 49 ∷ [];
  auth_type = 2;
  tls_auth_ok = false;
  user_name = some (97 ∷ []);
  group_name = none;
  cert_user_name = none;
  cert_group_names = [];
}

abbrev pub drawn : InitAnswers
drawn = record {
  rnd = λ n. some random_bytes;
  safe_id_of = λ sid. 65 ∷ [];
  auth_init = done;
  now = 1000;
  later = 1000;
}

-- A login, a connection, its end, and the cleanup.
abbrev pub history : List Op
history =
    auth_init answers request drawn 77
    ∷ session_open willing my_sid
    ∷ session_close true 1200 1200 my_sid none none false
    ∷ cleanup 9000
    ∷ []
