-- ===== src/Main/Tests.antt =====
-- The clients of the main process at concrete inputs.
use ocserv.Prelude.{
  ℕ, ◌+◌, ◌≡◌, ◌<◌, ◌↔◌, ◌⊎◌, refl, true, false, none, some, List, [], ◌∷◌, Bytes, length,
  replicate, bytes_eq,
}
use ocserv.Address.{af_inet}
use ocserv.SecMod.Entry.{completed}
use ocserv.Table.{count}
use ocserv.Lease.Assign
use ocserv.Main.Proc.{Sockaddr, Proc, Server, put}
use ocserv.Main.Search.{proc_table_add, proc_search_sid}
use ocserv.Main.Auth.{
  Env, CookieReq, no_script, handle_auth_cookie_req, check_multiple_users, is_invalidated,
  session_open, read_reply, set_session, reuse,
}
use ocserv.Main.Clients.{blank_proc, remove_proc, new_proc}
use ocserv.Main.Step.{Message, connected, cookie, step, run, start, connect_at}
use ocserv.Main.Valid.{IsValid, tabled}
use ocserv.Main.Run.{run-Valid}
use ocserv.Main.Safe.{IsForgotten, remove_proc-IsForgotten}
use ocserv.Main.Limit.{is_other, check_multiple_users-count}
use ocserv.Main.Reuse.{IsEnded, handle-IsEnded}
use ocserv.Main.Fixtures.{list_index, got}

abbrev peer : Sockaddr
peer = record {
  address = record { family = af_inet; sin_addr = 10 ∷ 0 ∷ 0 ∷ 1 ∷ []; sin6_addr = [] };
  port = 4000;
}

abbrev no_lease : Assign.Proc
no_lease = record {
  ipv4 = none;
  ipv6 = none;
  net4 = record {
    ipv4_net = none;
    ipv4_netmask = none;
    vhost_ipv4 = none;
    vhost_netmask = none;
    explicit_ipv4 = none;
  };
  net6 = record {
    ipv6_net = none;
    ipv6_prefix = 0;
    ipv6_subnet_prefix = 0;
    vhost_ipv6 = none;
    vhost_prefix = 0;
    vhost_subnet_prefix = 0;
    explicit_ipv6 = none;
  };
  ipv4_seed = [];
}

abbrev my_cookie : Bytes
my_cookie = replicate 32 0

abbrev fine : Env
fine = record {
  reply = some (record {
    ok = true;
    session_start_time = 5;
    username = some (97 ∷ []);
    groupname = none;
    config = some (2, false);
    ip = none;
  });
  rnd = some (1 ∷ 2 ∷ []);
  human_addr = none;
  memory4 = true;
  memory6 = true;
  tun = true;
  script = no_script;
  sent = true;
  routes = true;
}

abbrev req : CookieReq
req = record { cookie = my_cookie; hostname = none }

abbrev visitor : ℕ → Proc
visitor pid = blank_proc pid 100 peer 16 no_lease peer

abbrev hello : ℕ → Message
hello p = connected (some p) (p + 1000) 100 peer 16 no_lease peer

-- Two clients connect, and the first gets a session.
abbrev history : List Message
history = hello 1 ∷ hello 2 ∷ cookie 1 fine req ∷ []

run-Valid_example :
    IsValid length list_index tabled (run length list_index 1 history (start length list_index))
run-Valid_example = run-Valid length list_index 1 history

remove_proc-IsForgotten_example : IsForgotten length list_index 1 (
    remove_proc list_index length true false none 1
      (visitor 1001)
      (run length list_index 1 (hello 1 ∷ []) (start length list_index)))
unfolding run step connect_at new_proc
remove_proc-IsForgotten_example =
    remove_proc-IsForgotten length list_index 1 (hello 1 ∷ []) 1 (visitor 1001) true false none refl

-- The client with the session, and the server with it and another.
abbrev holder : Proc
holder = record (visitor 1001) {
  username = 97 ∷ [];
  sid = my_cookie;
  active_sid = true;
  session_start_time = 5;
  dtls_session_id = 1 ∷ 2 ∷ [];
  max_same_clients = some 2;
  status = completed;
}

abbrev served : Server list_index
served = record {
  procs = put 2 (some (visitor 1002)) (put 1 (some holder) (λ p. none));
  proc_list = 2 ∷ 1 ∷ [];
  active_clients = 2;
  db_ip = (4, 1) ∷ [];
  db_dtls_ip = [];
  db_dtls_id = (2, 1) ∷ [];
  db_sid = (32, 1) ∷ [];
  total = 1;
  leases = [];
  events = [];
}

abbrev two : ℕ
two = 2

check_multiple_users-count_example :
    (check_multiple_users length list_index 2 holder two served ≡ true) ↔ (
      (two ≡ 0)
      ⊎ (count (is_other length list_index 2 holder.username served) served.proc_list < two))
check_multiple_users-count_example =
    check_multiple_users-count length list_index served 2 holder two

handle-IsEnded_example :
    (holder.invalidated ≡ false)
    × (r : Proc) × (o : Proc) × ((handle_auth_cookie_req length list_index fine req 2
            (visitor 1002)
            served).1.procs
          2
        ≡ some r)
    × (r.sid ≡ my_cookie)
    × (r.username ≡ holder.username)
    × (r.lease.ipv4 ≡ none)
    × (r.lease.ipv6 ≡ none)
    × ((handle_auth_cookie_req length list_index fine req 2 (visitor 1002) served).1.procs 1
        ≡ some o)
    × IsEnded length list_index holder o served
        (handle_auth_cookie_req length list_index fine req 2 (visitor 1002) served).1
unfolding proc_search_sid got bytes_eq handle_auth_cookie_req is_invalidated session_open read_reply
    set_session reuse proc_table_add
handle-IsEnded_example =
    handle-IsEnded length list_index fine req 2 1 (visitor 1002) holder served refl refl refl refl
