-- ===== src/Resume/Tests.antt =====
-- The cache of TLS sessions at concrete inputs (src/sec-mod-resume.c).
use mathlib.Core.List.{Permᴰ}
use mathlib.Core.List.Permᴰ
use mathlib.Core.Path.{subst}
use ocserv.Prelude.{
  ℕ, zero, suc, ◌≡◌, refl, sym, true, none, some, List, [], ◌∷◌, ◌++◌, Bytes, bytes_eq, length,
  arith,
}
use ocserv.Address.{af_inet, ip_cmp, family_eq}
use ocserv.Table.{Chained, count, find, push, push-perm}
use ocserv.Resume.{
  Cache, Peer, TlsDb, FetchReq, StoreReq, Memory, new_cache, handle_resume_fetch_req,
  handle_resume_store_req, fetch_in, pointers_differ, names_differ,
}
use ocserv.Resume.Step.{World, store, fetch, delete, expire, step, reply, run}
use ocserv.Resume.Counted.{IsCounted, run-IsCounted}
use ocserv.Resume.Answer.{Justified, fetch-Justified}
use ocserv.Resume.Refine.{Sessions, Promise, Holds, step-Kept}
use ocserv.Resume.Roundtrip.{store-fetch}

abbrev remove_at : {E : Type 0} → ℕ → List E → List E
remove_at i [] = []
remove_at zero (e ∷ t) = t
remove_at (suc i) (e ∷ t) = e ∷ remove_at i t

remove_at-perm :
    {E : Type 0} (a b : List E) (e : E)
    → Permᴰ (a ++ (e ∷ b)) (e ∷ remove_at (length a) (a ++ (e ∷ b)))
remove_at-perm [] b e = Permᴰ.refl (e ∷ b)
remove_at-perm (x ∷ a) b e =
    Permᴰ.trans (Permᴰ.cons refl (remove_at-perm a b e)) (Permᴰ.swap refl refl)

-- A table that visits all its entries, and never runs out of memory.
abbrev whole : {E : Type 0} (hash : E → ℕ) → Chained E hash
whole hash = record {
  add = push;
  add-perm = push-perm;
  chain = λ k t. t;
  others = λ k t. [];
  chain-perm = λ k t. Permᴰ.symm (Permᴰ.append-nil t);
  others-All = λ k t. tt;
  del = λ k i t. remove_at i t;
  del-perm = λ k t a b e cut.
      subst (λ u. Permᴰ u (e ∷ remove_at (length a) u)) (sym cut) (remove_at-perm a b e);
}

abbrev hash_first : Bytes → ℕ
hash_first [] = 0
hash_first (x ∷ b) = x

abbrev small : Chained Cache (λ c. hash_first c.session_id)
small = whole (λ c. hash_first c.session_id)

abbrev home : Peer
home = record {
  len = 16;
  addr = record { family = af_inet; sin_addr = 10 ∷ 0 ∷ 0 ∷ 2 ∷ []; sin6_addr = [] };
}

abbrev request : StoreReq
request = record {
  session_id = 1 ∷ 2 ∷ [];
  session_data = 7 ∷ 8 ∷ 9 ∷ [];
  vhost = none;
  cli_addr = home;
}

abbrev named_request : StoreReq
named_request = record request { vhost = some (118 ∷ []) }

abbrev question : FetchReq
question = record { session_id = 1 ∷ 2 ∷ []; vhost = none; cli_addr = home }

abbrev plenty : Memory
plenty = record { entry = true; name = true }

abbrev small_world : World
small_world = record {
  max_clients = 10;
  timeout = 300;
  caseless = bytes_eq;
  entry_time = λ d. 1000;
}

abbrev empty : TlsDb
empty = record { ht = []; entries = 0 }

empty-IsCounted : IsCounted 10 empty
empty-IsCounted = record { counted = refl; bounded = omega arith; sized = tt }

abbrev one_stored : TlsDb
one_stored = record { ht = new_cache plenty request ∷ []; entries = 1 }

run-IsCounted_example : IsCounted 10 (
    run hash_first small small_world empty (
      store plenty request
      ∷ fetch question
      ∷ delete (1 ∷ [])
      ∷ store plenty named_request
      ∷ expire 2000
      ∷ []))
run-IsCounted_example =
    run-IsCounted hash_first small small_world empty
      (store plenty request
        ∷ fetch question
        ∷ delete (1 ∷ [])
        ∷ store plenty named_request
        ∷ expire 2000
        ∷ [])
      empty-IsCounted

store-fetch_example :
    ((handle_resume_store_req hash_first small 10 plenty request empty).0 ≡ true)
    × (handle_resume_fetch_req hash_first small bytes_eq question
          (handle_resume_store_req hash_first small 10 plenty request empty).1
        ≡ some (7 ∷ 8 ∷ 9 ∷ []))
unfolding count
store-fetch_example =
    store-fetch hash_first small 10 bytes_eq plenty request empty (new_cache plenty request ∷ [])
      (record {
        id = omega arith;
        data_low = omega arith;
        data_high = omega arith;
        room = omega arith;
        peer_low = omega arith;
        peer_high = omega arith;
      })
      refl refl refl refl

fetch-Justified_example : Justified question one_stored.ht (7 ∷ 8 ∷ 9 ∷ [])
unfolding handle_resume_fetch_req fetch_in new_cache pointers_differ names_differ bytes_eq ip_cmp
    family_eq
fetch-Justified_example =
    fetch-Justified hash_first small bytes_eq question one_stored (7 ∷ 8 ∷ 9 ∷ []) refl

abbrev no_sessions : Sessions
no_sessions = λ id. none

empty-Holds : Holds [] no_sessions
unfolding count find
empty-Holds id = (omega arith, refl)

step-Kept_example :
    (m' : Sessions) × Promise small_world no_sessions
      (store plenty request)
      (reply hash_first small small_world empty (store plenty request))
      m'
    × Holds (step hash_first small small_world empty (store plenty request)).ht m'
step-Kept_example =
    step-Kept hash_first small small_world empty no_sessions empty-IsCounted empty-Holds
      (store plenty request) refl
