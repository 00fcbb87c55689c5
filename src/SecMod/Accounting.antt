-- ===== src/SecMod/Accounting.antt =====
-- The accounting of sessions (src/sec-mod-auth.c, src/sec-mod-db.c): what is opened is closed once.
use mathlib.Core.List.Permᴰ
use ocserv.Prelude.{
  ℕ, map, if_both, ◌+◌, ◌≤◌, ◌≡◌, refl, ap, inl, inr, Bool, true, false, not, ◌&&◌, none, some,
  List, [], ◌∷◌, arith, Bytes, bytes_eq, bytes_eq_sound, All, Bool-cases,
}
use ocserv.Table.{
  Htable, find, count, sweep, bit, find_sound, find-All, All-perm, All-modify, All-sweep,
  count-perm, count-zero_of_find, count-sweep, count-modify_one, count-sweep_one, count-sweep_split,
}
use ocserv.SecMod.Entry.{Client, Vhost, Sec, Event, acct_open, acct_close, same_sid}
use ocserv.SecMod.Db.{
  store, user_deinit, deinit_all, delete_where, del_client_entry, final_totals,
  sec_mod_client_db_deinit,
}
use ocserv.SecMod.Auth.{emit}

-- The calls of the accounting module for one session: those of open_session that it accepts, and
-- those of close_session.
abbrev pub opens : Bytes → Event → Bool
opens k (acct_open sid) = bytes_eq sid k
opens k _ = false

abbrev pub closes : Bytes → Event → Bool
closes k (acct_close sid st reason) = bytes_eq sid k
closes k _ = false

-- The session of the entry is open in the accounting.
abbrev pub accounted : Client → Bool
accounted e = e.session_is_open && e.vhost.acct_open

abbrev pub open_as : Bytes → Client → Bool
open_as k e = same_sid k e && accounted e

-- An accounting module has both functions, or neither.
abbrev pub IsPaired : Vhost → Type 0
IsPaired v = v.acct_open ≡ v.acct_close

-- Sessions have distinct identifiers, and for each identifier the sessions opened in the
-- accounting are those closed and the one that is open.
pub record IsValid (s : Sec) : Type 0 where
  pub once : (k : Bytes) → count (same_sid k) s.client_db ≤ 1
  pub paired : All (λ e. IsPaired e.vhost) s.client_db
  pub balanced :
      (k : Bytes)
      → count (opens k) s.events ≡ count (closes k) s.events + count (open_as k) s.client_db

-- An event that is no call of open_session or close_session.
abbrev pub IsQuiet : Event → Type 0
IsQuiet v = (k : Bytes) → (opens k v ≡ false) × (closes k v ≡ false)

pub emit-IsValid : (v : Event) (s : Sec) → IsQuiet v → IsValid s → IsValid (emit v s)
unfolding count
emit-IsValid v s quiet i = record {
  once = i.once;
  paired = i.paired;
  balanced = λ k. ground (arith, quiet k, i.balanced k);
}

module _ (e e₀ : Client) (s : Sec) (found : find (same_sid e.sid) s.client_db ≡ some e₀)
    (host : e.vhost ≡ e₀.vhost) (i : IsValid s) where
  found_sid : e₀.sid ≡ e.sid
  found_sid = bytes_eq_sound e₀.sid e.sid (find_sound (same_sid e.sid) s.client_db e₀ found)

  new-IsPaired : IsPaired e.vhost
  new-IsPaired = rw host (find-All (λ x. IsPaired x.vhost) _ s.client_db e₀ i.paired found)

  stored-once : (k : Bytes) → count (same_sid k) (store e s).client_db ≤ 1
  stored-once k =
      let moved =
        count-modify_one (same_sid k) (same_sid e.sid) e₀ e s.client_db (i.once e.sid) found in
      let same = ap (λ x. bytes_eq x k) found_sid in omega (arith, i.once k, moved, ap bit same)

  stored-open :
      (k : Bytes)
      → count (open_as k) (store e s).client_db + bit (open_as k e₀)
        ≡ count (open_as k) s.client_db + bit (open_as k e)
  stored-open k =
      count-modify_one (open_as k) (same_sid e.sid) e₀ e s.client_db (i.once e.sid) found

  stored-IsPaired : All (λ x. IsPaired x.vhost) (store e s).client_db
  stored-IsPaired =
      All-modify (λ x. IsPaired x.vhost) _ _ s.client_db (λ _ _ _. new-IsPaired) i.paired

  -- A write that leaves the session's mark alone.
  pub store-IsValid : accounted e ≡ accounted e₀ → IsValid (store e s)
  store-IsValid same = record {
    once = stored-once;
    paired = stored-IsPaired;
    balanced = λ k.
        let alike : open_as k e ≡ open_as k e₀ = rw (← found_sid, same) refl in
        omega (arith, i.balanced k, stored-open k, ap bit alike);
  }

  -- The write that goes with a call of open_session.
  pub open-IsValid :
      accounted e ≡ true → accounted e₀ ≡ false → IsValid (store e (emit (acct_open e.sid) s))
  unfolding count
  open-IsValid now before = record {
    once = stored-once;
    paired = stored-IsPaired;
    balanced = λ k.
        let old : open_as k e₀ ≡ false = ground arith in
        let new : open_as k e ≡ bytes_eq e.sid k = ground arith in
        omega (arith, i.balanced k, stored-open k, ap bit old, ap bit new);
  }

  removed-open :
      (k : Bytes)
      → count (open_as k) (sweep (same_sid e.sid) s.client_db) + bit (open_as k e₀)
        ≡ count (open_as k) s.client_db
  removed-open k = count-sweep_one (open_as k) (same_sid e.sid) e₀ s.client_db (i.once e.sid) found

  deinit-balanced :
      (k : Bytes)
      → (count (closes k) (user_deinit e s.events) ≡ count (closes k) s.events + bit (open_as k e))
        × (count (opens k) (user_deinit e s.events) ≡ count (opens k) s.events)
  unfolding user_deinit count
  deinit-balanced k = let pair = new-IsPaired in (ground arith, ground arith)

  -- The deletion of an entry, with the call of close_session.
  pub delete-IsValid : accounted e ≡ accounted e₀ → IsValid (del_client_entry s e)
  unfolding del_client_entry
  delete-IsValid same = record {
    once = λ k. omega (arith, i.once k, count-sweep (same_sid k) (same_sid e.sid) s.client_db);
    paired = All-sweep (λ x. IsPaired x.vhost) (same_sid e.sid) s.client_db i.paired;
    balanced = λ k.
        let alike : open_as k e ≡ open_as k e₀ = rw (← found_sid, same) refl in
        omega (
          arith,
          i.balanced k,
          removed-open k,
          (deinit-balanced k).0,
          (deinit-balanced k).1,
          ap bit alike,
        );
  }

deinit_all-closes :
    (k : Bytes) (es : List Client) (vs : List Event)
    → All (λ e. IsPaired e.vhost) es
    → (count (closes k) (deinit_all es vs) ≡ count (closes k) vs + count (open_as k) es)
      × (count (opens k) (deinit_all es vs) ≡ count (opens k) vs)
unfolding deinit_all user_deinit count
deinit_all-closes k [] vs a = omega arith
deinit_all-closes k (e ∷ es) vs a = ground (arith, deinit_all-closes k es (user_deinit e vs) a.1)

final_totals-open :
    (now : Client → ℕ) (k : Bytes) (e : Client) → open_as k (final_totals now e) ≡ open_as k e
unfolding final_totals
final_totals-open now k e = ground arith

final_totals-IsPaired :
    (now : Client → ℕ) (e : Client) → IsPaired e.vhost → IsPaired (final_totals now e).vhost
unfolding final_totals
final_totals-IsPaired now e h =
    if_both (λ (x : Client). IsPaired x.vhost) (not e.session_is_open) e _ h h

totals-open :
    (now : Client → ℕ) (k : Bytes) (t : List Client)
    → count (open_as k) (map (final_totals now) t) ≡ count (open_as k) t
unfolding count
totals-open now k [] = refl
totals-open now k (e ∷ t) = omega (arith, totals-open now k t, ap bit (final_totals-open now k e))

totals-IsPaired :
    (now : Client → ℕ) (t : List Client)
    → All (λ e. IsPaired e.vhost) t
    → All (λ e. IsPaired e.vhost) (map (final_totals now) t)
totals-IsPaired now [] a = tt
totals-IsPaired now (e ∷ t) a = (final_totals-IsPaired now e a.0, totals-IsPaired now t a.1)

-- The end of the process closes the accounting of every session that is still open.
pub deinit-balanced_all :
    (s : Sec) (now : Client → ℕ) (k : Bytes)
    → IsValid s
    → count (opens k) (sec_mod_client_db_deinit s now).events
      ≡ count (closes k) (sec_mod_client_db_deinit s now).events
unfolding sec_mod_client_db_deinit
deinit-balanced_all s now k i =
    let closed =
      deinit_all-closes k (map (final_totals now) s.client_db) s.events
        (totals-IsPaired now s.client_db i.paired) in
    omega (arith, i.balanced k, closed.0, closed.1, totals-open now k s.client_db)

-- The loops that delete entries close the accounting of exactly those.
pub delete_where-IsValid : (d : Client → Bool) (s : Sec) → IsValid s → IsValid (delete_where d s)
unfolding delete_where
delete_where-IsValid d s i = record {
  once = λ k. omega (arith, i.once k, count-sweep (same_sid k) d s.client_db);
  paired = All-sweep (λ x. IsPaired x.vhost) d s.client_db i.paired;
  balanced = λ k.
      let gone = All-sweep (λ x. IsPaired x.vhost) (λ e. not (d e)) s.client_db i.paired in
      let closed = deinit_all-closes k (sweep (λ e. not (d e)) s.client_db) s.events gone in
      omega (arith, i.balanced k, closed.0, closed.1, count-sweep_split (open_as k) d s.client_db);
}

-- The insertion of an entry with a new identifier, whose session is not open.
pub add-IsValid :
    (ht : Htable Client) (e : Client) (s : Sec) (t : List Client)
    → ht.add e s.client_db ≡ some t
    → find (same_sid e.sid) s.client_db ≡ none
    → accounted e ≡ false
    → IsPaired e.vhost
    → IsValid s
    → IsValid (record s { client_db = t })
unfolding count
add-IsValid ht e s t done absent closed pair i = record {
  once = λ k.
      let counted = count-perm (same_sid k) (ht.add-perm e s.client_db t done) in
      let none_here = count-zero_of_find (same_sid e.sid) s.client_db absent in
      elim (Bool-cases (same_sid k e)) [
        | inl hit ↦
            let here : e.sid ≡ k = bytes_eq_sound e.sid k hit in
            let absent' : count (same_sid k) s.client_db ≡ 0 = rw (← here) none_here in
            ground (arith, counted, absent')
        | inr miss ↦ ground (arith, counted, i.once k)
      ];
  paired =
      All-perm (λ x. IsPaired x.vhost) (Permᴰ.symm (ht.add-perm e s.client_db t done))
        (pair, i.paired);
  balanced = λ k.
      let counted = count-perm (open_as k) (ht.add-perm e s.client_db t done) in
      let off : open_as k e ≡ false = ground arith in ground (arith, counted, i.balanced k, off);
}
