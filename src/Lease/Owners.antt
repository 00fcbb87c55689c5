-- ===== src/Lease/Owners.antt =====
-- Whose leases stand in the table (src/ip-lease.c).
use mathlib.Core.List.{Permᴰ}
use ocserv.Prelude.{
  ℕ, ◌+◌, ◌≤◌, ◌≡◌, refl, ◌∙◌, ap, inl, inr, true, ◌&&◌, Option, none, some, List, [], ◌∷◌, arith,
  Bytes, ◌==◌, bytes_eq, bytes_eq_refl, bytes_eq_sound, Bool-cases, Option-cases,
}
use ocserv.Table.{find, count, bit, find_sound, count-zero_of_find, count-sweep_one}
use ocserv.Lease.Entry.{Lease, same_lease}
use ocserv.Lease.Assign.{Proc, free_lease}
use ocserv.Lease.Step.{Server}

-- 1 for a lease of that length and signature that is kept in the table.
abbrev pub held : ℕ → Bytes → Option Lease → ℕ
held len k none = 0
held len k (some l) = bit ((l.destructor && l.in_db) && same_lease len k l)

abbrev pub owns : ℕ → Bytes → Proc → ℕ
owns len k p = held len k p.ipv4 + held len k p.ipv6

unfoldable pub total : ℕ → Bytes → List Proc → ℕ
total len k [] = 0
total len k (p ∷ ps) = owns len k p + total len k ps

pub total-perm : (len : ℕ) (k : Bytes) {t u : List Proc} → Permᴰ t u → total len k t ≡ total len k u
unfolding total
total-perm len k Permᴰ.nil = refl
total-perm len k (Permᴰ.cons e d) = rw (e, total-perm len k d)
total-perm len k (Permᴰ.swap e f) = rw (e, f) (omega arith)
total-perm len k (Permᴰ.trans d e) = total-perm len k d ∙ total-perm len k e

-- No address stands twice in the table, and the leases in it are those that clients hold.
pub record IsValid (s : Server) : Type 0 where
  pub once : (len : ℕ) (k : Bytes) → count (same_lease len k) s.leases ≤ 1
  pub owned : (len : ℕ) (k : Bytes) → count (same_lease len k) s.leases ≡ total len k s.procs

-- The leases that have the key of a lease are the same for each other key.
same_lease-key :
    (l e : Lease)
    → same_lease l.rip_len l.sig e ≡ true
    → (len : ℕ) (k : Bytes) → same_lease len k e ≡ same_lease len k l
same_lease-key l e h len k =
    let length : e.rip_len ≡ l.rip_len = ground arith in
    let bytes : bytes_eq e.sig l.sig ≡ true = ground arith in
    ap (λ n. (n == len) && bytes_eq e.sig k) length
    ∙ ap (λ b. (l.rip_len == len) && bytes_eq b k) (bytes_eq_sound e.sig l.sig bytes)

-- A lease that is freed leaves the table.
pub count-free_lease :
    (o : Option Lease) (t : List Lease)
    → ((len : ℕ) (k : Bytes) → count (same_lease len k) t ≤ 1)
    → ((len : ℕ) (k : Bytes) → held len k o ≤ count (same_lease len k) t)
    → (len : ℕ) (k : Bytes)
    → count (same_lease len k) (free_lease o t) + held len k o ≡ count (same_lease len k) t
unfolding free_lease
count-free_lease none t once enough len k = omega arith
count-free_lease (some l) t once enough len k = elim (Bool-cases (l.destructor && l.in_db)) [
  | inr loose ↦ rw loose (omega arith)
  | inl kept ↦ elim (Option-cases (find (same_lease l.rip_len l.sig) t)) [
    | inl nothing ↦
        let zero = count-zero_of_find (same_lease l.rip_len l.sig) t nothing in
        absurd (ground (arith, zero, enough l.rip_len l.sig, bytes_eq_refl l.sig))
    | inr (e, found) ↦
        let out =
          count-sweep_one (same_lease len k) (same_lease l.rip_len l.sig) e t (once l.rip_len l.sig)
            found in
        let alike = same_lease-key l e (find_sound (same_lease l.rip_len l.sig) t e found) len k in
        rw kept (omega (arith, out, ap bit alike))
  ]
]
