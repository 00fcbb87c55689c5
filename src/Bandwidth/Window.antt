-- ===== src/Bandwidth/Window.antt =====
-- What passes within a period of the bandwidth limit (src/worker-bandwidth.c).
use ocserv.Prelude.{
  ℕ, ◌+◌, ◌*◌, ◌%◌, ◌^◌, ◌≤◌, ◌<◌, ◌≡◌, refl, sym, ap, Bool, true, false, List, [], ◌∷◌, arith, ltb,
  leb, ◌==◌, if◌then◌else◌, ◌⊎◌, inl, inr, if_split, All,
}
use Prim.Native.Nat.{max}
use mathlib.Core.Path.{subst}
use ocserv.Bandwidth.{
  Bandwidth, Timespec, Packet, bandwidth_init, bandwidth_update, update_period, open_period,
  count_bytes, next_allowed, after, passed, count_update_ms, timespec_sub_ms,
}

-- The limit and the packets are small enough for the counters.
abbrev pub IsSmall : Packet → Type 0
IsSmall p = p.0 < 2 ^ 32

-- Reached from bandwidth_init: the limit is as set, and bounds what is allowed; the bytes counted
-- are within what is allowed, or those of the packet that opened the period.
pub record IsLimited (kb : ℕ) (b : Bandwidth) : Type 0 where
  pub limit : b.kb_per_sec ≡ kb
  pub allowed : b.allowed_kb ≤ kb
  pub counted : b.transferred_bytes ≤ kb * 1000 + 2 ^ 32

next_allowed_bound : (b : Bandwidth) (diff : ℕ) → next_allowed b diff ≤ b.kb_per_sec
unfolding next_allowed
next_allowed_bound b diff = ground arith

ltb-false : (a b : ℕ) → ltb a b ≡ false → b ≤ a
ltb-false a b h = ground arith

module _ (kb : ℕ) (some_limit : 1 ≤ kb) (low : kb < 2 ^ 32) where
  update-IsLimited :
      (b : Bandwidth) (p : Packet)
      → IsSmall p
      → IsLimited kb b
      → IsLimited kb (bandwidth_update b p.0 p.1).1
  unfolding bandwidth_update update_period open_period count_bytes
  update-IsLimited b (n, now) small i =
      let P : Bool × Bandwidth → Type 0 = λ r. IsLimited kb r.1 in
      let diff = timespec_sub_ms now b.count_start in
      if_split P (b.kb_per_sec == 0) _ _ (λ off. i)
        (λ on.
          if_split P (leb count_update_ms diff) _ _
            (λ late. record {
              limit = i.limit;
              allowed = omega (arith, next_allowed_bound b diff, i.limit);
              counted = omega (arith, small);
            })
            (λ early.
              if_split P (ltb ((b.allowed_kb * 1000) % 2 ^ 64) ((b.transferred_bytes + n) % 2 ^ 64))
                _ _ (λ much. i)
                (λ fits. record {
                  limit = i.limit;
                  allowed = i.allowed;
                  counted = omega (
                    arith,
                    low,
                    i.allowed,
                    ltb-false ((b.allowed_kb * 1000) % 2 ^ 64) ((b.transferred_bytes + n) % 2 ^ 64)
                        fits,
                  );
                })))

  after-IsLimited :
      (b : Bandwidth) (ps : List Packet)
      → All IsSmall ps
      → IsLimited kb b
      → IsLimited kb (after b ps)
  unfolding after
  after-IsLimited b [] small i = i
  after-IsLimited b (p ∷ ps) small i =
      after-IsLimited (bandwidth_update b p.0 p.1).1 ps small.1 (update-IsLimited b p small.0 i)

  init-IsLimited : IsLimited kb (bandwidth_init kb)
  init-IsLimited = record { limit = refl; allowed = omega arith; counted = omega arith }

  -- A packet within the period counts against what is allowed.
  record Counted (b : Bandwidth) (n : ℕ) (r : Bool × Bandwidth) : Type 0 where
    start : r.1.count_start ≡ b.count_start
    kept : r.1.allowed_kb ≡ b.allowed_kb
    sum : r.1.transferred_bytes ≡ b.transferred_bytes + (if r.0 then n else 0)
    limit : (r.0 ≡ false) ⊎ (b.transferred_bytes + n ≤ b.allowed_kb * 1000)

  early-Counted :
      (b : Bandwidth) (n : ℕ) (now : Timespec)
      → IsLimited kb b
      → n < 2 ^ 32
      → timespec_sub_ms now b.count_start < count_update_ms
      → Counted b n (bandwidth_update b n now)
  unfolding bandwidth_update update_period count_bytes
  early-Counted b n now i small early =
      let P : Bool × Bandwidth → Type 0 = Counted b n in
      let same : Counted b n (false, b) = record {
        start = refl;
        kept = refl;
        sum = omega arith;
        limit = inl refl;
      } in
      if_split P (b.kb_per_sec == 0) _ _ (λ off. absurd (ground (arith, i.limit, some_limit)))
        (λ on.
          if_split P (leb count_update_ms (timespec_sub_ms now b.count_start)) _ _
            (λ late. absurd (ground arith))
            (λ soon.
              if_split P (ltb ((b.allowed_kb * 1000) % 2 ^ 64) ((b.transferred_bytes + n) % 2 ^ 64))
                _ _ (λ much. same)
                (λ fits.
                  let le =
                    ltb-false ((b.allowed_kb * 1000) % 2 ^ 64) ((b.transferred_bytes + n) % 2 ^ 64)
                      fits in
                  record {
                    start = refl;
                    kept = refl;
                    sum = omega (arith, low, small, i.counted);
                    limit = inr (omega (arith, le, low, small, i.counted, i.allowed));
                  })))

  -- The packets that come before the period is over.
  abbrev pub IsWithin : Timespec → List Packet → Type 0
  IsWithin start = All (λ p. (p.0 < 2 ^ 32) × (timespec_sub_ms p.1 start < count_update_ms))

  period-passed :
      (b : Bandwidth) (ps : List Packet)
      → IsLimited kb b
      → IsWithin b.count_start ps
      → b.transferred_bytes + passed b ps ≤ max b.transferred_bytes (b.allowed_kb * 1000)
  unfolding passed
  period-passed b [] i within = omega arith
  period-passed b (p ∷ ps) i within =
      let r = bandwidth_update b p.0 p.1 in
      let c = early-Counted b p.0 p.1 i within.0.0 within.0.1 in
      let rest =
        period-passed r.1 ps (update-IsLimited b p within.0.0 i)
          (subst (λ t. IsWithin t ps) (sym c.start) within.1) in
      let kept = c.kept in
      let sum = c.sum in
      elim c.limit [
        | inl refused ↦
            let nothing : (if r.0 then p.0 else 0) ≡ 0 = ground arith in
            omega (arith, rest, kept, sum, nothing)
        | inr fits ↦
            let more : (if r.0 then p.0 else 0) ≤ p.0 = ground arith in
            omega (arith, rest, kept, sum, more, fits)
      ]

  -- A packet after the end of a period opens the next one.
  update-late :
      (b : Bandwidth) (p : Packet)
      → IsLimited kb b
      → count_update_ms ≤ timespec_sub_ms p.1 b.count_start
      → bandwidth_update b p.0 p.1
        ≡ (true, open_period b (timespec_sub_ms p.1 b.count_start) p.0 p.1)
  unfolding bandwidth_update update_period
  update-late b p i late = ground (arith, i.limit, some_limit)

  -- A limit that is set, and is below 2^32, is kept: whatever packets came since bandwidth_init, the
  -- packet that opens a period and those that come within 500 ms after it pass at most
  -- kb_per_sec * 1000 bytes together, or those of the first packet alone. Packets are below 2^32.
  pub period_bounded :
      (before : List Packet) (p : Packet) (ps : List Packet)
      → All IsSmall before
      → p.0 < 2 ^ 32
      → count_update_ms ≤ timespec_sub_ms p.1 (after (bandwidth_init kb) before).count_start
      → IsWithin p.1 ps
      → passed (after (bandwidth_init kb) before) (p ∷ ps) ≤ max p.0 (kb * 1000)
  unfolding passed open_period
  period_bounded before p ps small packet late within =
      let b = after (bandwidth_init kb) before in
      let i = after-IsLimited (bandwidth_init kb) before small init-IsLimited in
      let opened = update-late b p i late in
      let u = open_period b (timespec_sub_ms p.1 b.count_start) p.0 p.1 in
      let j : IsLimited kb u =
        subst (IsLimited kb) (ap (λ r. r.1) opened) (update-IsLimited b p packet i) in
      let whole : passed b (p ∷ ps) ≡ p.0 + passed u ps =
        ap (λ r. (if r.0 then p.0 else 0) + passed r.1 ps) opened in
      omega (arith, whole, period-passed u ps j within, j.allowed)
