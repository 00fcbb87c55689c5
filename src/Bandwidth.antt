-- ===== src/Bandwidth.antt =====
-- The bandwidth limit of a worker (src/worker-bandwidth.c, src/worker-bandwidth.h, src/gettime.h).
-- A size_t has 64 bits, an unsigned int 32; the difference of two times is a long, cut to 32 bits.
use ocserv.Prelude.{
  ℕ, ◌+◌, ◌-◌, ◌*◌, ◌/◌, ◌%◌, ◌^◌, Bool, true, false, List, [], ◌∷◌, ltb, leb, ◌==◌, if◌then◌else◌,
}
pub mod Window
mod Tests

-- struct timespec
pub record Timespec : Type 0 where
  pub tv_sec : ℕ
  pub tv_nsec : ℕ

-- bandwidth_st
pub record Bandwidth : Type 0 where
  pub count_start : Timespec
  pub transferred_bytes : ℕ
  pub allowed_kb : ℕ
  pub allowed_kb_per_count : ℕ
  pub kb_per_sec : ℕ

abbrev pub count_update_ms : ℕ
count_update_ms = 500

abbrev pub millis : Timespec → ℕ
millis t = t.tv_sec * 1000 + t.tv_nsec / (1000 * 1000)

-- timespec_sub_ms
abbrev pub timespec_sub_ms : Timespec → Timespec → ℕ
timespec_sub_ms a b = (millis a % 2 ^ 32 + (2 ^ 32 - millis b % 2 ^ 32)) % 2 ^ 32

-- bandwidth_init
abbrev pub bandwidth_init : ℕ → Bandwidth
bandwidth_init kb_per_sec = record {
  count_start = record { tv_sec = 0; tv_nsec = 0 };
  transferred_bytes = 0;
  allowed_kb = 0;
  allowed_kb_per_count = (kb_per_sec * count_update_ms) % 2 ^ 64 / 1000;
  kb_per_sec = kb_per_sec;
}

-- The kilobytes that were transferred, for a period of count_update_ms.
unfoldable pub transferred_kb : Bandwidth → ℕ → ℕ
transferred_kb b diff = (b.transferred_bytes / 1000) * count_update_ms % 2 ^ 64 / diff

-- MIN(t, b->kb_per_sec): the comparison of the ssize_t with a size_t is one of size_t.
unfoldable pub next_allowed : Bandwidth → ℕ → ℕ
next_allowed b diff =
    let t = (b.allowed_kb_per_count + (b.allowed_kb + (2 ^ 64 - transferred_kb b diff))) % 2 ^ 64 in
    if ltb t b.kb_per_sec then t else b.kb_per_sec

-- The first part of _bandwidth_update, which opens a new period.
unfoldable pub open_period : Bandwidth → ℕ → ℕ → Timespec → Bandwidth
open_period b diff bytes now = record b {
  count_start = now;
  allowed_kb = next_allowed b diff;
  transferred_bytes = bytes;
}

-- The rest of it.
unfoldable pub count_bytes : Bandwidth → ℕ → Bool × Bandwidth
count_bytes b bytes =
    let sum = (b.transferred_bytes + bytes) % 2 ^ 64 in
    if ltb ((b.allowed_kb * 1000) % 2 ^ 64) sum
    then (false, b)
    else (true, record b { transferred_bytes = sum })

-- _bandwidth_update: 1 is true.
unfoldable pub update_period : Bandwidth → ℕ → Timespec → Bool × Bandwidth
update_period b bytes now =
    let diff = timespec_sub_ms now b.count_start in
    if leb count_update_ms diff then (true, open_period b diff bytes now) else count_bytes b bytes

-- bandwidth_update
unfoldable pub bandwidth_update : Bandwidth → ℕ → Timespec → Bool × Bandwidth
bandwidth_update b bytes now = if b.kb_per_sec == 0 then (true, b) else update_period b bytes now

-- A packet, and when it comes.
abbrev pub Packet : Type 0
Packet = ℕ × Timespec

-- The state after a sequence of packets, and the bytes of those that were let through.
unfoldable pub after : Bandwidth → List Packet → Bandwidth
after b [] = b
after b (p ∷ ps) = after (bandwidth_update b p.0 p.1).1 ps

unfoldable pub passed : Bandwidth → List Packet → ℕ
passed b [] = 0
passed b (p ∷ ps) =
    (if (bandwidth_update b p.0 p.1).0 then p.0 else 0) + passed (bandwidth_update b p.0 p.1).1 ps
