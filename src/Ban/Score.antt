-- ===== src/Ban/Score.antt =====
-- One ban entry: its score, its reset, its charge (src/main-ban.c).
use ocserv.Prelude.{ℕ, ◌+◌, ◌^◌, ◌≤◌, ◌<◌, ◌≡◌, refl, arith}
use ocserv.Ban.{Entry, Config, add_score, reset_entry, charge_entry}

-- Points never lower a score, and never carry it out of an `unsigned int`; as long as the sum
-- fits, it is the new score.
pub add_score_bounds :
    (score points : ℕ)
    → score < 2 ^ 32
    → (score ≤ add_score score points)
      × (add_score score points < 2 ^ 32)
      × (score + points < 2 ^ 32 → add_score score points ≡ score + points)
unfolding add_score
add_score_bounds score points h = (ground arith, ground arith, λ fits. ground arith)

-- A charge keeps the address and the start of the count.
pub charge_entry_keeps :
    (c : Config) (now points : ℕ) (e : Entry)
    → ((charge_entry c now points e).ip ≡ e.ip)
      × ((charge_entry c now points e).last_reset ≡ e.last_reset)
unfolding charge_entry
charge_entry_keeps c now points e = (refl, refl)

pub reset_entry-ip : (c : Config) (now : ℕ) (e : Entry) → (reset_entry c now e).ip ≡ e.ip
unfolding reset_entry
reset_entry-ip c now e = ground arith

-- While a ban lasts, the entry is not reset, and a charge moves neither its expiration nor its ban.
pub charge-reset_banned :
    (c : Config) (now points : ℕ) (e : Entry)
    → e.score < 2 ^ 32
    → c.max_ban_score ≤ e.score
    → now ≤ e.expires
    → let e' = charge_entry c now points (reset_entry c now e) in
      (e'.expires ≡ e.expires) × (c.max_ban_score ≤ e'.score) × (e'.score < 2 ^ 32)
unfolding charge_entry reset_entry
charge-reset_banned c now points e small banned lasts =
    ground (arith, add_score_bounds e.score points)

-- Once a ban is over, the first charge starts a new count.
pub charge-reset_over :
    (c : Config) (now points : ℕ) (e : Entry)
    → 0 < c.max_ban_score
    → points < c.max_ban_score
    → c.max_ban_score < 2 ^ 32
    → c.max_ban_score ≤ e.score
    → e.expires < now
    → let e' = charge_entry c now points (reset_entry c now e) in
      (e'.score ≡ points) × (e'.expires ≡ now + c.ban_time) × (e'.last_reset ≡ now)
unfolding charge_entry reset_entry add_score
charge-reset_over c now points e pos few fits banned over = ground arith
