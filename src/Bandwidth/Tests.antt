-- ===== src/Bandwidth/Tests.antt =====
-- The bandwidth limit at concrete packets (src/worker-bandwidth.c).
use Prim.Native.Nat.{max}
use ocserv.Prelude.{◌*◌, ◌≤◌, ◌≡◌, refl, [], ◌∷◌, arith}
use ocserv.Bandwidth.{
  Packet, bandwidth_init, bandwidth_update, update_period, open_period, next_allowed,
  transferred_kb, after, passed,
}
use ocserv.Bandwidth.Window.{period_bounded}

abbrev first : Packet
first = (1400, record { tv_sec = 1000; tv_nsec = 0 })

abbrev soon : Packet
soon = (100, record { tv_sec = 1000; tv_nsec = 100000000 })

abbrev late : Packet
late = (100, record { tv_sec = 1000; tv_nsec = 500000000 })

first-after : (after (bandwidth_init 1) (first ∷ [])).allowed_kb ≡ 0
unfolding after bandwidth_update update_period open_period next_allowed transferred_kb
first-after = refl

-- One kilobyte was transferred without leave.
late-after : (bandwidth_update (after (bandwidth_init 1) (first ∷ [])) 100 late.1).1.allowed_kb ≡ 1
unfolding after bandwidth_update update_period open_period next_allowed transferred_kb
late-after = refl

period_bounded_example :
    passed (after (bandwidth_init 2) []) (first ∷ soon ∷ []) ≤ max 1400 (2 * 1000)
unfolding after
period_bounded_example =
    period_bounded 2 (omega arith) (omega arith) [] first (soon ∷ []) tt (omega arith) (omega arith)
      ((omega arith, omega arith), tt)
