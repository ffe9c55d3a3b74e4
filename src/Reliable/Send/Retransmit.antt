-- ===== src/Reliable/Send/Retransmit.antt =====
-- Retransmission: which frames go out again, in which order, and what becomes of their entries.
use ashfall.Prelude.{ℕ, ◌+◌, ◌-◌, ◌*◌, ◌^◌, Bool, List, nat_eq, min, leb, if◌then◌else◌}
use ashfall.Reliable.{SendEntry}

-- An entry that is sent again, as it is kept.
abbrev stamped : (SendEntry → Bool) → ℕ → SendEntry → SendEntry
stamped due now e = if due e then record e { sent_at = now; retransmits = e.retransmits + 1 } else e

-- Whether the timeout of an entry has run out: it doubles with each time that it was sent again, six
-- times at most.
abbrev pub overdue : (rto now : ℕ) → SendEntry → Bool
overdue rto now e = leb (rto * 2 ^ min e.retransmits 6) (now - e.sent_at)

-- An overdue entry is stamped with the time and counts one more.
abbrev pub again : (rto now : ℕ) → SendEntry → SendEntry
again rto now e =
    if overdue rto now e then record e { sent_at = now; retransmits = e.retransmits + 1 } else e
