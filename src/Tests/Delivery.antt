-- ===== src/Tests/Delivery.antt =====
-- A peer sends its first committed entry, and a higher term comes while it is in flight.
use mit_distro_sys.Common.{ℕ, refl, none, some, [], ◌∷◌}
use mit_distro_sys.Raft.Types.{Raft, command_msg}
use mit_distro_sys.Raft.Boot.{make}
use mit_distro_sys.Raft.Log.{entry_at, slice_index}
use mit_distro_sys.Raft.Applier.{next_message}
use mit_distro_sys.Raft.Leader.{start}
use mit_distro_sys.Raft.Steps.{command}
use mit_distro_sys.Raft.Steps.Delivery.{
  Delivery, DeliveryStep, take, other, begin, later, InOrder, Delivers-InOrder,
}

abbrev committed : Raft ℕ ℕ
committed = record (make 5 3 0 none) {
  log = record { term = 0; command = none } ∷ record { term = 1; command = some 7 } ∷ [];
  commit_index = 1;
}

abbrev idle : Delivery ℕ ℕ
idle = record { rf = committed; in_flight = none; sent = [] }

abbrev sending : Delivery ℕ ℕ
sending = record {
  rf = committed;
  in_flight = some (command_msg (some 7) 1);
  sent = command_msg (some 7) 1 ∷ [];
}

abbrev asked : Delivery ℕ ℕ
asked = record sending { rf = (start committed 8).0 }

take_step : DeliveryStep idle sending
unfolding next_message entry_at slice_index make
take_step = take (command_msg (some 7) 1) refl refl refl

other_step : DeliveryStep sending asked
other_step = other (command 8 refl) tt refl

Delivers-InOrder_example : InOrder committed.last_applied asked.sent
Delivers-InOrder_example =
    Delivers-InOrder committed asked (later (later begin take_step) other_step)
