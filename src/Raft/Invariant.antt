-- ===== src/Raft/Invariant.antt =====
-- What holds of a peer between two critical sections.
pub mod Handlers
pub mod Rpcs
pub mod Rest
use mit_distro_sys.Common.{◌<◌, ◌≡◌, Option, some, none, length}
use mit_distro_sys.Raft.Types.{Raft, Disk}
use mit_distro_sys.Raft.Log.{disk_image}
use mit_distro_sys.Raft.Boot.{empty_log}

module _ {C D : Type 0} where
  -- What a restart reads back: `readPersist` keeps the values of `Make` if nothing was saved.
  abbrev pub stored : Option (Disk C D) → Disk C D
  stored none = record {
    raft_state = record { current_term = 0; voted_for = none; log = empty_log; snapshot_index = 0 };
    snapshot = none;
  }
  stored (some d) = d

  -- The log has its dummy entry, each peer has its indices, and the disk has what must survive.
  pub record IsWellFormed (rf : Raft C D) : Type 0 where
    pub nonempty : 0 < length rf.log
    pub next_size : length rf.next_index ≡ rf.peers
    pub match_size : length rf.match_index ≡ rf.peers
    pub on_disk : stored rf.disk ≡ disk_image rf
