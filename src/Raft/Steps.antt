-- ===== src/Raft/Steps.antt =====
-- The life of one peer: its critical sections in any order, with crashes and restarts in between.
-- The messages, replies and clock readings are arbitrary.
use mit_distro_sys.Common.{ℕ, ◌≤◌, ◌≡◌, Option, some}
use mit_distro_sys.Raft.Types.{
  Raft, AppendEntriesArgs, AppendEntriesReply, RequestVoteArgs, RequestVoteReply,
  InstallSnapshotArgs, InstallSnapshotReply, ApplyMsg,
}
use mit_distro_sys.Raft.Log.{last_log_index}
use mit_distro_sys.Raft.Append.{append_entries}
use mit_distro_sys.Raft.Vote.{Ballot, request_vote, start_election, on_vote_reply}
use mit_distro_sys.Raft.Snapshot.{take_snapshot, install_snapshot}
use mit_distro_sys.Raft.Leader.{start, dispatch, on_install_reply, on_append_reply}
use mit_distro_sys.Raft.Applier.{next_message, message_applied}
use mit_distro_sys.Raft.Boot.{make}
pub mod Terms
pub mod Delivery

module _ {C D : Type 0} where
  pub data Step (rf rf' : Raft C D) : Type 0 where
    append :
        (now : ℕ) (args : AppendEntriesArgs C) (reply : AppendEntriesReply)
        → append_entries now rf args ≡ some (rf', reply)
        → Step rf rf'
    vote :
        (now : ℕ) (args : RequestVoteArgs) (reply : RequestVoteReply)
        → request_vote now rf args ≡ some (rf', reply)
        → Step rf rf'
    install :
        (now : ℕ) (args : InstallSnapshotArgs D) (reply : InstallSnapshotReply)
        → install_snapshot now rf args ≡ some (rf', reply)
        → Step rf rf'
    elect :
        (now : ℕ) (args : RequestVoteArgs) → start_election now rf ≡ some (rf', args) → Step rf rf'
    count :
        (now : ℕ) (b : Ballot) (reply : RequestVoteReply)
        → (on_vote_reply now rf b reply).0 ≡ rf'
        → Step rf rf'
    command : (c : C) → (start rf c).0 ≡ rf' → Step rf rf'
    wake_up : dispatch rf ≡ rf' → Step rf rf'
    installed :
        (now i : ℕ) (args : InstallSnapshotArgs D) (reply : InstallSnapshotReply)
        → on_install_reply now rf i args reply ≡ some rf'
        → Step rf rf'
    appended :
        (now i : ℕ) (args : AppendEntriesArgs C) (reply : AppendEntriesReply)
        → on_append_reply now rf i args reply ≡ some rf'
        → Step rf rf'
    compact :
        (index : ℕ) (snapshot : Option D)
        → take_snapshot rf index snapshot ≡ some rf'
        → index ≤ last_log_index rf
        → Step rf rf'
    apply : (m : Option (ApplyMsg C D)) → next_message rf ≡ some (m, rf') → Step rf rf'
    applied : (m : ApplyMsg C D) → message_applied rf m ≡ rf' → Step rf rf'
    restart : (now : ℕ) → make now rf.peers rf.me rf.disk ≡ rf' → Step rf rf'

  pub data Run (rf : Raft C D) : Raft C D → Type 0 where
    here : Run rf rf
    then : {a b : Raft C D} → Run rf a → Step a b → Run rf b
