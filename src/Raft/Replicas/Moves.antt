-- ===== src/Raft/Replicas/Moves.antt =====
-- What the steps of an election and the arrival of a message leave of the logs.
use mit_distro_sys.Common.{
  ℕ, ◌<◌, ◌≡◌, refl, sym, ap, ◌∙◌, subst, inl, inr, not, ◌&&◌, some, arith, Bool-cases, update,
  get_elem?, AllOf-get_elem?, List, ◌∷◌, zero, suc, [], take,
}
use mit_distro_sys.Raft.Types.{Raft, LogEntry, AppendEntriesArgs, AppendEntriesReply, is_leader}
use mit_distro_sys.Raft.Vote.{on_vote_reply}
use mit_distro_sys.Raft.Boot.{empty_log}
use mit_distro_sys.Raft.Append.{append_entries}
use mit_distro_sys.Raft.Steps.Terms.{Step-KeepsVote}
use mit_distro_sys.Raft.Terms.Rpcs.{request_vote-Keeps, append_entries-Keeps}
use mit_distro_sys.Raft.Terms.Others.{start_election-Keeps, on_vote_reply-Keeps}
use mit_distro_sys.Raft.Invariant.{IsWellFormed}
use mit_distro_sys.Raft.Cluster.{
  Cluster, ClusterStep, quiet, ask, campaign, tally, Reach, after_reply,
}
use mit_distro_sys.Raft.Cluster.Elections.Safety.{elected_unique, Reach-Sound}
use mit_distro_sys.Raft.Replicas.{Packet, Replicas, IsPlain, led_after, record_log}
use mit_distro_sys.Raft.Replicas.Agree.{Agrees, Starts}
use mit_distro_sys.Raft.Replicas.Append.{Appended, kept, merged, append_entries-Appended}
use mit_distro_sys.Raft.Replicas.Follow.{Spliced-Agrees}
use mit_distro_sys.Raft.Replicas.Calm.{request_vote-Calm, start_election-Calm, append_entries-Role}
use mit_distro_sys.Raft.Replicas.Roles.{on_vote_reply-Elects, append_entries_stays}
use mit_distro_sys.Raft.Replicas.Messages.{Made}
use mit_distro_sys.Raft.Replicas.Holds.{IsMatched, IsMatched-peer, WonBy, Fitting}
use mit_distro_sys.Raft.Replicas.Places.{
  Step-Calm, Calm-IsInPlace, Role-IsInPlace, Elects-IsInPlace,
}
use mit_distro_sys.Raft.Replicas.Wins.{win-IsMatched}

module _ {C : Type 0} where
  Appended-Agrees :
      (led : ℕ → List (LogEntry C)) (log log' : List (LogEntry C)) (args : AppendEntriesArgs C)
      (whole : List (LogEntry C))
      → Agrees led log
      → Agrees led (led args.term)
      → Starts whole (led args.term)
      → Made whole args
      → Appended log args log'
      → Agrees led log'
  Appended-Agrees led log log' args whole a b st made kept = a
  Appended-Agrees led log log' args whole a b st (pre, y, made, size, has, same)
        (merged x m h k sp) =
      Spliced-Agrees led log pre args.entries (led args.term) args.prev_log_index x y m size h has
        (k ∙ sym same) sp a b (subst (λ l. Starts l (led args.term)) (sym made) st)

  pub empty_log-Agrees : Agrees {C = C} (update (λ t. []) 0 empty_log) empty_log
  empty_log-Agrees zero x e =
      let dummy : 0 ≡ x.term = ground arith in
      subst (λ t. take 1 (empty_log {C = C}) ≡ take 1 (update (λ i. []) 0 (empty_log {C = C}) t))
        dummy refl
  empty_log-Agrees (suc k) x e = absurd (ground arith)

module _ {C D : Type 0} (n now : ℕ) where
  abbrev pub Matched : Replicas C D → Type 0
  Matched s = IsMatched n s.cluster.peers s.cluster.elected s.sent s.led

  well_formed_at : {s : Cluster C D} → Reach n now s → (i : ℕ) → i < n → IsWellFormed (s.peers i)
  well_formed_at r i lt =
      let (cast, sound) = Reach-Sound n now r in (sound.peers_ok i lt).well_formed

  pub unique_at :
      {s : Cluster C D}
      → Reach n now s
      → (t c d : ℕ) → WonBy s.elected t c
      → WonBy s.elected t d
      → c ≡ d
  unique_at {s} r t c d (j, e) (k, f) = elected_unique n now s j k t c d r e f

  pub plain-Matched :
      (s : Replicas C D) {c : Cluster C D} (st : ClusterStep n s.cluster c)
      → IsPlain st
      → Reach n now s.cluster
      → Reach n now c
      → Matched s
      → IsMatched n c.peers c.elected s.sent (led_after st s.led)
  unfolding after_reply
  plain-Matched s {c} (quiet i {rf'} st lt q e) p r r' m =
      let w = well_formed_at r i lt in
      let rf = s.cluster.peers i in
      subst (λ x. IsMatched n x.peers x.elected s.sent s.led) (sym e)
        (IsMatched-peer n i s.cluster.peers rf' s.cluster.elected s.sent s.led m (
          Calm-IsInPlace s.cluster.elected s.led i rf rf' (m.in_place i lt) (Step-Calm st p w)
            (Step-KeepsVote st w).term_grows))
  plain-Matched s {c} (ask i at args {rf'} lt q e) p r r' m =
      let rf = s.cluster.peers i in
      subst (λ x. IsMatched n x.peers x.elected s.sent s.led) (sym e)
        (IsMatched-peer n i s.cluster.peers rf' s.cluster.elected s.sent s.led m (
          Calm-IsInPlace s.cluster.elected s.led i rf rf' (m.in_place i lt)
            (request_vote-Calm at rf args q)
            (request_vote-Keeps at rf args q).keeps_vote.term_grows))
  plain-Matched s {c} (campaign i at {rf'} lt q e) p r r' m =
      let rf = s.cluster.peers i in
      subst (λ x. IsMatched n x.peers x.elected s.sent s.led) (sym e)
        (IsMatched-peer n i s.cluster.peers rf' s.cluster.elected s.sent s.led m (
          Calm-IsInPlace s.cluster.elected s.led i rf rf' (m.in_place i lt)
            (start_election-Calm at rf q) (start_election-Keeps at rf q).keeps_vote.term_grows))
  plain-Matched s {c} (tally at k a poll lt q h new e) p r r' m =
      let i = a.args.candidate_id in
      let rf = s.cluster.peers i in
      let rf' : Raft C D = (on_vote_reply at rf poll.ballot a.reply).0 in
      let elects = on_vote_reply-Elects at rf poll.ballot a.reply in
      subst (λ x. IsMatched n x.peers x.elected s.sent (record_log rf rf' s.led)) (sym e)
        (elim (Bool-cases (not (is_leader rf.state) && is_leader rf'.state)) [
          | inl won ↦ rw won (
              win-IsMatched n i s.cluster.peers s.cluster.elected s.sent s.led rf' lt m elects
                (ground arith) (ground arith)
                (subst (λ w. (t c d : ℕ) → WonBy w t c → WonBy w t d → c ≡ d)
                  {y = (rf'.current_term, i) ∷ s.cluster.elected}
                  (ap (λ (x : Cluster C D). x.elected) e ∙ rw won refl) (unique_at r')))
          | inr other ↦ rw other (
              IsMatched-peer n i s.cluster.peers rf' s.cluster.elected s.sent s.led m (
                Elects-IsInPlace s.cluster.elected s.led i rf rf' (m.in_place i lt) elects
                  (on_vote_reply-Keeps at rf poll.ballot a.reply).keeps_vote.term_grows other))
        ])

  -- A message from a leader arrives.
  pub deliver-Matched :
      (s : Replicas C D) (i at k : ℕ) (packet : Packet C) {rf' : Raft C D}
      {reply : AppendEntriesReply}
      → i < n
      → get_elem? s.sent k ≡ some packet
      → packet.dest ≡ i
      → append_entries at (s.cluster.peers i) packet.args ≡ some (rf', reply)
      → Reach n now s.cluster
      → Matched s
      → IsMatched n (update s.cluster.peers i rf') s.cluster.elected s.sent s.led
  deliver-Matched s i at k packet {rf'} {reply} lt q to e r m =
      let rf = s.cluster.peers i in
      let place = m.in_place i lt in
      let (log, src, st, made, won, ne) =
        AllOf-get_elem? (Fitting s.cluster.elected s.led) s.sent k m.fitting q in
      let a =
        append_entries-Appended at rf packet.args place.base (well_formed_at r i lt).nonempty e in
      IsMatched-peer n i s.cluster.peers rf' s.cluster.elected s.sent s.led m (
        Role-IsInPlace s.cluster.elected s.led i rf rf' place
          (append_entries-Role at rf packet.args e)
          (append_entries-Keeps at rf packet.args e).keeps_vote.term_grows
          (Appended-Agrees s.led rf.log rf'.log packet.args log place.agrees
            (m.leaders packet.args.term) st made a)
          (λ h. elim (append_entries_stays at rf packet.args e h) [
            | inl kept_log ↦ kept_log
            | inr own ↦
                let leads = ((append_entries-Role at rf packet.args e).leads h).0 in
                let (_, mine) = place.leading leads in
                let self : src ≡ i =
                  unique_at r rf.current_term src i
                    (subst (λ t. WonBy s.cluster.elected t src) own won) mine in
                absurd (ne (self ∙ sym to))
          ]))
