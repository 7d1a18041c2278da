-- ===== src/Raft/Replicas/Matching.antt =====
-- Log matching over any run of the replicas.
use mathlib.Core.List.{append-nil}
use mit_distro_sys.Common.{
  ℕ, ◌<◌, ◌≡◌, refl, sym, ap, ◌∙◌, subst, inl, inr, some, arith, Bool-cases, get_elem?, suc, [],
  ◌==◌, take,
}
use mit_distro_sys.Raft.Types.{LogEntry}
use mit_distro_sys.Raft.Boot.{make}
use mit_distro_sys.Raft.Leader.{start}
use mit_distro_sys.Raft.Steps.{append, command}
use mit_distro_sys.Raft.Cluster.{quiet, Reach}
use mit_distro_sys.Raft.Replicas.{
  Replicas, ReplicaStep, plain, send, deliver, submit, ReplicaRun, begin, later, start_replicas,
}
use mit_distro_sys.Raft.Replicas.Agree.{Agrees-same}
use mit_distro_sys.Raft.Replicas.Roles.{start-log}
use mit_distro_sys.Raft.Replicas.Messages.{replicate_to_follower-Made}
use mit_distro_sys.Raft.Replicas.Holds.{WonBy}
use mit_distro_sys.Raft.Replicas.Wins.{submit-IsMatched}
use mit_distro_sys.Raft.Replicas.Moves.{
  Matched, unique_at, plain-Matched, deliver-Matched, empty_log-Agrees,
}

module _ {C D : Type 0} (n now : ℕ) where
  ReplicaStep-Matched :
      {s t : Replicas C D}
      → ReplicaStep n s t
      → Reach n now s.cluster
      → Matched n now s
      → Reach n now t.cluster × Matched n now t
  ReplicaStep-Matched {s} (plain st p e) r m =
      let r' = Reach.later r st in
      subst (λ (x : Replicas C D). Reach n now x.cluster × Matched n now x) (sym e)
        (r', plain-Matched n now s st p r r' m)
  ReplicaStep-Matched {s} (send i k args lt ne q e) r m =
      let rf = s.cluster.peers i in
      let place = m.in_place i lt in
      let (leads, (t, made)) = replicate_to_follower-Made rf k args place.base q in
      let (log, won) = place.leading leads in
      subst (λ (x : Replicas C D). Reach n now x.cluster × Matched n now x) (sym e)
        (
          r,
          record {
            in_place = m.in_place;
            leaders = m.leaders;
            fitting = (
              (
                rf.log,
                i,
                ([], ap s.led t ∙ log ∙ sym (append-nil rf.log)),
                made,
                subst (λ u. WonBy s.cluster.elected u i) (sym t) won,
                ne,
              ),
              m.fitting,
            );
            known = m.known;
          },
        )
  ReplicaStep-Matched {s} (deliver i at k packet {rf'} {reply} lt q to a e) r m =
      subst (λ (x : Replicas C D). Reach n now x.cluster × Matched n now x) (sym e)
        (
          Reach.later r (quiet i (append at packet.args reply a) lt tt refl),
          deliver-Matched n now s i at k packet lt q to a r m,
        )
  ReplicaStep-Matched {s} (submit i c lt leads e) r m =
      let rf = s.cluster.peers i in
      let (log, still) = start-log rf c leads in
      subst (λ (x : Replicas C D). Reach n now x.cluster × Matched n now x) (sym e)
        (
          Reach.later r (quiet i (command c refl) lt tt refl),
          submit-IsMatched n i s.cluster.peers s.cluster.elected s.sent s.led (start rf c).0
              (record { term = rf.current_term; command = some c }) lt m still log refl leads
              (unique_at n now r),
        )

  start_replicas-Matched : Matched {C = C} {D = D} n now (start_replicas n now)
  unfolding make
  start_replicas-Matched = record {
    in_place = λ i lt. record {
      base = refl;
      agrees = empty_log-Agrees;
      leading = λ h. absurd (ground arith);
      won_before = λ t won. absurd (ground (arith, won.1));
      not_again = λ h. absurd (ground arith);
    };
    leaders = λ t. elim (Bool-cases (0 == t)) [
      | inl same ↦ rw same empty_log-Agrees
      | inr other ↦ rw other (λ k x e. absurd (ground arith))
    ];
    fitting = tt;
    known = λ t pos. inl (ground arith);
  }

  ReplicaRun-Matched :
      {s : Replicas C D} → ReplicaRun n now s → Reach n now s.cluster × Matched n now s
  ReplicaRun-Matched begin = (Reach.begin, start_replicas-Matched)
  ReplicaRun-Matched (later run st) =
      let (r, m) = ReplicaRun-Matched run in ReplicaStep-Matched st r m

  -- In any run without snapshots of a group that started with empty disks, with elections, crashes,
  -- restarts and messages that come late, often or never: if two peers have entries of the same term
  -- at an index, their logs are the same up to this index.
  pub log_matching :
      {s : Replicas C D} (i j k : ℕ) (x y : LogEntry C)
      → ReplicaRun n now s
      → i < n
      → j < n
      → get_elem? (s.cluster.peers i).log k ≡ some x
      → get_elem? (s.cluster.peers j).log k ≡ some y
      → x.term ≡ y.term
      → take (suc k) (s.cluster.peers i).log ≡ take (suc k) (s.cluster.peers j).log
  log_matching {s} i j k x y run li lj e f same =
      let (_, m) = ReplicaRun-Matched run in
      Agrees-same s.led (s.cluster.peers i).log (s.cluster.peers j).log k x y
        (m.in_place i li).agrees (m.in_place j lj).agrees e f same
