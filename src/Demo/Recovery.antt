-- ===== src/Demo/Recovery.antt =====
-- `RecoverNode` while another server is isolated (shardkv-demo/cluster/manager.go).
use mit_distro_sys.Demo.Members.{is_listed-select, chosen_lem}
use mit_distro_sys.Common.{
  ℕ, ◌<◌, ◌≡◌, ◌∙◌, ◌≢◌, true, not, ◌&&◌, ◌||◌, List, [], ◌∷◌, ◌++◌, arith, ◌==◌, ==_refl,
  is_listed,
}
use mit_distro_sys.Tester.Group.{ServerGrp, partition, join_part}
use mit_distro_sys.Tester.Group.Parts.{join_part-joins}
use mit_distro_sys.Tester.Group.Members.{is_listed-append}
use mit_distro_sys.Demo.Manager.{recover_in, others_of}

-- If another connected server of the group is recorded as isolated, RecoverNode enables the ends
-- between the two in both directions, and the record of the other one stays.
pub recover_in_joins :
    (sg : ServerGrp) (marks : List ℕ) (srv other : ℕ)
    → srv ≢ other
    → other < sg.size
    → sg.connected other ≡ true
    → is_listed other marks ≡ true
    → ((recover_in sg marks srv).0.ends srv other ≡ true)
      × ((recover_in sg marks srv).0.ends other srv ≡ true)
      × (is_listed other (recover_in sg marks srv).1 ≡ true)
unfolding recover_in partition join_part
recover_in_joins sg marks srv other ne lt on marked =
    let (e, f) =
      join_part-joins sg alive alive srv other (ground (arith, listed srv, ==_refl srv))
        (ground (arith, listed other, chosen_lem sg (λ i. not (i == srv) && sg.connected i) other))
        on in
    (e, f, ground (arith, is_listed-select (λ i. not (i == srv)) other marks))
  where
    alive : List ℕ
    alive = others_of sg srv ++ srv ∷ []

    listed : (k : ℕ) → is_listed k alive ≡ (is_listed k (others_of sg srv) || srv == k)
    listed k = is_listed-append k (others_of sg srv) (srv ∷ []) ∙ ground arith
