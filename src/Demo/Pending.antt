-- ===== src/Demo/Pending.antt =====
-- What the pending restarts mean for a tick of the chaos monkey
-- (shardkv-demo/cluster/chaosmonkey.go, `tick`).
use mit_distro_sys.Tester.Group.Members.{AllOf-all_below}
use mit_distro_sys.Demo.Members.{is_listed-select}
use mit_distro_sys.Common.{
  ℕ, ◌≡◌, refl, Bool, not, ◌&&◌, List, [], ◌∷◌, arith, ltb, is_listed, AllOf, AllOf-imp,
}
use mit_distro_sys.Tester.Group.{ServerGrp, all}
use mit_distro_sys.Demo.Manager.{select}
use mit_distro_sys.Demo.Chaos.{tick, eligible_in, cleaned}

select-cong : (p q : ℕ → Bool) (xs : List ℕ) → AllOf (λ k. p k ≡ q k) xs → select p xs ≡ select q xs
select-cong p q [] h = refl
select-cong p q (x ∷ xs) (e, h) = ground (arith, select-cong p q xs h)

eligible_in-cleaned :
    (sg : ServerGrp) (pending : List ℕ)
    → eligible_in sg (cleaned sg pending) ≡ select sg.connected (all sg)
eligible_in-cleaned sg pending =
    select-cong (λ i. sg.connected i && not (is_listed i (cleaned sg pending))) sg.connected
      (all sg)
      (AllOf-imp (all sg)
        (λ k lt.
          ground (arith, is_listed-select (λ i. not (ltb i sg.size && sg.connected i)) k pending))
        (AllOf-all_below sg.size sg.size (omega arith)))

-- The choice of a tick does not depend on the servers that await their restart: with the same random
-- number it is the one that it would be if none did.
pub tick_pending :
    (sg : ServerGrp) (pending : List ℕ) (pick : ℕ) → (tick sg pending pick).1 ≡ (tick sg [] pick).1
unfolding tick
tick_pending sg pending pick = rw (eligible_in-cleaned sg pending, eligible_in-cleaned sg []) refl
