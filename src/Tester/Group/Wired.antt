-- ===== src/Tester/Group/Wired.antt =====
-- The calls keep a group wired, and `Partition` parts two lists.
use mit_distro_sys.Tester.Group.Members.{is_listed-all_below}
use mit_distro_sys.Common.{
  ℕ, ◌<◌, ◌≡◌, sym, ap, ◌∙◌, subst, inl, inr, Bool, true, false, ◌&&◌, List, arith, Bool-cases,
  is_listed, AllOf, update,
}
use mit_distro_sys.Tester.Group.{
  partition, start_server, all, ServerGrp, connect_one, join_part, shutdown_server,
}
use mit_distro_sys.Tester.Group.Parts.{
  IsWired, Within, join_part-IsWired, join_part-off, join_part-cut,
}
use mit_distro_sys.Tester.Group.Ends.{connect_lem, disconnect_lem}

pub partition-IsWired :
    (sg : ServerGrp) (p1 p2 : List ℕ)
    → AllOf (λ i. i < sg.size) p1
    → AllOf (λ i. i < sg.size) p2
    → IsWired sg
    → IsWired (partition sg p1 p2) × ((partition sg p1 p2).size ≡ sg.size)
unfolding partition
partition-IsWired sg p1 p2 h g w =
    let (v, e) = join_part-IsWired sg p1 p1 p2 h w in
    let (u, f) =
      join_part-IsWired (join_part sg p1 p1 p2) p2 p2 p1
        (subst (λ n. AllOf (λ i. i < n) p2) (sym e) g) v in
    (u, f ∙ e)

-- `Partition` leaves no end between a and b, where b is in the other part than a or off the net.
pub partition_apart :
    (sg : ServerGrp) (p1 p2 : List ℕ) (a b : ℕ)
    → Within p1 p1
    → Within p2 p2
    → IsWired sg
    → is_listed a p2 ≡ false
    → is_listed b p1 ≡ false
    → (sg.connected a ≡ true → is_listed a p1 ≡ true)
    → (sg.connected b ≡ true → is_listed b p2 ≡ true)
    → ((partition sg p1 p2).ends a b ≡ false) × ((partition sg p1 p2).ends b a ≡ false)
unfolding partition
partition_apart sg p1 p2 a b w1 w2 w na nb ha hb =
    let (e, f) = first in
    (
      join_part-off (join_part sg p1 p1 p2) p2 p2 p1 a b w2 (ground arith) e,
      join_part-off (join_part sg p1 p1 p2) p2 p2 p1 b a w2 (ground arith) f,
    )
  where
    first : ((join_part sg p1 p1 p2).ends a b ≡ false) × ((join_part sg p1 p1 p2).ends b a ≡ false)
    first = elim (Bool-cases (is_listed a p1 && is_listed b p2)) [
      | inl both ↦ join_part-cut sg p1 p1 p2 a b w1 (ground arith) (ground arith) (ground arith)
      | inr apart ↦ (
        join_part-off sg p1 p1 p2 a b w1 (ground arith) (ground (arith, w.both_connected a b)),
        join_part-off sg p1 p1 p2 b a w1 (ground arith) (ground (arith, w.both_connected b a)),
      )
    ]

pub connect_one-IsWired :
    (sg : ServerGrp) (i : ℕ) → i < sg.size → IsWired sg → IsWired (connect_one sg i)
unfolding connect_one
connect_one-IsWired sg i lt w =
    let (e, (c, n, _)) = connect_lem sg i (all sg) in
    let on : (a : ℕ) → (connect_one sg i).connected a ≡ update sg.connected i true a =
      λ a. ap (λ (g : ℕ → Bool). g a) c in
    record {
      both_connected = λ a b h. ground (arith, w.both_connected a b, e a b, on a, on b);
      in_group = λ a h. ground (arith, w.in_group a, on a, n);
    }

pub shutdown_server-IsWired : (sg : ServerGrp) (i : ℕ) → IsWired sg → IsWired (shutdown_server sg i)
unfolding shutdown_server
shutdown_server-IsWired sg i w =
    let (e, (c, n, _)) = disconnect_lem sg i (all sg) in
    let on : (a : ℕ) → (shutdown_server sg i).connected a ≡ update sg.connected i false a =
      λ a. ap (λ (g : ℕ → Bool). g a) c in
    record {
      both_connected = λ a b h. ground (
        arith,
        w.both_connected a b,
        e a b,
        on a,
        on b,
        w.in_group a,
        w.in_group b,
        is_listed-all_below a sg.size,
        is_listed-all_below b sg.size,
      );
      in_group = λ a h. ground (arith, w.in_group a, on a, n);
    }

pub start_server-IsWired :
    (started : Bool) (sg : ServerGrp) (i : ℕ) → IsWired sg → IsWired (start_server started sg i)
unfolding start_server
start_server-IsWired started sg i w = elim (Bool-cases (sg.running i)) [
  | inl up ↦ rw up w
  | inr down ↦ rw down (record {
    both_connected = λ a b h. ground (arith, w.both_connected a b);
    in_group = w.in_group;
  })
]

pub size-start_server :
    (started : Bool) (sg : ServerGrp) (i : ℕ) → (start_server started sg i).size ≡ sg.size
unfolding start_server
size-start_server started sg i = ground arith

-- A start enables no end.
pub start_server-off :
    (started : Bool) (sg : ServerGrp) (i a b : ℕ)
    → sg.ends a b ≡ false
    → (start_server started sg i).ends a b ≡ false
unfolding start_server
start_server-off started sg i a b off = ground arith

pub connected-start_server :
    (started : Bool) (sg : ServerGrp) (i k : ℕ)
    → (start_server started sg i).connected k ≡ sg.connected k
unfolding start_server
connected-start_server started sg i k = ground arith
