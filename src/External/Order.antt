-- ===== src/External/Order.antt =====
-- `Ord`: a total order by a comparison.
use Prim.Native.Nat.{ℕ, compare, Ordering}
use pa_queue_and_chan.Prelude.{◌≡◌, arith}

pub record Ord (P : Type 0) : Type 0 where
  pub cmp : P → P → Ordering
  pub eq_of_cmp : (a b : P) → cmp a b ≡ Ordering.eq → a ≡ b
  pub cmp_self : (a : P) → cmp a a ≡ Ordering.eq
  pub cmp_lt_gt : (a b : P) → cmp a b ≡ Ordering.lt → cmp b a ≡ Ordering.gt
  pub cmp_gt_lt : (a b : P) → cmp a b ≡ Ordering.gt → cmp b a ≡ Ordering.lt
  pub cmp_trans :
      (a b c : P) → cmp a b ≡ Ordering.lt → cmp b c ≡ Ordering.lt → cmp a c ≡ Ordering.lt

nat_eq_of_cmp : (a b : ℕ) → compare a b ≡ Ordering.eq → a ≡ b
nat_eq_of_cmp a b h = ground arith

nat_cmp_self : (a : ℕ) → compare a a ≡ Ordering.eq
nat_cmp_self a = ground arith

nat_cmp_lt_gt : (a b : ℕ) → compare a b ≡ Ordering.lt → compare b a ≡ Ordering.gt
nat_cmp_lt_gt a b h = ground arith

nat_cmp_gt_lt : (a b : ℕ) → compare a b ≡ Ordering.gt → compare b a ≡ Ordering.lt
nat_cmp_gt_lt a b h = ground arith

nat_cmp_trans :
    (a b c : ℕ) → compare a b ≡ Ordering.lt → compare b c ≡ Ordering.lt → compare a c ≡ Ordering.lt
nat_cmp_trans a b c h k = ground arith

unfoldable pub nat_ord : Ord ℕ
unfolding nat_eq_of_cmp nat_cmp_self nat_cmp_lt_gt nat_cmp_gt_lt nat_cmp_trans
nat_ord = record {
  cmp = compare;
  eq_of_cmp = nat_eq_of_cmp;
  cmp_self = nat_cmp_self;
  cmp_lt_gt = nat_cmp_lt_gt;
  cmp_gt_lt = nat_cmp_gt_lt;
  cmp_trans = nat_cmp_trans;
}
