-- ===== src/Standings/Order.antt =====
-- The comparison of standings rows, and the ties that `sameTie` tests.
use training_center_back.Prelude.{true, false, ◌≡◌, arith}
use training_center_back.Standings.Ranking.{RankedEntry, less, same_tie}

pub less_irrefl : (a : RankedEntry) → less a a ≡ false
unfolding less
less_irrefl a = ground arith

pub less_neg_trans : (a b c : RankedEntry) → less b a ≡ false → less c b ≡ false → less c a ≡ false
unfolding less
less_neg_trans a b c h k = ground arith

pub less-same_tie : (p x y : RankedEntry) → same_tie p x ≡ true → less y x ≡ less y p
unfolding less same_tie
less-same_tie p x y t = ground arith

pub less_of_not_tie :
    (p x : RankedEntry) → same_tie p x ≡ false → less x p ≡ false → less p x ≡ true
unfolding less same_tie
less_of_not_tie p x t h = ground arith

pub less_asym : (e x : RankedEntry) → less x e ≡ true → less e x ≡ false
unfolding less
less_asym e x h = ground arith
