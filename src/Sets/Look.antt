-- ===== src/Sets/Look.antt =====
-- SCARD, SISMEMBER and SMISMEMBER on the members that a set holds.
use tidis.Base.{List, [], ◌∷◌}
use tidis.Bytes.{Bytes}
use tidis.Frame.{Frame}
use tidis.Txn.{Txn, contains}
use tidis.Sets.{exists_reply}

-- Whether each of the asked members is one of the set's.
abbrev pub answers : List Bytes → List Bytes → List Frame
answers ms [] = []
answers ms (x ∷ xs) = exists_reply (contains ms x) ∷ answers ms xs
