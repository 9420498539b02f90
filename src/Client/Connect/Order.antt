-- ===== src/Client/Connect/Order.antt =====
-- The order in which connect_once tries the servers.
use sis_op.Base.{◌≤◌, inl, inr, List, [], ◌∷◌, ltb, All, Bool-cases}
use sis_op.Protocol.Address.{ServerAddress}
use sis_op.Client.Connect.{put_in}

-- Every server's id is at least those of the servers behind it.
abbrev pub Descending : List ServerAddress → Type 0
Descending [] = Unit {0}
Descending (s ∷ servers) = All (λ t. t.id ≤ s.id) servers × Descending servers

All-put_in :
    (P : ServerAddress → Type 0) (s : ServerAddress) (l : List ServerAddress)
    → P s
    → All P l
    → All P (put_in s l)
unfolding put_in
All-put_in P s [] p all = (p, tt)
All-put_in P s (t ∷ l) p all = elim (Bool-cases (ltb s.id t.id)) [
  | inl later ↦ rw (later, put_in) ((all.0, All-put_in P s l p all.1))
  | inr here ↦ rw (here, put_in) ((p, all))
]
