-- ===== src/Server/Sessions/Pushes.antt =====
-- Whom the server pushes a change to.
use sis_op.Base.{
  ℕ, ◌≡◌, ◌≢◌, ◌↔◌, refl, false, not, ◌&&◌, Option, none, some, List, [], ◌∷◌, arith, In, inl, inr,
  Bool-cases,
}
use sis_op.Base.Keys.{Bytes, same, bytes_key, same_of_eq, bytes_cmp-eq, bytes_cmp_self}
use sis_op.Server.Sessions.{Session, SessionManager, sync_connections, and_list}

-- Some session of the user other than the excepted one has this sync connection.
pub data Pushable (user except : Bytes) (c : ℕ) : SessionManager → Type 0 where
  here :
      (token : Bytes) (s : Session) (d : SessionManager)
      → token ≢ except
      → s.user ≡ user
      → s.sync ≡ some c
      → Pushable user except c ((token, s) ∷ d)
  there :
      (e : Bytes × Session) (d : SessionManager)
      → Pushable user except c d
      → Pushable user except c (e ∷ d)

sync_connections_sound :
    (user except : Bytes) (c : ℕ) (d : SessionManager)
    → In c (sync_connections user except d)
    → Pushable user except c d
unfolding sync_connections
sync_connections_sound user except c [] h = absurd h
sync_connections_sound user except c ((token, s) ∷ d) h =
    elim (Bool-cases (not (same token except) && same s.user user)) [
      | inl fits ↦
          attached (sync_connections_sound user except c d) s.sync refl (ground arith)
            (ground (arith, bytes_cmp-eq s.user user)) (rw fits at h)
      | inr other ↦ there (token, s) d (sync_connections_sound user except c d (rw other at h))
    ]
  where
    rest : List ℕ
    rest = sync_connections user except d

    attached :
        (In c rest → Pushable user except c d)
        → (sync : Option ℕ) → s.sync ≡ sync
        → same token except ≡ false
        → s.user ≡ user
        → In c (and_list sync rest)
        → Pushable user except c ((token, s) ∷ d)
    attached ih none e other mine m = there (token, s) d (ih m)
    attached ih (some c') e other mine (inl hit) =
        here token s d (λ same. ground (arith, same_of_eq token except same)) mine (ground arith)
    attached ih (some c') e other mine (inr m) = there (token, s) d (ih m)

sync_connections_complete :
    (user except : Bytes) (c : ℕ) (d : SessionManager)
    → Pushable user except c d
    → In c (sync_connections user except d)
unfolding sync_connections
sync_connections_complete user except c [] p = elim p [ ]
sync_connections_complete user except c (_ ∷ _) (here token s d other mine attached) =
    ground (arith, bytes_cmp-eq token except, bytes_cmp_self s.user)
sync_connections_complete user except c (_ ∷ _) (there (token, s) d p) =
    ground (arith, sync_connections_complete user except c d p)

-- A change is pushed to exactly the sync connections of the user's sessions other than the
-- excepted one.
pub sync_connections_iff :
    (user except : Bytes) (c : ℕ) (d : SessionManager)
    → In c (sync_connections user except d) ↔ Pushable user except c d
sync_connections_iff user except c d =
    (sync_connections_sound user except c d, sync_connections_complete user except c d)
