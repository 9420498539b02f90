-- ===== src/Client/Transact/Failed.antt =====
-- What transact leaves of the connection.
use sis_op.Base.{
  ℕ, ◌≡◌, ◌≢◌, sym, subst, arith, ◌⊎◌, refl, Bool, false, Option, none, some, length, ◌==◌,
  Bool-cases, Option-cases, inl, inr,
}
use sis_op.Connection.{CallResult}
use sis_op.Client.Transact.{
  Line, mark_disconnected, wait_for_connection, Exchanged, settle, caught, transact,
}

differ : (a b : ℕ) → (a == b) ≡ false → a ≢ b
differ a b h e = ground (arith, h, e)

settle-failed :
    {A : Type 0} (cmd : ℕ) (e : Exchanged A) (l : Line) (r : CallResult)
    → (settle cmd e l r).1.result ≡ CallResult.failed
    → ((length (settle cmd e l r).1.error == 0) ≡ false)
      × ((settle cmd e l r).0 ≡ mark_disconnected (some cmd) l)
unfolding settle
settle-failed cmd e l CallResult.failed h = elim (Bool-cases (length e.error == 0)) [
  | inl empty ↦ rw empty (refl, refl)
  | inr full ↦ rw full (full, refl)
]
settle-failed cmd e l CallResult.ok h = cc h
settle-failed cmd e l CallResult.rejected h = cc h

-- This connection is not marked as the one in use any more; a newer one stays as it is.
abbrev pub Lost : ℕ → Line → Line → Type 0
Lost cmd before after =
    (after.cmd ≡ before.cmd)
    × (cmd ≡ before.cmd → after.connected ≡ false)
    × (cmd ≢ before.cmd → after ≡ before)

mark_disconnected-Lost : (cmd : ℕ) (l : Line) → Lost cmd l (mark_disconnected (some cmd) l)
unfolding mark_disconnected
mark_disconnected-Lost cmd l = elim (Bool-cases l.connected) [
  | inr off ↦ rw off (refl, (λ e. refl), λ ne. refl)
  | inl on ↦ elim (Bool-cases (cmd == l.cmd)) [
    | inl same ↦ rw (on, same) (refl, (λ e. refl), λ ne. absurd (ne (ground (arith, same))))
    | inr other ↦ rw (on, other) (refl, (λ e. absurd (differ cmd l.cmd other e)), λ ne. refl)
  ]
]

-- A transaction that fails sets an error. Either there was no connection to use, and nothing changed, or the
-- connection that it used is marked as lost, unless another took its place meanwhile.
pub transact-failed :
    {A : Type 0} (stopping : Bool) (l after : Line) (exchange : Option (Exchanged A))
    → (transact stopping l after exchange).1.result ≡ CallResult.failed
    → ((length (transact stopping l after exchange).1.error == 0) ≡ false)
      × (((wait_for_connection stopping l ≡ none) × ((transact stopping l after exchange).0 ≡ l))
          ⊎ ((cmd : ℕ) × (wait_for_connection stopping l ≡ some cmd)
              × Lost cmd after (transact stopping l after exchange).0))
unfolding transact
transact-failed stopping l after exchange h = elim (Option-cases (wait_for_connection stopping l)) [
  | inl e ↦ rw (e, transact) (refl, inl (refl, refl))
  | inr (cmd, e) ↦
      let (error, marked) = settle-failed cmd (caught exchange) after _ (rw (e, transact) at h) in
      rw (e, transact)
        (
          error,
          inr (cmd, refl, subst (Lost cmd after) (sym marked) (mark_disconnected-Lost cmd after)),
        )
]
