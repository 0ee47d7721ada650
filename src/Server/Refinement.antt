-- ===== src/Server/Refinement.antt =====
-- internal/udpst/server.go: whole calls against the sections under the mutex.
use diagd.Server.Ledger
use diagd.Server.Sections.{Steps, stay, step, steps_append, world, with_session, decide_steps}
use diagd.Base.{ℕ, ◌≡◌, refl, subst, List, ◌∷◌, ◌++◌, Option, none, some}
use diagd.Protocol.{SetupPdu}
use diagd.Session.{Session}
use diagd.Server.{Config, Server}
use diagd.Server.Checks.{AuthState, authenticate}
use diagd.Server.Setup.{
  Verdict, rejected, opened, decide, release_on_err, new_session, count_response, setup_response,
  handle_setup, end_session,
}
use diagd.Server.Interleaving.{
  World, idle, respond, Reached, start, next, release, done, report, shut,
}

-- The session that a verdict starts, as handleSetup has it.
abbrev started : AuthState → Config → SetupPdu → Verdict → Option Session
started a cfg req (rejected code) = none
started a cfg req (opened port) = some (new_session cfg req a)

sessions_agree :
    (bind : ℕ → Option ℕ) (req : SetupPdu) (active : List Session) (ending : ℕ) (a : AuthState)
    (cfg : Config) (v : Verdict)
    → with_session bind req active ending a cfg v
      ≡ elim (started a cfg req v) [ none ↦ active | some x ↦ x ∷ active ]
sessions_agree bind req active ending a cfg (rejected code) = refl
sessions_agree bind req active ending a cfg (opened port) = refl

-- One call of handleSetup that nothing interrupts is a run of the sections of Interleaving: from an
-- idle stage it leads to the server that handleSetup leaves, idle again, with the session that it
-- starts among the active ones, if any, on each of its branches.
pub handle_setup_refines :
    (mac : List ℕ → List ℕ → List ℕ) (bind : ℕ → Option ℕ) (now : ℕ) (s : Server) (req : SetupPdu)
    (raw : List ℕ) (active : List Session) (ending : ℕ)
    → let h = handle_setup mac bind now s req raw in
      Steps
        (world s idle active ending)
        (world h.server idle (elim h.session [ none ↦ active | some x ↦ x ∷ active ]) ending)
unfolding handle_setup
handle_setup_refines mac bind now s req raw active ending =
    let a = authenticate mac s.cfg now req raw in
    let r = decide a bind s req in
    steps_append (decide_steps bind req active ending a s) (
      subst
        (λ xs.
          Steps (world r.0 idle (with_session bind req active ending a s.cfg r.1) ending)
            (world (count_response r.0 (setup_response req r.1).cmd_response) idle xs ending))
        (sessions_agree bind req active ending a s.cfg r.1)
        (step (respond (setup_response req r.1).cmd_response) stay))

-- The end of a session, as two sections.
end_session_refines :
    (s : Server) (before after : List Session) (x : Session)
    → Steps
        (world s idle (before ++ x ∷ after) 0)
        (world (end_session s x) idle (before ++ after) 0)
unfolding end_session release_on_err
end_session_refines s before after x = step (release before after x refl) (step (done 0 refl) stay)

reached_steps : {cfg : Config} {v w : World} → Reached cfg v → Steps v w → Reached cfg w
reached_steps r stay = r
reached_steps r (step x s) = reached_steps (next r x) s

-- Whatever whole calls of handleSetup, ends of sessions and Close reach in any order is reached by the
-- sections under the mutex: each whole call is a run of sections, so what holds however the sections
-- interleave holds of whole calls.
pub Reachable-Reached :
    {cfg : Config} {w : Ledger.World}
    → Ledger.Reachable cfg w
    → Reached cfg (world w.server idle w.active 0)
Reachable-Reached Ledger.start = start
Reachable-Reached (Ledger.next {v} r (Ledger.setup mac bind now req raw)) =
    reached_steps (Reachable-Reached r)
      (handle_setup_refines mac bind now v.server req raw v.active 0)
Reachable-Reached (Ledger.next r (Ledger.finish {s} before after x)) =
    reached_steps (Reachable-Reached r) (end_session_refines s before after x)
Reachable-Reached (Ledger.next r (Ledger.report upstream)) =
    next (Reachable-Reached r) (report upstream)
Reachable-Reached (Ledger.next r Ledger.shut) = next (Reachable-Reached r) shut
