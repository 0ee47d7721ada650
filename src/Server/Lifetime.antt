-- ===== src/Server/Lifetime.antt =====
-- internal/udpst/session.go: `run`, from the wait for the activation to the deferred clean-up, and what
-- a whole test leaves of the server that accepted it.
use diagd.Base.{
  ℕ, ◌+◌, ◌≡◌, refl, sym, ◌∙◌, Bool, true, false, List, [], ◌∷◌, Option, none, some, if◌then◌else◌,
  subst, u64, arith,
}
use diagd.Protocol.{StatusPdu, SetupPdu}
use diagd.Session.{Session}
use diagd.Session.Activation.{Activated, await_activation}
use diagd.Session.Origin.{HasOrigin, activated_by_genuine}
use diagd.Session.Upstream.{Round, run_upstream}
use diagd.Session.Downstream.{Downstream, Receipt, start_downstream, downstream_loop}
use diagd.Server.{Config, Server, release_bandwidth, session_done}
use diagd.Server.Setup.{handle_setup, end_session, count_test}
use diagd.Server.Ledger.{
  World, Ledger, opened_with, Reachable, Reachable-Ledger, setup-Ledger, end-Ledger,
}

-- What reaches a session: the datagrams before the deadline of the activation and the time of the
-- answer, the time at which the test starts, and the rounds of the loop of its direction.
pub record Traffic : Type 0 where
  pub arrivals : List (Bool × List ℕ)
  pub answered : ℕ
  pub start : ℕ
  pub uploads : List Round
  pub stop : ℕ
  pub downloads : List (ℕ × Receipt)

-- What a session leaves: the server, the statuses that it sent, and the states of its downstream
-- loop, the last one first.
pub record Ran : Type 0 where
  pub server : Server
  pub sent : List StatusPdu
  pub states : List Downstream

-- `run` once the session is activated, up to the deferred function.
unfoldable pub run_test : Server → Session → Activated → Traffic → Ran
run_test s sess a t =
    if a.downstream
    then record {
      server = count_test s false;
      sent = [];
      states = downstream_loop (start_downstream sess a.p t.start) t.downloads [];
    }
    else record {
      server = count_test s true;
      sent = (run_upstream sess a.p t.start t.uploads t.stop).1;
      states = [];
    }

-- `run` behind the wait for the activation.
unfoldable pub after_wait : Server → Session → Traffic → Option Activated → Ran
after_wait s sess t none = record { server = end_session s sess; sent = []; states = [] }
after_wait s sess t (some a) =
    let r = run_test s sess a t in record r { server = end_session r.server sess }

unfoldable pub run_session :
    (List ℕ → List ℕ → List ℕ) → (ℕ → Bool) → Server → Session → Traffic → Ran
run_session mac set_class s sess t =
    after_wait s sess t (await_activation mac set_class sess t.arrivals t.answered)

-- The bandwidth and the places of the one are those of the other.
pub record Returned (s t : Server) : Type 0 where
  pub us : t.used_us ≡ s.used_us
  pub ds : t.used_ds ≡ s.used_ds
  pub places : t.sessions ≡ s.sessions

-- A session that no one activates counts as no test and sends nothing; one that is activated counts
-- as one test, in the direction of the request that activated it.
pub data Counted (mac : List ℕ → List ℕ → List ℕ) (set_class : ℕ → Bool) (s : Server) (x : Session)
    (t : Traffic) : Ran → Type 0 where
  silent :
      {r : Ran}
      → await_activation mac set_class x t.arrivals t.answered ≡ none
      → (r.server.tests_upstream ≡ s.tests_upstream)
        × (r.server.tests_downstream ≡ s.tests_downstream)
      → (r.sent ≡ []) × (r.states ≡ [])
      → Counted mac set_class s x t r
  tested :
      {r : Ran}
      → (a : Activated) → HasOrigin mac set_class x t.arrivals t.answered a
      → r.server.tests_upstream
        ≡ (if a.downstream then s.tests_upstream else u64 (s.tests_upstream + 1))
      → r.server.tests_downstream
        ≡ (if a.downstream then u64 (s.tests_downstream + 1) else s.tests_downstream)
      → Counted mac set_class s x t r

end_keeps_tests :
    (s : Server) (x : Session)
    → ((end_session s x).tests_upstream ≡ s.tests_upstream)
      × ((end_session s x).tests_downstream ≡ s.tests_downstream)
unfolding end_session release_bandwidth session_done
end_keeps_tests s x = ground arith

count_up :
    (s : Server) (x : Session) (a : Activated) (t : Traffic)
    → ((run_test s x a t).server.tests_upstream
        ≡ (if a.downstream then s.tests_upstream else u64 (s.tests_upstream + 1)))
      × ((run_test s x a t).server.tests_downstream
          ≡ (if a.downstream then u64 (s.tests_downstream + 1) else s.tests_downstream))
unfolding run_test count_test
count_up s x a t = ground arith

-- A test leaves the books as they are.
count-Ledger :
    (s : Server) (x : Session) (a : Activated) (t : Traffic) (active : List Session)
    → Ledger s active
    → Ledger (run_test s x a t).server active
unfolding run_test count_test
count-Ledger s x a t active l = ground (arith, l)

wait-Ledger :
    (s : Server) (x : Session) (t : Traffic) (o : Option Activated) (active : List Session)
    → Ledger s (x ∷ active)
    → Ledger (after_wait s x t o).server active
unfolding after_wait
wait-Ledger s x t none active l = end-Ledger s [] active x l
wait-Ledger s x t (some a) active l =
    end-Ledger (run_test s x a t).server [] active x (count-Ledger s x a t (x ∷ active) l)

session_counts :
    (mac : List ℕ → List ℕ → List ℕ) (set_class : ℕ → Bool) (s : Server) (x : Session) (t : Traffic)
    → Counted mac set_class s x t (run_session mac set_class s x t)
unfolding run_session after_wait
session_counts mac set_class s x t =
    elim (await_activation mac set_class x t.arrivals t.answered)
        as (λ o.
          await_activation mac set_class x t.arrivals t.answered ≡ o
          → Counted mac set_class s x t (after_wait s x t o)) [
            | none ↦ λ e. silent e (end_keeps_tests s x) (refl, refl)
            | some a ↦ λ e.
                let (up, down) = end_keeps_tests (run_test s x a t).server x in
                let (c, d) = count_up s x a t in
                tested a (activated_by_genuine mac set_class x t.arrivals t.answered a e) (up ∙ c)
                  (down ∙ d)
          ]
      refl

books-Returned :
    (s u : Server) (active : List Session) → Ledger s active → Ledger u active → Returned s u
books-Returned s u active l m = record {
  us = m.us ∙ sym l.us;
  ds = m.ds ∙ sym l.ds;
  places = m.count ∙ sym l.count;
}

-- Whatever reaches it, a session that a Setup Request opens on a server, in any state that whole setups,
-- ends of sessions and Close reach, leaves the server's bandwidth and places as they were before the
-- request, where nothing else happens meanwhile. It counts as one test, in the direction asked for,
-- where a genuine Test Activation Request arrived in time that activated it, and else as none, having
-- sent nothing.
pub whole_test :
    (mac : List ℕ → List ℕ → List ℕ) (set_class : ℕ → Bool) (bind : ℕ → Option ℕ) (now : ℕ)
    (req : SetupPdu) (raw : List ℕ) (cfg : Config) (w : World) (x : Session) (t : Traffic)
    → Reachable cfg w
    → (handle_setup mac bind now w.server req raw).session ≡ some x
    → let s = (handle_setup mac bind now w.server req raw).server in
      Returned w.server (run_session mac set_class s x t).server
      × Counted mac set_class s x t (run_session mac set_class s x t)
unfolding run_session
whole_test mac set_class bind now req raw cfg w x t reached e =
    let h = handle_setup mac bind now w.server req raw in
    let before = Reachable-Ledger reached in
    let during =
      subst (λ o. Ledger h.server (opened_with o w.active)) e
        (setup-Ledger mac bind now w.server req raw w.active before) in
    (
      books-Returned w.server _ w.active before (wait-Ledger h.server x t _ w.active during),
      session_counts mac set_class h.server x t,
    )
