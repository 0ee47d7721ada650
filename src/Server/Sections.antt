-- ===== src/Server/Sections.antt =====
-- internal/udpst/server.go: handleSetup as a run of its sections under the mutex.
use diagd.Base.{
  ℕ, ◌+◌, ◌-◌, ◌≡◌, refl, subst, ◌∙◌, false, ◌&&◌, List, ◌∷◌, Option, none, some, if-cases,
  option-cases, ltb, leb, arith,
}
use diagd.Protocol.{SetupPdu}
use diagd.Session.{Session}
use diagd.Server.{Config, Server, reserve_bandwidth, try_ports, new_session_socket, session_done}
use diagd.Server.Checks.{AuthState, check_request, check_mode}
use diagd.Server.Setup.{
  Verdict, rejected, opened, admit_bandwidth, allocate, decide, release_on_err, wants_upstream,
  granted_mbw, new_session,
}
use diagd.Server.Interleaving.{
  World, Stage, idle, reserved, placed, Section, bandwidth, place, unplace, give_up, advance, begin,
  after_bandwidth, after_place, take_place, advance_port,
}

-- Sections one after another.
pub data Steps : World → World → Type 0 where
  stay : {w : World} → Steps w w
  step : {u v w : World} → Section u v → Steps v w → Steps u w

pub steps_append : {u v w : World} → Steps u v → Steps v w → Steps u w
steps_append stay t = t
steps_append (step x s) t = step x (steps_append s t)

abbrev pub world : Server → Stage → List Session → ℕ → World
world s stage active ending = record { server = s; stage = stage; active = active; ending = ending }

-- The stage that newSessionSocket leaves.
abbrev after_socket : SetupPdu → Option ℕ → Stage
after_socket req none = reserved req
after_socket req (some port) = placed req

module _ (bind : ℕ → Option ℕ) (req : SetupPdu) (active : List Session) (ending : ℕ) where
  taken :
      (s : Server)
      → s.closed ≡ false
      → leb s.cfg.max_sessions s.sessions ≡ false
      → after_place (world s (reserved req) active ending) req
        ≡ world (record s { sessions = s.sessions + 1 }) (placed req) active ending
  unfolding after_place take_place
  taken s up free = ground (arith, up, free)

  take_steps :
      (s : Server)
      → s.closed ≡ false
      → leb s.cfg.max_sessions s.sessions ≡ false
      → Section
          (world s (reserved req) active ending)
          (world (record s { sessions = s.sessions + 1 }) (placed req) active ending)
  take_steps s up free =
      subst (Section (world s (reserved req) active ending)) (taken s up free) (place req refl)

  abbrev SocketRun : Server → Server × Option ℕ → Type 0
  SocketRun s r =
      Steps (world s (reserved req) active ending) (world r.0 (after_socket req r.1) active ending)

  ranged_steps :
      (s : Server)
      → s.closed ≡ false
      → leb s.cfg.max_sessions s.sessions ≡ false
      → (port : ℕ)
      → SocketRun s (advance_port (record s { sessions = s.sessions + 1 }) port, some port)
  ranged_steps s up free port = step (take_steps s up free) (step (advance port) stay)

  full_steps :
      (s : Server)
      → s.closed ≡ false
      → leb s.cfg.max_sessions s.sessions ≡ false
      → SocketRun s (session_done (record s { sessions = s.sessions + 1 }), none)
  full_steps s up free = step (take_steps s up free) (step (unplace req refl) stay)

  socket_steps : (s : Server) → SocketRun s (new_session_socket bind s)
  unfolding new_session_socket advance_port
  socket_steps s =
      let t : Server = record s { sessions = s.sessions + 1 } in
      let lo = s.cfg.test_port_min in
      let hi = s.cfg.test_port_max in
      if-cases (SocketRun s) s.closed (s, none) _ (λ _. stay)
        (λ up.
          if-cases (SocketRun s) (leb s.cfg.max_sessions s.sessions) (s, none) _ (λ _. stay)
            (λ free.
              if-cases (SocketRun s) (ltb 0 lo && leb lo hi) _ _
                (λ _.
                  option-cases (SocketRun s)
                    (try_ports bind lo (hi - lo + 1) s.next_port (hi - lo + 1) 0)
                    (session_done t, none) _ (λ _. full_steps s up free)
                    (λ port _. ranged_steps s up free port))
                (λ _.
                  option-cases (SocketRun s) (bind 0) (session_done t, none)
                    (λ port. (t, some port)) (λ _. full_steps s up free)
                    (λ port _. step (take_steps s up free) stay))))

  admit_keeps_cfg : (s : Server) → (admit_bandwidth s req).0.cfg ≡ s.cfg
  unfolding admit_bandwidth reserve_bandwidth
  admit_keeps_cfg s = ground arith

  socket_keeps_cfg : (s : Server) → (new_session_socket bind s).0.cfg ≡ s.cfg
  unfolding new_session_socket session_done
  socket_keeps_cfg s = ground arith

  -- The sessions that run once a setup has been decided.
  abbrev pub with_session : AuthState → Config → Verdict → List Session
  with_session a cfg (rejected code) = active
  with_session a cfg (opened port) = new_session cfg req a ∷ active

  abbrev pub Settled : AuthState → Server → Server × Verdict → Type 0
  Settled a s r =
      Steps (world s idle active ending) (world r.0 idle (with_session a s.cfg r.1) ending)

  -- From bandwidth that is reserved, to a rejection that gives it back.
  undo_steps :
      (t : Server) (cfg : Config)
      → t.cfg ≡ cfg
      → Steps
          (world t (reserved req) active ending)
          (world (release_on_err t (wants_upstream req) (granted_mbw cfg req)) idle active ending)
  undo_steps t cfg e =
      subst
        (λ c.
          Steps (world t (reserved req) active ending)
            (world (release_on_err t (wants_upstream req) (granted_mbw c req)) idle active ending))
        e (step (give_up req refl) stay)

  -- From a place that is taken, to the session that runs.
  open_steps :
      (a : AuthState) (u : Server) (cfg : Config)
      → u.cfg ≡ cfg
      → Steps
          (world u (placed req) active ending)
          (world u idle (new_session cfg req a ∷ active) ending)
  open_steps a u cfg e =
      subst
        (λ c.
          Steps (world u (placed req) active ending)
            (world u idle (new_session c req a ∷ active) ending))
        e (step (begin req a refl) stay)

  bandwidth_steps :
      (s : Server)
      → let r = admit_bandwidth s req in
        Steps
          (world s idle active ending)
          (world r.0 (elim r.1 [ none ↦ reserved req | some code ↦ idle ]) active ending)
  unfolding after_bandwidth
  bandwidth_steps s = step (bandwidth req refl) stay

  -- The bandwidth section, and newSessionSocket, by what they come to.
  bandwidth_to :
      (s : Server) (refused : Option ℕ)
      → (admit_bandwidth s req).1 ≡ refused
      → Steps (world s idle active ending) (
          world
            (admit_bandwidth s req).0
            (elim refused [ none ↦ reserved req | some code ↦ idle ])
            active
            ending)
  bandwidth_to s refused e =
      subst
        (λ o. Steps (world s idle active ending) (
          world (admit_bandwidth s req).0 (elim o [ none ↦ reserved req | some code ↦ idle ]) active
            ending))
        e (bandwidth_steps s)

  socket_to :
      (t : Server) (socket : Option ℕ)
      → (new_session_socket bind t).1 ≡ socket
      → SocketRun t ((new_session_socket bind t).0, socket)
  socket_to t socket e =
      subst (λ o. SocketRun t ((new_session_socket bind t).0, o)) e (socket_steps t)

  allocate_steps : (a : AuthState) (s : Server) → Settled a s (allocate bind s req)
  unfolding allocate
  allocate_steps a s =
      let t = (admit_bandwidth s req).0 in
      let u = (new_session_socket bind t).0 in
      let t_cfg = admit_keeps_cfg s in
      let u_cfg = socket_keeps_cfg t ∙ t_cfg in
      option-cases (Settled a s) (admit_bandwidth s req).1 _ _
        (λ e.
          option-cases (Settled a s) (check_mode s.cfg req) _ _
            (λ _.
              option-cases (Settled a s) (new_session_socket bind t).1 _ _
                (λ f.
                  steps_append (bandwidth_to s none e)
                    (steps_append (socket_to t none f) (undo_steps u s.cfg u_cfg)))
                (λ port f.
                  steps_append (bandwidth_to s none e)
                    (steps_append (socket_to t (some port) f) (open_steps a u s.cfg u_cfg))))
            (λ code _. steps_append (bandwidth_to s none e) (undo_steps t s.cfg t_cfg)))
        (λ code e. bandwidth_to s (some code) e)

  pub decide_steps : (a : AuthState) (s : Server) → Settled a s (decide a bind s req)
  unfolding decide
  decide_steps a s =
      option-cases (Settled a s) a.code _ _
        (λ _.
          option-cases (Settled a s) (check_request s.cfg req) _ _ (λ _. allocate_steps a s)
            (λ code _. stay))
        (λ code _. stay)
