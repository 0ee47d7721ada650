-- ===== src/Session/Origin.antt =====
-- internal/udpst/session.go: which datagram `awaitActivation` acts on.
use diagd.Base.{ℕ, ◌≤◌, ◌≡◌, ◌↔◌, refl, ap, Bool, true, List, [], ◌∷◌, ◌++◌, none, some, All, arith}
use diagd.Auth.{SessionKeys, compute_digest}
use diagd.Auth.Sign.{verify_digest_iff}
use diagd.Protocol.{TestActPdu}
use diagd.Protocol.TestAct.{parse_test_act, test_act_auth_digest_off}
use diagd.Session.{Session}
use diagd.Session.Police.{police}
use diagd.Session.Activation.{Activated, activate, digest_accepted, on_datagram, await_activation}

-- The digest of a request is the one under the client key, where the session has keys, runs mode 1 and
-- is of version 20 or later.
pub IsSigned : (List ℕ → List ℕ → List ℕ) → Session → List ℕ → TestActPdu → Type 0
IsSigned mac s raw req =
    (k : SessionKeys)
    → s.keys ≡ some k
    → s.auth_mode ≡ 1
    → 20 ≤ s.pver
    → compute_digest mac k.client raw test_act_auth_digest_off ≡ req.auth.auth_digest

-- A datagram from the setup peer's address that is a Test Activation Request, no response, and signed.
pub record IsRequest (mac : List ℕ → List ℕ → List ℕ) (s : Session) (d : Bool × List ℕ)
    (req : TestActPdu) : Type 0 where
  pub peer : d.0 ≡ true
  pub parses : parse_test_act d.1 ≡ some req
  pub unanswered : req.cmd_response ≡ 0
  pub signed : IsSigned mac s d.1 req

-- A datagram that is no such request.
pub IsOther : (List ℕ → List ℕ → List ℕ) → Session → Bool × List ℕ → Type 0
IsOther mac s d = (req : TestActPdu) → ¬ IsRequest mac s d req

accepted-IsSigned :
    (mac : List ℕ → List ℕ → List ℕ) (s : Session) (raw : List ℕ) (req : TestActPdu)
    → digest_accepted mac s raw req ≡ true
    → IsSigned mac s raw req
unfolding digest_accepted IsSigned
accepted-IsSigned mac s raw req h k e mode version =
    (verify_digest_iff mac k.client raw req.auth.auth_digest test_act_auth_digest_off).0
      (ground (arith, h, e, mode, version))

signed_accepted :
    (mac : List ℕ → List ℕ → List ℕ) (s : Session) (raw : List ℕ) (req : TestActPdu)
    → IsSigned mac s raw req
    → digest_accepted mac s raw req ≡ true
unfolding digest_accepted IsSigned
signed_accepted mac s raw req h =
    elim s.keys as (λ o. s.keys ≡ o → digest_accepted mac s raw req ≡ true) [
      | none ↦ λ e. ground (arith, e)
      | some k ↦ λ e. ground (
        arith,
        e,
        h k e,
        verify_digest_iff mac k.client raw req.auth.auth_digest test_act_auth_digest_off,
      )
    ]
      refl

-- What a session makes of a request that it acts on.
pub record IsOrigin (mac : List ℕ → List ℕ → List ℕ) (set_class : ℕ → Bool) (s : Session) (now : ℕ)
    (d : Bool × List ℕ) (a : Activated) : Type 0 where
  pub req : TestActPdu
  pub request : IsRequest mac s d req
  pub direction : (a.downstream ≡ true) ↔ (req.cmd_request ≡ 2)
  pub params : a.p ≡ police set_class s req
  pub outcome : a ≡ activate mac set_class s req now

datagram-IsOrigin :
    (mac : List ℕ → List ℕ → List ℕ) (set_class : ℕ → Bool) (s : Session) (now : ℕ)
    (d : Bool × List ℕ) (a : Activated)
    → on_datagram mac set_class s d.0 d.1 now ≡ some a
    → IsOrigin mac set_class s now d a
unfolding on_datagram
datagram-IsOrigin mac set_class s now d a h =
    elim (parse_test_act d.1) as (λ o. parse_test_act d.1 ≡ o → IsOrigin mac set_class s now d a) [
      | none ↦ λ e. absurd (ground (arith, h, e))
      | some req ↦ λ e.
          let same : a ≡ activate mac set_class s req now = ground (arith, h, e) in
          record {
            req = req;
            request = record {
              peer = ground (arith, h, e);
              parses = e;
              unanswered = ground (arith, h, e);
              signed = accepted-IsSigned mac s d.1 req (ground (arith, h, e));
            };
            direction =
                rw same (unfold activate in (λ x. ground (arith, x), λ x. ground (arith, x)));
            params = rw same (unfold activate in refl);
            outcome = same;
          }
    ]
      refl

datagram-IsOther :
    (mac : List ℕ → List ℕ → List ℕ) (set_class : ℕ → Bool) (s : Session) (now : ℕ)
    (d : Bool × List ℕ)
    → on_datagram mac set_class s d.0 d.1 now ≡ none
    → IsOther mac s d
unfolding on_datagram IsOther
datagram-IsOther mac set_class s now d h req r =
    ground (arith, h, r.peer, r.parses, r.unanswered, signed_accepted mac s d.1 req r.signed)

-- The first request among the datagrams that arrived is the origin of the outcome.
pub record HasOrigin (mac : List ℕ → List ℕ → List ℕ) (set_class : ℕ → Bool) (s : Session)
    (arrivals : List (Bool × List ℕ)) (now : ℕ) (a : Activated) : Type 0 where
  pub before : List (Bool × List ℕ)
  pub datagram : Bool × List ℕ
  pub after : List (Bool × List ℕ)
  pub arrived : arrivals ≡ before ++ datagram ∷ after
  pub others : All (IsOther mac s) before
  pub origin : IsOrigin mac set_class s now datagram a

-- A session is activated only by the first datagram that came from the address of the setup peer and
-- is a Test Activation Request, no response, and whose digest, where the session has keys in mode 1
-- from version 20 on, is the one under the client key; whatever came before it is none. The session
-- then runs with the policed parameters of this request, in the direction that it names.
pub activated_by_genuine :
    (mac : List ℕ → List ℕ → List ℕ) (set_class : ℕ → Bool) (s : Session)
    (arrivals : List (Bool × List ℕ)) (now : ℕ) (a : Activated)
    → await_activation mac set_class s arrivals now ≡ some a
    → HasOrigin mac set_class s arrivals now a
unfolding await_activation
activated_by_genuine mac set_class s [] now a h = absurd (ground (arith, h))
activated_by_genuine mac set_class s (d ∷ rest) now a h =
    elim (on_datagram mac set_class s d.0 d.1 now)
        as (λ o.
          on_datagram mac set_class s d.0 d.1 now ≡ o
          → HasOrigin mac set_class s (d ∷ rest) now a) [
            | none ↦ λ e.
                let later =
                  activated_by_genuine mac set_class s rest now a (ground (arith, h, e)) in
                record {
                  before = d ∷ later.before;
                  datagram = later.datagram;
                  after = later.after;
                  arrived = ap (◌∷◌ d) later.arrived;
                  others = (datagram-IsOther mac set_class s now d e, later.others);
                  origin = later.origin;
                }
            | some b ↦ λ e. record {
              before = [];
              datagram = d;
              after = rest;
              arrived = refl;
              others = tt;
              origin = datagram-IsOrigin mac set_class s now d a (ground (arith, h, e));
            }
          ]
      refl
