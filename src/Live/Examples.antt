-- ===== src/Live/Examples.antt =====
-- Tests and instances for internal/tr143/live.go and `/live` of cmd/diagd/ops.go.
use diagd.Base.{ℕ, ◌*◌, ◌≡◌, refl, true, List, [], ◌∷◌, length, filter, arith}
use diagd.Clock.{second}
use diagd.Live.{
  http_download, http_upload, begin, store_bytes, finish, snapshot, sweep, put, live_transfers,
  asks, host_of, same, last_index, report, expired,
}
use diagd.Live.Log.{Op, started, stored, ended, polled, run, step, replay, Ops, last_poll, visible}
use diagd.Live.Growth.{Quiet, starts, unpolled_kept}
use diagd.Live.Refines.{no_transfers, live_refines_log}

-- "a:80" and "b:9".
abbrev peer_a : List ℕ
peer_a = b'a' ∷ b':' ∷ b'8' ∷ b'0' ∷ []

abbrev peer_b : List ℕ
peer_b = b'b' ∷ b':' ∷ b'9' ∷ []

-- Two transfers; the first ends and is deleted by a late poll, the second ends after it.
abbrev ops : List Op
ops =
    started http_download (b'x' ∷ []) peer_a second
    ∷ started http_upload (b'y' ∷ []) peer_b (2 * second)
    ∷ stored 1 700
    ∷ ended 1 (3 * second)
    ∷ polled (19 * second)
    ∷ stored 2 900
    ∷ ended 2 (20 * second)
    ∷ []

-- One transfer is told of, with the time that it took.
told :
    (live_transfers (run no_transfers ops) [] (b'b' ∷ []) (30 * second)).1
    ≡ record {
      test = http_upload;
      ref = b'y' ∷ [];
      peer = peer_b;
      bytes = 900;
      elapsed_ms = 18000;
      done = true;
    }
      ∷ []
unfolding live_transfers run step begin put store_bytes finish snapshot sweep expired report same
    host_of last_index
told = refl

ops-Ops : Ops 0 no_transfers ops
unfolding Ops run step begin put store_bytes finish snapshot sweep expired
ops-Ops = ground arith

live_refines_log_example :
    (live_transfers (run no_transfers ops) [] (b'b' ∷ []) (30 * second)).1
    ≡ filter
        (λ t. asks (b'b' ∷ []) (host_of t.peer))
        (filter (λ t. asks [] t.ref) (visible (30 * second) (replay [] ops)))
live_refines_log_example =
    live_refines_log ops [] (b'b' ∷ []) (30 * second) ops-Ops (unfold last_poll in omega arith)

-- A transfer that has ended, and no poll.
abbrev quiet : List Op
quiet = started http_upload [] peer_a second ∷ ended 1 (2 * second) ∷ []

unpolled_kept_example : length (run no_transfers quiet).live ≡ starts quiet
unpolled_kept_example =
    unpolled_kept quiet
      (unfold Ops run step begin put store_bytes finish snapshot sweep expired in ground arith)
      (unfold Quiet in tt)
