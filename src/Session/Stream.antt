-- ===== src/Session/Stream.antt =====
-- The stream that sendBurst of internal/udpst/session.go sends, and what a receiver makes of it.
use diagd.Base.{
  ℕ, zero, suc, ◌+◌, ◌<◌, ◌≤◌, ◌≡◌, refl, ap, subst, Bool, List, [], ◌∷◌, ◌++◌, Option, map, All,
  length, length-append, take, arith, u32,
}
use native.Mathlib.Nat.{add-zero}
use diagd.Rates.{RateTable}
use diagd.Protocol.{LoadPdu}
use diagd.Accounting.{new_rx_accounting}
use diagd.Accounting.Sequence.{record_all, AllBelow, IsAscending, last, ascending_loss_exact}
use diagd.Session.Bursts.{
  EchoState, Shot, fire, fire_all, headers, burst_header, burst_sizes, write_all, send_burst,
}
use diagd.Session.Pacing.{SendRound, first_deadlines, send_rounds, send_loop}

-- WriteBatch never takes more datagrams than it is given.
unfoldable pub Answers : ℕ → ℕ → List ℕ → Type 0
Answers sent count [] = Unit {0}
Answers sent count (n ∷ answers) = (sent + n ≤ count) × Answers (sent + n) count answers

write_all_le :
    (answers : List ℕ) (sent count : ℕ)
    → sent ≤ count
    → Answers sent count answers
    → write_all answers sent count ≤ count
unfolding write_all Answers
write_all_le [] sent count le h = le
write_all_le (n ∷ answers) sent count le h =
    ground (arith, write_all_le answers (sent + n) count h.0 h.1)

-- Headers that are numbered from the one behind `from` on.
pub Numbered : ℕ → List LoadPdu → Type 0
Numbered from [] = Unit {0}
Numbered from (h ∷ hs) = (h.seq_no ≡ from + 1) × Numbered (from + 1) hs

headers-Numbered :
    (action : ℕ) (es : Option EchoState) (now : ℕ) (wall : ℕ → ℕ) (seq sent : ℕ) (sizes : List ℕ)
    → seq + length sizes < 4294967296
    → sent ≤ length sizes
    → Numbered seq (take sent (headers action es now wall seq sizes))
      × (length (take sent (headers action es now wall seq sizes)) ≡ sent)
unfolding headers Numbered burst_header
headers-Numbered action es now wall seq zero sizes fits le = (tt, refl)
headers-Numbered action es now wall seq (suc sent) [] fits le = absurd (omega arith)
headers-Numbered action es now wall seq (suc sent) (size ∷ sizes) fits le =
    let small : u32 (seq + 1) ≡ seq + 1 = omega (arith, fits) in
    let rest =
      headers-Numbered action es now wall (seq + 1) sent sizes (omega (arith, fits))
        (omega (arith, le)) in
    rw small ((refl, rest.0), ap suc rest.1)

-- The sequence numbers of numbered headers, as a receiver's accounting takes them.
abbrev pub numbers : List LoadPdu → List ℕ
numbers hs = map (λ h. h.seq_no) hs

Numbered-AllBelow :
    (from : ℕ) (hs : List LoadPdu)
    → from + length hs < 4294967295
    → Numbered from hs
    → AllBelow (numbers hs)
unfolding Numbered
Numbered-AllBelow from [] fits n = tt
Numbered-AllBelow from (h ∷ hs) fits n =
    (omega (arith, n.0, fits), Numbered-AllBelow (from + 1) hs (omega (arith, fits)) n.1)

Numbered-IsAscending :
    (from : ℕ) (hs : List LoadPdu)
    → Numbered from hs
    → IsAscending from (numbers hs) × (last from (numbers hs) ≡ from + length hs)
unfolding Numbered
Numbered-IsAscending from [] n = (tt, omega arith)
Numbered-IsAscending from (h ∷ hs) n =
    let rest = Numbered-IsAscending (from + 1) hs n.1 in
    rw (n.0) ((omega arith, rest.0), omega (arith, rest.1))

length-map : (hs : List LoadPdu) → length (numbers hs) ≡ length hs
length-map [] = refl
length-map (h ∷ hs) = ap suc (length-map hs)

module _ (ipv6 : Bool) where
  abbrev pub count : Shot → ℕ
  count x = length (burst_sizes x.moment.draw ipv6 x.field x.burst x.addon)

  unfoldable pub total : List Shot → ℕ
  total [] = 0
  total (x ∷ xs) = count x + total xs

  unfoldable pub AllAnswers : List Shot → Type 0
  AllAnswers = All (λ x. Answers 0 (count x) x.moment.answers)

  fire-Numbered :
      (seq : ℕ) (x : Shot)
      → seq + count x < 4294967296
      → Answers 0 (count x) x.moment.answers
      → Numbered seq (fire ipv6 seq x).taken
        × (((fire ipv6 seq x).seq ≡ seq + length (fire ipv6 seq x).taken)
            × (length (fire ipv6 seq x).taken ≤ count x))
  unfolding send_burst
  fire-Numbered seq x fits h =
      let sizes = burst_sizes x.moment.draw ipv6 x.field x.burst x.addon in
      let le = write_all_le x.moment.answers 0 (length sizes) (omega arith) h in
      let (n, len) =
        headers-Numbered x.action x.moment.echo x.moment.now x.moment.wall seq
          (write_all x.moment.answers 0 (length sizes)) sizes fits le in
      (n, (omega (arith, len, le, fits), omega (arith, len, le)))

  Numbered-append :
      (from : ℕ) (hs ks : List LoadPdu)
      → Numbered from hs
      → Numbered (from + length hs) ks
      → Numbered from (hs ++ ks)
  unfolding Numbered
  Numbered-append from [] ks n m = subst (λ k. Numbered k ks) (add-zero from) m
  Numbered-append from (h ∷ hs) ks n m =
      (n.0, Numbered-append (from + 1) hs ks n.1 (subst (λ k. Numbered k ks) (omega arith) m))

  -- Whatever the kernel refuses, the datagrams that it takes are numbered one by one from the
  -- first sequence number on.
  fire_all-Numbered :
      (seq : ℕ) (xs : List Shot)
      → seq + total xs < 4294967296
      → AllAnswers xs
      → Numbered seq (fire_all ipv6 seq xs).taken × (length (fire_all ipv6 seq xs).taken ≤ total xs)
  unfolding fire_all total Numbered AllAnswers
  fire_all-Numbered seq [] fits h = (tt, omega arith)
  fire_all-Numbered seq (x ∷ xs) fits h =
      let b = fire ipv6 seq x in
      let (n, (e, c)) = fire-Numbered seq x (omega (arith, fits)) h.0 in
      let rest = fire_all-Numbered b.seq xs (omega (arith, e, c, fits)) h.1 in
      let later = (fire_all ipv6 b.seq xs).taken in
      (
        Numbered-append seq b.taken later n (subst (λ k. Numbered k later) e rest.0),
        omega (arith, length-append b.taken later, c, rest.1),
      )

  -- Where the network delivers in order all that the kernel took, over any bursts from the first
  -- on, the receiver counts no loss, no reordering and no duplicate, even where the kernel refused
  -- datagrams; there are fewer than 2^32 - 1 datagrams, and WriteBatch takes at most what it is
  -- given.
  pub delivered_stream_clean :
      (start : ℕ) (xs : List Shot)
      → total xs < 4294967295
      → AllAnswers xs
      → let b = record_all (new_rx_accounting start) (numbers (fire_all ipv6 0 xs).taken) in
        (b.t_loss ≡ 0) × ((b.t_ooo ≡ 0) × (b.t_dup ≡ 0))
  unfolding new_rx_accounting
  delivered_stream_clean start xs fits h =
      let hs = (fire_all ipv6 0 xs).taken in
      let (n, le) = fire_all-Numbered 0 xs (omega (arith, fits)) h in
      let (up, end) = Numbered-IsAscending 0 hs n in
      let (loss, ooo, dup) =
        ascending_loss_exact (new_rx_accounting start) (numbers hs)
          (record { loss_le_seq = omega arith; seq_below = omega arith })
          (Numbered-AllBelow 0 hs (omega (arith, le, fits)) n) up in
      (omega (arith, loss, end, length-map hs), (ooo, dup))

-- Where the network delivers in order all that the kernel took of a send loop, whatever its rounds,
-- rows and stops are, the receiver counts no loss, no reordering and no duplicate, even where the
-- kernel refused datagrams; there are fewer than 2^32 - 1 datagrams, and WriteBatch takes at most
-- what it is given.
pub send_loop_clean :
    (ipv6 : Bool) (table : RateTable) (now : ℕ) (draw : ℕ → ℕ) (rounds : List SendRound) (start : ℕ)
    → let shots = send_rounds ipv6 table (first_deadlines now draw) rounds in
      total ipv6 shots < 4294967295
      → AllAnswers ipv6 (send_rounds ipv6 table (first_deadlines now draw) rounds)
      → let sent = (send_loop ipv6 table now draw rounds).taken in
        let b = record_all (new_rx_accounting start) (numbers sent) in
        (b.t_loss ≡ 0) × ((b.t_ooo ≡ 0) × (b.t_dup ≡ 0))
unfolding send_loop
send_loop_clean ipv6 table now draw rounds start =
    delivered_stream_clean ipv6 start (send_rounds ipv6 table (first_deadlines now draw) rounds)
