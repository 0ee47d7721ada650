-- ===== src/Accounting/Ring.antt =====
-- The history of internal/udpst/accounting.go: the ring holds the last 32 numbers pushed.
use diagd.Base.{
  ℕ, zero, suc, ◌+◌, ◌%◌, ◌<◌, ◌≤◌, ◌≡◌, refl, sym, ap, ◌∙◌, ◌||◌, List, [], ◌∷◌, ◌++◌, reverse,
  length, length-append, set, take, drop, take_block, drop_after, set_after, arith, length-set,
}
use mathlib.Core.List.{append-nil, append_assoc, reverse-append, reverse-cons}
use diagd.Accounting.{
  RxAccounting, push_history, in_history, mem_history, load_history_size, new_rx_accounting,
}

pub record IsRing (a : RxAccounting) : Type 0 where
  pub full : length a.history ≡ load_history_size
  pub idx : a.hist_idx < load_history_size

pub view : List ℕ → ℕ → List ℕ
view h i = reverse (take i h) ++ reverse (drop i h)

-- The numbers in the ring, the newest first.
abbrev pub recent : RxAccounting → List ℕ
recent a = view a.history a.hist_idx

split_at :
    (h : List ℕ) (i : ℕ)
    → i < length h
    → (pre : List ℕ) × (x : ℕ) × (post : List ℕ) × (h ≡ pre ++ x ∷ post) × (length pre ≡ i)
split_at [] i lt = absurd (omega arith)
split_at (y ∷ h) zero lt = ([], y, h, refl, refl)
split_at (y ∷ h) (suc i) lt =
    let (pre, x, post, e, n) = split_at h i (omega arith) in
    (y ∷ pre, x, post, ap (◌∷◌ y) e, ap suc n)

view-append :
    (pre zs : List ℕ) (n : ℕ) → length pre ≡ n → view (pre ++ zs) n ≡ reverse pre ++ reverse zs
unfolding view
view-append pre zs n e = rw (take_block pre zs n e, drop_after pre zs n e)

length-reverse : (xs : List ℕ) → length (reverse xs) ≡ length xs
length-reverse [] = refl
length-reverse (x ∷ xs) =
    omega
      (arith, ap length (reverse-cons x xs), length-append (reverse xs) (x ∷ []), length-reverse xs)

-- The ring before a push holds `pre`, the slot to be written, and `post`.
view_before :
    (pre post : List ℕ) (x n : ℕ)
    → length pre ≡ n
    → n + length post ≡ 31
    → take 31 (view (pre ++ x ∷ post) n) ≡ reverse pre ++ reverse post
view_before pre post x n e size =
    rw (view-append pre (x ∷ post) n e, reverse-cons x post, ← append_assoc)
      (take_block (reverse pre ++ reverse post) (x ∷ []) 31 (
        omega (
          arith,
          length-append (reverse pre) (reverse post),
          length-reverse pre,
          length-reverse post,
        )))

view_after :
    (pre post : List ℕ) (s n : ℕ)
    → length pre ≡ n
    → n + length post ≡ 31
    → view (pre ++ s ∷ post) ((n + 1) % 32) ≡ s ∷ (reverse pre ++ reverse post)
unfolding view
view_after pre [] s n e size =
    let wrap : (n + 1) % 32 ≡ 0 = omega arith in rw (wrap, reverse-append pre (s ∷ []), append-nil)
view_after pre (y ∷ post) s n e size =
    let next : (n + 1) % 32 ≡ suc n = omega arith in
    rw next (
      ap (λ h. view h (suc n)) (sym (append_assoc pre (s ∷ []) (y ∷ post)))
      ∙ view-append (pre ++ s ∷ []) (y ∷ post) (suc n) (omega (arith, length-append pre (s ∷ [])))
      ∙ ap (λ r. r ++ reverse (y ∷ post)) (reverse-append pre (s ∷ [])))

view-set :
    (h : List ℕ) (i s : ℕ)
    → length h ≡ 32
    → i < 32
    → view (set h i s) ((i + 1) % 32) ≡ s ∷ take 31 (view h i)
view-set h i s full idx =
    let (pre, x, post, e, n) = split_at h i (omega (arith, full)) in
    let size : i + length post ≡ 31 =
      omega (arith, full, ap length e, length-append pre (x ∷ post), n) in
    rw (e, set_after pre (x ∷ post) i 0 i s n (omega arith))
      (view_after pre post s i n size ∙ ap (◌∷◌ s) (sym (view_before pre post x i n size)))

-- A push puts the number in front of the others and forgets the oldest.
pub push-recent :
    (a : RxAccounting) (s : ℕ) → IsRing a → recent (push_history a s) ≡ s ∷ take 31 (recent a)
unfolding push_history
push-recent a s r = view-set a.history a.hist_idx s r.full r.idx

pub push-IsRing : (a : RxAccounting) (s : ℕ) → IsRing a → IsRing (push_history a s)
unfolding push_history
push-IsRing a s r = ground (arith, length-set a.history a.hist_idx s)

mem_history-append :
    (s : ℕ) (xs ys : List ℕ) → mem_history s (xs ++ ys) ≡ (mem_history s xs || mem_history s ys)
unfolding mem_history
mem_history-append s [] ys = refl
mem_history-append s (x ∷ xs) ys = ground (arith, mem_history-append s xs ys)

mem_history-reverse : (s : ℕ) (xs : List ℕ) → mem_history s (reverse xs) ≡ mem_history s xs
unfolding mem_history
mem_history-reverse s [] = refl
mem_history-reverse s (x ∷ xs) = ground (
  arith,
  ap (mem_history s) (reverse-cons x xs),
  mem_history-append s (reverse xs) (x ∷ []),
  mem_history-reverse s xs,
)

take_append_drop : (n : ℕ) (xs : List ℕ) → take n xs ++ drop n xs ≡ xs
take_append_drop zero xs = refl
take_append_drop (suc n) [] = refl
take_append_drop (suc n) (x ∷ xs) = ap (◌∷◌ x) (take_append_drop n xs)

-- The search of the ring is a search of the newest 32 numbers, in whatever order they stand.
pub in_history-recent : (a : RxAccounting) (s : ℕ) → in_history a s ≡ mem_history s (recent a)
unfolding in_history view
in_history-recent a s = ground (
  arith,
  ap (mem_history s) (take_append_drop a.hist_idx a.history),
  mem_history-append s (take a.hist_idx a.history) (drop a.hist_idx a.history),
  mem_history-append s (reverse (take a.hist_idx a.history)) (reverse (drop a.hist_idx a.history)),
  mem_history-reverse s (take a.hist_idx a.history),
  mem_history-reverse s (drop a.hist_idx a.history),
)

length-recent : (a : RxAccounting) → IsRing a → length (recent a) ≡ 32
unfolding view
length-recent a r = omega (
  arith,
  r.full,
  length-append (reverse (take a.hist_idx a.history)) (reverse (drop a.hist_idx a.history)),
  length-reverse (take a.hist_idx a.history),
  length-reverse (drop a.hist_idx a.history),
  length-append (take a.hist_idx a.history) (drop a.hist_idx a.history),
  ap length (take_append_drop a.hist_idx a.history),
)

take-append_take :
    (n m : ℕ) (ys zs : List ℕ) → n ≤ length ys + m → take n (ys ++ take m zs) ≡ take n (ys ++ zs)
take-append_take zero m ys zs h = refl
take-append_take (suc n) zero [] zs h = absurd (omega arith)
take-append_take (suc n) (suc m) [] [] h = refl
take-append_take (suc n) (suc m) [] (z ∷ zs) h =
    ap (◌∷◌ z) (take-append_take n m [] zs (omega arith))
take-append_take (suc n) m (y ∷ ys) zs h = ap (◌∷◌ y) (take-append_take n m ys zs (omega arith))

take_all : (n : ℕ) (xs : List ℕ) → length xs ≤ n → take n xs ≡ xs
take_all zero [] h = refl
take_all zero (x ∷ xs) h = absurd (omega arith)
take_all (suc n) [] h = refl
take_all (suc n) (x ∷ xs) h = ap (◌∷◌ x) (take_all n xs (omega arith))

-- A sequence of pushes, the oldest first.
pub push_all : RxAccounting → List ℕ → RxAccounting
push_all a [] = a
push_all a (s ∷ ss) = push_all (push_history a s) ss

push_all-recent :
    (a : RxAccounting) (ss : List ℕ)
    → IsRing a
    → recent (push_all a ss) ≡ take 32 (reverse ss ++ recent a)
unfolding push_all
push_all-recent a [] r = sym (take_all 32 (recent a) (omega (arith, length-recent a r)))
push_all-recent a (s ∷ ss) r =
    push_all-recent (push_history a s) ss (push-IsRing a s r)
    ∙ ap (λ q. take 32 (reverse ss ++ q)) (push-recent a s r)
    ∙ ap (take 32) (sym (append_assoc (reverse ss) (s ∷ []) (take 31 (recent a))))
    ∙ take-append_take 32 31 (reverse ss ++ s ∷ []) (recent a)
        (omega (arith, length-append (reverse ss) (s ∷ [])))
    ∙ ap (λ q. take 32 (q ++ recent a)) (sym (reverse-cons s ss))

-- After any pushes a whole ring finds exactly the numbers among the newest 32, in front of what it
-- held before.
pub history_window :
    (a : RxAccounting) (ss : List ℕ) (s : ℕ)
    → IsRing a
    → in_history (push_all a ss) s ≡ mem_history s (take 32 (reverse ss ++ recent a))
history_window a ss s r =
    in_history-recent (push_all a ss) s ∙ ap (mem_history s) (push_all-recent a ss r)

pub new-IsRing : (now : ℕ) → IsRing (new_rx_accounting now)
unfolding new_rx_accounting
new-IsRing now = omega arith
