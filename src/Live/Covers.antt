-- ===== src/Live/Covers.antt =====
-- What polls leave of the registry of internal/tr143/live.go, entry by entry.
use diagd.Base.{
  ℕ, suc, ◌≤◌, ◌≡◌, refl, ap, Bool-cases, ==_iff, inl, inr, true, not, List, [], ◌∷◌, ◌==◌, filter,
  length, All, arith,
}
use diagd.Live.{LiveEntry, at_id, expired, report, sweep}
use diagd.Live.Log.{Log, end_once, IsRunning, visible, shows, told_of}

-- What has been deleted from the registry had expired by `t`.
pub data Covers (t : ℕ) : List (ℕ × LiveEntry) → Log → Type 0 where
  nothing : Covers t [] []
  kept :
      {x : ℕ × LiveEntry} {live : List (ℕ × LiveEntry)} {l : Log}
      → Covers t live l
      → Covers t (x ∷ live) (x ∷ l)
  dropped :
      {x : ℕ × LiveEntry} {live : List (ℕ × LiveEntry)} {l : Log}
      → expired t x.1 ≡ true
      → Covers t live l
      → Covers t live (x ∷ l)

expired_later : (t now : ℕ) (e : LiveEntry) → t ≤ now → expired t e ≡ true → expired now e ≡ true
unfolding expired
expired_later t now e le h = ground (arith, le, h)

expired-shows : (now : ℕ) (e : LiveEntry) → shows now e ≡ not (expired now e)
unfolding expired shows
expired-shows now e = ground arith

report-told_of : (now : ℕ) (e : LiveEntry) → report now e ≡ told_of now e
unfolding report told_of
report-told_of now e = ground arith

pub sweep-visible :
    (t now : ℕ) {live : List (ℕ × LiveEntry)} {l : Log}
    → t ≤ now
    → Covers t live l
    → (sweep now live).1 ≡ visible now l
unfolding sweep visible
sweep-visible t now le nothing = refl
sweep-visible t now le (kept {x} c) =
    let rest = sweep-visible t now le c in
    elim (Bool-cases (expired now x.1)) [
      | inl h ↦ rw (expired-shows now x.1) (rw h rest)
      | inr h ↦
          rw (expired-shows now x.1)
            (rw h (rw (report-told_of now x.1) (ap (◌∷◌ (told_of now x.1)) rest)))
    ]
sweep-visible t now le (dropped {x} h c) =
    rw (expired-shows now x.1) (rw (expired_later t now x.1 le h) (sweep-visible t now le c))

pub sweep-Covers :
    (t now : ℕ) {live : List (ℕ × LiveEntry)} {l : Log}
    → t ≤ now
    → Covers t live l
    → Covers now (sweep now live).0 l
unfolding sweep
sweep-Covers t now le nothing = nothing
sweep-Covers t now le (kept {x} c) =
    let rest = sweep-Covers t now le c in
    elim (Bool-cases (expired now x.1)) [ inl h ↦ rw h (dropped h rest) | inr h ↦ rw h (kept rest) ]
sweep-Covers t now le (dropped {x} h c) =
    dropped (expired_later t now x.1 le h) (sweep-Covers t now le c)

-- A change that keeps what has expired.
pub store-Covers :
    (t id n : ℕ) {live : List (ℕ × LiveEntry)} {l : Log}
    → Covers t live l
    → Covers t
        (at_id id (λ e. record e { bytes = n }) live)
        (at_id id (λ e. record e { bytes = n }) l)
store-Covers t id n nothing = nothing
store-Covers t id n (kept c) = kept (store-Covers t id n c)
store-Covers t id n (dropped {x} h c) =
    dropped (elim (Bool-cases (x.0 == id)) [ inl e ↦ rw e (unfold expired in h) | inr e ↦ rw e h ])
      (store-Covers t id n c)

end_expired : (t now : ℕ) (e : LiveEntry) → expired t e ≡ true → expired t (end_once now e) ≡ true
unfolding expired
end_expired t now e h = ground (arith, h)

pub end-Covers :
    (t id now : ℕ) {live : List (ℕ × LiveEntry)} {l : Log}
    → IsRunning id live
    → Covers t live l
    → Covers t
        (at_id id (λ e. record e { done = true; ended = now }) live)
        (at_id id (end_once now) l)
end-Covers t id now r nothing = nothing
end-Covers t id now r (kept {x} {live} {l} c) =
    let rest = end-Covers t id now r.1 c in
    let old = at_id id (end_once now) l in
    let new = at_id id (λ e. record e { done = true; ended = now }) live in
    elim (Bool-cases (x.0 == id)) [
      | inl e ↦ rw e (rw (r.0 ((==_iff x.0 id).0 e)) (kept rest))
      | inr e ↦ rw e (kept rest)
    ]
end-Covers t id now r (dropped {x} h c) =
    dropped
      (elim (Bool-cases (x.0 == id)) [ inl e ↦ rw e (end_expired t now x.1 h) | inr e ↦ rw e h ])
      (end-Covers t id now r c)

-- The keys of a registry are at most its sequence number.
abbrev pub Below : ℕ → List (ℕ × LiveEntry) → Type 0
Below seq live = All (λ x. x.0 ≤ seq) live

pub filter-Below :
    (seq : ℕ) (live : List (ℕ × LiveEntry))
    → Below seq live
    → filter (λ x. not (x.0 == suc seq)) live ≡ live
filter-Below seq [] h = refl
filter-Below seq (x ∷ live) h = ground (arith, h.0, filter-Below seq live h.1)

pub at_id-Below :
    (seq id : ℕ) (f : LiveEntry → LiveEntry) (live : List (ℕ × LiveEntry))
    → Below seq live
    → Below seq (at_id id f live)
at_id-Below seq id f [] h = tt
at_id-Below seq id f (x ∷ live) h = (
  elim (Bool-cases (x.0 == id)) [ inl e ↦ rw e (h.0) | inr e ↦ rw e (h.0) ],
  at_id-Below seq id f live h.1,
)

pub raise-Below : (seq : ℕ) (live : List (ℕ × LiveEntry)) → Below seq live → Below (suc seq) live
raise-Below seq [] h = tt
raise-Below seq (x ∷ live) h = (omega (arith, h.0), raise-Below seq live h.1)

pub sweep-Below :
    (seq now : ℕ) (live : List (ℕ × LiveEntry)) → Below seq live → Below seq (sweep now live).0
unfolding sweep
sweep-Below seq now [] h = tt
sweep-Below seq now (x ∷ live) h =
    let rest = sweep-Below seq now live h.1 in
    elim (Bool-cases (expired now x.1)) [ inl e ↦ rw e rest | inr e ↦ rw e ((h.0, rest)) ]

pub length-at_id : (id : ℕ) (f : LiveEntry → LiveEntry) (l : Log) → length (at_id id f l) ≡ length l
length-at_id id f [] = refl
length-at_id id f (x ∷ l) = ap suc (length-at_id id f l)
