-- ===== src/Command/AllowList.antt =====
-- Whom the allow list of cmd/diagd/serve.go allows.
use diagd.Base.{
  ℕ, zero, suc, ◌-◌, ◌*◌, ◌/◌, ◌^◌, ◌<◌, ◌≡◌, ◌↔◌, refl, ap, sym, ◌∙◌, subst, Bool, Bool-cases, inl,
  inr, true, false, List, [], ◌∷◌, Option, none, some, arith,
}
use native.Mathlib.Nat.{mul-div_left}
use diagd.Http.Requests.{is_empty}
use diagd.Command.{
  Addr, Prefix, masked, contains, contains_any, split, trim_space, AllowFunc, bad_cidr, everyone,
  only, parse_prefixes, parse_allow_list,
}

-- The address lies in the network: it has no zone, the network's width, and the bits of the prefix in
-- common.
pub record InNetwork (p : Prefix) (a : Addr) : Type 0 where
  pub no_zone : a.zone ≡ []
  pub same_width : a.width ≡ p.addr.width
  pub same_prefix :
      a.value / 2 ^ (p.addr.width - p.bits) ≡ p.addr.value / 2 ^ (p.addr.width - p.bits)

-- Some element of a list has a property.
pub data Any (P : List ℕ → Type 0) : List (List ℕ) → Type 0 where
  here : {x : List ℕ} {xs : List (List ℕ)} → P x → Any P (x ∷ xs)
  there : {x : List ℕ} {xs : List (List ℕ)} → Any P xs → Any P (x ∷ xs)

power_pos : (k : ℕ) → 0 < 2 ^ k
power_pos zero = omega arith
power_pos (suc k) = ground (arith, power_pos k)

masked_same : (p : Prefix) (a : Addr) → contains (masked p) a ≡ contains p a
unfolding masked contains
masked_same p a =
    let host = 2 ^ (p.addr.width - p.bits) in
    let e : p.addr.value / host * host / host ≡ p.addr.value / host =
      mul-div_left (p.addr.value / host) (power_pos (p.addr.width - p.bits)) in
    rw e refl

is_empty_lem : (s : List ℕ) → is_empty s ≡ true → s ≡ []
is_empty_lem [] h = refl
is_empty_lem (c ∷ cs) h = absurd (ground (arith, h))

contains-InNetwork : (p : Prefix) (a : Addr) → (contains p a ≡ true) ↔ InNetwork p a
unfolding contains
contains-InNetwork p a = (
  λ h. record {
    no_zone = is_empty_lem a.zone (ground (arith, h));
    same_width = ground (arith, h);
    same_prefix = ground (arith, h);
  },
  λ n.
      let e : is_empty a.zone ≡ true = ap is_empty n.no_zone in
      ground (arith, e, n.same_width, n.same_prefix),
)

-- The part of a list names a network that the address lies in.
abbrev pub Names : (List ℕ → Option Prefix) → Addr → List ℕ → Type 0
Names parse a part = (p : Prefix) × ((parse (trim_space part) ≡ some p) × InNetwork p a)

-- What the loop makes of one part, and of the others.
abbrev joined : Option Prefix → Option (List Prefix) → Option (List Prefix)
joined o r = elim o [
  | none ↦ none
  | some p ↦ elim r [ none ↦ none | some ps ↦ some (masked p ∷ ps) ]
]

some_list : (xs ys : List Prefix) → some xs ≡ some ys → xs ≡ ys
some_list xs ys e = ap (λ o. elim o [ none ↦ xs | some zs ↦ zs ]) e

some_prefix : (p q : Prefix) → some p ≡ some q → p ≡ q
some_prefix p q e = ap (λ o. elim o [ none ↦ p | some r ↦ r ]) e

-- A decision of the head, and one of the rest, decide the list.
cons_allowed :
    (parse : List ℕ → Option Prefix) (part : List ℕ) (parts : List (List ℕ)) (p : Prefix)
    (ps : List Prefix) (a : Addr)
    → parse (trim_space part) ≡ some p
    → (contains_any ps a ≡ true) ↔ Any (Names parse a) parts
    → (contains_any (masked p ∷ ps) a ≡ true) ↔ Any (Names parse a) (part ∷ parts)
unfolding contains_any
cons_allowed parse part parts p ps a e rest = (forth, back)
  where
    forth : contains_any (masked p ∷ ps) a ≡ true → Any (Names parse a) (part ∷ parts)
    forth h = elim (Bool-cases (contains p a)) [
      | inl yes_head ↦ here (p, (e, (contains-InNetwork p a).0 yes_head))
      | inr no_head ↦ there (rest.0 (rw no_head at (rw (masked_same p a) at h)))
    ]

    in_head : contains p a ≡ true → contains_any (masked p ∷ ps) a ≡ true
    in_head h = rw (masked_same p a) (rw h refl)

    in_rest : contains_any ps a ≡ true → contains_any (masked p ∷ ps) a ≡ true
    in_rest h = ground (arith, h)

    back : Any (Names parse a) (part ∷ parts) → contains_any (masked p ∷ ps) a ≡ true
    back (here (q, (f, n))) = in_head (
        subst (λ r. contains r a ≡ true) (some_prefix q p (sym f ∙ e))
          ((contains-InNetwork q a).1 n))
    back (there t) = in_rest (rest.1 t)

nobody_named : (parse : List ℕ → Option Prefix) (a : Addr) → Any (Names parse a) [] → false ≡ true
nobody_named parse a n = elim n [ ]

none_allowed :
    (parse : List ℕ → Option Prefix) (a : Addr)
    → (contains_any [] a ≡ true) ↔ Any (Names parse a) []
unfolding contains_any
none_allowed parse a = (λ h. absurd (ground (arith, h)), nobody_named parse a)

prefixes_allowed :
    (parse : List ℕ → Option Prefix) (a : Addr) (parts : List (List ℕ)) (ps : List Prefix)
    → parse_prefixes parse parts ≡ some ps
    → (contains_any ps a ≡ true) ↔ Any (Names parse a) parts
unfolding parse_prefixes
prefixes_allowed parse a [] ps e =
    subst (λ qs. (contains_any qs a ≡ true) ↔ Any (Names parse a) []) (some_list [] ps e)
      (none_allowed parse a)
prefixes_allowed parse a (part ∷ parts) ps e =
    go (prefixes_allowed parse a parts) (parse (trim_space part)) refl (parse_prefixes parse parts)
      refl e
  where
    go :
        ((qs : List Prefix)
          → parse_prefixes parse parts ≡ some qs
          → (contains_any qs a ≡ true) ↔ Any (Names parse a) parts)
        → (o : Option Prefix) → parse (trim_space part) ≡ o
        → (r : Option (List Prefix)) → parse_prefixes parse parts ≡ r
        → joined o r ≡ some ps
        → (contains_any ps a ≡ true) ↔ Any (Names parse a) (part ∷ parts)
    go rest none f r g h = absurd (ground (arith, h))
    go rest (some p) f none g h = absurd (ground (arith, h))
    go rest (some p) f (some qs) g h =
        subst (λ l. (contains_any l a ≡ true) ↔ Any (Names parse a) (part ∷ parts))
          (some_list (masked p ∷ qs) ps h) (cons_allowed parse part parts p qs a f (rest qs g))

-- Where an allow list is not empty and parses, it allows exactly the addresses without a zone that lie in
-- the network of one of its parts between commas, spaces around a part and the host bits of a
-- network aside. An address with a zone lies in no network.
pub allow_list_exact :
    (parse : List ℕ → Option Prefix) (text : List ℕ) (f : Addr → Bool) (a : Addr)
    → parse_allow_list parse text ≡ only f
    → (f a ≡ true) ↔ Any (Names parse a) (split text)
unfolding parse_allow_list
allow_list_exact parse [] f a e = absurd (ground (arith, e))
allow_list_exact parse (c ∷ cs) f a e = go (parse_prefixes parse (split (c ∷ cs))) refl e
  where
    go :
        (o : Option (List Prefix))
        → parse_prefixes parse (split (c ∷ cs)) ≡ o
        → elim o as (λ o. AllowFunc) [ none ↦ bad_cidr | some ps ↦ only (contains_any ps) ] ≡ only f
        → (f a ≡ true) ↔ Any (Names parse a) (split (c ∷ cs))
    go none g h = absurd (ground (arith, h))
    go (some ps) g h =
        subst (λ k. (k a ≡ true) ↔ Any (Names parse a) (split (c ∷ cs)))
          (ap (λ l. elim l [ bad_cidr ↦ f | everyone ↦ f | only k ↦ k ]) h)
          (prefixes_allowed parse a (split (c ∷ cs)) ps g)
