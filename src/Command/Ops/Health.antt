-- ===== src/Command/Ops/Health.antt =====
-- `/healthz` and `/metrics` of cmd/diagd/ops.go side by side.
use diagd.Base.{
  ℕ, ◌≡◌, refl, Bool, true, false, not, ◌&&◌, List, [], ◌∷◌, Option, none, some, if◌then◌else◌,
}
use Prim.Native.String.{String, ◌++◌ as ◌<>◌, slice, len}
use text.Mathlib.Text.{find?}
use diagd.Http.{Handler}
use diagd.Echo as Echo
use diagd.Server as Server
use diagd.Command.Ops.{
  OpsState, Sample, metrics, http_samples, echo_samples, tr471_samples, Member, quoted, number,
  healthz, base_members, http_members, tr471_members, uptime, put_key, precedes,
}

abbrev has_text : String → String → Bool
has_text s t = elim (find? s t) [ none ↦ false | some i ↦ true ]

-- A sample that tells how things stand now: no counter, and not the information of the build.
unfoldable pub is_level : Sample → Bool
is_level x = not (has_text x.name "_total") && not (has_text x.name "build_info")

-- The name without its prefix `diagd_`, with the direction behind it where there is one.
unfoldable pub member_name : Sample → String
member_name x =
    let base = slice x.name 6 (len x.name) in
    elim x.labels [ [] ↦ base | l ∷ ls ↦ base <> ("_" <> l.1) ]

unfoldable pub levels : List Sample → List (String × ℕ)
unfolding is_level member_name
levels [] = []
levels (x ∷ xs) =
    let rest = levels xs in if is_level x then (member_name x, x.value) ∷ rest else rest

insert_by_name : String × ℕ → List (String × ℕ) → List (String × ℕ)
insert_by_name x [] = x ∷ []
insert_by_name x (y ∷ ys) =
    let rest = insert_by_name x ys in if precedes y.0 x.0 then y ∷ rest else x ∷ (y ∷ ys)

-- The pairs, all of them, in the order of their names.
unfoldable pub by_name : List (String × ℕ) → List (String × ℕ)
unfolding insert_by_name
by_name [] = []
by_name (x ∷ xs) = insert_by_name x (by_name xs)

unfoldable pub numbers : List (String × Member) → List (String × ℕ)
numbers [] = []
numbers ((key, quoted t) ∷ ms) = numbers ms
numbers ((key, number n) ∷ ms) = (key, n) ∷ numbers ms

by_service :
    (instance_name version : String) (started : ℕ) (http : Option Handler)
    (echo : Option Echo.EchoServer) (tr471 : Option Server.Server) (now : ℕ)
    → let o : OpsState = record {
      instance_name = instance_name;
      version = version;
      started = started;
      http = http;
      echo = echo;
      tr471 = tr471;
    } in
      numbers (healthz o now) ≡ by_name (levels (metrics o now))
unfolding numbers levels is_level member_name metrics http_samples echo_samples tr471_samples
    healthz base_members http_members tr471_members uptime by_name put_key
by_service i v t none none none now = refl
by_service i v t none none (some s) now = refl
by_service i v t none (some e) none now = refl
by_service i v t none (some e) (some s) now = refl
by_service i v t (some h) none none now = refl
by_service i v t (some h) none (some s) now = refl
by_service i v t (some h) (some e) none now = refl
by_service i v t (some h) (some e) (some s) now = refl

-- The numbers that `/healthz` gives are those of `/metrics` that are no counters and do not describe the
-- build, under their names there without the prefix and with the direction behind it, in the order of
-- these names: whatever services run, no member is missing, has another value or has no sample.
pub health_agrees :
    (o : OpsState) (now : ℕ) → numbers (healthz o now) ≡ by_name (levels (metrics o now))
health_agrees o now = by_service o.instance_name o.version o.started o.http o.echo o.tr471 now
