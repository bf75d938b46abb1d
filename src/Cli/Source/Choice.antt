-- ===== src/Cli/Source/Choice.antt =====
-- Which address `selectV4` of cmd/ngntun/main.go chooses.
use ngntun.Base.{
  ℕ, Bool, true, false, ◌&&◌, List, [], ◌∷◌, Option, none, some, if◌then◌else◌, Result, ok, err,
}
use ngntun.Cli.Source.{IfAddr, SourceError, candidate_v4, reaches, off_subnet, no_candidate}
use ngntun.Netip.{Addr, is_valid}

-- the global IPv4 addresses of an interface, in order, with the lengths of their masks
abbrev pub candidates : List IfAddr → List (Addr × Option ℕ)
candidates [] = []
candidates (a ∷ addrs) = elim (candidate_v4 a) [
  | none ↦ candidates addrs
  | some c ↦ c ∷ candidates addrs
]

-- the first of them whose subnet holds `reach`
abbrev pub first_reaching : Addr → List (Addr × Option ℕ) → Option Addr
first_reaching reach [] = none
first_reaching reach ((addr, mask) ∷ cs) =
    if reaches reach addr mask then some addr else first_reaching reach cs

abbrev pub head_or : Addr → List (Addr × Option ℕ) → Addr
head_or fallback [] = fallback
head_or fallback ((addr, mask) ∷ cs) = addr

-- The address to use: one that reaches, or the first one if nothing has to be reached.
abbrev pub best_v4 : Addr → List (Addr × Option ℕ) → Result SourceError Addr
best_v4 reach cs = elim (first_reaching reach cs) [
  | some addr ↦ ok addr
  | none ↦ elim cs [
    | [] ↦ err no_candidate
    | c ∷ rest ↦ if is_valid reach then err off_subnet else ok c.0
  ]
]

-- the result of the loop, from the candidates
abbrev loop_end : Addr → Addr → List (Addr × Option ℕ) → Addr × Bool
loop_end reach fallback cs = elim (first_reaching reach cs) [
  | some addr ↦ (addr, true)
  | none ↦ (if is_valid fallback then fallback else head_or fallback cs, false)
]

-- how `selectV4` ends
abbrev chosen : Addr → Addr × Bool → Result SourceError Addr
chosen reach (addr, found) =
    if found
    then ok addr
    else if is_valid reach && is_valid addr
    then err off_subnet
    else if is_valid addr
    then ok addr
    else err no_candidate
