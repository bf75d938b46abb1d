-- ===== src/Sip/Transaction/Schedule.antt =====
-- When internal/sip/transaction.go sends a request again.
use ngntun.Base.{
  ℕ, zero, suc, ◌+◌, ◌*◌, ◌<◌, ◌≤◌, Bool, true, false, ◌||◌, List, [], ◌∷◌, ◌++◌, none, some,
  Option-cases, ◌≡◌, ◌≢◌, ◌⊎◌, inl, inr, refl, sym, ap, ◌∙◌, leb, All, arith, Bool-cases,
}
use ngntun.Sip.Transaction.{timer_t1, timer_t2, timer_b, timer_f, timeout, next_interval, schedule}

-- An interval that the loop can have: T1 and more, and not above T2 unless for INVITE.
abbrev IsInterval : Bool → ℕ → Type 0
IsInterval invite i = (timer_t1 ≤ i) × (invite ≡ false → i ≤ timer_t2)

next_interval-IsInterval :
    (invite : Bool) (i : ℕ) → IsInterval invite i → IsInterval invite (next_interval invite i)
next_interval-IsInterval true i h = (omega (arith, h.0), λ e. cc)
next_interval-IsInterval false i h = (ground (arith, h.0), λ e. ground arith)

before_timeout : (invite : Bool) (t : ℕ) → leb (timeout invite) t ≡ false → t < 32000
before_timeout true t h = ground arith
before_timeout false t h = ground arith

round_total :
    (f : ℕ) (invite : Bool) (answered closed i now : ℕ)
    → IsInterval invite i
    → now < 32000
    → 32000 ≤ now + f * 500
    → schedule f invite answered closed i now ≢ none
unfolding schedule
round_total zero invite answered closed i now h early enough = absurd (omega arith)
round_total (suc f) invite answered closed i now h early enough =
    let later =
      round_total f invite answered closed (next_interval invite i) (now + i)
        (next_interval-IsInterval invite i h) in
    elim (Bool-cases (leb (timeout invite) (now + i))) [
      | inl over ↦ λ e. ground arith
      | inr more ↦
          let before : now + i < 32000 = before_timeout invite (now + i) more in
          let rest = later before (omega (arith, h.0)) in λ e. ground (arith, rest)
    ]

-- The loop always ends: 64 rounds are enough for its 32 seconds, whatever comes in.
pub schedule_total :
    (invite : Bool) (answered closed : ℕ) → schedule 64 invite answered closed timer_t1 0 ≢ none
schedule_total invite answered closed =
    round_total 64 invite answered closed timer_t1 0 (omega arith, λ e. omega arith) (omega arith)
      (omega arith)

-- Sending again at the time `t` is ruled out, or allowed.
abbrev Over : Bool → ℕ → ℕ → ℕ → Type 0
Over invite answered closed t = (closed ≤ t) ⊎ ((32000 ≤ t) ⊎ ((invite ≡ true) × (answered ≤ t)))

abbrev pub InTime : Bool → ℕ → ℕ → ℕ → Type 0
InTime invite answered closed t =
    (timer_t1 ≤ t) × (t < closed) × (t < 32000) × (invite ≡ true → t < answered)

-- How a list of times comes about.
abbrev Inverted : ℕ → Bool → ℕ → ℕ → ℕ → ℕ → List ℕ → Type 0
Inverted f invite answered closed i now ts =
    ((ts ≡ []) × Over invite answered closed (now + i))
    ⊎ ((us : List ℕ) × (ts ≡ (now + i) ∷ us)
        × (schedule f invite answered closed (next_interval invite i) (now + i) ≡ some us)
        × (now + i < closed)
        × (now + i < 32000)
        × (invite ≡ true → now + i < answered))

schedule_inv :
    (f : ℕ) (invite : Bool) (answered closed i now : ℕ) {ts : List ℕ}
    → schedule (suc f) invite answered closed i now ≡ some ts
    → Inverted f invite answered closed i now ts
unfolding schedule
schedule_inv f true answered closed i now {ts} e =
    elim (Option-cases (schedule f true answered closed (next_interval true i) (now + i))) [
      | inl q ↦ inl (ground (arith, q), ground (arith, q))
      | inr (us, q) ↦ elim (Bool-cases (leb closed (now + i) || leb timer_b (now + i))) [
        | inl over ↦ inl (ground arith, ground arith)
        | inr more ↦ elim (Bool-cases (leb answered (now + i))) [
          | inl over ↦ inl (ground arith, ground arith)
          | inr wait ↦ inr (us, ground (arith, q), q, ground arith, ground arith, λ _. ground arith)
        ]
      ]
    ]
schedule_inv f false answered closed i now {ts} e =
    elim (Option-cases (schedule f false answered closed (next_interval false i) (now + i))) [
      | inl q ↦ inl (ground (arith, q), ground (arith, q))
      | inr (us, q) ↦ elim (Bool-cases (leb closed (now + i) || leb timer_f (now + i))) [
        | inl over ↦ inl (ground arith, ground arith)
        | inr more ↦ inr (us, ground (arith, q), q, ground arith, ground arith, λ never. cc)
      ]
    ]

schedule-InTime :
    (f : ℕ) (invite : Bool) (answered closed i now : ℕ) (ts : List ℕ)
    → IsInterval invite i
    → schedule f invite answered closed i now ≡ some ts
    → All (InTime invite answered closed) ts
schedule-InTime zero invite answered closed i now ts h e = unfold schedule in cc
schedule-InTime (suc f) invite answered closed i now ts h e =
    elim (schedule_inv f invite answered closed i now e) [
      | inl (none_left, over) ↦ rw none_left tt
      | inr (us, split, later, c, d, a) ↦ rw split (
        (omega (arith, h.0), c, d, a),
        schedule-InTime f invite answered closed (next_interval invite i) (now + i) us
            (next_interval-IsInterval invite i h) later,
      )
    ]

never-Over : (invite : Bool) (t : ℕ) → t < 32000 → Over invite 32000 32000 t → ⊥
never-Over invite t h (inl c) = omega arith
never-Over invite t h (inr (inl d)) = omega arith
never-Over invite t h (inr (inr a)) = omega (arith, a.1)

-- A response or a close only cuts short the list of a request that is never answered.
schedule_prefix :
    (f : ℕ) (invite : Bool) (answered closed i now : ℕ) {ts us : List ℕ}
    → schedule f invite answered closed i now ≡ some ts
    → schedule f invite 32000 32000 i now ≡ some us
    → (rest : List ℕ) × (us ≡ ts ++ rest)
schedule_prefix zero invite a c i now e e' = unfold schedule in cc
schedule_prefix (suc f) invite a c i now {ts} {us} e e' = elim (schedule_inv f invite a c i now e) [
  | inl (none_left, over) ↦ (us, ap (λ (l : List ℕ). l ++ us) (sym none_left))
  | inr (ts', split, later, hc, hd, ha) ↦ elim (schedule_inv f invite 32000 32000 i now e') [
    | inl (none_left, over) ↦ absurd (never-Over invite (now + i) hd over)
    | inr (us', split', later', _, _, _) ↦
        let (rest, q) =
          schedule_prefix f invite a c (next_interval invite i) (now + i) later later' in
        (rest, split' ∙ ap (◌∷◌ (now + i)) q ∙ ap (λ (l : List ℕ). l ++ rest) (sym split))
  ]
]

abbrev pub unanswered : Bool → List ℕ
unanswered true = 500 ∷ 1500 ∷ 3500 ∷ 7500 ∷ 15500 ∷ 31500 ∷ []
unanswered false = 500 ∷ 1500 ∷ 3500 ∷ 7500 ∷ 11500 ∷ 15500 ∷ 19500 ∷ 23500 ∷ 27500 ∷ 31500 ∷ []

schedule-unanswered :
    (invite : Bool) → schedule 64 invite 32000 32000 timer_t1 0 ≡ some (unanswered invite)
unfolding schedule
schedule-unanswered true = refl
schedule-unanswered false = refl

-- Whenever the first response and the close come, the request is sent again at the first of the
-- times of the doubling schedule (from 0.5 s on, for INVITE without a bound, 6 times; for other
-- requests up to every 4 s, 10 times), and only before the close, before the 32 seconds are over,
-- and for INVITE before the first response.
pub schedule_bounds :
    (invite : Bool) (answered closed : ℕ) {ts : List ℕ}
    → schedule 64 invite answered closed timer_t1 0 ≡ some ts
    → ((rest : List ℕ) × (unanswered invite ≡ ts ++ rest)) × All (InTime invite answered closed) ts
schedule_bounds invite answered closed {ts} e = (
  schedule_prefix 64 invite answered closed timer_t1 0 e (schedule-unanswered invite),
  schedule-InTime 64 invite answered closed timer_t1 0 ts (omega arith, λ q. omega arith) e,
)
