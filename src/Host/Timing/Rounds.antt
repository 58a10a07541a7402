-- ===== src/Host/Timing/Rounds.antt =====
-- About the RA_PERF lines of the host program, attester/remote_attestation/host/main.c.
use optee_ra_fork.Base.{
  ℕ, zero, suc, ◌+◌, ◌-◌, ◌%◌, ◌^◌, ◌≤◌, ◌<◌, arith, ◌≡◌, refl, ap, ap₂, subst, Bool, true, false,
  Option, none, some, List, [], ◌∷◌, ◌++◌, map, All, Bytes, codes,
}
use optee_ra_fork.Perf.{KeyMode}
use optee_ra_fork.Host.Client.{Attempt, World, attest_once}
use optee_ra_fork.Host.Timing.{
  Clock, read_us, LogLine, verdict, opened_at, posted_at, next_reading, perf_log, open_log,
  post_log,
}

-- The clock does not run backwards, and its microseconds stay below 2^64.
abbrev pub IsMonotonic : Clock → Type 0
IsMonotonic clock = (i : ℕ) → read_us clock i ≤ read_us clock (suc i)

abbrev pub line : KeyMode → Bytes → ℕ → LogLine
line mode event us = record { event = event; duration_us = us; label = mode }

-- The events of a round before its total.
abbrev pub round_events : (no_server : Bool) → Option Bool → List Bytes
round_events true taken = codes "evidence_get" ∷ codes "print_evidence" ∷ []
round_events false (some true) =
    codes "veraison_new_session"
    ∷ codes "evidence_get"
    ∷ codes "print_evidence"
    ∷ codes "veraison_post_evidence"
    ∷ []
round_events false other =
    codes "veraison_new_session" ∷ codes "evidence_get" ∷ codes "print_evidence" ∷ []

abbrev pub sum_us : List LogLine → ℕ
sum_us [] = 0
sum_us (l ∷ ls) = l.duration_us + sum_us ls

-- The lines of a round: its events and then its total, which covers all their durations together.
abbrev pub IsRound : KeyMode → Bool → Option Bool → ℕ → List LogLine → Type 0
IsRound mode no_server taken total lines =
    (parts : List LogLine) × (lines ≡ parts ++ (line mode (codes "total") total ∷ []))
    × (map (λ (l : LogLine). l.event) parts ≡ round_events no_server taken)
    × All (λ (l : LogLine). l.label ≡ mode) parts
    × (sum_us parts ≤ total)

-- The lines of whole rounds, one for each attempt, which took no more than `us` in all.
abbrev pub IsLog : World → KeyMode → Bool → List Attempt → ℕ → List LogLine → Type 0
IsLog w mode no_server [] us lines = lines ≡ []
IsLog w mode no_server (a ∷ attempts) us lines =
    (total : ℕ) × (this rest : List LogLine) × (lines ≡ this ++ rest)
    × IsRound mode no_server (verdict w a.sent) total this
    × (total ≤ us)
    × IsLog w mode no_server attempts (us - total) rest

-- The number of the reading behind the loop.
abbrev pub end_reading : World → Bool → Option Bytes → ℕ → (iter at : ℕ) → ℕ
end_reading w no_server key zero iter at = at
end_reading w no_server key (suc n) iter at =
    end_reading w no_server key n (iter + 1)
      (next_reading w no_server at (attest_once w no_server key iter))

read_us-bounded : (clock : Clock) (i : ℕ) → read_us clock i < 2 ^ 64
unfolding read_us
read_us-bounded clock i = omega arith

between_lem : (a b : ℕ) → a ≤ b → b < 2 ^ 64 → (b + 2 ^ 64 - a) % 2 ^ 64 ≡ b - a
between_lem a b h k = omega arith

pub same : (a : ℕ) → a ≤ a
same a = omega arith

later : (a b c : ℕ) → a ≤ b → b ≤ c → a ≤ c
later a b c h k = omega arith

-- Durations that are apart from each other and within the round.
durations_two :
    (c0 c1 c2 c3 c4 c5 : ℕ)
    → c0 ≤ c1
    → c1 ≤ c2
    → c2 ≤ c3
    → c3 ≤ c4
    → c4 ≤ c5
    → (c2 - c1) + ((c4 - c3) + 0) ≤ c5 - c0
durations_two c0 c1 c2 c3 c4 c5 h1 h2 h3 h4 h5 = omega arith

durations_more :
    (a b c d e sum : ℕ) → a ≤ b → b ≤ c → c ≤ d → d ≤ e → sum ≤ e - d → (c - b) + sum ≤ e - a
durations_more a b c d e sum h1 h2 h3 h4 h5 = omega arith

pub total_lem : (c0 c5 last us : ℕ) → c5 ≤ last → last - c0 ≤ us → c5 - c0 ≤ us
total_lem c0 c5 last us h k = omega arith

pub left_lem :
    (c0 c5 c6 last us : ℕ)
    → c0 ≤ c5
    → c5 ≤ c6
    → c6 ≤ last
    → last - c0 ≤ us
    → last - c6 ≤ us - (c5 - c0)
left_lem c0 c5 c6 last us h k j l = omega arith

module _ (clock : Clock) (monotonic : IsMonotonic clock) where
  read_us-later : (d i j : ℕ) → j ≡ i + d → read_us clock i ≤ read_us clock j
  read_us-later zero i j h =
      subst (λ k. read_us clock i ≤ read_us clock k) (omega arith) (same (read_us clock i))
  read_us-later (suc d) i j h =
      subst (λ k. read_us clock i ≤ read_us clock k) (omega arith)
        (later _ _ _ (read_us-later d i (i + d) refl) (monotonic (i + d)))

  pub read_us-ordered : (i j : ℕ) → i ≤ j → read_us clock i ≤ read_us clock j
  read_us-ordered i j h = read_us-later (j - i) i j (omega arith)

  -- A line between two readings.
  pub perf_log_lem :
      (mode : KeyMode) (event : Bytes) (start end : ℕ)
      → read_us clock start ≤ read_us clock end
      → perf_log true clock mode event start end
        ≡ line mode event (read_us clock end - read_us clock start) ∷ []
  unfolding perf_log
  perf_log_lem mode event start end h =
      ap (λ us. line mode event us ∷ [])
        (between_lem (read_us clock start) (read_us clock end) h (read_us-bounded clock end))

  module _ (mode : KeyMode) where
    abbrev part : Bytes → (start end : ℕ) → LogLine
    part event start end = line mode event (read_us clock end - read_us clock start)

    logged :
        (event : Bytes) (start end : ℕ)
        → start ≤ end
        → perf_log true clock mode event start end ≡ part event start end ∷ []
    logged event start end h = perf_log_lem mode event start end (read_us-ordered start end h)

    abbrev pub Agrees : Bool → Option Bool → Type 0
    Agrees no_server none = no_server ≡ true
    Agrees no_server (some t) = no_server ≡ false

    -- The lines of a whole round, by whether there is a server and what it reported.
    pub IsRound-lines :
        (no_server : Bool) (taken : Option Bool) (at : ℕ)
        → Agrees no_server taken
        → IsRound mode no_server taken
            (read_us clock (posted_at taken (opened_at no_server (at + 1) + 4)) - read_us clock at)
            (open_log true clock no_server true mode (at + 1)
              ++ (perf_log true clock mode
                    (codes "evidence_get")
                    (opened_at no_server (at + 1))
                    (opened_at no_server (at + 1) + 1)
                  ++ (perf_log true clock mode
                        (codes "print_evidence")
                        (opened_at no_server (at + 1) + 2)
                        (opened_at no_server (at + 1) + 3)
                      ++ (post_log true clock taken mode (opened_at no_server (at + 1) + 4)
                          ++ perf_log true clock mode
                              (codes "total")
                              at
                              (posted_at taken (opened_at no_server (at + 1) + 4))))))
    unfolding open_log post_log opened_at posted_at
    IsRound-lines true none at h = (
      part (codes "evidence_get") (at + 1) (at + 1 + 1)
          ∷ part (codes "print_evidence") (at + 1 + 2) (at + 1 + 3)
          ∷ [],
      ap₂ ◌++◌ (logged _ (at + 1) (at + 1 + 1) (omega arith)) (
          ap₂ ◌++◌ (logged _ (at + 1 + 2) (at + 1 + 3) (omega arith))
            (logged _ at (at + 1 + 4) (omega arith))),
      refl,
      (refl, (refl, tt)),
      durations_two _ _ _ _ _ _ (read_us-ordered at (at + 1) (omega arith))
          (read_us-ordered (at + 1) (at + 1 + 1) (omega arith))
          (read_us-ordered (at + 1 + 1) (at + 1 + 2) (omega arith))
          (read_us-ordered (at + 1 + 2) (at + 1 + 3) (omega arith))
          (read_us-ordered (at + 1 + 3) (at + 1 + 4) (omega arith)),
    )
    IsRound-lines false none at h = cc h
    IsRound-lines true (some t) at h = cc h
    IsRound-lines false (some true) at h = (
      part (codes "veraison_new_session") (at + 1) (at + 1 + 1)
          ∷ part (codes "evidence_get") (at + 1 + 2) (at + 1 + 2 + 1)
          ∷ part (codes "print_evidence") (at + 1 + 2 + 2) (at + 1 + 2 + 3)
          ∷ part (codes "veraison_post_evidence") (at + 1 + 2 + 4) (at + 1 + 2 + 4 + 1)
          ∷ [],
      ap₂ ◌++◌ (logged _ (at + 1) (at + 1 + 1) (omega arith)) (
          ap₂ ◌++◌ (logged _ (at + 1 + 2) (at + 1 + 2 + 1) (omega arith)) (
            ap₂ ◌++◌ (logged _ (at + 1 + 2 + 2) (at + 1 + 2 + 3) (omega arith)) (
              ap₂ ◌++◌ (logged _ (at + 1 + 2 + 4) (at + 1 + 2 + 4 + 1) (omega arith))
                (logged _ at (at + 1 + 2 + 4 + 2) (omega arith))))),
      refl,
      (refl, (refl, (refl, (refl, tt)))),
      durations_more _ _ _ _ _ _ (read_us-ordered at (at + 1) (omega arith))
          (read_us-ordered (at + 1) (at + 1 + 1) (omega arith))
          (read_us-ordered (at + 1 + 1) (at + 1 + 2) (omega arith))
          (read_us-ordered (at + 1 + 2) (at + 1 + 2 + 4 + 2) (omega arith))
          (durations_more _ _ _ _ _ _ (same (read_us clock (at + 1 + 2)))
            (read_us-ordered (at + 1 + 2) (at + 1 + 2 + 1) (omega arith))
            (read_us-ordered (at + 1 + 2 + 1) (at + 1 + 2 + 2) (omega arith))
            (read_us-ordered (at + 1 + 2 + 2) (at + 1 + 2 + 4 + 2) (omega arith))
            (durations_two _ _ _ _ _ _ (same (read_us clock (at + 1 + 2 + 2)))
              (read_us-ordered (at + 1 + 2 + 2) (at + 1 + 2 + 3) (omega arith))
              (read_us-ordered (at + 1 + 2 + 3) (at + 1 + 2 + 4) (omega arith))
              (read_us-ordered (at + 1 + 2 + 4) (at + 1 + 2 + 4 + 1) (omega arith))
              (read_us-ordered (at + 1 + 2 + 4 + 1) (at + 1 + 2 + 4 + 2) (omega arith)))),
    )
    IsRound-lines false (some false) at h = (
      part (codes "veraison_new_session") (at + 1) (at + 1 + 1)
          ∷ part (codes "evidence_get") (at + 1 + 2) (at + 1 + 2 + 1)
          ∷ part (codes "print_evidence") (at + 1 + 2 + 2) (at + 1 + 2 + 3)
          ∷ [],
      ap₂ ◌++◌ (logged _ (at + 1) (at + 1 + 1) (omega arith)) (
          ap₂ ◌++◌ (logged _ (at + 1 + 2) (at + 1 + 2 + 1) (omega arith)) (
            ap₂ ◌++◌ (logged _ (at + 1 + 2 + 2) (at + 1 + 2 + 3) (omega arith))
              (logged _ at (at + 1 + 2 + 4 + 1) (omega arith)))),
      refl,
      (refl, (refl, (refl, tt))),
      durations_more _ _ _ _ _ _ (read_us-ordered at (at + 1) (omega arith))
          (read_us-ordered (at + 1) (at + 1 + 1) (omega arith))
          (read_us-ordered (at + 1 + 1) (at + 1 + 2) (omega arith))
          (read_us-ordered (at + 1 + 2) (at + 1 + 2 + 4 + 1) (omega arith))
          (durations_two _ _ _ _ _ _ (same (read_us clock (at + 1 + 2)))
            (read_us-ordered (at + 1 + 2) (at + 1 + 2 + 1) (omega arith))
            (read_us-ordered (at + 1 + 2 + 1) (at + 1 + 2 + 2) (omega arith))
            (read_us-ordered (at + 1 + 2 + 2) (at + 1 + 2 + 3) (omega arith))
            (read_us-ordered (at + 1 + 2 + 3) (at + 1 + 2 + 4 + 1) (omega arith))),
    )
