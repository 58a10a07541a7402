-- ===== src/Host/Timing/Loop.antt =====
-- About the RA_PERF lines of the loop over attestations, attester/remote_attestation/host/main.c.
use optee_ra_fork.Base.{
  ℕ, zero, suc, ◌+◌, ◌-◌, ◌≤◌, arith, ◌≡◌, refl, sym, ap, subst, Bool, true, false, Option, none,
  some, ◌++◌, Bytes,
}
use optee_ra_fork.Tee.Rules.{Maybe}
use optee_ra_fork.Perf.{KeyMode}
use optee_ra_fork.Verifier.{Session, Opening, failed, opened, open_session, dispose}
use optee_ra_fork.Host.Client.{
  Attempt, exit, World, Round, on, stopped, attest_once, after_round, attest_loop,
}
use optee_ra_fork.Host.Attest.{IsGood, nonce_of, attest_once-IsGood}
use optee_ra_fork.Host.Timing.{
  Clock, read_us, is_opened, verdict, opened_at, posted_at, next_reading, open_log, invoked_log,
  round_log, log_on, loop_log,
}
use optee_ra_fork.Host.Timing.Rounds.{
  IsMonotonic, IsRound, IsLog, end_reading, Agrees, read_us-ordered, IsRound-lines, total_lem,
  left_lem,
}

is_opened-true :
    (o : Opening) (nonce : Bytes)
    → elim ((open_session o).value) [ none ↦ none | some s ↦ some s.nonce ] ≡ some nonce
    → is_opened o ≡ true
unfolding is_opened open_session dispose
is_opened-true (failed none) nonce h = cc h
is_opened-true (failed (some s)) nonce h = cc h
is_opened-true (opened s) nonce h = refl

posted_later : (taken : Option Bool) (at : ℕ) → at ≤ posted_at taken at
unfolding posted_at
posted_later none at = omega arith
posted_later (some true) at = omega arith
posted_later (some false) at = omega arith

opened_later : (no_server : Bool) (at : ℕ) → at ≤ opened_at no_server at
unfolding opened_at
opened_later true at = omega arith
opened_later false at = omega arith

next_later :
    (w : World) (no_server : Bool) (at : ℕ) (r : Round) → at ≤ next_reading w no_server at r
unfolding next_reading
next_later w no_server at (on a) = omega (
  arith,
  posted_later (verdict w a.sent) (opened_at no_server (at + 1) + 4),
  opened_later no_server (at + 1),
)
next_later w no_server at (stopped e attempts) = omega arith

end_later :
    (w : World) (no_server : Bool) (key : Option Bytes) (n iter at : ℕ)
    → at ≤ end_reading w no_server key n iter at
end_later w no_server key zero iter at = omega arith
end_later w no_server key (suc n) iter at = omega (
  arith,
  next_later w no_server at (attest_once w no_server key iter),
  end_later w no_server key n (iter + 1)
      (next_reading w no_server at (attest_once w no_server key iter)),
)

module _ (clock : Clock) (monotonic : IsMonotonic clock) (w : World) (no_server : Bool)
    (key : Option Bytes) (mode : KeyMode) where
  sent-Agrees :
      (sent : Option (Session × Bytes × Bytes))
      → Maybe (λ (p : Session × Bytes × Bytes). no_server ≡ false) (no_server ≡ true) sent
      → Agrees clock monotonic mode no_server (verdict w sent)
  unfolding verdict
  sent-Agrees none h = h
  sent-Agrees (some p) h = h

  -- The first line does not depend on more than what a round that goes on says of its session.
  open_lem :
      (iter at : ℕ) (nonce : Bytes)
      → nonce_of w no_server iter ≡ some nonce
      → open_log true clock no_server true mode at
        ≡ open_log true clock no_server (is_opened (w.opening iter)) mode at
  open_lem iter at nonce h = by_server no_server h
    where
      by_server :
          (offline : Bool)
          → nonce_of w offline iter ≡ some nonce
          → open_log true clock offline true mode at
            ≡ open_log true clock offline (is_opened (w.opening iter)) mode at
      by_server true q = unfold open_log in refl
      by_server false q =
          ap (λ ok. open_log true clock false ok mode at)
            (sym (is_opened-true (w.opening iter) nonce q))

  round_log-IsRound :
      (a : Attempt) (iter at : ℕ)
      → IsGood w key no_server iter (on a)
      → IsRound mode no_server
          (verdict w a.sent)
          (read_us clock (posted_at (verdict w a.sent) (opened_at no_server (at + 1) + 4))
            - read_us clock at)
          (round_log true clock w no_server mode iter at (on a))
  unfolding round_log invoked_log
  round_log-IsRound a iter at g =
      subst
        (λ first.
          IsRound mode no_server (verdict w a.sent)
            (read_us clock (posted_at (verdict w a.sent) (opened_at no_server (at + 1) + 4))
              - read_us clock at)
            (first ++ invoked_log true clock w mode at (opened_at no_server (at + 1)) (on a)))
        (open_lem iter (at + 1) a.nonce g.2)
        (IsRound-lines clock monotonic mode no_server (verdict w a.sent) at
          (sent-Agrees a.sent g.1.1))

  -- A loop that ends with status 0 printed the lines of all its rounds.
  pub loop_log-IsLog :
      (n iter at us : ℕ)
      → (attest_loop w no_server key n iter).0 ≡ exit 0
      → read_us clock (end_reading w no_server key n iter at) - read_us clock at ≤ us
      → IsLog w mode no_server
          (attest_loop w no_server key n iter).1
          us
          (loop_log true clock w no_server key mode n iter at)
  unfolding attest_loop loop_log after_round log_on next_reading
  loop_log-IsLog zero iter at us h within = refl
  loop_log-IsLog (suc n) iter at us h within =
      by_round (attest_once w no_server key iter) (attest_once-IsGood w iter key no_server) h within
        (λ next left q k. loop_log-IsLog n (iter + 1) next left q k)
    where
      by_round :
          (r : Round)
          → IsGood w key no_server iter r
          → (after_round r (attest_loop w no_server key n (iter + 1))).0 ≡ exit 0
          → read_us clock (end_reading w no_server key n (iter + 1) (next_reading w no_server at r))
              - read_us clock at
            ≤ us
          → ((next left : ℕ)
              → (attest_loop w no_server key n (iter + 1)).0 ≡ exit 0
              → read_us clock (end_reading w no_server key n (iter + 1) next) - read_us clock next
                ≤ left
              → IsLog w mode no_server
                  (attest_loop w no_server key n (iter + 1)).1
                  left
                  (loop_log true clock w no_server key mode n (iter + 1) next))
          → IsLog w mode no_server (after_round r (attest_loop w no_server key n (iter + 1))).1 us (
              log_on true clock r (round_log true clock w no_server mode iter at r) (
                loop_log true clock w no_server key mode n
                  (iter + 1)
                  (next_reading w no_server at r)))
      by_round (stopped e attempts) g q within follow = absurd (g.1 q)
      by_round (on a) g q within follow =
          let last = posted_at (verdict w a.sent) (opened_at no_server (at + 1) + 4) in
          let ordered : (i j : ℕ) → i ≤ j → read_us clock i ≤ read_us clock j =
            read_us-ordered clock monotonic in
          let whole : read_us clock at ≤ read_us clock last = ordered at last (
            omega (
              arith,
              posted_later (verdict w a.sent) (opened_at no_server (at + 1) + 4),
              opened_later no_server (at + 1),
            )) in
          let next : read_us clock last ≤ read_us clock (last + 1) =
            ordered last (last + 1) (omega arith) in
          let rest : read_us clock (last + 1)
              ≤ read_us clock (end_reading w no_server key n (iter + 1) (last + 1)) =
            ordered (last + 1) (end_reading w no_server key n (iter + 1) (last + 1))
              (end_later w no_server key n (iter + 1) (last + 1)) in
          (
            read_us clock last - read_us clock at,
            round_log true clock w no_server mode iter at (on a),
            loop_log true clock w no_server key mode n (iter + 1) (last + 1),
            refl,
            round_log-IsRound a iter at g,
            total_lem _ _ _ us
                (ordered last (end_reading w no_server key n (iter + 1) (last + 1))
                  (omega (arith, end_later w no_server key n (iter + 1) (last + 1))))
                within,
            follow (last + 1) _ q (left_lem _ _ _ _ us whole next rest within),
          )
