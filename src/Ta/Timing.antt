-- ===== src/Ta/Timing.antt =====
-- The perf lines of attester/remote_attestation/ta/remote_attestation_ta.c, as they are with
-- CFG_REMOTE_ATTESTATION_PERF=y.
pub mod Rules
use optee_ra_fork.Base.{
  ℕ, suc, ◌+◌, ◌-◌, ◌*◌, ◌%◌, ◌^◌, [], ◌∷◌, ◌++◌, ltb, ◌==◌, if◌then◌else◌, codes,
}
use optee_ra_fork.Perf.{KeyMode, embedded, plain, black, ta_line}
use optee_ra_fork.Tee.{Act, Env, St, ok, ◌>>=◌, finally}

-- The label of the TA's own perf lines, by the size of the packed key.
unfoldable pub packed_keymode : ℕ → KeyMode
packed_keymode packed_key_len =
    if packed_key_len == 0 then embedded else if ltb 96 packed_key_len then black else plain

-- `ra_perf_now_us` on what TEE_GetSystemTime reports.
unfoldable pub micros_of : ℕ × ℕ → ℕ
micros_of (seconds, millis) = (seconds * 1000 + millis) * 1000 % 2 ^ 64

unfoldable pub now_us : Act ℕ
now_us env st = (ok (micros_of (env.system_time st.calls)), record st { calls = suc st.calls })

-- `perf_invoke_us = ra_perf_now_us() - perf_invoke_start`
unfoldable pub note_invoke : ℕ → Env → St → St
note_invoke start env st = record st {
  calls = suc st.calls;
  invoke_us = (micros_of (env.system_time st.calls) + 2 ^ 64 - start) % 2 ^ 64;
}

-- An invocation between its two readings of the time.
unfoldable pub timed : {A : Type 0} → Act A → Act A
timed m = do start ← now_us; finally m (note_invoke start)

-- The lines at the end, if an invocation took any time.
unfoldable pub report : ℕ → KeyMode → Env → St → St
report start mode env st = if st.invoke_us == 0 then st else record st {
  calls = suc st.calls;
  console =
      st.console
      ++ (ta_line (codes "pta_invoke") st.invoke_us mode
          ∷ ta_line (codes "cmd_total")
              ((micros_of (env.system_time st.calls) + 2 ^ 64 - start) % 2 ^ 64) mode
          ∷ []);
}

-- `call_pta_for_cbor_evidence` around its body: `perf_invoke_us` is 0 at first.
unfoldable pub reported : {A : Type 0} → KeyMode → Act A → Act A
reported mode m = do
  start ← now_us
  finally (λ env st. m env (record st { invoke_us = 0 })) (report start mode)
