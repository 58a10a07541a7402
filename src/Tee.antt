-- ===== src/Tee.antt =====
-- What the attestation code shares with the OP-TEE core: result codes, the resources that are
-- acquired and released, and the environment that answers the calls of code that is not in this
-- repository. `goto out` with its clean-up is `finally`.
pub mod Resources
pub mod Rules
pub mod Answers
pub mod Errors
use optee_ra_fork.Base.{
  ℕ, zero, suc, ◌+◌, ◌<◌, Bool, true, false, ◌&&◌, Option, none, some, List, [], ◌++◌,
  if◌then◌else◌, Bytes, length, take, drop, leb,
}
use optee_ra_fork.Perf
use optee_ra_fork.Perf.{Event, EventName, KeyMode, Line}
use Resources.{Held, Kind, inc, dec, block}

-- The TEE_Result codes other than TEE_SUCCESS; `other` is any code that a called library passes on.
pub data Error : Type 0 where
  access_denied bad_parameters short_buffer out_of_memory : Error
  generic busy communication excess_data : Error
  other : ℕ → Error

-- `fault` is undefined behaviour: an access through NULL or past the end of a buffer.
pub data Result (A : Type 0) : Type 0 where
  ok : A → Result A
  err : Error → Result A
  fault : Result A

-- The answers of the world, by the number of calls made before: the status of a call that can
-- fail (`none` is TEE_SUCCESS), whether an allocation is served, the timer, fresh randomness, and the
-- seconds and milliseconds of TEE_GetSystemTime.
pub record Env : Type 0 where
  pub status : ℕ → Option Error
  pub malloc_ok : ℕ → Bool
  pub counter : ℕ → ℕ
  pub frequency : ℕ
  pub entropy : ℕ → ℕ
  pub system_time : ℕ → ℕ × ℕ

-- `invoke_us` is the local variable `perf_invoke_us` of the TA's handler.
pub record St : Type 0 where
  pub calls : ℕ
  pub held : Held
  pub events : List Event
  pub console : List Line
  pub invoke_us : ℕ

abbrev pub Act : Type 0 → Type 0
Act A = Env → St → Result A × St

unfoldable pub pure : {A : Type 0} → A → Act A
pure a env st = (ok a, st)

unfoldable pub throw : {A : Type 0} → Error → Act A
throw e env st = (err e, st)

unfoldable pub crash : {A : Type 0} → Act A
crash env st = (fault, st)

abbrev pub and_then : {A B : Type 0} → Result A × St → (A → St → Result B × St) → Result B × St
and_then (ok a, st) f = f a st
and_then (err e, st) f = (err e, st)
and_then (fault, st) f = (fault, st)

infixl 5 ◌>>=◌ ◌>>◌
unfoldable pub ◌>>=◌ : {A B : Type 0} → Act A → (A → Act B) → Act B
◌>>=◌ m f env st = and_then (m env st) (λ a st'. f a env st')

abbrev pub ◌>>◌ : {A B : Type 0} → Act A → Act B → Act B
m >> k = m >>= λ _. k

-- Run the clean-up whatever the body returned, and return what the body returned.
unfoldable pub finally : {A : Type 0} → Act A → (Env → St → St) → Act A
finally m clean env st = let (r, st') = m env st in (r, clean env st')

abbrev pub caught : {A : Type 0} → Result A × St → Result (Option A) × St
caught (ok a, st) = (ok (some a), st)
caught (err e, st) = (ok none, st)
caught (fault, st) = (fault, st)

-- `if (f(...) != TEE_SUCCESS)`: the error becomes `none`.
unfoldable pub attempt : {A : Type 0} → Act A → Act (Option A)
attempt m env st = caught (m env st)

unfoldable pub require : Bool → Error → Act (Unit {0})
require true e = pure tt
require false e = throw e

-- A call of a library function that can fail.
unfoldable pub call : Act (Unit {0})
call env st = elim (env.status st.calls) [
  | none ↦ (ok tt, record st { calls = suc st.calls })
  | some e ↦ (err e, record st { calls = suc st.calls })
]

unfoldable pub fresh : Act ℕ
fresh env st = (ok (env.entropy st.calls), record st { calls = suc st.calls })

unfoldable pub acquire : Kind → St → St
acquire k st = record st { held = inc k st.held }

unfoldable pub release : Kind → Env → St → St
release k env st = record st { held = dec k st.held }

-- Hold a resource while the body runs, and give it back on every path.
unfoldable pub holding : {A : Type 0} → Kind → Act A → Act A
unfolding finally acquire release
holding k m env st = finally m (release k) env (acquire k st)

-- `malloc` in a function that frees the block on every path behind it.
unfoldable pub with_block : {A : Type 0} → Act A → Act A
unfolding holding
with_block m env st =
    let st' = record st { calls = suc st.calls } in
    if env.malloc_ok st.calls then holding block m env st' else (err out_of_memory, st')

-- `a = malloc(...); b = malloc(...); if (!a || !b) { free(a); free(b); fail }`, with both blocks
-- freed behind the body too.
unfoldable pub with_two_blocks : {A : Type 0} → Act A → Act A → Act A
unfolding holding
with_two_blocks fail m env st =
    let st' = record st { calls = suc (suc st.calls) } in
    if env.malloc_ok st.calls && env.malloc_ok (suc st.calls)
    then holding block (holding block m) env st'
    else fail env st'

-- `memcpy` of `n` bytes at `offset` out of a buffer that may be NULL.
unfoldable pub load : Option Bytes → ℕ → ℕ → Act Bytes
load none offset n = crash
load (some buffer) offset n =
    if leb (offset + n) (length buffer) then pure (take n (drop offset buffer)) else crash

-- `memcpy` of `src` to the start of a buffer that may be NULL: the buffer afterwards.
unfoldable pub store : Option Bytes → Bytes → Act Bytes
store none src = crash
store (some buffer) src =
    if leb (length src) (length buffer) then pure (src ++ drop (length src) buffer) else crash

-- RA_PERF_START, RA_PERF_STOP, RA_PERF_RESET and RA_PERF_FLUSH.
unfoldable pub perf_now : Act ℕ
perf_now env st = (ok (env.counter st.calls), record st { calls = suc st.calls })

unfoldable pub perf_stop : ℕ → EventName → KeyMode → Act (Unit {0})
perf_stop start name mode env st = (
  ok tt,
  record st {
    calls = suc st.calls;
    events = Perf.record_event name start (env.counter st.calls) mode st.events;
  },
)

unfoldable pub perf_reset : Act (Unit {0})
perf_reset env st = (ok tt, record st { events = Perf.reset st.events })

unfoldable pub perf_flush : Env → St → St
perf_flush env st =
    let (lines, events) =
      Perf.flush env.frequency (env.counter st.calls) (env.counter (suc st.calls)) st.events in
    record st { calls = suc (suc st.calls); events = events; console = st.console ++ lines }
