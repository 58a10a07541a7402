-- ===== src/Params.antt =====
-- The parameters of a TEE command: TEE_PARAM_TYPES with its four types, and the union TEE_Param.
use optee_ra_fork.Base.{ℕ, Bool, true, false, Option, none, some, Bytes, ◌==◌, ◌&&◌, if◌then◌else◌}
use optee_ra_fork.Tee.{Act, crash, load}

pub data ParamType : Type 0 where
  absent value_input value_output value_inout : ParamType
  memref_input memref_output memref_inout : ParamType

pub data ParamTypes : Type 0 where
  types : ParamType → ParamType → ParamType → ParamType → ParamTypes

-- A parameter as the union holds it: a memref, or two value words, behind which the word of a
-- memref's size is whatever was there. An absent parameter is `memref none 0`.
pub data Param : Type 0 where
  memref : Option Bytes → ℕ → Param
  value : (a b stale : ℕ) → Param

pub record Params : Type 0 where
  pub p0 : Param
  pub p1 : Param
  pub p2 : Param
  pub p3 : Param

-- A pointer: NULL, to the start of some bytes, or no pointer to any object.
pub data Pointer : Type 0 where
  null : Pointer
  to : Bytes → Pointer
  wild : Pointer

-- `.memref.buffer` and `.memref.size`, which read the union as a memref.
unfoldable pub buffer_of : Param → Pointer
buffer_of (memref none size) = null
buffer_of (memref (some bytes) size) = to bytes
buffer_of (value a b stale) = if a == 0 && b == 0 then null else wild

unfoldable pub size_of : Param → ℕ
size_of (memref buffer size) = size
size_of (value a b stale) = stale

unfoldable pub is_null : Pointer → Bool
is_null null = true
is_null (to bytes) = false
is_null wild = false

unfoldable pub load_at : Pointer → ℕ → ℕ → Act Bytes
load_at null offset n = crash
load_at (to bytes) offset n = load (some bytes) offset n
load_at wild offset n = crash

-- The four combinations that `cmd_get_cbor_evidence` takes.
unfoldable pub accepts_evidence : ParamTypes → Bool
accepts_evidence (types memref_input memref_inout memref_input absent) = true
accepts_evidence (types memref_input memref_inout memref_input memref_input) = true
accepts_evidence (types memref_input memref_output memref_input absent) = true
accepts_evidence (types memref_input memref_output memref_input memref_input) = true
accepts_evidence other = false

-- `TEE_PARAM_TYPE_GET(param_types, 3) == TEE_PARAM_TYPE_MEMREF_INPUT`
unfoldable pub has_key : ParamTypes → Bool
has_key (types t0 t1 t2 memref_input) = true
has_key (types t0 t1 t2 other) = false
